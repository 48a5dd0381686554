-- ===== src/Reasoning/Upsert.antt =====
-- What `upsert_entry` of ma-core/src/session/reasoning.rs leaves in reasoning.jsonl.
use memory_archive.Prelude.{
  ltb, ◌==◌, if◌then◌else◌, ltb→lt, ==_iff, Bool-cases, Option-cases, is_empty, All, ℕ, suc, ◌≤◌,
  ◌<◌, ◌≡◌, refl, ap, subst, ◌∙◌, inl, inr, Bool, true, false, ◌&&◌, Option, none, some, List, [],
  ◌∷◌, ◌++◌, append_assoc, arith,
}
use memory_archive.Text.{Str, Lacks, split_char, split_char-append, strip_prefix}
use memory_archive.Text.Trim.{trim, trim_start, trim_end}
use memory_archive.Text.Search.{strip_suffix}
use memory_archive.Writer.{lines_of}
use memory_archive.Reasoning.{
  existing, write_entries, replace, upsert_entry, Io, Disk, Serde, Entry, insert, entry_of,
  insert_lines, read_entries, content,
}

behind_lt : (a b : ℕ) → (a == b) ≡ false → ltb b a ≡ false → a < b
behind_lt a b other behind = ground arith

abbrev pub or_else : {A : Type 0} → Option A → Option A → Option A
or_else none later = later
or_else (some a) later = some a

split_char-cons :
    (sep : ℕ) (s : Str) → (piece : Str) × (pieces : List Str) × (split_char sep s ≡ piece ∷ pieces)
unfolding split_char
split_char-cons sep [] = ([], [], refl)
split_char-cons sep (c ∷ s) =
    let (piece, pieces, e) = split_char-cons sep s in
    elim (Bool-cases (c == sep)) [
      | inl here ↦ ([], split_char sep s, rw here refl)
      | inr other ↦ (c ∷ piece, pieces, rw (other, e) refl)
    ]

lines_of-line :
    (line rest : Str)
    → Lacks 10 line
    → strip_suffix (13 ∷ []) line ≡ none
    → lines_of ((line ++ 10 ∷ []) ++ rest) ≡ line ∷ lines_of rest
unfolding lines_of
lines_of-line line rest clean whole =
    let (piece, pieces, e) = split_char-cons 10 rest in
    rw (append_assoc line (10 ∷ []) rest, split_char-append 10 line rest clean, e, whole) refl

module _ (serde : Serde) where
  -- serde_json prints an entry on one line that it reads back.
  abbrev pub Prints : Entry serde → Type 0
  Prints e =
      (line : Str) × (serde.to_string e ≡ some line)
      × Lacks 10 line
      × (strip_suffix (13 ∷ []) line ≡ none)
      × (trim line ≡ line)
      × (is_empty line ≡ false)
      × (serde.from_str line ≡ some e)

  unfoldable pub entry_for : ℕ → List (Entry serde) → Option (Entry serde)
  entry_for id [] = none
  entry_for id (x ∷ xs) = let rest = entry_for id xs in if x.step_id == id then some x else rest

  abbrev pub entries_in : Option Str → List (Entry serde)
  entries_in none = []
  entries_in (some raw) = read_entries serde raw

  abbrev Above : ℕ → List (Entry serde) → Type 0
  Above n [] = Unit {0}
  Above n (x ∷ xs) = (n ≤ x.step_id) × Above (suc x.step_id) xs

  insert-Above :
      (n : ℕ) (e : Entry serde) (xs : List (Entry serde))
      → n ≤ e.step_id
      → Above n xs
      → Above n (insert serde e xs)
  unfolding insert
  insert-Above n e [] le h = (le, tt)
  insert-Above n e (x ∷ xs) le h = elim (Bool-cases (x.step_id == e.step_id)) [
    | inl same ↦
        rw same (le, subst (λ k. Above (suc k) xs) ((==_iff x.step_id e.step_id).0 same) h.1)
    | inr other ↦ elim (Bool-cases (ltb e.step_id x.step_id)) [
      | inl before ↦ rw (other, before) (le, (ltb→lt e.step_id x.step_id before, h.1))
      | inr behind ↦
          rw (other, behind)
            (
              h.0,
              insert-Above (suc x.step_id) e xs (behind_lt x.step_id e.step_id other behind) h.1,
            )
    ]
  ]

  entry_for-insert :
      (id : ℕ) (e : Entry serde) (xs : List (Entry serde))
      → entry_for id (insert serde e xs) ≡ (if e.step_id == id then some e else entry_for id xs)
  unfolding insert entry_for
  entry_for-insert id e [] = refl
  entry_for-insert id e (x ∷ xs) = ground (arith, entry_for-insert id e xs)

  entry_for-Above :
      (id n : ℕ) (xs : List (Entry serde)) → id < n → Above n xs → entry_for id xs ≡ none
  unfolding entry_for
  entry_for-Above id n [] lt h = refl
  entry_for-Above id n (x ∷ xs) lt h =
      let (low, high) = h in
      ground (arith, low, entry_for-Above id (suc x.step_id) xs (omega arith) high)

  or_else-once :
      (b : Bool) (x : Entry serde) (xs acc : Option (Entry serde))
      → (b ≡ true → xs ≡ none)
      → or_else xs (if b then some x else acc) ≡ or_else (if b then some x else xs) acc
  or_else-once true x xs acc h = rw (h refl) refl
  or_else-once false x xs acc h = refl

  content-lines :
      (e : Entry serde) (es : List (Entry serde)) {line : Str}
      → serde.to_string e ≡ some line
      → is_empty line ≡ false
      → Lacks 10 line
      → strip_suffix (13 ∷ []) line ≡ none
      → lines_of (content serde (e ∷ es)) ≡ line ∷ lines_of (content serde es)
  unfolding content
  content-lines e es {line} sent solid clean whole =
      rw (sent, solid) (lines_of-line line (content serde es) clean whole)

  insert_lines-entry :
      (e : Entry serde) (rest : List Str) (acc : List (Entry serde)) {line : Str}
      → trim line ≡ line
      → is_empty line ≡ false
      → serde.from_str line ≡ some e
      → insert_lines serde (line ∷ rest) acc ≡ insert_lines serde rest (insert serde e acc)
  unfolding insert_lines
  insert_lines-entry e rest acc {line} trimmed solid read = rw (trimmed, solid, read) refl

  or_else-cons :
      (id : ℕ) (e : Entry serde) (es : List (Entry serde)) (acc : Option (Entry serde))
      → Above (suc e.step_id) es
      → or_else (entry_for id es) (if e.step_id == id then some e else acc)
        ≡ or_else (entry_for id (e ∷ es)) acc
  unfolding entry_for
  or_else-cons id e es acc up = or_else-once (e.step_id == id) e (entry_for id es) acc (λ same.
      entry_for-Above id (suc e.step_id) es
        (subst (λ k. k < suc e.step_id) ((==_iff e.step_id id).0 same) (omega arith)) up)

  blank : (acc : List (Entry serde)) → insert_lines serde (lines_of []) acc ≡ acc
  unfolding insert_lines lines_of split_char strip_suffix trim trim_start trim_end strip_prefix
  blank acc = refl

  entry_for-insert_lines :
      (id n : ℕ) (es acc : List (Entry serde))
      → Above n es
      → All Prints es
      → entry_for id (insert_lines serde (lines_of (content serde es)) acc)
        ≡ or_else (entry_for id es) (entry_for id acc)
  entry_for-insert_lines id n [] acc up printed =
      unfold content entry_for in ap (entry_for id) (blank acc)
  entry_for-insert_lines id n (e ∷ es) acc up printed =
      let (line, sent, clean, whole, trimmed, solid, read) = printed.0 in
      let rest = lines_of (content serde es) in
      ap (λ ls. entry_for id (insert_lines serde ls acc))
        (content-lines e es sent solid clean whole)
      ∙ ap (entry_for id) (insert_lines-entry e rest acc trimmed solid read)
      ∙ entry_for-insert_lines id (suc e.step_id) es (insert serde e acc) up.1 printed.1
      ∙ ap (or_else (entry_for id es)) (entry_for-insert id e acc)
      ∙ or_else-cons id e es (entry_for id acc) up.1

  insert_lines-Above :
      (lines : List Str) (es : List (Entry serde))
      → Above 0 es
      → Above 0 (insert_lines serde lines es)
  unfolding insert_lines
  insert_lines-Above [] es up = up
  insert_lines-Above (line ∷ lines) es up = elim (Option-cases (entry_of serde (trim line))) [
    | inl none' ↦ rw none' (insert_lines-Above lines es up)
    | inr (e, read) ↦
        rw read
          (insert_lines-Above lines (insert serde e es) (insert-Above 0 e es (omega arith) up))
  ]

  entries_in-Above : (raw : Option Str) → Above 0 (entries_in raw)
  entries_in-Above none = tt
  entries_in-Above (some raw) = unfold read_entries in insert_lines-Above (lines_of raw) [] tt

  or_else-none : (o : Option (Entry serde)) → or_else o none ≡ o
  or_else-none none = refl
  or_else-none (some e) = refl

  entry_for-content :
      (id : ℕ) (es : List (Entry serde))
      → Above 0 es
      → All Prints es
      → entry_for id (read_entries serde (content serde es)) ≡ entry_for id es
  unfolding read_entries entry_for
  entry_for-content id es up printed =
      entry_for-insert_lines id 0 es [] up printed ∙ or_else-none (entry_for id es)

  All-insert :
      (e : Entry serde) (es : List (Entry serde))
      → Prints e
      → All Prints es
      → All Prints (insert serde e es)
  unfolding insert
  All-insert e [] p h = (p, tt)
  All-insert e (x ∷ xs) p h = elim (Bool-cases (x.step_id == e.step_id)) [
    | inl same ↦ rw same (p, h.1)
    | inr other ↦ elim (Bool-cases (ltb e.step_id x.step_id)) [
      | inl before ↦ rw (other, before) (p, (h.0, h.1))
      | inr behind ↦ rw (other, behind) (h.0, All-insert e xs p h.1)
    ]
  ]

  abbrev Latest : ℕ → Entry serde → Option (Entry serde) → Disk × Bool → Type 0
  Latest id e before (disk, done) =
      entry_for id (entries_in disk.jsonl) ≡ (if done && (e.step_id == id) then some e else before)

  written :
      (io : Io) (id : ℕ) (e : Entry serde) (es : List (Entry serde)) (disk : Disk)
      → Above 0 es
      → All Prints es
      → Prints e
      → entry_for id (entries_in disk.jsonl) ≡ entry_for id es
      → Latest id e (entry_for id es) (replace io (content serde (insert serde e es)) disk)
  written io id e es disk up printed p same = elim (Bool-cases io.writes) [
    | inl wrote ↦ elim (Bool-cases io.renames) [
      | inl renamed ↦
          rw (wrote, renamed)
            (entry_for-content id (insert serde e es) (insert-Above 0 e es (omega arith) up)
                (All-insert e es p printed)
              ∙ entry_for-insert id e es)
      | inr kept ↦ rw (wrote, kept) same
    ]
    | inr torn ↦ rw torn same
  ]

  put_in :
      (io : Io) (id : ℕ) (e : Entry serde) (raw : Option Str) (disk : Disk)
      → disk.jsonl ≡ raw
      → All Prints (entries_in raw)
      → Prints e
      → Latest id e
          (entry_for id (entries_in raw))
          (write_entries serde io e (existing serde io raw) disk)
  put_in io id e none disk h printed p =
      written io id e [] disk tt tt p (ap (λ j. entry_for id (entries_in j)) h)
  put_in io id e (some raw) disk h printed p = elim (Bool-cases io.reads) [
    | inl read ↦ rw read (
        written io id e (read_entries serde raw) disk (entries_in-Above (some raw)) printed p
          (ap (λ j. entry_for id (entries_in j)) h))
    | inr unread ↦ rw unread (ap (λ j. entry_for id (entries_in j)) h)
  ]

  -- After a call to put an entry, the file holds that entry for its step if the call succeeded, and
  -- for every other step, or if it failed, what it held before. It is a hypothesis that serde_json
  -- prints the entry, and those that the file held, each on a line of its own that it reads back.
  pub upsert_entry-latest :
      (io : Io) (id : ℕ) (e : Entry serde) (disk : Disk) {disk' : Disk} {done : Bool}
      → All Prints (entries_in disk.jsonl)
      → Prints e
      → upsert_entry serde io e disk ≡ (disk', done)
      → entry_for id (entries_in disk'.jsonl)
        ≡ (if done && (e.step_id == id) then some e else entry_for id (entries_in disk.jsonl))
  unfolding upsert_entry
  upsert_entry-latest io id e disk printed p ran =
      subst (Latest id e (entry_for id (entries_in disk.jsonl))) ran
        (elim (Bool-cases io.creates_dir) [
          | inl made ↦ rw made (put_in io id e disk.jsonl disk refl printed p)
          | inr missing ↦ rw missing refl
        ])
