-- ===== src/Registry/Retention.antt =====
-- What the retention sweep's listing may contain, of `list_incomplete_before` in
-- ma-core/src/registry/mod.rs.
use memory_archive.Prelude.Result.{ok}
use memory_archive.Prelude.{
  if◌then◌else◌, Bool-cases, unwrap_or, is_empty, String, ◌≡◌, refl, sym, ap, subst, ◌∙◌, ◌↔◌, ◌⊎◌,
  inl, inr, Bool, true, false, ◌||◌, Option, none, some, List, [], ◌∷◌, ◌++◌, append_assoc,
  append-nil, arith,
}
use memory_archive.Registry.Redis.{left_in, answer, Db, Redis}
use memory_archive.Text.{Str, codes, str_eq, str_eq_iff, str_eq_refl}
use memory_archive.Registry.Schema.{Chrono, Fields, field}
use memory_archive.Registry.Redis.Reference.{has, store, Documented}
use memory_archive.Registry.Refines.{continue_with-ok}
use memory_archive.Registry.Scans.{
  Scan, is_text, dated_before, read_time, some_text, expired_id, push_some, sweep_keys, sweep,
  list_incomplete_before,
}

abbrev pub all_keys : Scan → List Str
all_keys [] = []
all_keys (none ∷ scan) = all_keys scan
all_keys (some keys ∷ scan) = keys ++ all_keys scan

abbrev cons_some : Option Str → List Str → List Str
cons_some none rest = rest
cons_some (some id) rest = id ∷ rest

push_some-append :
    (ids : List Str) (o : Option Str) (rest : List Str)
    → push_some ids o ++ rest ≡ ids ++ cons_some o rest
push_some-append ids none rest = refl
push_some-append ids (some id) rest = append_assoc ids (id ∷ []) rest

if-some :
    (b : Bool) (o : Option Str) {id : Str}
    → (if b then o else none) ≡ some id
    → (b ≡ true) × (o ≡ some id)
if-some true o h = (refl, h)
if-some false o h = cc

is_text-some :
    (o : Option Str) (literal : String) → is_text o literal ≡ true → o ≡ some (codes literal)
is_text-some none literal h = cc
is_text-some (some s) literal h = ap some ((str_eq_iff s (codes literal)).0 h)

some_text-some :
    (o : Option Str) {id : Str} → some_text o ≡ some id → (o ≡ some id) × (is_empty id ≡ false)
some_text-some none h = cc
some_text-some (some []) h = cc
some_text-some (some (x ∷ s)) {id} h = (h, ap (λ o. is_empty (unwrap_or [] o)) (sym h))

has-cons_some :
    (id : Str) (o : Option Str) (rest : List Str)
    → has id (cons_some o rest) ≡ true
    → (o ≡ some id) ⊎ (has id rest ≡ true)
unfolding has
has-cons_some id none rest h = inr h
has-cons_some id (some a) rest h = elim (Bool-cases (str_eq id a)) [
  | inl same ↦ inl (ap some (sym ((str_eq_iff id a).0 same)))
  | inr other ↦ inr (ap (λ b. b || has id rest) (sym other) ∙ h)
]

or_true_right : (a b : Bool) → b ≡ true → (a || b) ≡ true
or_true_right a b h = ground arith

has-cons_same :
    (id : Str) (o : Option Str) (rest : List Str) → o ≡ some id → has id (cons_some o rest) ≡ true
unfolding has
has-cons_same id o rest h = rw (h, str_eq_refl id) refl

has-cons_other :
    (id : Str) (o : Option Str) (rest : List Str)
    → has id rest ≡ true
    → has id (cons_some o rest) ≡ true
unfolding has
has-cons_other id none rest h = h
has-cons_other id (some a) rest h = ground arith

cons_some-append :
    (o : Option Str) (xs ys : List Str) → cons_some o (xs ++ ys) ≡ cons_some o xs ++ ys
cons_some-append none xs ys = refl
cons_some-append (some id) xs ys = refl

module _ (c : Chrono) (cutoff : c.Time) where
  -- The hash of a session that was marked incomplete, and last updated before the cutoff.
  pub record IsExpired (fields : Fields) (id : Str) : Type 0 where
    pub marked : field (codes "status") fields ≡ some (codes "incomplete")
    pub updated_at : c.Time
    pub dated : read_time c (field (codes "updated_at") fields) ≡ some updated_at
    pub old : c.before updated_at cutoff ≡ true
    pub named : field (codes "session_id") fields ≡ some id
    pub not_empty : is_empty id ≡ false

  dated_before-some :
      (o : Option c.Time)
      → dated_before c cutoff o ≡ true
      → (t : c.Time) × (o ≡ some t) × (c.before t cutoff ≡ true)
  dated_before-some none h = cc
  dated_before-some (some t) h = (t, refl, h)

  expired_id_sound :
      (fields : Fields) (id : Str) → expired_id c cutoff fields ≡ some id → IsExpired fields id
  unfolding expired_id
  expired_id_sound fields id h =
      let (marked, later) = if-some _ _ h in
      let (early, last) = if-some _ _ later in
      let (t, dated, old) = dated_before-some _ early in
      let (named, not_empty) = some_text-some _ last in
      record {
        marked = is_text-some _ "incomplete" marked;
        updated_at = t;
        dated = dated;
        old = old;
        named = named;
        not_empty = not_empty;
      }

  expired_id_complete :
      (fields : Fields) (id : Str) → IsExpired fields id → expired_id c cutoff fields ≡ some id
  unfolding expired_id
  expired_id_complete fields id h =
      rw (h.marked, str_eq_refl (codes "incomplete"), h.dated, h.old, h.named, h.not_empty) refl

  collected : (Str → Fields) → List Str → List Str
  collected hash [] = []
  collected hash (key ∷ keys) = cons_some (expired_id c cutoff (hash key)) (collected hash keys)

  collected-append :
      (hash : Str → Fields) (xs ys : List Str)
      → collected hash (xs ++ ys) ≡ collected hash xs ++ collected hash ys
  unfolding collected
  collected-append hash [] ys = refl
  collected-append hash (x ∷ xs) ys =
      ap (cons_some (expired_id c cutoff (hash x))) (collected-append hash xs ys)
      ∙ cons_some-append (expired_id c cutoff (hash x)) (collected hash xs) (collected hash ys)

  has-collected :
      (hash : Str → Fields) (id : Str) (keys : List Str)
      → (has id (collected hash keys) ≡ true)
        ↔ ((key : Str) × (has key keys ≡ true) × IsExpired (hash key) id)
  unfolding collected has
  has-collected hash id [] = (λ h. cc, λ h. cc)
  has-collected hash id (key ∷ keys) =
      let o = expired_id c cutoff (hash key) in
      let later = has-collected hash id keys in
      (
        λ h. elim (has-cons_some id o (collected hash keys) h) [
          | inl e ↦ (key, rw (str_eq_refl key) refl, expired_id_sound (hash key) id e)
          | inr e ↦
              let (k, there, expired) = later.0 e in
              (k, or_true_right (str_eq k key) (has k keys) there, expired)
        ],
        λ found. elim (Bool-cases (str_eq found.0 key)) [
          | inl same ↦ has-cons_same id o (collected hash keys) (
              expired_id_complete (hash key) id
                (subst (λ k. IsExpired (hash k) id) ((str_eq_iff found.0 key).0 same) found.2))
          | inr other ↦
              has-cons_other id o (collected hash keys)
                (later.1 (found.0, ap (λ b. b || has found.0 keys) (sym other) ∙ found.1, found.2))
        ],
      )

  module _ (r : Redis) (d : Documented r) where
    sweep_keys-collected :
        (keys acc ids : List Str) (db db' : Db)
        → sweep_keys r c cutoff keys acc db ≡ (db', ok ids)
        → (db' ≡ db) × (ids ≡ acc ++ collected db.hash keys)
    unfolding sweep_keys collected store
    sweep_keys-collected [] acc ids db db' ran =
        (ap left_in (sym ran), ap (λ p. answer ids p.1) (sym ran) ∙ sym (append-nil acc))
    sweep_keys-collected (key ∷ keys) acc ids db db' ran =
        let next = λ (fields : Fields).
          sweep_keys r c cutoff keys (push_some acc (expired_id c cutoff fields)) in
        let (mid, fields, sent, rest) = continue_with-ok next (r.hgetall key db) ran in
        let e = (d.hgetall_lem key).same db mid fields sent in
        let (same, all_ids) =
          sweep_keys-collected keys (push_some acc (expired_id c cutoff fields)) ids mid db' rest in
        (
          same ∙ ap left_in (sym e),
          all_ids
              ∙ push_some-append acc (expired_id c cutoff fields) (collected mid.hash keys)
              ∙ ap
                  (λ p.
                    acc
                    ++ cons_some (expired_id c cutoff (answer fields p.1))
                        (collected (left_in p).hash keys))
                  (sym e),
        )

    sweep-collected :
        (scan : Scan) (acc ids : List Str) (db db' : Db)
        → sweep r c cutoff scan acc db ≡ (db', ok ids)
        → (db' ≡ db) × (ids ≡ acc ++ collected db.hash (all_keys scan))
    unfolding sweep collected
    sweep-collected [] acc ids db db' ran =
        (ap left_in (sym ran), ap (λ p. answer ids p.1) (sym ran) ∙ sym (append-nil acc))
    sweep-collected (none ∷ scan) acc ids db db' ran = cc
    sweep-collected (some keys ∷ scan) acc ids db db' ran =
        let (mid, first, sent, rest) =
          continue_with-ok (sweep r c cutoff scan) (sweep_keys r c cutoff keys acc db) ran in
        let (same, ids_first) = sweep_keys-collected keys acc first db mid sent in
        let (same_later, ids_later) = sweep-collected scan first ids mid db' rest in
        (
          same_later ∙ same,
          ids_later
              ∙ rw (ids_first, same)
                  (append_assoc acc (collected db.hash keys) (collected db.hash (all_keys scan)))
              ∙ ap (λ u. acc ++ u) (sym (collected-append db.hash keys (all_keys scan))),
        )

    -- A listing that succeeds changes nothing, and holds the ids of the sessions that a scanned
    -- key's hash marks as incomplete with a readable time before the cutoff, and no other id.
    pub list_incomplete_before_iff :
        (scan : Scan) (db : Db) {db' : Db} {ids : List Str} (id : Str)
        → list_incomplete_before r c cutoff scan db ≡ (db', ok ids)
        → (db' ≡ db)
          × ((has id ids ≡ true)
              ↔ ((key : Str) × (has key (all_keys scan) ≡ true) × IsExpired (db.hash key) id))
    unfolding list_incomplete_before
    list_incomplete_before_iff scan db {db'} {ids} id ran =
        let (same, all_ids) = sweep-collected scan [] ids db db' ran in
        (same, rw all_ids (has-collected db.hash id (all_keys scan)))
