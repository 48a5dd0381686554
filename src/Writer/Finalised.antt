-- ===== src/Writer/Finalised.antt =====
-- `finalise` of ma-core/src/capture/writer.rs, in the cloud: what the storage holds in the end.
use memory_archive.Prelude.{
  if◌then◌else◌, ==_refl, Bool-cases, ◌≡◌, refl, sym, ap, subst, ◌∙◌, ◌≢◌, inl, inr, Bool, true,
  false, not, Option, none, some, [], ◌∷◌, ◌++◌, arith,
}
use memory_archive.Text.{Str, codes, str_eq, str_eq_refl}
use memory_archive.Writer.{
  set_file, CommandWriter, Session, Done, and_then, World, cloud_path, put, flush_to_cloud,
  put_array, finalise_jsonl_buf_cloud, finalise_jsonl_file, finalise,
}

str_eq-append : (p a b : Str) → str_eq (p ++ a) (p ++ b) ≡ str_eq a b
unfolding str_eq
str_eq-append [] a b = refl
str_eq-append (c ∷ p) a b = rw (==_refl c) (str_eq-append p a b)

abbrev session_of : Done → Session
session_of d = d.0

not_done : (s t : Session) → (◌≢◌ {A = Done} (s, false) (t, true))
not_done s t e = cc

-- The branch of a test that is known.
taken :
    (b : Bool) (x y : Done) (t : Session)
    → b ≡ true
    → (if b then x else y) ≡ (t, true)
    → x ≡ (t, true)
taken true x y t h e = e
taken false x y t h e = absurd (ground arith)

skipped :
    (b : Bool) (x y : Done) (t : Session)
    → b ≡ false
    → (if b then x else y) ≡ (t, true)
    → y ≡ (t, true)
skipped false x y t h e = e
skipped true x y t h e = absurd (ground arith)

and_then-true :
    (d : Done) (next : Session → Done) {t : Session}
    → and_then d next ≡ (t, true)
    → (u : Session) × (d ≡ (u, true)) × (next u ≡ (t, true))
and_then-true (u, true) next e = (u, refl, e)
and_then-true (u, false) next {t = t} e = absurd (not_done u t e)

-- Where the storage has the actuation commands.
abbrev pub actuation : CommandWriter → Str
actuation w = cloud_path w (codes "commands/actuation_commands.json")

module _ (world : World) where
  put-true :
      (path text : Str) (s : Session) {t : Session}
      → put world path text s ≡ (t, true)
      → t ≡ record s { storage = set_file path text s.storage }
  unfolding put
  put-true path text s {t = t} e =
      let done : Session = record s { storage = set_file path text s.storage } in
      elim (Bool-cases (world.puts path)) [
        | inl accepted ↦
            sym (ap session_of (taken (world.puts path) (done, true) (s, false) t accepted e))
        | inr refused ↦
            absurd (not_done s t (skipped (world.puts path) (done, true) (s, false) t refused e))
      ]

  -- What a chain of puts leaves of the writer.
  abbrev KeepsWriter : CommandWriter → Done → Type 0
  KeepsWriter w d = d.0.writer ≡ w

  put-KeepsWriter : (path text : Str) (s : Session) → KeepsWriter s.writer (put world path text s)
  unfolding put
  put-KeepsWriter path text s = elim (Bool-cases (world.puts path)) [
    | inl accepted ↦ rw accepted refl
    | inr refused ↦ rw refused refl
  ]

  put_array-KeepsWriter :
      (path : Str) (s : Session) (o : Option Str) → KeepsWriter s.writer (put_array world path s o)
  put_array-KeepsWriter path s none = refl
  put_array-KeepsWriter path s (some json) = put-KeepsWriter path json s

  cc_elsewhere :
      (w : CommandWriter)
      → str_eq (actuation w) (cloud_path w (codes "commands/cc_commands.json")) ≡ false
  unfolding cloud_path
  cc_elsewhere w =
      str_eq-append w.memory_name (b'/' ∷ codes "commands/actuation_commands.json")
        (b'/' ∷ codes "commands/cc_commands.json")
      ∙ unfold str_eq in refl

  stored_last :
      (w : CommandWriter) (u t v : Session)
      → put world (actuation w) w.actuation_buf u ≡ (t, true)
      → put world (cloud_path w (codes "commands/cc_commands.json")) w.cc_buf t ≡ (v, true)
      → v.storage (actuation w) ≡ some w.actuation_buf
  stored_last w u t v e f =
      ap (λ (x : Session). x.storage (actuation w)) (put-true _ _ t f)
      ∙ ap (λ b. if b then some w.cc_buf else t.storage (actuation w)) (cc_elsewhere w)
      ∙ ap (λ (x : Session). x.storage (actuation w)) (put-true _ _ u e)
      ∙ ap (λ b. if b then some w.actuation_buf else u.storage (actuation w))
          (str_eq_refl (actuation w))

  flush_to_cloud-stored :
      (s v : Session)
      → s.writer.is_cloud_primary ≡ true
      → flush_to_cloud world s ≡ (v, true)
      → v.storage (actuation s.writer) ≡ some s.writer.actuation_buf
  unfolding flush_to_cloud
  flush_to_cloud-stored s v cloud e =
      let w = s.writer in
      let put_cc = put world (cloud_path w (codes "commands/cc_commands.json")) w.cc_buf in
      let put_actuation = put world (actuation w) w.actuation_buf in
      let tables =
        and_then (put world (cloud_path w (codes "commands/raw_input.md")) w.raw_input_buf s)
          (put world (cloud_path w (codes "commands/converted_input.md")) w.converted_input_buf) in
      let (t, before, last) = and_then-true (and_then tables put_actuation) put_cc (
        skipped (not w.is_cloud_primary) (s, true) (and_then (and_then tables put_actuation) put_cc)
          v (ap not cloud) e) in
      let (u, first, middle) = and_then-true tables put_actuation before in
      stored_last w u t v middle last

  keeps_ok :
      (w : CommandWriter) (d : Done) (t : Session) → KeepsWriter w d → d ≡ (t, true) → t.writer ≡ w
  keeps_ok w d t h e = ap (λ (x : Done). x.0.writer) (sym e) ∙ h

  finalise_jsonl_buf_cloud-KeepsWriter :
      (filename buf : Str) (s : Session)
      → KeepsWriter s.writer (finalise_jsonl_buf_cloud world filename buf s)
  unfolding finalise_jsonl_buf_cloud
  finalise_jsonl_buf_cloud-KeepsWriter filename buf s = put_array-KeepsWriter _ s _

  -- When `finalise` succeeds in the cloud, the object of the actuation commands holds the buffer
  -- of one JSON object per line: the array that was put there first is written over.
  pub finalise-stored :
      (s v : Session)
      → s.writer.is_cloud_primary ≡ true
      → finalise world s ≡ (v, true)
      → v.storage (actuation s.writer) ≡ some s.writer.actuation_buf
  unfolding finalise
  finalise-stored s v cloud e =
      let w = s.writer in
      let put_actuation =
        finalise_jsonl_buf_cloud world (codes "actuation_commands.json") w.actuation_buf s in
      let put_cc = finalise_jsonl_buf_cloud world (codes "cc_commands.json") w.cc_buf in
      let flush = flush_to_cloud world in
      let local =
        and_then (finalise_jsonl_file world (codes "actuation_commands.json") s)
          (finalise_jsonl_file world (codes "cc_commands.json")) in
      let (u, before, flushed) = and_then-true (and_then put_actuation put_cc) flush (
        taken w.is_cloud_primary (and_then (and_then put_actuation put_cc) flush) local v cloud
          e) in
      let (x, first, second) = and_then-true put_actuation put_cc before in
      let kept : u.writer ≡ w =
        keeps_ok x.writer (put_cc x) u
          (finalise_jsonl_buf_cloud-KeepsWriter (codes "cc_commands.json") w.cc_buf x) second
        ∙ keeps_ok w put_actuation x
            (finalise_jsonl_buf_cloud-KeepsWriter (codes "actuation_commands.json") w.actuation_buf
              s)
            first in
      subst (λ y. v.storage (actuation y) ≡ some y.actuation_buf) kept
        (flush_to_cloud-stored u v (ap (λ (y : CommandWriter). y.is_cloud_primary) kept ∙ cloud)
          flushed)
