-- ===== src/Registry/Kept.antt =====
-- Steps of the database that keep a claim, of ma-core/src/registry/mod.rs and of the claim script of
-- ma-core/src/ipc/mod.rs: their calls that succeed, in any order and by any number of clients.
use memory_archive.Prelude.{
  if◌then◌else◌, lt→ltb, Bool-cases, pos, ℕ, zero, suc, ◌^◌, ◌<◌, ◌≡◌, refl, sym, ap, subst, ◌∙◌,
  ◌≢◌, List, inl, inr, Bool, true, false, ◌||◌, Option, none, some, [], ◌∷◌, arith,
}
use memory_archive.Prelude.Result.{ok}
use memory_archive.Text.{Str, str_eq, str_eq_iff, str_eq_refl}
use memory_archive.Registry.Schema.{Chrono, session_key}
use memory_archive.Registry.Redis.{Db, continue_with, ◌>>◌, return, left_in, answer, Redis}
use memory_archive.Registry.Redis.Reference.{
  at_key, present, drop_key, expire_in, set_absent, hset, del, expire, store, Documented,
}
use memory_archive.Registry.Sessions.{as_i64, update_memory_path, update_annotation_counters}
use memory_archive.Registry.Effects.{
  status_updated, update_status-store, registered, register-ok, claim_key, deleted, delete_empty,
  delete_session-store,
}
use memory_archive.Registry.Keys.{claim_key-eq, claim_key-ne-session_key}
use memory_archive.Registry.Calls.{
  Call, registration, status_update, path_update, counters_update, deletion, call,
}
use memory_archive.Registry.Refines.{continue_with-ok, call-Follows}
use memory_archive.Registry.Script.{ScriptReply, claimed_ok, taken, claim_ttl_secs, claim_target}
use memory_archive.Registry.Elsewhere.{Command, key_of, send, sent-text}
use memory_archive.Registry.Counted.{limit-ne, taken-ne, Scripted, claim_target-Scripted}
use memory_archive.Registry.Claims.{
  claim_value, claim_matches, claim_session, release_claim, verify_claim_id, refresh_claim,
}

-- What a call of a method that writes leaves of the claims: a deletion drops its session's.
abbrev pub Spares : {Time : Type 0} → Str → Call Time → Type 0
Spares id (deletion other known) = str_eq id other ≡ false
Spares id _ = Unit {0}

-- One step that keeps the claim on the session `id`: it is not released and does not lapse.
pub data Step (r : Redis) (c : Chrono) (up : Str → Str) (id : Str) (db db' : Db) : Type 0 where
  claimed :
      (session annotator claim : Str) (ttl : ℕ) (result : Option Str)
      → claim_session r session annotator claim ttl db ≡ (db', ok result)
      → Step r c up id db db'
  claimed_by_script :
      (session annotator claim : Str) (max_c : ℕ) (scanned : List Str) (reply : ScriptReply)
      → claim_target r session annotator claim max_c scanned db ≡ (db', ok reply)
      → Step r c up id db db'
  verified :
      (session claim : Str) (valid : Bool)
      → verify_claim_id r session claim db ≡ (db', ok valid)
      → Step r c up id db db'
  refreshed :
      (session claim : Str) (ttl : ℕ) (valid : Bool)
      → 0 < ttl
      → ttl < 2 ^ 63
      → refresh_claim r session claim ttl db ≡ (db', ok valid)
      → Step r c up id db db'
  released :
      (session : Str)
      → str_eq id session ≡ false
      → release_claim r session db ≡ (db', ok tt)
      → Step r c up id db db'
  called : (x : Call c.Time) → Spares id x → call r c up x db ≡ (db', ok tt) → Step r c up id db db'
  elsewhere :
      (x : Command)
      → str_eq (claim_key id) (key_of x) ≡ false
      → send r x db ≡ (db', ok tt)
      → Step r c up id db db'
  lapsed :
      (key : Str)
      → str_eq (claim_key id) key ≡ false
      → db' ≡ drop_key key db
      → Step r c up id db db'

pub data Reach (r : Redis) (c : Chrono) (up : Str → Str) (id : Str) (start : Db) : Db → Type 0 where
  here : Reach r c up id start start
  next :
      {db db' : Db} → Reach r c up id start db → Step r c up id db db' → Reach r c up id start db'

abbrev pub Holds : Str → Str → Db → Type 0
Holds id value db = db.text (claim_key id) ≡ some value

or_true : (b : Bool) → (b || true) ≡ true
or_true b = ground arith

held_key : (id value : Str) (db : Db) → Holds id value db → present (claim_key id) db ≡ true
unfolding present
held_key id value db h = rw h (or_true _)

-- SET NX on the reference database does not touch a claim that is held.
set_absent-Holds :
    (id value session other : Str) (ttl : ℕ) (db : Db)
    → Holds id value db
    → Holds id value (set_absent (claim_key session) other ttl db).0
unfolding set_absent
set_absent-Holds id value session other ttl db h =
    elim (Bool-cases (present (claim_key session) db)) [
      | inl there ↦ rw there h
      | inr absent ↦ elim (Bool-cases (str_eq id session)) [
        | inl same ↦ cc (held_key id value db h, (str_eq_iff id session).0 same)
        | inr other ↦ rw (absent, claim_key-eq id session, other) h
      ]
    ]

drop_key-Holds :
    (id value key : Str) (db : Db)
    → str_eq (claim_key id) key ≡ false
    → Holds id value db
    → Holds id value (drop_key key db)
unfolding drop_key
drop_key-Holds id value key db e h = rw e h

expire-Holds :
    (id value key : Str) (ttl : ℕ) (db : Db)
    → 0 < ttl
    → ttl < 2 ^ 63
    → Holds id value db
    → Holds id value (expire key (as_i64 ttl) db).0
unfolding expire as_i64 expire_in
expire-Holds id value key zero db some_time small h = absurd (omega arith)
expire-Holds id value key (suc n) db some_time small h = elim (Bool-cases (present key db)) [
  | inl there ↦ rw (there, lt→ltb (suc n) (2 ^ 63) small) h
  | inr absent ↦ rw absent h
]

set_absent-there :
    (key value : Str) (ttl : ℕ) (db : Db)
    → present key db ≡ true
    → set_absent key value ttl db ≡ (db, ok false)
unfolding set_absent
set_absent-there key value ttl db there = rw there refl

set_absent-absent :
    (key value : Str) (ttl : ℕ) (db : Db)
    → present key db ≡ false
    → set_absent key value ttl db ≡ (
      record db {
        text = at_key key (some value) db.text;
        expiry = at_key key (some (pos ttl)) db.expiry;
      },
      ok true,
    )
unfolding set_absent
set_absent-absent key value ttl db absent = rw absent refl

-- A claim that was won is held, and one that was not won met a key that is there.
pub set_absent-won :
    (key value : Str) (ttl : ℕ) (db db' : Db)
    → set_absent key value ttl db ≡ (db', ok true)
    → db'.text key ≡ some value
unfolding set_absent
set_absent-won key value ttl db db' h = elim (Bool-cases (present key db)) [
  | inl there ↦ cc (set_absent-there key value ttl db there)
  | inr absent ↦
      ap (λ p. (left_in p).text key) (sym h ∙ set_absent-absent key value ttl db absent)
      ∙ rw (str_eq_refl key) refl
]

set_absent-lost :
    (key value : Str) (ttl : ℕ) (db db' : Db) (set : Bool)
    → present key db ≡ true
    → set_absent key value ttl db ≡ (db', ok set)
    → set ≡ false
unfolding set_absent
set_absent-lost key value ttl db db' set there h =
    ap (λ p. answer set p.1) (sym h ∙ set_absent-there key value ttl db there)

module _ (r : Redis) (d : Documented r) (c : Chrono) (up : Str → Str) (id value : Str) where
  claimed-Holds :
      (session annotator claim : Str) (ttl : ℕ) (db db' : Db) (result : Option Str)
      → claim_session r session annotator claim ttl db ≡ (db', ok result)
      → Holds id value db
      → Holds id value db'
  unfolding claim_session store
  claimed-Holds session annotator claim ttl db db' result ran h =
      let (mid, set, sent, rest) =
        continue_with-ok (λ set. return (if set then some claim else none))
          (r.set_nx_ex (claim_key session) (claim_value annotator claim) ttl db) ran in
      subst (Holds id value)
        (ap left_in ((d.set_nx_ex_lem _ _ _).same db mid set sent) ∙ ap left_in rest)
        (set_absent-Holds id value session (claim_value annotator claim) ttl db h)

  Scripted-Holds :
      (session other : Str) (ttl : ℕ) (db db' : Db) (reply : ScriptReply)
      → Scripted (claim_key session) other ttl db db' reply
      → Holds id value db
      → Holds id value db'
  Scripted-Holds session other ttl db db' reply (inl (n, e, same)) h =
      subst (Holds id value) (sym same) h
  Scripted-Holds session other ttl db db' reply (inr (set, ran, e)) h =
      subst (Holds id value) (ap left_in ran) (set_absent-Holds id value session other ttl db h)

  call-Holds :
      (x : Call c.Time) (db db' : Db)
      → Spares id x
      → call store c up x db ≡ (db', ok tt)
      → Holds id value db
      → Holds id value db'
  unfolding call update_memory_path update_annotation_counters store hset registered status_updated
      deleted
  call-Holds (registration new) db db' spared ran h =
      subst (Holds id value) (register-ok c up new db ran).1 h
  call-Holds (status_update now other status) db db' spared ran h =
      subst (Holds id value) (ap left_in (sym (update_status-store now other status db) ∙ ran)) h
  call-Holds (path_update now other new_path) db db' spared ran h =
      subst (Holds id value) (ap left_in ran) h
  call-Holds (counters_update now other annotated skipped) db db' spared ran h =
      subst (Holds id value) (ap left_in ran) h
  call-Holds (deletion [] known) db db' spared ran h = cc (delete_empty up known db)
  call-Holds (deletion (x ∷ rest) known) db db' spared ran h =
      let other : Str = x ∷ rest in
      subst (Holds id value)
        (ap left_in (
          sym (ap (continue_with (λ there. return tt)) (delete_session-store up known x rest db))
          ∙ ran))
        (drop_key-Holds id value (claim_key other) _ (claim_key-eq id other ∙ spared)
          (drop_key-Holds id value (session_key other) db (claim_key-ne-session_key id other) h))

  refresh_branch :
      (b : Bool) (key : Str) (ttl : ℕ) (valid : Bool) (db db' : Db)
      → 0 < ttl
      → ttl < 2 ^ 63
      → (if b then (r.expire key (as_i64 ttl) >> return true) else return false) db
        ≡ (db', ok valid)
      → Holds id value db
      → Holds id value db'
  unfolding store
  refresh_branch true key ttl valid db db' some_time small ran h =
      let (mid, done, sent, rest) =
        continue_with-ok (λ done. return true) (r.expire key (as_i64 ttl) db) ran in
      subst (Holds id value)
        (ap left_in ((d.expire_lem key (as_i64 ttl)).same db mid done sent) ∙ ap left_in rest)
        (expire-Holds id value key ttl db some_time small h)
  refresh_branch false key ttl valid db db' some_time small ran h =
      subst (Holds id value) (ap left_in ran) h

  refreshed-Holds :
      (session claim : Str) (ttl : ℕ) (valid : Bool) (db db' : Db)
      → 0 < ttl
      → ttl < 2 ^ 63
      → refresh_claim r session claim ttl db ≡ (db', ok valid)
      → Holds id value db
      → Holds id value db'
  unfolding refresh_claim store
  refreshed-Holds session claim ttl valid db db' some_time small ran h =
      let refresh = λ (current : Option Str).
        if claim_matches current claim
        then (r.expire (claim_key session) (as_i64 ttl) >> return true)
        else return false in
      let (mid, current, sent, rest) =
        continue_with-ok refresh (r.get (claim_key session) db) ran in
      refresh_branch (claim_matches current claim) (claim_key session) ttl valid mid db' some_time
        small rest (subst (Holds id value) (ap left_in ((d.get_lem _).same db mid current sent)) h)

  pub verified_same :
      (session claim : Str) (valid : Bool) (db db' : Db)
      → verify_claim_id r session claim db ≡ (db', ok valid)
      → (db ≡ db') × (claim_matches (db.text (claim_key session)) claim ≡ valid)
  unfolding verify_claim_id store
  verified_same session claim valid db db' ran =
      let (mid, stored, sent, rest) =
        continue_with-ok (λ stored. return (claim_matches stored claim))
          (r.get (claim_key session) db) ran in
      let e = (d.get_lem (claim_key session)).same db mid stored sent in
      (
        ap left_in e ∙ ap left_in rest,
        ap (λ p. claim_matches (answer stored p.1) claim) e ∙ ap (λ p. answer valid p.1) rest,
      )

  released-Holds :
      (session : Str) (db db' : Db)
      → str_eq id session ≡ false
      → release_claim r session db ≡ (db', ok tt)
      → Holds id value db
      → Holds id value db'
  unfolding release_claim store del
  released-Holds session db db' other ran h =
      let (mid, n, sent, rest) =
        continue_with-ok (λ n. return tt) (r.del (claim_key session) db) ran in
      subst (Holds id value)
        (ap left_in ((d.del_lem (claim_key session)).same db mid n sent) ∙ ap left_in rest)
        (drop_key-Holds id value (claim_key session) db (claim_key-eq id session ∙ other) h)

  Step-Holds : {db db' : Db} → Step r c up id db db' → Holds id value db → Holds id value db'
  Step-Holds (claimed session annotator claim ttl result ran) h =
      claimed-Holds session annotator claim ttl _ _ result ran h
  Step-Holds (claimed_by_script session annotator claim max_c scanned reply ran) h =
      Scripted-Holds session (claim_value annotator claim) claim_ttl_secs _ _ reply
        (claim_target-Scripted r d session annotator claim max_c scanned _ _ reply ran) h
  Step-Holds (verified session claim valid ran) h =
      subst (Holds id value) (verified_same session claim valid _ _ ran).0 h
  Step-Holds (refreshed session claim ttl valid some_time small ran) h =
      refreshed-Holds session claim ttl valid _ _ some_time small ran h
  Step-Holds (released session other ran) h = released-Holds session _ _ other ran h
  Step-Holds (called x spared ran) h =
      call-Holds x _ _ spared ((call-Follows r d c up x).same _ _ tt ran) h
  Step-Holds (elsewhere x other ran) h = sent-text (claim_key id) r d x _ _ other ran ∙ h
  Step-Holds {db} (lapsed key other e) h =
      subst (Holds id value) (sym e) (drop_key-Holds id value key db other h)

  pub Reach-Holds :
      {start db : Db} → Holds id value start → Reach r c up id start db → Holds id value db
  Reach-Holds h here = h
  Reach-Holds h (next before step) = Step-Holds step (Reach-Holds h before)

  -- No script wins a claim that is held.
  pub claimed_again :
      (other : Str) (ttl : ℕ) (db db' : Db) (reply : ScriptReply)
      → Holds id value db
      → Scripted (claim_key id) other ttl db db' reply
      → reply ≢ claimed_ok
  claimed_again other ttl db db' reply h (inl (n, e, same)) = λ won. limit-ne n (sym e ∙ won)
  claimed_again other ttl db db' reply h (inr (set, ran, e)) = λ won.
      let lost = set_absent-lost (claim_key id) other ttl db db' set (held_key id value db h) ran in
      taken-ne (ap (λ b. if b then claimed_ok else taken) (sym lost) ∙ sym e ∙ won)
