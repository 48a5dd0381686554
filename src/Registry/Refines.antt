-- ===== src/Registry/Refines.antt =====
-- The registry of ma-core/src/registry/mod.rs against a map from sessions to statuses.
use memory_archive.Prelude.{
  Bool-cases, ◌≡◌, refl, sym, ap, subst, ◌∙◌, inl, inr, none, some, List, [], ◌∷◌,
}
use memory_archive.Registry.Effects.{
  register-ok, delete_empty, status_in, update_status-store, delete_session-store,
}
use memory_archive.Registry.Redis.{left_in, Db, Failure, Op, continue_with, return, Redis}
use memory_archive.Text.Decimal.{show_nat}
use memory_archive.Prelude.Result.{Result, ok, err}
use memory_archive.Registry.Coherence.{
  status_in-at_key, Statuses, set_status, Implements, status_updated-Implements,
  registered-Implements, deleted-Implements,
}
use memory_archive.Text.{Str, codes, str_eq, str_eq_iff}
use memory_archive.Registry.Schema.{Chrono, SessionRecord, Fields, field, session_key}
use memory_archive.Registry.Redis.Reference.{
  put_fields, at_key, hset, store, Follows, Documented, Follows-refl, bind-Follows,
}
use memory_archive.Registry.Sessions.{update_memory_path, update_annotation_counters, register}
use memory_archive.Registry.Transfer.{
  update_status-Follows, delete_session-Follows, register-Follows,
}
use memory_archive.Registry.Keys.{field-put_field}
use memory_archive.Registry.Calls.{
  Call, registration, status_update, path_update, counters_update, deletion, call, run, specified,
  specified_all,
}

pub continue_with-ok :
    {A B : Type 0} (f : A → Op B) (ran : Db × Result Failure A) {db' : Db} {b : B}
    → continue_with f ran ≡ (db', ok b)
    → (db : Db) × (a : A) × (ran ≡ (db, ok a)) × (f a db ≡ (db', ok b))
continue_with-ok f (db, ok a) h = (db, a, refl, h)
continue_with-ok f (db, err e) h = cc

-- A write to other fields of a hash leaves the statuses.
pub fields_kept :
    (id : Str) (fields : Fields) (db : Db) (statuses : Statuses)
    → field (codes "status") fields ≡ field (codes "status") (db.hash (session_key id))
    → Implements db statuses
    → Implements (record db { hash = at_key (session_key id) fields db.hash }) statuses
fields_kept id fields db statuses e h = record {
  held = λ other. status_in-at_key id other fields db.hash ∙ elim (Bool-cases (str_eq other id)) [
    | inl p ↦ rw (p, e) (ap (status_in db.hash) (sym ((str_eq_iff other id).0 p)) ∙ h.held other)
    | inr p ↦ rw p (h.held other)
  ];
  indexed = h.indexed;
}

pub path_fields-status :
    (now new_path : Str) (fields : Fields)
    → field
        (codes "status")
        (put_fields ((codes "memory_path", new_path) ∷ (codes "updated_at", now) ∷ []) fields)
      ≡ field (codes "status") fields
unfolding put_fields str_eq
path_fields-status now new_path fields =
    field-put_field (codes "status") (codes "updated_at") now _
    ∙ field-put_field (codes "status") (codes "memory_path") new_path fields

counter_fields-status :
    (now annotated skipped : Str) (fields : Fields)
    → field (codes "status") (
        put_fields
          ((codes "annotated_steps", annotated)
            ∷ (codes "skipped_steps", skipped)
            ∷ (codes "updated_at", now)
            ∷ [])
          fields)
      ≡ field (codes "status") fields
unfolding put_fields str_eq
counter_fields-status now annotated skipped fields =
    field-put_field (codes "status") (codes "updated_at") now _
    ∙ field-put_field (codes "status") (codes "skipped_steps") skipped _
    ∙ field-put_field (codes "status") (codes "annotated_steps") annotated fields

module _ (c : Chrono) (up : Str → Str) (db db' : Db) (statuses : Statuses) where
  registration-Implements :
      (new : SessionRecord c.Time)
      → register store c up new db ≡ (db', ok tt)
      → Implements db statuses
      → Implements db' (set_status new.session_id (some new.status) statuses)
  registration-Implements new ran h =
      let (absent, left) = register-ok c up new db ran in
      subst (λ after. Implements after (set_status new.session_id (some new.status) statuses)) left
        (registered-Implements c up new db statuses absent h)

  -- One call on the reference database.
  call-Implements :
      (x : Call c.Time)
      → call store c up x db ≡ (db', ok tt)
      → Implements db statuses
      → Implements db' (specified x statuses)
  unfolding call update_memory_path update_annotation_counters store hset
  call-Implements (registration new) ran h = registration-Implements new ran h
  call-Implements (status_update now id status) ran h =
      subst (λ after. Implements after (set_status id (some status) statuses))
        (ap left_in (sym (update_status-store now id status db) ∙ ran))
        (status_updated-Implements now id status db statuses h)
  call-Implements (path_update now id new_path) ran h =
      subst (λ after. Implements after statuses) (ap left_in ran)
        (fields_kept id _ db statuses (path_fields-status now new_path (db.hash (session_key id)))
          h)
  call-Implements (counters_update now id annotated skipped) ran h =
      subst (λ after. Implements after statuses) (ap left_in ran)
        (fields_kept id _ db statuses
          (counter_fields-status now (show_nat annotated) (show_nat skipped)
            (db.hash (session_key id)))
          h)
  call-Implements (deletion [] known) ran h = cc (delete_empty up known db)
  call-Implements (deletion (x ∷ rest) known) ran h =
      subst (λ after. Implements after (set_status (x ∷ rest) none statuses))
        (ap left_in (
          sym (ap (continue_with (λ there. return tt)) (delete_session-store up known x rest db))
          ∙ ran))
        (deleted-Implements up known (x ∷ rest) db statuses h)

pub call-Follows :
    (r : Redis) (d : Documented r) (c : Chrono) (up : Str → Str) (x : Call c.Time)
    → Follows (call r c up x) (call store c up x)
unfolding call update_memory_path update_annotation_counters
call-Follows r d c up (registration new) = register-Follows r d c up new
call-Follows r d c up (status_update now id status) = update_status-Follows r d now id status
call-Follows r d c up (path_update now id new_path) = d.hset_lem _ _
call-Follows r d c up (counters_update now id annotated skipped) = d.hset_lem _ _
call-Follows r d c up (deletion id known) =
    bind-Follows (λ there. return tt) (λ there. return tt) (delete_session-Follows r d up id known)
      (λ there. Follows-refl (return tt))

-- Over any calls of `register`, `update_status`, `update_memory_path`, `update_annotation_counters`
-- and `delete_session` that succeed, a registry that implements a map from sessions to statuses
-- goes on to implement the map that the calls ask for: its hashes hold the statuses, and a session
-- stands in the index set of its status and in no other one.
pub run-Implements :
    (r : Redis) (d : Documented r) (c : Chrono) (up : Str → Str) (calls : List (Call c.Time))
    (db : Db) {db' : Db} (statuses : Statuses)
    → Implements db statuses
    → run r c up calls db ≡ (db', ok tt)
    → Implements db' (specified_all calls statuses)
unfolding run
run-Implements r d c up [] db statuses h ran =
    subst (λ after. Implements after statuses) (ap left_in ran) h
run-Implements r d c up (first ∷ calls) db {db'} statuses h ran =
    let (mid, done, called, later) =
      continue_with-ok (λ done. run r c up calls) (call r c up first db) ran in
    run-Implements r d c up calls mid (specified first statuses)
      (call-Implements c up db mid statuses first
        ((call-Follows r d c up first).same db mid tt called) h)
      later
