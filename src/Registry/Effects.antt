-- ===== src/Registry/Effects.antt =====
-- What the methods of ma-core/src/registry/mod.rs leave in the reference database.
use memory_archive.Prelude.Result.{err, ok}
use memory_archive.Registry.Schema.{
  Chrono, SessionRecord, to_redis_pairs, os_index_key, mode_index_key, SessionStatus, active,
  pending_annotation, pending_human_annotation, annotating, pending_compilation, reasoning_degraded,
  complete, incomplete, ttl_seconds, index_set, show_status, Fields, field, session_key,
}
use memory_archive.Registry.Sets.{removed_all, added, removed}
use memory_archive.Registry.Redis.Reference.{
  present, drop_key, del, put_fields, at_key, hset, sadd, srem, persist, store,
}
use memory_archive.Registry.Sessions.{
  status_sets, other_sets, add_to_indexes, srem_all, delete_session, register, old_status, set_of,
  sadd_to, srem_from, clear_ttl, apply_ttl, update_status,
}
use memory_archive.Registry.Redis.{empty_session_id, already_exists, Db}
use memory_archive.Prelude.{
  ltb, if◌then◌else◌, Bool-cases, ℕ, ◌≡◌, refl, sym, ap, ◌∙◌, inl, inr, true, false, Option, none,
  some, List, [], ◌∷◌, ◌++◌,
}
use memory_archive.Text.{Str, codes}

-- What a session's hash holds as its status.
abbrev pub status_in : (Str → Fields) → Str → Option SessionStatus
status_in hash session_id = old_status (field (codes "status") (hash (session_key session_id)))

sadd_to-store :
    (set : Option Str) (id : Str) (db : Db)
    → sadd_to store set id db ≡ (record db { members = added set id db.members }, ok tt)
unfolding sadd_to store sadd
sadd_to-store none id db = refl
sadd_to-store (some set) id db = refl

srem_from-store :
    (set : Option Str) (id : Str) (db : Db)
    → srem_from store set id db ≡ (record db { members = removed set id db.members }, ok tt)
unfolding srem_from store srem
srem_from-store none id db = refl
srem_from-store (some set) id db = refl

ttl_seconds-none : (status : SessionStatus) → ttl_seconds status ≡ none
unfolding ttl_seconds
ttl_seconds-none active = refl
ttl_seconds-none pending_annotation = refl
ttl_seconds-none pending_human_annotation = refl
ttl_seconds-none annotating = refl
ttl_seconds-none pending_compilation = refl
ttl_seconds-none reasoning_degraded = refl
ttl_seconds-none complete = refl
ttl_seconds-none incomplete = refl

unfoldable pub status_fields : Str → SessionStatus → Fields
status_fields now status = (codes "status", show_status status) ∷ (codes "updated_at", now) ∷ []

unfoldable pub status_updated : Str → Str → SessionStatus → Db → Db
status_updated now id status db = record {
  hash =
      at_key (session_key id) (put_fields (status_fields now status) (db.hash (session_key id)))
        db.hash;
  members = added (index_set status) id (removed (set_of (status_in db.hash id)) id db.members);
  text = db.text;
  expiry = at_key (session_key id) none db.expiry;
}

pub update_status-store :
    (now id : Str) (status : SessionStatus) (db : Db)
    → update_status store now id status db ≡ (status_updated now id status db, ok tt)
unfolding update_status status_updated status_fields store hset persist apply_ttl clear_ttl
update_status-store now id status db =
    let old = set_of (status_in db.hash id) in
    let stored =
      at_key (session_key id) (put_fields (status_fields now status) (db.hash (session_key id)))
        db.hash in
    rw
      (
        srem_from-store old id db,
        sadd_to-store (index_set status) id
            (record db { hash = stored; members = removed old id db.members }),
        ttl_seconds-none status,
      )
      refl

module _ (c : Chrono) (up : Str → Str) (new : SessionRecord c.Time) where
  unfoldable pub registered : Db → Db
  registered db = record db {
    hash =
        at_key (session_key new.session_id)
          (put_fields (to_redis_pairs c new) (db.hash (session_key new.session_id))) db.hash;
    members = added (some (mode_index_key new.mode)) new.session_id (
        added (some (os_index_key up new.os_type)) new.session_id
          (added (index_set new.status) new.session_id db.members));
  }

  pub register-store :
      (db : Db)
      → present (session_key new.session_id) db ≡ false
      → register store c up new db ≡ (registered db, ok tt)
  unfolding register registered add_to_indexes store hset sadd
  register-store db absent =
      rw
        (
          absent,
          sadd_to-store (index_set new.status) new.session_id (record db {
            hash =
                at_key (session_key new.session_id)
                  (put_fields (to_redis_pairs c new) (db.hash (session_key new.session_id)))
                  db.hash;
          }),
        )
        refl

  pub register_again :
      (db : Db)
      → present (session_key new.session_id) db ≡ true
      → register store c up new db ≡ (db, err already_exists)
  unfolding register store
  register_again db there = rw there refl

pub register-ok :
    (c : Chrono) (up : Str → Str) (new : SessionRecord c.Time) (db : Db) {db' : Db}
    → register store c up new db ≡ (db', ok tt)
    → (present (session_key new.session_id) db ≡ false) × (registered c up new db ≡ db')
register-ok c up new db ran = elim (Bool-cases (present (session_key new.session_id) db)) [
  | inl there ↦ cc (register_again c up new db there)
  | inr absent ↦ (absent, ap (λ p. p.0) (sym (register-store c up new db absent) ∙ ran))
]

srem_all-store :
    (sets : List Str) (id : Str) (db : Db)
    → srem_all store sets id db ≡ (record db { members = removed_all sets id db.members }, ok tt)
unfolding srem_all removed_all store srem
srem_all-store [] id db = refl
srem_all-store (set ∷ sets) id db =
    srem_all-store sets id (record db { members = removed (some set) id db.members })

unfoldable pub claim_key : Str → Str
claim_key id = codes "claim:" ++ id

module _ {Time : Type 0} (up : Str → Str) (known : Option (SessionRecord Time)) where
  unfoldable pub deleted : Str → Db → Db
  deleted id db =
      let gone = drop_key (session_key id) db in
      drop_key (claim_key id) (record gone {
        members = removed_all (other_sets up known) id (removed_all status_sets id gone.members);
      })

  pub delete_empty : (db : Db) → delete_session store up [] known db ≡ (db, err empty_session_id)
  unfolding delete_session
  delete_empty db = refl

  pub delete_session-store :
      (x : ℕ) (rest : Str) (db : Db)
      → delete_session store up (x ∷ rest) known db
        ≡ (deleted (x ∷ rest) db, ok (ltb 0 (if present (session_key (x ∷ rest)) db then 1 else 0)))
  unfolding delete_session deleted claim_key store del
  delete_session-store x rest db =
      let id : Str = x ∷ rest in
      let gone = drop_key (session_key id) db in
      rw
        (
          srem_all-store status_sets id gone,
          srem_all-store (other_sets up known) id
              (record gone { members = removed_all status_sets id gone.members }),
        )
        refl
