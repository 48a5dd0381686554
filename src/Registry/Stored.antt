-- ===== src/Registry/Stored.antt =====
-- What a registration and a deletion leave of a session, of ma-core/src/registry/mod.rs.
use memory_archive.Prelude.Result.{Result, ok, err}
use memory_archive.Registry.Effects.{
  register-ok, registered, register_again, claim_key, deleted, delete_empty, delete_session-store,
}
use memory_archive.Prelude.{
  ltb, if◌then◌else◌, Bool-cases, is_empty, ◌≡◌, refl, sym, ap, subst, ◌∙◌, inl, inr, Bool, true,
  false, not, ◌&&◌, ◌||◌, Option, none, some, List, [], ◌∷◌, ◌++◌, arith,
}
use memory_archive.Text.{Str, str_eq, str_eq_iff, str_eq_refl}
use memory_archive.Registry.Schema.{Chrono, SessionRecord, to_redis_pairs, session_key}
use memory_archive.Registry.Redis.{Db, Failure, already_exists, Redis}
use memory_archive.Registry.Redis.Reference.{
  has, remove, at_key, present, drop_key, store, Documented,
}
use memory_archive.Registry.Sessions.{
  status_sets, other_sets, read_record, delete_session, register, get,
}
use memory_archive.Registry.Transfer.{delete_session-Follows, register-Follows}
use memory_archive.Registry.Coherence.{absent-hash}
use memory_archive.Registry.Records.{HasWords, from_redis_map-to_redis_pairs}
use memory_archive.Registry.Sets.{Members, removed, removed_all, listed-removed_all}
use memory_archive.Registry.Keys.{
  session_key-eq, claim_key-eq, session_key-ne-claim_key, claim_key-ne-session_key, put_pairs-empty,
}

is_empty-to_redis_pairs :
    (c : Chrono) (r : SessionRecord c.Time) → is_empty (to_redis_pairs c r) ≡ false
unfolding to_redis_pairs
is_empty-to_redis_pairs c r = refl

registered-hash :
    (c : Chrono) (up : Str → Str) (new : SessionRecord c.Time) (db : Db)
    → present (session_key new.session_id) db ≡ false
    → (registered c up new db).hash (session_key new.session_id) ≡ to_redis_pairs c new
unfolding registered
registered-hash c up new db absent =
    rw
      (str_eq_refl (session_key new.session_id), absent-hash (session_key new.session_id) db absent)
      (put_pairs-empty c new)

hash-present :
    (c : Chrono) (r : SessionRecord c.Time) (db : Db)
    → db.hash (session_key r.session_id) ≡ to_redis_pairs c r
    → present (session_key r.session_id) db ≡ true
unfolding present
hash-present c r db h = rw (h, is_empty-to_redis_pairs c r) refl

existed_lem :
    (b : Bool) {existed : Bool}
    → ◌≡◌ {A = Result Failure Bool} (ok existed) (ok (ltb 0 (if b then 1 else 0)))
    → existed ≡ b
existed_lem true h = cc
existed_lem false h = cc

get-stored :
    (c : Chrono) (r : SessionRecord c.Time) (db : Db)
    → HasWords r
    → db.hash (session_key r.session_id) ≡ to_redis_pairs c r
    → get store c r.session_id db ≡ (db, ok r)
unfolding get read_record store
get-stored c r db words h =
    rw (h, is_empty-to_redis_pairs c r, from_redis_map-to_redis_pairs c r words) refl

-- After a registration that succeeded, of a record whose counters are u32 values, the reference
-- registry reads the record back as it was registered, and refuses to register the session again.
pub get-register :
    (r : Redis) (d : Documented r) (c : Chrono) (up : Str → Str) (new : SessionRecord c.Time)
    (db : Db) {db' : Db}
    → HasWords new
    → register r c up new db ≡ (db', ok tt)
    → (get store c new.session_id db' ≡ (db', ok new))
      × (register store c up new db' ≡ (db', err already_exists))
get-register r d c up new db {db'} words ran =
    let (absent, left) =
      register-ok c up new db ((register-Follows r d c up new).same db db' tt ran) in
    let held =
      ap (λ after. after.hash (session_key new.session_id)) (sym left)
      ∙ registered-hash c up new db absent in
    (get-stored c new db' words held, register_again c up new db' (hash-present c new db' held))

has-append : (id : Str) (xs ys : List Str) → has id (xs ++ ys) ≡ (has id xs || has id ys)
unfolding has
has-append id [] ys = refl
has-append id (x ∷ xs) ys = ground (arith, has-append id xs ys)

-- A set that holds nothing has nothing to remove.
removed-empty :
    (set id key : Str) (members : Members)
    → members key ≡ []
    → removed (some set) id members key ≡ []
unfolding remove
removed-empty set id key members h = elim (Bool-cases (str_eq key set)) [
  | inl p ↦ rw p (ap (remove id) (ap members (sym ((str_eq_iff key set).0 p)) ∙ h))
  | inr p ↦ rw p h
]

removed_all-empty :
    (sets : List Str) (id key : Str) (members : Members)
    → members key ≡ []
    → removed_all sets id members key ≡ []
unfolding removed_all
removed_all-empty [] id key members h = h
removed_all-empty (set ∷ sets) id key members h =
    removed_all-empty sets id key (removed (some set) id members)
      (removed-empty set id key members h)

removed_self :
    (x y z : Bool) → (x || y) ≡ true → (not (y && true) && (not (x && true) && z)) ≡ false
removed_self x y z h = ground arith

module _ {Time : Type 0} (up : Str → Str) (known : Option (SessionRecord Time)) (id : Str)
    (db : Db) where
  cleaned :
      (key : Str)
      → has key (status_sets ++ other_sets up known) ≡ true
      → has id ((deleted up known id db).members key) ≡ false
  unfolding deleted drop_key has
  cleaned key h =
      let start = at_key (session_key id) [] db.members in
      let by_status = removed_all status_sets id start in
      elim (Bool-cases (str_eq key (claim_key id))) [
        | inl p ↦ rw p refl
        | inr p ↦ rw p (
            listed-removed_all (other_sets up known) key id id by_status
            ∙ rw (listed-removed_all status_sets key id id start, str_eq_refl id)
                (removed_self (has key status_sets) (has key (other_sets up known))
                  (has id (start key))
                  (sym (has-append key status_sets (other_sets up known)) ∙ h)))
      ]

  gone_hash : (deleted up known id db).hash (session_key id) ≡ []
  unfolding deleted drop_key
  gone_hash = rw (session_key-ne-claim_key id id, str_eq_refl (session_key id)) refl

  gone_members : (deleted up known id db).members (session_key id) ≡ []
  unfolding deleted drop_key
  gone_members = rw (session_key-ne-claim_key id id) (
      removed_all-empty (other_sets up known) id (session_key id) _ (
        removed_all-empty status_sets id (session_key id) _
          (rw (str_eq_refl (session_key id)) refl)))

  gone_text : (deleted up known id db).text (session_key id) ≡ none
  unfolding deleted drop_key
  gone_text = rw (session_key-ne-claim_key id id, str_eq_refl (session_key id)) refl

  gone : present (session_key id) (deleted up known id db) ≡ false
  unfolding present
  gone = rw (gone_hash, gone_members, gone_text) refl

  gone_claim : (deleted up known id db).text (claim_key id) ≡ none
  unfolding deleted drop_key
  gone_claim = rw (str_eq_refl (claim_key id)) refl

  module _ (other : Str) (ne : str_eq other id ≡ false) where
    kept_hash : (deleted up known id db).hash (session_key other) ≡ db.hash (session_key other)
    unfolding deleted drop_key
    kept_hash = rw (session_key-ne-claim_key other id, session_key-eq other id, ne) refl

    kept_claim : (deleted up known id db).text (claim_key other) ≡ db.text (claim_key other)
    unfolding deleted drop_key
    kept_claim = rw (claim_key-eq other id, ne, claim_key-ne-session_key other id) refl

module _ {Time : Type 0} (r : Redis) (d : Documented r) (up : Str → Str)
    (known : Option (SessionRecord Time)) (key other : Str) (db : Db) {db' : Db}
    {existed : Bool} where
  -- A deletion that succeeds returns whether there was anything at the session's key, leaves nothing
  -- there, no claim and no membership in a set that it goes through, and keeps the hash and the
  -- claim of every other session.
  pub delete_session-clean :
      (id : Str)
      → has key (status_sets ++ other_sets up known) ≡ true
      → str_eq other id ≡ false
      → delete_session r up id known db ≡ (db', ok existed)
      → (existed ≡ present (session_key id) db)
        × (present (session_key id) db' ≡ false)
        × (db'.text (claim_key id) ≡ none)
        × (has id (db'.members key) ≡ false)
        × (db'.hash (session_key other) ≡ db.hash (session_key other))
        × (db'.text (claim_key other) ≡ db.text (claim_key other))
  delete_session-clean [] h ne ran =
      cc
        (delete_empty up known db, (delete_session-Follows r d up [] known).same db db' existed ran)
  delete_session-clean (x ∷ rest) h ne ran =
      let id : Str = x ∷ rest in
      let e =
        sym (delete_session-store up known x rest db)
        ∙ (delete_session-Follows r d up id known).same db db' existed ran in
      subst
        (λ after.
          (existed ≡ present (session_key id) db)
          × (present (session_key id) after ≡ false)
          × (after.text (claim_key id) ≡ none)
          × (has id (after.members key) ≡ false)
          × (after.hash (session_key other) ≡ db.hash (session_key other))
          × (after.text (claim_key other) ≡ db.text (claim_key other)))
        (ap (λ p. p.0) e)
        (
          existed_lem _ (sym (ap (λ p. p.1) e)),
          gone up known id db,
          gone_claim up known id db,
          cleaned up known id db key h,
          kept_hash up known id db other ne,
          kept_claim up known id db other ne,
        )
