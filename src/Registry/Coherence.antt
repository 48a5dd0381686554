-- ===== src/Registry/Coherence.antt =====
-- The index sets of ma-core/src/registry/mod.rs against the statuses in the hashes.
use memory_archive.Registry.Effects.{registered, deleted, status_in, status_updated}
use memory_archive.Registry.Schema.{
  Chrono, SessionRecord, os_index_key, mode_index_key, SessionStatus, index_set, Fields, field,
  session_key,
}
use memory_archive.Registry.Keys.{
  session_key-ne-claim_key, drop_session-members, drop_claim-members, SetOf, index_set-SetOf,
  index_set-ne-os, index_set-ne-mode, put_pairs-empty, status-to_redis_pairs, session_key-eq,
  put_status,
}
use memory_archive.Registry.Sets.{
  added, removed_all, listed-removed_all, same_set, listed, removed, listed-added, listed-removed,
}
use memory_archive.Registry.Redis.Reference.{has, present, drop_key, at_key}
use memory_archive.Registry.Sessions.{status_sets, other_sets, old_status, set_of}
use memory_archive.Prelude.{
  if◌then◌else◌, Bool-cases, is_empty, ◌≡◌, refl, sym, ap, ◌∙◌, inl, inr, Bool, true, false, not,
  ◌&&◌, ◌||◌, Option, none, some, [], ◌∷◌, arith,
}
use memory_archive.Text.{Str, codes, str_eq, str_eq_iff}
use memory_archive.Registry.Redis.{Db}

-- What the registry promises: a status for each session.
abbrev pub Statuses : Type 0
Statuses = Str → Option SessionStatus

abbrev pub set_status : Str → Option SessionStatus → Statuses → Statuses
set_status id status statuses other = if str_eq other id then status else statuses other

-- The hashes hold these statuses, and a session stands in the index set of its status and in no
-- other one.
pub record Implements (db : Db) (statuses : Statuses) : Type 0 where
  pub held : (id : Str) → status_in db.hash id ≡ statuses id
  pub indexed :
      (s : SessionStatus) (id : Str)
      → listed (index_set s) id db.members ≡ same_set (index_set s) (set_of (statuses id))

-- One set, before and after a session moved from the set `old` to the set `new`.
index_moved :
    (same : Bool) (set new old mine : Option Str) (before after : Bool)
    → (same ≡ true → mine ≡ old)
    → before ≡ same_set set mine
    → after ≡ ((same_set set new && same) || (not (same_set set old && same) && before))
    → after ≡ same_set set (if same then new else mine)
index_moved true set new old mine before after h b a = ground (arith, h refl)
index_moved false set new old mine before after h b a = ground arith

set_of-if :
    (b : Bool) (x y : Option SessionStatus)
    → set_of (if b then x else y) ≡ (if b then set_of x else set_of y)
set_of-if true x y = refl
set_of-if false x y = refl

pub status_in-at_key :
    (id other : Str) (fields : Fields) (hash : Str → Fields)
    → status_in (at_key (session_key id) fields hash) other ≡ (
        if str_eq other id
        then old_status (field (codes "status") fields)
        else status_in hash other)
status_in-at_key id other fields hash = elim (Bool-cases (str_eq other id)) [
  | inl p ↦ rw (session_key-eq other id, p) refl
  | inr p ↦ rw (session_key-eq other id, p) refl
]

module _ (now id : Str) (status : SessionStatus) (db : Db) (statuses : Statuses) where
  status_updated-held :
      ((other : Str) → status_in db.hash other ≡ statuses other)
      → (other : Str)
      → status_in (status_updated now id status db).hash other
        ≡ set_status id (some status) statuses other
  unfolding status_updated
  status_updated-held h other =
      status_in-at_key id other _ db.hash
      ∙ rw (put_status now status (db.hash (session_key id)), h other) refl

  pub status_updated-Implements :
      Implements db statuses
      → Implements (status_updated now id status db) (set_status id (some status) statuses)
  unfolding status_updated
  status_updated-Implements h = record {
    held = status_updated-held h.held;
    indexed = λ s other.
        let old = set_of (status_in db.hash id) in
        index_moved (str_eq other id) (index_set s) (index_set status) old (set_of (statuses other))
          (listed (index_set s) other db.members) _
          (λ e.
            ap (λ i. set_of (statuses i)) ((str_eq_iff other id).0 e) ∙ ap set_of (sym (h.held id)))
          (h.indexed s other)
          (listed-added (index_set s) (index_set status) other id (removed old id db.members)
            ∙ rw (listed-removed (index_set s) old other id db.members) refl)
        ∙ ap (same_set (index_set s))
            (sym (set_of-if (str_eq other id) (some status) (statuses other)));
  }

hash_empty :
    (fields : Fields) (a b : Bool) → (not (is_empty fields) || a || b) ≡ false → fields ≡ []
hash_empty [] a b h = refl
hash_empty (x ∷ fields) a b h = cc

pub absent-hash : (key : Str) (db : Db) → present key db ≡ false → db.hash key ≡ []
unfolding present
absent-hash key db h = hash_empty (db.hash key) _ _ h

same_set-none : (set : Option Str) → same_set set none ≡ false
same_set-none none = refl
same_set-none (some a) = refl

module _ (c : Chrono) (up : Str → Str) (new : SessionRecord c.Time) (db : Db)
    (statuses : Statuses) where
  registered-held :
      present (session_key new.session_id) db ≡ false
      → ((other : Str) → status_in db.hash other ≡ statuses other)
      → (other : Str)
      → status_in (registered c up new db).hash other
        ≡ set_status new.session_id (some new.status) statuses other
  unfolding registered
  registered-held absent h other =
      status_in-at_key new.session_id other _ db.hash
      ∙ rw
          (
            absent-hash (session_key new.session_id) db absent,
            put_pairs-empty c new,
            status-to_redis_pairs c new,
            h other,
          )
          refl

  -- The sets by operating system and mode are no sets of a status.
  registered-listed :
      (s : SessionStatus) (other : Str)
      → listed (index_set s) other (registered c up new db).members
        ≡ listed (index_set s) other (added (index_set new.status) new.session_id db.members)
  unfolding registered
  registered-listed s other =
      let by_status = added (index_set new.status) new.session_id db.members in
      let by_os = added (some (os_index_key up new.os_type)) new.session_id by_status in
      listed-added (index_set s) (some (mode_index_key new.mode)) other new.session_id by_os
      ∙ rw (index_set-ne-mode s new.mode) (
          listed-added (index_set s) (some (os_index_key up new.os_type)) other new.session_id
            by_status
          ∙ rw (index_set-ne-os s up new.os_type) refl)

  pub registered-Implements :
      present (session_key new.session_id) db ≡ false
      → Implements db statuses
      → Implements (registered c up new db) (set_status new.session_id (some new.status) statuses)
  unfolding field
  registered-Implements absent h = record {
    held = registered-held absent h.held;
    indexed = λ s other.
        index_moved (str_eq other new.session_id) (index_set s) (index_set new.status) none
          (set_of (statuses other)) (listed (index_set s) other db.members) _
          (λ e.
            ap (λ i. set_of (statuses i)) ((str_eq_iff other new.session_id).0 e)
            ∙ ap set_of (sym (h.held new.session_id))
            ∙ ap (λ f. set_of (old_status (field (codes "status") f)))
                (absent-hash (session_key new.session_id) db absent))
          (h.indexed s other)
          (registered-listed s other
            ∙ listed-added (index_set s) (index_set new.status) other new.session_id db.members
            ∙ rw (same_set-none (index_set s)) refl)
        ∙ ap (same_set (index_set s))
            (sym (set_of-if (str_eq other new.session_id) (some new.status) (statuses other)));
  }

index_dropped :
    (same : Bool) (set mine : Option Str) (before after : Bool)
    → before ≡ same_set set mine
    → after ≡ (not same && before)
    → after ≡ same_set set (if same then none else mine)
index_dropped true set mine before after b a = ground (arith, same_set-none set)
index_dropped false set mine before after b a = ground arith

dropped_twice : (a b c : Bool) → (not (a && b) && (not (true && b) && c)) ≡ (not b && c)
dropped_twice a b c = ground arith

module _ {Time : Type 0} (up : Str → Str) (known : Option (SessionRecord Time)) (id : Str) (db : Db)
    (statuses : Statuses) where
  deleted-held :
      ((other : Str) → status_in db.hash other ≡ statuses other)
      → (other : Str)
      → status_in (deleted up known id db).hash other ≡ set_status id none statuses other
  unfolding deleted drop_key field
  deleted-held h other =
      ap
        (λ b. old_status (
          field (codes "status")
            (if b then [] else at_key (session_key id) [] db.hash (session_key other))))
        (session_key-ne-claim_key other id)
      ∙ status_in-at_key id other [] db.hash
      ∙ rw (h other) refl

  -- The set of a status loses the session and keeps all others.
  deleted-has :
      (key other : Str)
      → SetOf (some key)
      → has other ((deleted up known id db).members key)
        ≡ (not (str_eq other id) && has other (db.members key))
  unfolding deleted
  deleted-has key other h =
      let gone = drop_key (session_key id) db in
      let by_status = removed_all status_sets id gone.members in
      let rest = removed_all (other_sets up known) id by_status in
      let left = record gone { members = rest } in
      ap (has other) (drop_claim-members key id left h.0)
      ∙ listed-removed_all (other_sets up known) key other id by_status
      ∙ rw (listed-removed_all status_sets key other id gone.members) (
          rw (h.1, drop_session-members key id db h.0)
            (dropped_twice (has key (other_sets up known)) (str_eq other id)
              (has other (db.members key))))

  deleted-listed :
      (set : Option Str) (other : Str)
      → SetOf set
      → listed set other (deleted up known id db).members
        ≡ (not (str_eq other id) && listed set other db.members)
  deleted-listed none other h = ground arith
  deleted-listed (some key) other h = deleted-has key other h

  pub deleted-Implements :
      Implements db statuses → Implements (deleted up known id db) (set_status id none statuses)
  deleted-Implements h = record {
    held = deleted-held h.held;
    indexed = λ s other.
        index_dropped (str_eq other id) (index_set s) (set_of (statuses other))
          (listed (index_set s) other db.members) _ (h.indexed s other)
          (deleted-listed (index_set s) other (index_set-SetOf s))
        ∙ ap (same_set (index_set s)) (sym (set_of-if (str_eq other id) none (statuses other)));
  }
