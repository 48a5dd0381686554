-- ===== src/Registry/Transfer.antt =====
-- The methods of Registry/Sessions follow themselves on the reference database.
use memory_archive.Prelude.{
  ltb, if◌then◌else◌, ℕ, Bool, true, false, Option, none, some, List, [], ◌∷◌,
}
use memory_archive.Registry.Sessions.{
  read_record, sadd_to, srem_from, add_to_indexes, clear_ttl, set_ttl, apply_ttl, update_status,
  srem_all, delete_session, register, get,
}
use memory_archive.Text.{Str}
use memory_archive.Registry.Redis.{Op, return, Redis}
use memory_archive.Registry.Redis.Reference.{store, Follows, Documented, Follows-refl, bind-Follows}
use memory_archive.Registry.Schema.{SessionStatus, SessionMode, Chrono, SessionRecord}

if-Follows :
    {A : Type 0} (b : Bool) {m m' n n' : Op A}
    → Follows m m'
    → Follows n n'
    → Follows (if b then m else n) (if b then m' else n')
if-Follows true p q = p
if-Follows false p q = q

module _ (r : Redis) (d : Documented r) where
  sadd_to-Follows :
      (set : Option Str) (id : Str) → Follows (sadd_to r set id) (sadd_to store set id)
  unfolding sadd_to
  sadd_to-Follows (some set) id = d.sadd_lem set id
  sadd_to-Follows none id = Follows-refl _

  srem_from-Follows :
      (set : Option Str) (id : Str) → Follows (srem_from r set id) (srem_from store set id)
  unfolding srem_from
  srem_from-Follows (some set) id = d.srem_lem set id
  srem_from-Follows none id = Follows-refl _

  clear_ttl-Follows : (id : Str) → Follows (clear_ttl r id) (clear_ttl store id)
  unfolding clear_ttl
  clear_ttl-Follows id =
      bind-Follows (λ _. return tt) (λ _. return tt) (d.persist_lem _) (λ _. Follows-refl _)

  apply_ttl-Follows :
      (id : Str) (ttl : Option ℕ) → Follows (apply_ttl r id ttl) (apply_ttl store id ttl)
  unfolding apply_ttl set_ttl
  apply_ttl-Follows id (some ttl) = d.expire_lem _ _
  apply_ttl-Follows id none = clear_ttl-Follows id

  pub update_status-Follows :
      (now id : Str) (status : SessionStatus)
      → Follows (update_status r now id status) (update_status store now id status)
  unfolding update_status
  update_status-Follows now id status = bind-Follows _ _ (d.hget_lem _ _) (λ current.
      bind-Follows _ _ (srem_from-Follows _ _) (λ _.
        bind-Follows _ _ (d.hset_lem _ _)
          (λ _. bind-Follows _ _ (sadd_to-Follows _ _) (λ _. apply_ttl-Follows _ _))))

  srem_all-Follows :
      (sets : List Str) (id : Str) → Follows (srem_all r sets id) (srem_all store sets id)
  unfolding srem_all
  srem_all-Follows [] id = Follows-refl _
  srem_all-Follows (set ∷ sets) id =
      bind-Follows _ _ (d.srem_lem set id) (λ _. srem_all-Follows sets id)

  pub delete_session-Follows :
      {Time : Type 0} (up : Str → Str) (id : Str) (known : Option (SessionRecord Time))
      → Follows (delete_session r up id known) (delete_session store up id known)
  unfolding delete_session
  delete_session-Follows up [] known = Follows-refl _
  delete_session-Follows up (x ∷ rest) known = bind-Follows _ _ (d.del_lem _) (λ removed.
      bind-Follows _ _ (srem_all-Follows _ _) (λ _. bind-Follows _ _ (srem_all-Follows _ _) (λ _.
        bind-Follows (λ _. return (ltb 0 removed)) (λ _. return (ltb 0 removed)) (d.del_lem _)
          (λ _. Follows-refl _))))

  add_to_indexes-Follows :
      (up : Str → Str) (id : Str) (status : SessionStatus) (os : Str) (mode : SessionMode)
      → Follows (add_to_indexes r up id status os mode) (add_to_indexes store up id status os mode)
  unfolding add_to_indexes
  add_to_indexes-Follows up id status os mode =
      bind-Follows _ _ (sadd_to-Follows _ _)
        (λ _. bind-Follows _ _ (d.sadd_lem _ _) (λ _. d.sadd_lem _ _))

  pub register-Follows :
      (c : Chrono) (up : Str → Str) (new : SessionRecord c.Time)
      → Follows (register r c up new) (register store c up new)
  unfolding register
  register-Follows c up new = bind-Follows _ _ (d.exists_lem _) (λ there.
      if-Follows there (Follows-refl _)
        (bind-Follows _ _ (d.hset_lem _ _) (λ _. add_to_indexes-Follows _ _ _ _ _)))

  pub get-Follows : (c : Chrono) (id : Str) → Follows (get r c id) (get store c id)
  unfolding get
  get-Follows c id = bind-Follows _ _ (d.hgetall_lem _) (λ map. Follows-refl (read_record c map))
