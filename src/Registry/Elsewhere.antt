-- ===== src/Registry/Elsewhere.antt =====
-- Single commands on other keys than a claim's, as any method of ma-core/src/registry/mod.rs sends
-- them: those of annotators, of index sets and of times to live, also the ones that a method sent
-- before it failed.
use memory_archive.Prelude.{
  Bool-cases, ℤ, pos, negsuc, zero, suc, ◌≡◌, refl, sym, ap, ◌∙◌, inl, inr, false,
}
use memory_archive.Prelude.Result.{ok}
use memory_archive.Text.{Str, str_eq}
use memory_archive.Registry.Schema.{Fields}
use memory_archive.Registry.Redis.{Db, Op, ◌>>=◌, return, left_in, Redis}
use memory_archive.Registry.Redis.Reference.{
  present, drop_key, expire_in, hset, sadd, srem, del, persist, expire, incr, store, Follows,
  bind-Follows, Follows-refl, Documented,
}

pub data Command : Type 0 where
  hash_set : Str → Fields → Command
  set_add set_remove : Str → Str → Command
  kept_alive dropped counted_up : Str → Command
  expiring : Str → ℤ → Command

unfoldable pub key_of : Command → Str
key_of (hash_set key fields) = key
key_of (set_add key id) = key
key_of (set_remove key id) = key
key_of (kept_alive key) = key
key_of (dropped key) = key
key_of (counted_up key) = key
key_of (expiring key seconds) = key

unfoldable pub send : Redis → Command → Op (Unit {0})
send r (hash_set key fields) = r.hset key fields
send r (set_add key id) = r.sadd key id
send r (set_remove key id) = r.srem key id
send r (kept_alive key) = r.persist key >>= λ done. return tt
send r (dropped key) = r.del key >>= λ n. return tt
send r (counted_up key) = r.incr key >>= λ n. return tt
send r (expiring key seconds) = r.expire key seconds

send-Follows : (r : Redis) → Documented r → (x : Command) → Follows (send r x) (send store x)
unfolding send
send-Follows r d (hash_set key fields) = d.hset_lem key fields
send-Follows r d (set_add key id) = d.sadd_lem key id
send-Follows r d (set_remove key id) = d.srem_lem key id
send-Follows r d (kept_alive key) =
    bind-Follows _ _ (d.persist_lem key) λ _. Follows-refl (return tt)
send-Follows r d (dropped key) = bind-Follows _ _ (d.del_lem key) λ _. Follows-refl (return tt)
send-Follows r d (counted_up key) = bind-Follows _ _ (d.incr_lem key) λ _. Follows-refl (return tt)
send-Follows r d (expiring key seconds) = d.expire_lem key seconds

module _ (other : Str) where
  drop_key-text :
      (key : Str) (db : Db)
      → str_eq other key ≡ false
      → (drop_key key db).text other ≡ db.text other
  unfolding drop_key
  drop_key-text key db e = rw e refl

  expire_in-text :
      (key : Str) (seconds : ℤ) (db : Db)
      → str_eq other key ≡ false
      → (expire_in key seconds db).text other ≡ db.text other
  unfolding expire_in
  expire_in-text key (pos zero) db e = drop_key-text key db e
  expire_in-text key (pos (suc n)) db e = refl
  expire_in-text key (negsuc n) db e = drop_key-text key db e

  -- A command leaves the texts of the other keys.
  send-text :
      (x : Command) (db : Db)
      → str_eq other (key_of x) ≡ false
      → (left_in (send store x db)).text other ≡ db.text other
  unfolding send key_of store hset sadd srem del persist expire incr
  send-text (hash_set key fields) db e = refl
  send-text (set_add key id) db e = refl
  send-text (set_remove key id) db e = refl
  send-text (kept_alive key) db e = refl
  send-text (dropped key) db e = drop_key-text key db e
  send-text (counted_up key) db e = rw e refl
  send-text (expiring key seconds) db e = elim (Bool-cases (present key db)) [
    | inl there ↦ rw there (expire_in-text key seconds db e)
    | inr absent ↦ rw absent refl
  ]

  pub sent-text :
      (r : Redis) (d : Documented r) (x : Command) (db db' : Db)
      → str_eq other (key_of x) ≡ false
      → send r x db ≡ (db', ok tt)
      → db'.text other ≡ db.text other
  sent-text r d x db db' e ran =
      ap (λ p. (left_in p).text other) (sym ((send-Follows r d x).same db db' tt ran))
      ∙ send-text x db e
