-- ===== src/Registry/Counted.antt =====
-- What the claim script of ma-core/src/ipc/mod.rs does to the database.
use memory_archive.Prelude.{
  ltb, leb, if◌then◌else◌, ℕ, suc, ◌≡◌, ◌≢◌, sym, ap, subst, ◌∙◌, ◌⊎◌, inl, inr, Bool, true, false,
  ◌&&◌, List, [], ◌∷◌, ◌++◌,
}
use memory_archive.Prelude.Result.{ok}
use memory_archive.Text.{Str}
use memory_archive.Registry.Redis.{Db, ◌>>=◌, return, left_in, answer, Redis}
use memory_archive.Registry.Redis.Reference.{set_absent, store, Documented}
use memory_archive.Registry.Effects.{claim_key}
use memory_archive.Registry.Refines.{continue_with-ok}
use memory_archive.Registry.Claims.{claim_value}
use memory_archive.Registry.Script.{
  ScriptReply, claimed_ok, taken, limit, claim_ttl_secs, has_prefix, count_held, count_below,
  set_claim, claim_script, claim_target,
}

pub limit-ne : (n : ℕ) → limit n ≢ claimed_ok
limit-ne n e = cc

pub taken-ne : taken ≢ claimed_ok
taken-ne e = cc

-- What a script that answers has done: nothing, at the limit, or one SET NX.
abbrev pub Scripted : (key value : Str) (ttl : ℕ) → Db → Db → ScriptReply → Type 0
Scripted key value ttl db db' reply =
    ((n : ℕ) × (reply ≡ limit n) × (db' ≡ db))
    ⊎ ((set : Bool) × (set_absent key value ttl db ≡ (db', ok set))
        × (reply ≡ (if set then claimed_ok else taken)))

module _ (r : Redis) (d : Documented r) where
  count_held-same :
      (prefix : Str) (keys : List Str) (db db' : Db) (n : ℕ)
      → count_held r prefix keys db ≡ (db', ok n)
      → db' ≡ db
  unfolding count_held store
  count_held-same prefix [] db db' n ran = sym (ap left_in ran)
  count_held-same prefix (key ∷ keys) db db' n ran =
      let (mid, v, got, rest) =
        continue_with-ok
          (λ v. count_held r prefix keys >>= λ count.
            return (if has_prefix prefix v then suc count else count))
          (r.get key db) ran in
      let (end, count, counted, last) =
        continue_with-ok (λ count. return (if has_prefix prefix v then suc count else count))
          (count_held r prefix keys mid) rest in
      sym (ap left_in last)
      ∙ count_held-same prefix keys mid end count counted
      ∙ sym (ap left_in ((d.get_lem key).same db mid v got))

  count_below-same :
      (b : Bool) (prefix : Str) (keys : List Str) (db db' : Db) (n : ℕ)
      → (if b then count_held r prefix keys else return 0) db ≡ (db', ok n)
      → db' ≡ db
  count_below-same true prefix keys db db' n ran = count_held-same prefix keys db db' n ran
  count_below-same false prefix keys db db' n ran = sym (ap left_in ran)

  set_or_limit :
      (b : Bool) (count : ℕ) (key value : Str) (ttl : ℕ) (db db' : Db) (reply : ScriptReply)
      → (if b then return (limit count) else set_claim r key value ttl) db ≡ (db', ok reply)
      → Scripted key value ttl db db' reply
  unfolding store
  set_or_limit true count key value ttl db db' reply ran =
      inl (count, ap (λ p. answer reply p.1) (sym ran), sym (ap left_in ran))
  set_or_limit false count key value ttl db db' reply ran =
      let (mid, set, sent, rest) =
        continue_with-ok (λ set. return (if set then claimed_ok else taken))
          (r.set_nx_ex key value ttl db) ran in
      inr (
        set,
        (d.set_nx_ex_lem key value ttl).same db mid set sent
            ∙ ap (λ m. (m, ok set)) (ap left_in rest),
        ap (λ p. answer reply p.1) (sym rest),
      )

  pub claim_target-Scripted :
      (target annotator claim : Str) (max_c : ℕ) (scanned : List Str) (db db' : Db)
      (reply : ScriptReply)
      → claim_target r target annotator claim max_c scanned db ≡ (db', ok reply)
      → Scripted (claim_key target) (claim_value annotator claim) claim_ttl_secs db db' reply
  unfolding claim_target claim_script
  claim_target-Scripted target annotator claim max_c scanned db db' reply ran =
      let key = claim_key target in
      let value = claim_value annotator claim in
      let prefix = annotator ++ b':' ∷ [] in
      let (mid, count, counted, rest) =
        continue_with-ok
          (λ count.
            if ltb 0 max_c && leb max_c count
            then return (limit count)
            else set_claim r key value claim_ttl_secs)
          (count_below r prefix max_c scanned db) ran in
      subst (λ start. Scripted key value claim_ttl_secs start db' reply)
        (count_below-same (ltb 0 max_c) prefix scanned db mid count counted)
        (set_or_limit (ltb 0 max_c && leb max_c count) count key value claim_ttl_secs mid db' reply
          rest)
