-- ===== src/Router/Pinned.antt =====
-- Which backend a session gets at its registration and later, of ma-core/src/storage/router.rs.
use memory_archive.Prelude.{
  if◌then◌else◌, is_empty, All, Bool-cases, ◌≡◌, refl, ap, subst, ◌∙◌, ◌⊎◌, inl, inr, Bool, true,
  false, Option, none, some, List, [], ◌∷◌, ◌++◌,
}
use memory_archive.Text.{Str, str_eq_refl}
use memory_archive.Registry.Schema.{SessionRecord}
use memory_archive.Router.{
  RoutingRule, matched, pool_get, first_backend, named, resolve_rules, resolve, resolve_for_session,
}

module _ {Backend : Type 0} where
  -- A rule is passed over when it does not match or names a backend that the pool does not have.
  abbrev pub IsPassedOver : List (Str × Backend) → (tenant_id : Str) → RoutingRule → Type 0
  IsPassedOver pool tenant_id rule =
      (matched rule.matcher tenant_id ≡ false) ⊎ (pool_get rule.backend_name pool ≡ none)

  skipped :
      (b : Bool) (name : Str) {found : Option Backend} (later : Option (Str × Backend))
      → found ≡ none
      → (if b then named name found later else later) ≡ later
  skipped true name later e = ap (λ f. named name f later) e
  skipped false name later e = refl

  passed_over :
      (pool : List (Str × Backend)) (tenant_id : Str) (before rules : List RoutingRule)
      → All (IsPassedOver pool tenant_id) before
      → resolve_rules pool (before ++ rules) tenant_id ≡ resolve_rules pool rules tenant_id
  unfolding resolve_rules
  passed_over pool tenant_id [] rules h = refl
  passed_over pool tenant_id (rule ∷ before) rules (inl e, later) =
      rw e (passed_over pool tenant_id before rules later)
  passed_over pool tenant_id (rule ∷ before) rules (inr e, later) =
      skipped (matched rule.matcher tenant_id) rule.backend_name
        (resolve_rules pool (before ++ rules) tenant_id) e
      ∙ passed_over pool tenant_id before rules later

  -- A tenant gets the backend of the first rule that matches it and names a backend of the pool.
  pub resolve-first :
      (pool : List (Str × Backend)) (tenant_id : Str) (before : List RoutingRule)
      (rule : RoutingRule) (after : List RoutingRule) {backend : Backend}
      → All (IsPassedOver pool tenant_id) before
      → matched rule.matcher tenant_id ≡ true
      → pool_get rule.backend_name pool ≡ some backend
      → resolve (record { pool = pool; rules = before ++ rule ∷ after }) tenant_id
        ≡ some (rule.backend_name, backend)
  unfolding resolve resolve_rules
  resolve-first pool tenant_id before rule after over match known =
      passed_over pool tenant_id before (rule ∷ after) over ∙ rw (match, known) refl

  abbrev Named : List (Str × Backend) → Option (Str × Backend) → Type 0
  Named pool none = Unit {0}
  Named pool (some (name, backend)) = pool_get name pool ≡ some backend

  first_backend-Named : (pool : List (Str × Backend)) → Named pool (first_backend pool)
  unfolding pool_get
  first_backend-Named [] = tt
  first_backend-Named ((name, backend) ∷ pool) = rw (str_eq_refl name) refl

  named-Named :
      (pool : List (Str × Backend)) (name : Str) (found : Option Backend)
      (later : Option (Str × Backend))
      → pool_get name pool ≡ found
      → Named pool later
      → Named pool (named name found later)
  named-Named pool name none later e h = h
  named-Named pool name (some backend) later e h = e

  -- The backend of a resolution is in the pool under its name, also the one that is fallen back to.
  resolve_rules-Named :
      (pool : List (Str × Backend)) (rules : List RoutingRule) (tenant_id : Str)
      → Named pool (resolve_rules pool rules tenant_id)
  unfolding resolve_rules
  resolve_rules-Named pool [] tenant_id = first_backend-Named pool
  resolve_rules-Named pool (rule ∷ rules) tenant_id =
      let later = resolve_rules-Named pool rules tenant_id in
      elim (Bool-cases (matched rule.matcher tenant_id)) [
        | inl match ↦
            rw match
              (named-Named pool rule.backend_name (pool_get rule.backend_name pool) _ refl later)
        | inr passed ↦ rw passed later
      ]

  -- A session that is registered with the name of the backend that its tenant was given, by a rule
  -- or by the fallback, is given the same backend later, whatever the rules and the tenant are by
  -- then, if that name is not empty and the pool is the same.
  pub resolve_for_session-kept :
      {Time : Type 0} (pool : List (Str × Backend)) (rules later : List RoutingRule)
      (tenant_id name : Str) (session : SessionRecord Time) {backend : Backend}
      → resolve (record { pool = pool; rules = rules }) tenant_id ≡ some (name, backend)
      → is_empty name ≡ false
      → session.storage_backend ≡ name
      → resolve_for_session (record { pool = pool; rules = later }) session ≡ some backend
  unfolding resolve resolve_for_session
  resolve_for_session-kept pool rules later tenant_id name session {backend} given nonempty pinned =
      let known : pool_get name pool ≡ some backend =
        subst (Named pool) given (resolve_rules-Named pool rules tenant_id) in
      rw (pinned, nonempty, known) refl
