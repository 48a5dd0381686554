-- ===== src/Router.antt =====
-- ma-core/src/storage/router.rs: the choice of a storage backend for a session. The pool is a
-- list of names and backends in the order in which its hash map is iterated.
pub mod Pinned
use memory_archive.Prelude.{
  if◌then◌else◌, is_empty, Bool, true, not, ◌&&◌, Option, none, some, List, [], ◌∷◌, map,
}
use memory_archive.Text.{Str, str_eq}
use memory_archive.Text.Search.{starts_with}
use memory_archive.Registry.Schema.{SessionRecord}

pub data RuleMatcher : Type 0 where
  tenant_prefix : Str → RuleMatcher
  default : RuleMatcher

pub record RoutingRule : Type 0 where
  pub matcher : RuleMatcher
  pub backend_name : Str

pub record StorageRouter (Backend : Type 0) : Type 0 where
  pub pool : List (Str × Backend)
  pub rules : List RoutingRule

unfoldable pub matched : RuleMatcher → (tenant_id : Str) → Bool
matched (tenant_prefix prefix) tenant_id = not (is_empty tenant_id) && starts_with prefix tenant_id
matched default tenant_id = true

module _ {Backend : Type 0} where
  -- `pool.get(name)`
  unfoldable pub pool_get : Str → List (Str × Backend) → Option Backend
  pool_get name [] = none
  pool_get name ((other, backend) ∷ pool) =
      let later = pool_get name pool in if str_eq name other then some backend else later

  -- `pool.iter().next()`; `none` is the panic on a pool that is empty
  abbrev pub first_backend : List (Str × Backend) → Option (Str × Backend)
  first_backend [] = none
  first_backend (entry ∷ pool) = some entry

  abbrev pub named : Str → Option Backend → Option (Str × Backend) → Option (Str × Backend)
  named name (some backend) otherwise = some (name, backend)
  named name none otherwise = otherwise

  -- The rules in their order: one that names an unknown backend is skipped.
  unfoldable pub resolve_rules :
      List (Str × Backend) → List RoutingRule → (tenant_id : Str) → Option (Str × Backend)
  resolve_rules pool [] tenant_id = first_backend pool
  resolve_rules pool (rule ∷ rules) tenant_id =
      let later = resolve_rules pool rules tenant_id in
      if matched rule.matcher tenant_id
      then named rule.backend_name (pool_get rule.backend_name pool) later
      else later

  unfoldable pub resolve : StorageRouter Backend → (tenant_id : Str) → Option (Str × Backend)
  resolve router tenant_id = resolve_rules router.pool router.rules tenant_id

  abbrev pub backend_of : Option (Str × Backend) → Option Backend
  backend_of none = none
  backend_of (some (name, backend)) = some backend

  abbrev pub or_else : Option Backend → Option Backend → Option Backend
  or_else (some backend) otherwise = some backend
  or_else none otherwise = otherwise

  unfoldable pub resolve_for_session :
      {Time : Type 0} → StorageRouter Backend → SessionRecord Time → Option Backend
  resolve_for_session router session =
      let resolved = backend_of (resolve router session.tenant_id) in
      if not (is_empty session.storage_backend)
      then or_else (pool_get session.storage_backend router.pool) resolved
      else resolved

  unfoldable pub get_by_name : StorageRouter Backend → Str → Option Backend
  get_by_name router name = pool_get name router.pool
