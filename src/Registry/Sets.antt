-- ===== src/Registry/Sets.antt =====
-- Membership in the index sets of the registry, as the methods of ma-core/src/registry/mod.rs
-- change it.
use memory_archive.Prelude.{
  ◌≡◌, refl, ◌∙◌, Bool, false, not, ◌&&◌, ◌||◌, Option, none, some, List, [], ◌∷◌, arith,
}
use memory_archive.Text.{Str, str_eq, str_eq_iff}
use memory_archive.Registry.Redis.Reference.{has, insert, remove, at_key}

abbrev pub Members : Type 0
Members = Str → List Str

abbrev pub same_set : Option Str → Option Str → Bool
same_set (some a) (some b) = str_eq a b
same_set _ _ = false

abbrev pub listed : Option Str → Str → Members → Bool
listed none id members = false
listed (some set) id members = has id (members set)

abbrev pub added : Option Str → Str → Members → Members
added none id members = members
added (some set) id members = at_key set (insert id (members set)) members

abbrev pub removed : Option Str → Str → Members → Members
removed none id members = members
removed (some set) id members = at_key set (remove id (members set)) members

pub has-insert :
    (id new : Str) (ids : List Str) → has id (insert new ids) ≡ (str_eq id new || has id ids)
unfolding has insert
has-insert id new ids = ground (arith, str_eq_iff id new)

pub has-remove :
    (id old : Str) (ids : List Str) → has id (remove old ids) ≡ (not (str_eq id old) && has id ids)
unfolding has remove
has-remove id old [] = ground arith
has-remove id old (other ∷ rest) =
    ground
      (arith, has-remove id old rest, str_eq_iff id old, str_eq_iff old other, str_eq_iff id other)

pub listed-added :
    (s set : Option Str) (id new : Str) (members : Members)
    → listed s id (added set new members)
      ≡ ((same_set s set && str_eq id new) || listed s id members)
listed-added none none id new members = refl
listed-added none (some b) id new members = refl
listed-added (some a) none id new members = refl
listed-added (some a) (some b) id new members =
    ground (arith, str_eq_iff a b, has-insert id new (members b))

pub listed-removed :
    (s set : Option Str) (id old : Str) (members : Members)
    → listed s id (removed set old members)
      ≡ (not (same_set s set && str_eq id old) && listed s id members)
listed-removed none none id old members = refl
listed-removed none (some b) id old members = ground arith
listed-removed (some a) none id old members = refl
listed-removed (some a) (some b) id old members =
    ground (arith, str_eq_iff a b, has-remove id old (members b))

unfoldable pub removed_all : List Str → Str → Members → Members
removed_all [] id members = members
removed_all (set ∷ sets) id members = removed_all sets id (removed (some set) id members)

pub listed-removed_all :
    (sets : List Str) (key : Str) (id old : Str) (members : Members)
    → listed (some key) id (removed_all sets old members)
      ≡ (not (has key sets && str_eq id old) && listed (some key) id members)
unfolding removed_all has
listed-removed_all [] key id old members = refl
listed-removed_all (set ∷ sets) key id old members =
    listed-removed_all sets key id old (removed (some set) old members)
    ∙ ground (arith, listed-removed (some key) (some set) id old members)
