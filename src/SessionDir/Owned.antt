-- ===== src/SessionDir/Owned.antt =====
-- Which directories a purge removes, of `purge_memory_dir` in ma-core/src/session/mod.rs.
use memory_archive.Prelude.{
  if◌then◌else◌, &&-eq_true, Bool-cases, ◌≡◌, refl, sym, ap, subst, ◌∙◌, ◌⊎◌, inl, inr, Bool, true,
  false, ◌&&◌, Option, none, some, ◌++◌,
}
use memory_archive.Text.{Str, str_eq_iff, str_eq_refl}
use memory_archive.SessionDir.{
  incomplete_suffix, Dirs, Removal, owner_in, is_owner, is_in, remove_dir, purge_existing,
  purge_candidate, also_removed, purge_sibling, purge_memory_dir,
}

-- A directory is there, and its metadata names the session.
abbrev pub Owns : Removal → Str → Option (Option Str) → Type 0
Owns w session_id none = ⊥
Owns w session_id (some raw) = owner_in w raw ≡ some session_id

abbrev owned : Removal → Str → Option (Option Str) → Bool
owned w session_id none = false
owned w session_id (some raw) = is_owner session_id (owner_in w raw)

is_owner-eq :
    (session_id : Str) (o : Option Str) → is_owner session_id o ≡ true → o ≡ some session_id
is_owner-eq session_id none h = cc
is_owner-eq session_id (some owner) h = ap some ((str_eq_iff owner session_id).0 h)

abbrev dirs_of : Dirs → Option (Dirs × Bool) → Dirs
dirs_of other none = other
dirs_of other (some (dirs, removed)) = dirs

also_removed-split :
    (one : Bool) (o : Option (Dirs × Bool)) {after : Dirs} {removed : Bool}
    → also_removed one o ≡ some (after, removed)
    → (two : Bool) × (o ≡ some (after, two))
also_removed-split one none h = cc
also_removed-split one (some (dirs, two)) {after} h =
    (two, ap (λ d. some (d, two)) (ap (dirs_of after) h))

module _ (w : Removal) (id : Str) where
  owned-Owns : (found : Option (Option Str)) → owned w id found ≡ true → Owns w id found
  owned-Owns none h = cc
  owned-Owns (some raw) h = is_owner-eq id (owner_in w raw) h

  Owns-owned : (found : Option (Option Str)) → Owns w id found → owned w id found ≡ true
  Owns-owned none h = absurd h
  Owns-owned (some raw) h = rw h (str_eq_refl id)

  purge_existing_lem :
      (candidate : Str) (dirs after : Dirs) (removed : Bool) (found : Option (Option Str))
      → purge_existing w id candidate dirs found ≡ some (after, removed)
      → (if owned w id found then remove_dir candidate dirs else dirs) ≡ after
  purge_existing_lem candidate dirs after removed none h = ap (dirs_of after) h
  purge_existing_lem candidate dirs after removed (some raw) h =
      elim (Bool-cases (is_owner id (owner_in w raw))) [
        | inl e ↦ elim (Bool-cases (w.removes candidate)) [
          | inl gone ↦ rw e (ap (dirs_of after) (sym (branches e gone) ∙ h))
          | inr stuck ↦ cc (stuck_branch e stuck)
        ]
        | inr e ↦ rw e (ap (dirs_of after) (sym (other_branch e) ∙ h))
      ]
    where
      branches :
          is_owner id (owner_in w raw) ≡ true
          → w.removes candidate ≡ true
          → purge_existing w id candidate dirs (some raw) ≡ some (remove_dir candidate dirs, true)
      branches e gone = rw (e, gone) refl

      stuck_branch :
          is_owner id (owner_in w raw) ≡ true
          → w.removes candidate ≡ false
          → purge_existing w id candidate dirs (some raw) ≡ none
      stuck_branch e stuck = rw (e, stuck) refl

      other_branch :
          is_owner id (owner_in w raw) ≡ false
          → purge_existing w id candidate dirs (some raw) ≡ some (dirs, false)
      other_branch e = rw e refl

  -- What a candidate that is purged leaves at any path.
  left_at :
      (b : Bool) (candidate : Str) (dirs : Dirs) (other : Str)
      → (if b then remove_dir candidate dirs else dirs) other
        ≡ (if b && is_in candidate other then none else dirs other)
  left_at true candidate dirs other = unfold remove_dir in refl
  left_at false candidate dirs other = refl

  purge_candidate_lem :
      (candidate : Str) (dirs after : Dirs) (removed : Bool)
      → purge_candidate w id candidate dirs ≡ some (after, removed)
      → (other : Str)
      → after other
        ≡ (if owned w id (dirs candidate) && is_in candidate other then none else dirs other)
  unfolding purge_candidate
  purge_candidate_lem candidate dirs after removed h other =
      ap (λ d. d other) (sym (purge_existing_lem candidate dirs after removed (dirs candidate) h))
      ∙ left_at (owned w id (dirs candidate)) candidate dirs other

  -- What one purge does to a directory: nothing, or it is removed with the session's directory that
  -- it is in.
  abbrev pub Purged : (candidate other : Str) → Dirs → Dirs → Type 0
  Purged candidate other dirs after =
      Owns w id (dirs candidate) × (is_in candidate other ≡ true) × (after other ≡ none)

  candidate-kept :
      (candidate : Str) (dirs after : Dirs) (removed : Bool) (other : Str)
      → purge_candidate w id candidate dirs ≡ some (after, removed)
      → (after other ≡ dirs other) ⊎ Purged candidate other dirs after
  candidate-kept candidate dirs after removed other h =
      let lem = purge_candidate_lem candidate dirs after removed h other in
      elim (Bool-cases (owned w id (dirs candidate) && is_in candidate other)) [
        | inl e ↦
            let (o, inside) = &&-eq_true (owned w id (dirs candidate)) (is_in candidate other) e in
            inr (owned-Owns (dirs candidate) o, inside, lem ∙ rw e refl)
        | inr e ↦ inl (lem ∙ rw e refl)
      ]

  candidate-gone :
      (candidate : Str) (dirs after : Dirs) (removed : Bool)
      → purge_candidate w id candidate dirs ≡ some (after, removed)
      → ¬ Owns w id (after candidate)
  candidate-gone candidate dirs after removed h = λ o.
      let lem = purge_candidate_lem candidate dirs after removed h candidate in
      elim (Bool-cases (owned w id (dirs candidate))) [
        | inl e ↦
            let nothing : after candidate ≡ none = lem ∙ rw (e, str_eq_refl candidate) refl in
            subst (Owns w id) nothing o
        | inr e ↦
            let same : after candidate ≡ dirs candidate = lem ∙ rw e refl in
            cc (Owns-owned (dirs candidate) (subst (Owns w id) same o))
      ]

  -- A directory that the first purge left to the session was the session's before.
  owned_before :
      (path sibling : Str) (dirs mid : Dirs)
      → (mid sibling ≡ dirs sibling) ⊎ Purged path sibling dirs mid
      → Owns w id (mid sibling)
      → Owns w id (dirs sibling)
  owned_before path sibling dirs mid (inl e) o = subst (Owns w id) e o
  owned_before path sibling dirs mid (inr gone) o = absurd (subst (Owns w id) gone.2 o)

  -- A directory is left, or it was in one of the two, which was the session's.
  abbrev pub Left : (path other : Str) → Dirs → Dirs → Type 0
  Left path other dirs after =
      (after other ≡ dirs other)
      ⊎ Purged path other dirs after
      ⊎ Purged (path ++ incomplete_suffix) other dirs after

  kept_twice :
      (path other : Str) (dirs mid after : Dirs)
      → (mid other ≡ dirs other) ⊎ Purged path other dirs mid
      → (after other ≡ mid other) ⊎ Purged (path ++ incomplete_suffix) other mid after
      → (Owns w id (mid (path ++ incomplete_suffix)) → Owns w id (dirs (path ++ incomplete_suffix)))
      → Left path other dirs after
  kept_twice path other dirs mid after (inl e) (inl f) back = inl (f ∙ e)
  kept_twice path other dirs mid after (inl e) (inr gone) back =
      inr (inr (back gone.0, gone.1, gone.2))
  kept_twice path other dirs mid after (inr gone) (inl f) back =
      inr (inl (gone.0, gone.1, f ∙ gone.2))
  kept_twice path other dirs mid after (inr first) (inr second) back =
      inr (inl (first.0, first.1, second.2))

  purge_sibling-split :
      (sibling : Str) (first : Option (Dirs × Bool)) (after : Dirs) (removed : Bool)
      → purge_sibling w id sibling first ≡ some (after, removed)
      → (mid : Dirs) × (one : Bool) × (two : Bool) × (first ≡ some (mid, one))
        × (purge_candidate w id sibling mid ≡ some (after, two))
  purge_sibling-split sibling none after removed h = cc
  purge_sibling-split sibling (some (mid, one)) after removed h =
      let (two, e) = also_removed-split one (purge_candidate w id sibling mid) h in
      (mid, one, two, refl, e)

  -- A purge that succeeds leaves every directory as it was, but for the memory's path and its
  -- sibling's with all that is below them: such a one is removed only if its own metadata names the
  -- session, and neither is left as a directory of the session.
  pub purge_memory_dir-owned :
      (memory_path other : Str) (dirs : Dirs) {after : Dirs} {removed : Bool}
      → purge_memory_dir w memory_path id dirs ≡ some (after, removed)
      → Left memory_path other dirs after
        × (¬ Owns w id (after memory_path))
        × (¬ Owns w id (after (memory_path ++ incomplete_suffix)))
  unfolding purge_memory_dir
  purge_memory_dir-owned memory_path other dirs {after} {removed} h =
      let sibling = memory_path ++ incomplete_suffix in
      let (mid, one, two, first, second) =
        purge_sibling-split sibling (purge_candidate w id memory_path dirs) after removed h in
      (
        kept_twice memory_path other dirs mid after
            (candidate-kept memory_path dirs mid one other first)
            (candidate-kept sibling mid after two other second)
            (owned_before memory_path sibling dirs mid
              (candidate-kept memory_path dirs mid one sibling first)),
        λ o. elim (candidate-kept sibling mid after two memory_path second) [
          | inl e ↦ candidate-gone memory_path dirs mid one first (subst (Owns w id) e o)
          | inr gone ↦ subst (Owns w id) gone.2 o
        ],
        candidate-gone sibling mid after two second,
      )
