-- ===== src/Capture/Pending.antt =====
-- Which steps of the metadata have no frame, of ma-core/src/capture/session_state.rs.
use memory_archive.Prelude.{
  if◌then◌else◌, ==_refl, ==-eq_false, is_some, All, ℕ, ◌≤◌, ◌<◌, ◌≡◌, refl, ap, List, [], ◌∷◌,
  ◌++◌, arith,
}
use memory_archive.State.{StepEntry, SkippedFetch, Frame, with_frame, update_first}

abbrev pub step_of : SkippedFetch → ℕ
step_of fetch = fetch.step_id

-- the numbers of the steps without a frame
unfoldable pub pending : List StepEntry → List ℕ
pending [] = []
pending (entry ∷ entries) =
    let rest = pending entries in if entry.image_fetched then rest else entry.step_id ∷ rest

pub pending-append : (xs ys : List StepEntry) → pending (xs ++ ys) ≡ pending xs ++ pending ys
unfolding pending
pending-append [] ys = refl
pending-append (x ∷ xs) ys = ground (arith, pending-append xs ys)

-- The frame of the newest step goes to that step.
pub update_first-last :
    (entries : List StepEntry) (entry : StepEntry) (frame : Frame)
    → All (λ e. e.step_id < entry.step_id) entries
    → update_first entry.step_id frame (entries ++ entry ∷ [])
      ≡ entries ++ with_frame frame entry ∷ []
unfolding update_first
update_first-last [] entry frame h = rw (==_refl entry.step_id) refl
update_first-last (e ∷ entries) entry frame h =
    rw (==-eq_false e.step_id entry.step_id (λ p. omega (arith, h.0)))
      (ap (λ rest. e ∷ rest) (update_first-last entries entry frame h.1))

-- A step is shown exactly if it has a path to its image.
abbrev pub IsShown : StepEntry → Type 0
IsShown e = e.image_fetched ≡ is_some e.image_path

-- The steps are numbered upwards, up to a number.
abbrev pub Numbered : ℕ → ℕ → List StepEntry → Type 0
Numbered low high [] = low ≤ high
Numbered low high (e ∷ entries) = (low < e.step_id) × Numbered e.step_id high entries

pub Numbered-append :
    (low high : ℕ) (entries : List StepEntry) (entry : StepEntry)
    → Numbered low high entries
    → high < entry.step_id
    → Numbered low entry.step_id (entries ++ entry ∷ [])
Numbered-append low high [] entry n h = (omega arith, omega arith)
Numbered-append low high (e ∷ entries) entry n h =
    (n.0, Numbered-append e.step_id high entries entry n.1 h)

pub Numbered-weaken :
    (low high higher : ℕ) (entries : List StepEntry)
    → Numbered low high entries
    → high ≤ higher
    → Numbered low higher entries
Numbered-weaken low high higher [] n h = omega arith
Numbered-weaken low high higher (e ∷ entries) n h =
    (n.0, Numbered-weaken e.step_id high higher entries n.1 h)

Numbered-le : (low high : ℕ) (entries : List StepEntry) → Numbered low high entries → low ≤ high
Numbered-le low high [] n = n
Numbered-le low high (e ∷ entries) n = omega (arith, Numbered-le e.step_id high entries n.1)

pub Numbered-below :
    (low high next : ℕ) (entries : List StepEntry)
    → Numbered low high entries
    → high < next
    → All (λ e. e.step_id < next) entries
Numbered-below low high next [] n h = tt
Numbered-below low high next (e ∷ entries) n h = (
  omega (arith, Numbered-le e.step_id high entries n.1),
  Numbered-below e.step_id high next entries n.1 h,
)
