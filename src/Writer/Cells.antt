-- ===== src/Writer/Cells.antt =====
-- `md_cell` of ma-core/src/capture/writer.rs: a cell cannot break its row, and the text can be
-- read back from it.
use memory_archive.Prelude.{
  ◌==◌, if◌then◌else◌, ==_iff, Bool-cases, ℕ, ◌≡◌, refl, sym, ap, subst, ◌∙◌, inl, inr, Bool, true,
  false, not, ◌||◌, [], ◌∷◌, arith,
}
use memory_archive.Text.{Str}
use memory_archive.Writer.{is_break, pipe, cell_char, md_cell}

abbrev pub mark : ℕ
mark = 0x5C

-- The text with each line break as a space.
pub fold_breaks : Str → Str
fold_breaks [] = []
fold_breaks (c ∷ text) = (if c == 10 || c == 13 then b' ' else c) ∷ fold_breaks text

-- Reading a cell: a mark is dropped if a pipe follows it. `held` says that a mark was read and is
-- still to be judged.
abbrev release : Bool → Str → Str
release true rest = mark ∷ rest
release false rest = rest

pub read_from : Bool → Str → Str
read_from held [] = release held []
read_from held (c ∷ cell) =
    let plain = read_from false cell in
    let after_mark = read_from true cell in
    if c == pipe
    then pipe ∷ plain
    else if c == mark
    then release held after_mark
    else release held (c ∷ plain)

abbrev pub read_cell : Str → Str
read_cell cell = read_from false cell

read_from-md_cell :
    (held : Bool) (text : Str) → read_from held (md_cell text) ≡ release held (fold_breaks text)
unfolding read_from md_cell fold_breaks
read_from-md_cell held [] = refl
read_from-md_cell held (c ∷ text) = elim (Bool-cases (c == pipe)) [
  | inl is_pipe ↦
      subst
        (λ d. read_from held (cell_char d (md_cell text)) ≡ release held (fold_breaks (d ∷ text)))
        (sym ((==_iff c pipe).0 is_pipe))
        (ap (λ w. release held (pipe ∷ w)) (read_from-md_cell false text))
  | inr no_pipe ↦ elim (Bool-cases (c == 10 || c == 13)) [
    | inl is_space ↦
        rw no_pipe (rw is_space (ap (λ w. release held (b' ' ∷ w)) (read_from-md_cell false text)))
    | inr no_break ↦ elim (Bool-cases (c == mark)) [
      | inl is_mark ↦
          subst
            (λ d.
              read_from held (cell_char d (md_cell text)) ≡ release held (fold_breaks (d ∷ text)))
            (sym ((==_iff c mark).0 is_mark)) (ap (release held) (read_from-md_cell true text))
      | inr no_mark ↦ rw no_pipe (
          rw no_break (
            rw no_pipe
              (rw no_mark (ap (λ w. release held (c ∷ w)) (read_from-md_cell false text)))))
    ]
  ]
]

-- Every pipe of the cell stands behind a mark, and no line breaks.
abbrev pub Unbroken : Bool → Str → Type 0
Unbroken marked [] = Unit
Unbroken marked (c ∷ cell) =
    ((marked || not (c == pipe)) ≡ true) × (is_break c ≡ false) × Unbroken (c == mark) cell

or_true : (b : Bool) → (b || true) ≡ true
or_true b = ground arith

md_cell-Unbroken : (marked : Bool) (text : Str) → Unbroken marked (md_cell text)
unfolding md_cell
md_cell-Unbroken marked [] = tt
md_cell-Unbroken marked (c ∷ text) = elim (Bool-cases (c == pipe)) [
  | inl is_pipe ↦ rw is_pipe (or_true marked, refl, (refl, refl, md_cell-Unbroken false text))
  | inr no_pipe ↦ elim (Bool-cases (c == 10 || c == 13)) [
    | inl is_space ↦ rw no_pipe (rw is_space (or_true marked, refl, md_cell-Unbroken false text))
    | inr no_break ↦ rw no_pipe (
        rw no_break (
          ap (λ b. marked || not b) no_pipe ∙ or_true marked,
          no_break,
          md_cell-Unbroken (c == mark) text,
        ))
  ]
]

-- A command's cell holds no pipe without a mark in front and no line break, and reading it gives
-- the command, with a space for each line break.
pub read_cell-md_cell :
    (text : Str) → Unbroken false (md_cell text) × (read_cell (md_cell text) ≡ fold_breaks text)
read_cell-md_cell text = (md_cell-Unbroken false text, read_from-md_cell false text)
