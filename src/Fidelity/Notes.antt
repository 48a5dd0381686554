-- ===== src/Fidelity/Notes.antt =====
-- The notes of ma-core/src/capture/fidelity.rs, word for word. They are kept shut.
use memory_archive.Prelude.{[], ◌∷◌}
use memory_archive.Text.{Str, codes, concat}

pub dangling_escape_detail : Str
dangling_escape_detail = concat (
    codes "The recorded text ends in a lone backslash. That is what an escape sitting "
    ∷ codes "immediately before the cut point looks like, and it is the shape both known "
    ∷ codes "truncations left. A trailing backslash that is part of a path is not flagged."
    ∷ [])

pub double_quote_detail : Str
double_quote_detail = concat (
    codes "The recorded text contains an odd number of unescaped double-quote characters, "
    ∷ codes "which is the signature of a command cut short at a quote."
    ∷ [])

pub single_quote_detail : Str
single_quote_detail = concat (
    codes "The recorded text contains an odd number of single-quote characters, which can "
    ∷ codes "mean a command cut short at a quote. Note that a single quote is also an "
    ∷ codes "ordinary apostrophe, so typed prose can trip this legitimately."
    ∷ [])

-- what follows the detail in every note
pub note_of : Str → Str
note_of detail = concat (
    detail
    ∷ codes " Actuation is unaffected — if this step ran, the keystrokes were delivered and "
    ∷ codes "any artifact on disk is real; it is the stored copy of the command that may be "
    ∷ codes "incomplete. Verify it against this step's frames before annotating, and do not "
    ∷ codes "edit the record without recording why."
    ∷ [])
