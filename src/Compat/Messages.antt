-- ===== src/Compat/Messages.antt =====
-- The operator-facing refusals of ma-core/src/capture/compat.rs, word for word. They are kept
-- shut: what the gates decide does not depend on them.
use memory_archive.Prelude.{[], ◌∷◌}
use memory_archive.Text.{Str, codes, concat}

pub too_new_message : Str → Str → Str
too_new_message found max = concat (
    codes "Control-Center "
    ∷ found
    ∷ codes " is newer than this build of Memory Archive has been verified against (up "
    ∷ codes "to "
    ∷ max
    ∷ codes "). Refusing to record rather than risk a silent mismatch: a field can "
    ∷ codes "change meaning without changing on the wire, as `position_captured` did in "
    ∷ codes "1.2.0, and the result is a session that records confidently and wrongly. "
    ∷ codes "Either run Control-Center "
    ∷ max
    ∷ codes ", update Memory Archive (`memory-archive update`) to a build that lists "
    ∷ found
    ∷ codes " as supported, or — once the release notes confirm the command stream is "
    ∷ codes "unchanged — set `control_center_max_version = \""
    ∷ found
    ∷ codes "\"`. To bypass the gate entirely, set `control_center_allow_unsupported = "
    ∷ codes "true`."
    ∷ [])

pub too_old_message : Str → Str → Str
too_old_message found min = concat (
    codes "Control-Center "
    ∷ found
    ∷ codes " is older than the oldest release Memory Archive supports ("
    ∷ min
    ∷ codes "). Upgrade Control-Center, or set `control_center_allow_unsupported = true` "
    ∷ codes "to record anyway."
    ∷ [])

pub lossy_message : Str → Str → Str
lossy_message found min = concat (
    codes "Control-Center agent "
    ∷ found
    ∷ codes " does not record typed commands faithfully. Below "
    ∷ min
    ∷ codes " the agent rebuilt its own report of what it typed by scanning for a "
    ∷ codes "closing quote, so any command containing one is stored truncated at that "
    ∷ codes "quote. The keystrokes actuate correctly and the artifact on disk is "
    ∷ codes "byte-exact — only the record is damaged, so nothing at capture time looks "
    ∷ codes "wrong and the loss is found long after the environment that produced it is "
    ∷ codes "gone. Refusing to record rather than write a trace that cannot be trusted. "
    ∷ codes "Upgrade the Control-Center agent to "
    ∷ min
    ∷ codes " or later (the server version is checked separately and does not cover this "
    ∷ codes "— the defect is in the agent). To record anyway, set "
    ∷ codes "`control_center_allow_unsupported = true`."
    ∷ [])
