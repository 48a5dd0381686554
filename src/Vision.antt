-- ===== src/Vision.antt =====
-- `decide` of ma-core/src/vision/mod.rs: which frame, if any, is fetched for an event.
use memory_archive.Prelude.{arith, if◌then◌else◌, ℕ, ◌≡◌, ◌↔◌, Bool, true, not}
use memory_archive.Text.{str_eq_iff, Str, codes, str_eq}
use memory_archive.Event.{CommandEvent}

pub data FetchDecision : Type 0 where
  skip : Str → FetchDecision
  fetch_at : Bool → FetchDecision
  fetch_after : ℕ → FetchDecision

unfoldable pub decide : CommandEvent → (press_delay_ms type_delay_ms : ℕ) → FetchDecision
decide event press_delay_ms type_delay_ms =
    if not event.success
    then skip (codes "command failed")
    else if str_eq event.action_type (codes "mouse")
    then fetch_at event.position_captured
    else if str_eq event.action_type (codes "keyboard")
    then if str_eq event.action_subtype (codes "type")
      then fetch_after type_delay_ms
      else if str_eq event.action_subtype (codes "press")
      then fetch_after press_delay_ms
      else skip (codes "keyboard subtype does not trigger fetch")
    else skip (codes "action type does not trigger fetch")

-- The frame of an event is fetched with a mark exactly when the event is a successful mouse event
-- whose position was captured.
pub decide_marks :
    (event : CommandEvent) (press_delay_ms type_delay_ms : ℕ)
    → (decide event press_delay_ms type_delay_ms ≡ fetch_at true) ↔ (
        (event.success ≡ true)
        × (event.action_type ≡ codes "mouse")
        × (event.position_captured ≡ true))
unfolding decide
decide_marks event press_delay_ms type_delay_ms =
    let is_mouse = str_eq_iff event.action_type (codes "mouse") in
    (λ h. ground (arith, is_mouse.0), λ h. ground (arith, is_mouse.1))
