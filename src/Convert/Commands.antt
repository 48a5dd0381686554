-- ===== src/Convert/Commands.antt =====
-- The replay commands of ma-core/src/convert/mod.rs: `to_cc_command` and what it calls.
use memory_archive.Prelude.{
  if◌then◌else◌, unwrap_or, ℤ, String, Option, none, some, List, [], ◌∷◌, ◌++◌,
}
use memory_archive.Text.{Str, codes, str_eq, strip_prefix}
use memory_archive.Text.Decimal.{show_nat, show_int}
use memory_archive.Text.Search.{one_of}
use memory_archive.Event.{CommandEvent}
use memory_archive.Convert.{symbol_of, split_mouse_modifiers, split_subtype_symbols}
use memory_archive.Convert.Drag.{
  scan_notches, max_drag_points, Point, DragScan, path, too_long, absent, scan_drag_path,
}
use memory_archive.Convert.Keys.{normalize_key, is_modifier_combo}

unfoldable pub fallback_command : Str → Str
fallback_command raw = unwrap_or raw (strip_prefix (codes "Executed: ") raw)

-- `filter_map` over the names, collected to a text
unfoldable pub symbols_of : List Str → Str
symbols_of [] = []
symbols_of (name ∷ names) = unwrap_or [] (symbol_of name) ++ symbols_of names

unfoldable pub or_leaked : (symbols leaked : Str) → Str
or_leaked [] leaked = leaked
or_leaked (c ∷ symbols) leaked = c ∷ symbols

-- `{x} {y}`
unfoldable pub pair_text : Point → Str
pair_text (x, y) = show_int x ++ codes " " ++ show_int y

unfoldable pub via_command : List Point → Str
via_command [] = []
via_command (point ∷ points) = codes " via " ++ pair_text point ++ via_command points

unfoldable pub drag_target : List Point → Point → Str
drag_target [] to = codes " " ++ pair_text to
drag_target (point ∷ points) to = via_command (point ∷ points) ++ codes " to " ++ pair_text to

unfoldable pub drag_command : Str → Point → List Point → Point → Str
drag_command symbols from via to =
    pair_text from ++ codes " " ++ symbols ++ codes "drag" ++ drag_target via to

unfoldable pub drag_or_fallback : (symbols raw : Str) → DragScan → Str
drag_or_fallback symbols raw (path p) = elim p.from [
  | none ↦ fallback_command raw
  | some from ↦ drag_command symbols from p.via p.to
]
drag_or_fallback symbols raw too_long =
    codes "drag path of more than " ++ show_nat max_drag_points ++ codes " points, not recorded"
drag_or_fallback symbols raw absent = fallback_command raw

abbrev pub positioned_verbs : List String
positioned_verbs =
    "left" ∷ "click" ∷ "right" ∷ "double" ∷ "middle" ∷ "triple" ∷ "move" ∷ "scroll_up"
    ∷ "scroll_down" ∷ "scroll_left" ∷ "scroll_right" ∷ "hold" ∷ "release" ∷ []

count_suffix : Option ℤ → Str
count_suffix none = []
count_suffix (some n) = codes " " ++ show_int n

-- The command, from the parts of the subtype and of the raw command.
unfoldable pub mouse_command : CommandEvent → Str × Str → List Str × Str → Str
unfolding count_suffix
mouse_command event (leaked, subtype) (modifiers, rest) =
    let symbols = or_leaked (symbols_of modifiers) leaked in
    if one_of positioned_verbs subtype
    then if event.position_captured
      then pair_text (event.mouse_x, event.mouse_y)
        ++ codes " "
        ++ symbols
        ++ subtype
        ++ count_suffix (scan_notches rest)
      else fallback_command event.raw_command
    else if str_eq subtype (codes "drag")
    then drag_or_fallback symbols event.raw_command (scan_drag_path rest)
    else fallback_command event.raw_command

unfoldable pub cc_mouse : CommandEvent → Str
cc_mouse event =
    mouse_command event (split_subtype_symbols event.action_subtype)
      (split_mouse_modifiers event.raw_command)

-- `press {key}`, with a key in Control-Center's form
unfoldable pub press_command : Str → Str
press_command key =
    if is_modifier_combo key then codes "press " ++ key else codes "press " ++ normalize_key key

unfoldable pub cc_keyboard : CommandEvent → Str
unfolding press_command
cc_keyboard event =
    let raw = event.raw_command in
    if str_eq event.action_subtype (codes "type")
    then codes "type " ++ unwrap_or raw (strip_prefix (codes "Typed: ") raw)
    else if str_eq event.action_subtype (codes "press")
    then press_command (unwrap_or raw (strip_prefix (codes "Pressed: ") raw))
    else raw

unfoldable pub cc_position : CommandEvent → Str
cc_position event = codes "position"

unfoldable pub to_cc_command : CommandEvent → Str
to_cc_command event =
    if str_eq event.action_type (codes "mouse")
    then cc_mouse event
    else if str_eq event.action_type (codes "keyboard")
    then cc_keyboard event
    else if str_eq event.action_type (codes "position")
    then cc_position event
    else event.raw_command
