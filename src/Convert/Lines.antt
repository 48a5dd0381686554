-- ===== src/Convert/Lines.antt =====
-- The readable lines of ma-core/src/convert/mod.rs: `to_human_readable` and what it calls.
use memory_archive.Prelude.{
  ◌==◌, if◌then◌else◌, unwrap_or, is_empty, ℤ, pos, negsuc, String, Bool, false, not, Option, none,
  some, List, [], ◌∷◌, ◌++◌,
}
use memory_archive.Text.{Str, codes, str_eq, strip_prefix}
use memory_archive.Text.Decimal.{show_nat, show_int}
use memory_archive.Text.Search.{join, lookup}
use memory_archive.Event.{CommandEvent}
use memory_archive.Convert.{
  split_mouse_modifiers, modifiers_from_command_form, split_subtype_symbols, safe_subtype,
}
use memory_archive.Convert.Drag.{
  scan_notches, max_drag_points, Point, DragPath, DragScan, path, too_long, absent, scan_drag_path,
}
use memory_archive.Convert.Keys.{humanize_key}

unfoldable pub or_names : List Str → List Str → List Str
or_names [] later = later
or_names (name ∷ names) later = name ∷ names

-- the modifiers of a mouse event, from the first of the three places that has any
unfoldable pub modifiers_of : CommandEvent → List Str
unfolding or_names
modifiers_of event =
    let (symbols, subtype) = split_subtype_symbols event.action_subtype in
    let (modifiers, rest) = split_mouse_modifiers event.raw_command in
    or_names modifiers (
      or_names (modifiers_from_command_form rest subtype event.os_type) (
        if is_empty symbols
        then []
        else modifiers_from_command_form event.action_subtype subtype event.os_type))

unfoldable pub prefix_of : List Str → Str
prefix_of modifiers = if is_empty modifiers then [] else join (codes "+") modifiers ++ codes "+"

-- `({x}, {y})`
unfoldable pub point_text : Point → Str
point_text (x, y) = codes "(" ++ show_int x ++ codes ", " ++ show_int y ++ codes ")"

origin_text : Option Point → Str
origin_text none = []
origin_text (some point) = codes " from " ++ point_text point

via_text : List Point → Str
via_text [] = []
via_text (point ∷ points) = codes " via " ++ point_text point ++ via_text points

unfoldable pub drag_line : DragPath → Str
unfolding origin_text via_text
drag_line p =
    codes "Drag" ++ origin_text p.from ++ via_text p.via ++ codes " to " ++ point_text p.to

abbrev pub verbs : List (List String × String)
verbs =
    ("left" ∷ [], "Left-click")
    ∷ ("click" ∷ [], "Left-click")
    ∷ ("right" ∷ [], "Right-click")
    ∷ ("double" ∷ [], "Double-click")
    ∷ ("middle" ∷ [], "Middle-click")
    ∷ ("triple" ∷ [], "Triple-click")
    ∷ ("move" ∷ [], "Move-cursor")
    ∷ ("scroll_up" ∷ [], "Scroll-up")
    ∷ ("scroll_down" ∷ [], "Scroll-down")
    ∷ ("scroll_left" ∷ [], "Scroll-left")
    ∷ ("scroll_right" ∷ [], "Scroll-right")
    ∷ ("drag" ∷ [], "Drag")
    ∷ ("hold" ∷ [], "Hold")
    ∷ ("release" ∷ [], "Release")
    ∷ []

unfoldable pub action_label : Str → Str
action_label subtype = unwrap_or (safe_subtype subtype) (lookup verbs subtype)

is_one : ℤ → Bool
is_one (pos n) = n == 1
is_one (negsuc n) = false

unfoldable pub count_text : Option ℤ → Str
unfolding is_one
count_text none = []
count_text (some n) =
    if is_one n then codes " 1 notch" else codes " " ++ show_int n ++ codes " notches"

unfoldable pub coords_text : CommandEvent → Str
coords_text event =
    if event.position_captured
    then codes " at " ++ point_text (event.mouse_x, event.mouse_y)
    else []

-- the line for every action but a drag with a path
unfoldable pub verb_line : CommandEvent → (prefix subtype rest : Str) → Str
verb_line event prefix subtype rest =
    let action = action_label subtype in
    if is_empty action
    then event.raw_command
    else prefix ++ action ++ count_text (scan_notches rest) ++ coords_text event

unfoldable pub drag_or_verb : CommandEvent → (prefix rest : Str) → DragScan → Str
drag_or_verb event prefix rest (path p) = prefix ++ drag_line p
drag_or_verb event prefix rest too_long =
    prefix
    ++ codes "Drag path of more than "
    ++ show_nat max_drag_points
    ++ codes " points, not recorded"
drag_or_verb event prefix rest absent = verb_line event prefix (codes "drag") rest

unfoldable pub convert_mouse : CommandEvent → Str
convert_mouse event =
    let subtype = (split_subtype_symbols event.action_subtype).1 in
    let rest = (split_mouse_modifiers event.raw_command).1 in
    let prefix = prefix_of (modifiers_of event) in
    if str_eq subtype (codes "drag")
    then drag_or_verb event prefix rest (scan_drag_path rest)
    else verb_line event prefix subtype rest

module _ (to_uppercase : Str → Str) where
  unfoldable pub convert_keyboard : CommandEvent → Str
  convert_keyboard event =
      let raw = event.raw_command in
      if str_eq event.action_subtype (codes "type")
      then codes "Type: " ++ unwrap_or raw (strip_prefix (codes "Typed: ") raw)
      else if str_eq event.action_subtype (codes "press")
      then codes "Press: "
        ++ humanize_key to_uppercase (unwrap_or raw (strip_prefix (codes "Pressed: ") raw))
            event.os_type
      else codes "Keyboard: " ++ event.action_subtype ++ codes " " ++ raw

  unfoldable pub convert_position : CommandEvent → Str
  convert_position event =
      if event.position_captured
      then codes "Position query at " ++ point_text (event.mouse_x, event.mouse_y)
      else codes "Position query: " ++ event.raw_command

  unfoldable pub converted : CommandEvent → Str
  converted event =
      if str_eq event.action_type (codes "mouse")
      then convert_mouse event
      else if str_eq event.action_type (codes "keyboard")
      then convert_keyboard event
      else if str_eq event.action_type (codes "position")
      then convert_position event
      else event.raw_command

  unfoldable pub to_human_readable : CommandEvent → Str
  to_human_readable event =
      if not event.success then codes "[FAILED] " ++ converted event else converted event
