-- ===== src/Tests/Actions.antt =====
-- Inputs for the conversion of actions, as the tests of ma-core/src/convert/mod.rs have them.
use memory_archive.Prelude.{pos, ℕ, ◌≡◌, refl, Bool, true, false}
use memory_archive.Text.{
  Str, codes, concat, str_eq, is_ascii_digit, is_ascii_alphanumeric, is_whitespace, len_utf8, len,
  strip_prefix, cons_first, split_char, take_until, drop_until, str_eq_iff, str_eq_refl,
  strip_prefix-append, strip_prefix-eq_some, take_until-append, drop_until-append, Lacks,
  split_char-append, split_char_whole,
}
use memory_archive.Event.{CommandEvent}
use memory_archive.Convert.Lines.{
  or_names, modifiers_of, prefix_of, point_text, drag_line, action_label, coords_text,
  convert_mouse, convert_keyboard, to_human_readable,
}
use memory_archive.Convert.Commands.{
  symbols_of, or_leaked, pair_text, via_command, drag_target, drag_command, cc_mouse, cc_keyboard,
  to_cc_command,
}

abbrev action : (action_type subtype raw os_type : Str) → ℕ → ℕ → Bool → CommandEvent
action action_type subtype raw os_type x y captured = record {
  agent_version = codes "1.3.0";
  os_type = os_type;
  timestamp = codes "2026-07-22T10:00:00.000Z";
  raw_command = raw;
  action_type = action_type;
  action_subtype = subtype;
  success = true;
  mouse_x = pos x;
  mouse_y = pos y;
  position_captured = captured;
  is_heartbeat = false;
}

abbrev mouse : Str → Str → CommandEvent
mouse subtype raw = action (codes "mouse") subtype raw (codes "WINDOWS") 770 310 true

abbrev press : Str → Str → CommandEvent
press raw os_type = action (codes "keyboard") (codes "press") raw os_type 0 0 false

-- a table of upper-case letters that leaves a text as it is
abbrev as_is : Str → Str
as_is s = s

click_line :
    to_human_readable as_is (mouse (codes "left") (codes "Cmd+Shift+Left-clicked at X=770, Y=310"))
    ≡ codes "Cmd+Shift+Left-click at (770, 310)"
unfolding to_human_readable memory_archive.Convert.Lines.converted convert_mouse
    memory_archive.Convert.Lines.verb_line memory_archive.Convert.Lines.drag_or_verb
    memory_archive.Convert.Lines.count_text memory_archive.Convert.symbol_of str_eq
    memory_archive.Convert.split_subtype_symbols drop_until memory_archive.Convert.is_symbol
    action_label memory_archive.Text.Search.lookup prefix_of modifiers_of
    memory_archive.Convert.split_mouse_modifiers memory_archive.Text.Search.join
    memory_archive.Convert.Drag.scan_notches memory_archive.Text.Search.find strip_prefix
    coords_text point_text memory_archive.Text.Decimal.show_int
click_line = refl

click_command :
    to_cc_command (mouse (codes "left") (codes "Cmd+Shift+Left-clicked at X=770, Y=310"))
    ≡ codes "770 310 #+left"
unfolding to_cc_command cc_mouse memory_archive.Convert.Commands.mouse_command
    memory_archive.Convert.Commands.drag_or_fallback memory_archive.Convert.symbol_of str_eq
    memory_archive.Text.Search.one_of memory_archive.Convert.split_subtype_symbols drop_until
    memory_archive.Convert.is_symbol pair_text memory_archive.Text.Decimal.show_int or_leaked
    symbols_of memory_archive.Convert.split_mouse_modifiers memory_archive.Convert.Drag.scan_notches
    memory_archive.Text.Search.find strip_prefix
click_command = refl

executed_line :
    to_human_readable as_is (mouse (codes "left") (codes "Executed: 770 310 #left"))
    ≡ codes "Win+Left-click at (770, 310)"
unfolding to_human_readable memory_archive.Convert.Lines.converted convert_mouse
    memory_archive.Convert.Lines.verb_line memory_archive.Convert.Lines.drag_or_verb
    memory_archive.Convert.Lines.count_text memory_archive.Convert.symbol_of modifiers_of or_names
    prefix_of drag_line action_label coords_text point_text
    memory_archive.Convert.split_subtype_symbols memory_archive.Convert.is_symbol
    memory_archive.Convert.split_mouse_modifiers memory_archive.Convert.split_from
    memory_archive.Convert.modifiers_from_command_form memory_archive.Convert.names_of_symbols
    memory_archive.Convert.add_name memory_archive.Convert.contains_name
    memory_archive.Convert.modifier_name memory_archive.Convert.safe_subtype
    memory_archive.Convert.Drag.scan_notches memory_archive.Convert.Drag.take_int
    memory_archive.Convert.Drag.ends_int memory_archive.Convert.Drag.drag_clause
    memory_archive.Convert.Drag.scan_drag_path memory_archive.Convert.Drag.scan_from
    memory_archive.Convert.Drag.finish memory_archive.Convert.Drag.add_point
    memory_archive.Convert.Drag.next_pair memory_archive.Text.Search.find
    memory_archive.Text.Search.strip_suffix memory_archive.Text.Search.starts_with
    memory_archive.Text.Search.rfind memory_archive.Text.Search.split_whitespace
    memory_archive.Text.Search.join memory_archive.Text.Search.lookup
    memory_archive.Text.Search.one_of memory_archive.Text.Decimal.show_int
    memory_archive.Text.Decimal.show_nat memory_archive.Text.Decimal.parse_i32
    memory_archive.Text.Decimal.parse_digits str_eq drop_until take_until strip_prefix
    memory_archive.Text.is_ascii_digit memory_archive.Text.is_whitespace
    memory_archive.Text.Trim.trim_end
executed_line = refl

scroll_command :
    to_cc_command (mouse (codes "scroll_down") (codes "Scrolled down 5 notches at X=770, Y=310"))
    ≡ codes "770 310 scroll_down 5"
unfolding to_cc_command cc_mouse memory_archive.Convert.Commands.mouse_command
    memory_archive.Convert.Commands.drag_or_fallback memory_archive.Convert.symbol_of or_leaked
    symbols_of pair_text drag_command drag_target via_command
    memory_archive.Convert.split_subtype_symbols memory_archive.Convert.is_symbol
    memory_archive.Convert.split_mouse_modifiers memory_archive.Convert.split_from
    memory_archive.Convert.modifiers_from_command_form memory_archive.Convert.names_of_symbols
    memory_archive.Convert.add_name memory_archive.Convert.contains_name
    memory_archive.Convert.modifier_name memory_archive.Convert.safe_subtype
    memory_archive.Convert.Drag.scan_notches memory_archive.Convert.Drag.take_int
    memory_archive.Convert.Drag.ends_int memory_archive.Convert.Drag.drag_clause
    memory_archive.Convert.Drag.scan_drag_path memory_archive.Convert.Drag.scan_from
    memory_archive.Convert.Drag.finish memory_archive.Convert.Drag.add_point
    memory_archive.Convert.Drag.next_pair memory_archive.Text.Search.find
    memory_archive.Text.Search.strip_suffix memory_archive.Text.Search.starts_with
    memory_archive.Text.Search.rfind memory_archive.Text.Search.split_whitespace
    memory_archive.Text.Search.join memory_archive.Text.Search.lookup
    memory_archive.Text.Search.one_of memory_archive.Text.Decimal.show_int
    memory_archive.Text.Decimal.show_nat memory_archive.Text.Decimal.parse_i32
    memory_archive.Text.Decimal.parse_digits str_eq drop_until take_until strip_prefix
    memory_archive.Text.is_ascii_digit memory_archive.Text.is_whitespace
    memory_archive.Text.Trim.trim_end
scroll_command = refl

drag_line_run :
    to_human_readable as_is
      (mouse (codes "drag") (codes "Cmd+Dragged from X=500, Y=400 via X=700, Y=500 to X=900, Y=-7"))
    ≡ codes "Cmd+Drag from (500, 400) via (700, 500) to (900, -7)"
unfolding to_human_readable memory_archive.Convert.Lines.converted convert_mouse
    memory_archive.Convert.Lines.verb_line memory_archive.Convert.Lines.drag_or_verb
    memory_archive.Convert.Lines.count_text memory_archive.Convert.symbol_of modifiers_of or_names
    prefix_of drag_line action_label coords_text point_text
    memory_archive.Convert.split_subtype_symbols memory_archive.Convert.is_symbol
    memory_archive.Convert.split_mouse_modifiers memory_archive.Convert.split_from
    memory_archive.Convert.modifiers_from_command_form memory_archive.Convert.names_of_symbols
    memory_archive.Convert.add_name memory_archive.Convert.contains_name
    memory_archive.Convert.modifier_name memory_archive.Convert.safe_subtype
    memory_archive.Convert.Drag.scan_notches memory_archive.Convert.Drag.take_int
    memory_archive.Convert.Drag.ends_int memory_archive.Convert.Drag.drag_clause
    memory_archive.Convert.Drag.scan_drag_path memory_archive.Convert.Drag.scan_from
    memory_archive.Convert.Drag.finish memory_archive.Convert.Drag.add_point
    memory_archive.Convert.Drag.next_pair memory_archive.Text.Search.find
    memory_archive.Text.Search.strip_suffix memory_archive.Text.Search.starts_with
    memory_archive.Text.Search.rfind memory_archive.Text.Search.split_whitespace
    memory_archive.Text.Search.join memory_archive.Text.Search.lookup
    memory_archive.Text.Search.one_of memory_archive.Text.Decimal.show_int
    memory_archive.Text.Decimal.show_nat memory_archive.Text.Decimal.parse_i32
    memory_archive.Text.Decimal.parse_digits str_eq drop_until take_until strip_prefix
    memory_archive.Text.is_ascii_digit memory_archive.Text.is_whitespace
    memory_archive.Text.Trim.trim_end
drag_line_run = refl

chord_line :
    to_human_readable as_is (press (codes "Pressed: #+s") (codes "MACOS"))
    ≡ codes "Press: Cmd+Shift+s"
unfolding to_human_readable memory_archive.Convert.Lines.converted convert_keyboard str_eq
    memory_archive.Convert.Keys.humanize_key memory_archive.Convert.Keys.chord_names
    memory_archive.Text.Search.contains memory_archive.Text.Search.find strip_prefix
    memory_archive.Convert.modifier_name len memory_archive.Convert.add_name
    memory_archive.Text.Search.join memory_archive.Convert.Keys.humanize_key_token
    memory_archive.Convert.Keys.humanize_bare_key memory_archive.Text.Search.lookup
    memory_archive.Convert.Keys.unwrap_braces memory_archive.Text.Search.starts_with
chord_line = refl

braces_line :
    to_human_readable as_is (press (codes "Pressed: {Ctrl down}Return{Ctrl up}") (codes "LINUX"))
    ≡ codes "Press: Ctrl+Enter"
unfolding to_human_readable memory_archive.Convert.Lines.converted convert_keyboard
    memory_archive.Convert.Keys.humanize_key memory_archive.Convert.Keys.chord_names
    memory_archive.Convert.Keys.humanize_key_token memory_archive.Convert.Keys.humanize_bare_key
    memory_archive.Convert.Keys.unwrap_braces memory_archive.Convert.Keys.read_chord
    memory_archive.Convert.modifier_name memory_archive.Text.Search.find
    memory_archive.Text.Search.contains memory_archive.Text.Search.starts_with
    memory_archive.Text.Search.ends_with memory_archive.Text.Search.strip_suffix
    memory_archive.Text.Search.join memory_archive.Text.Search.lookup
    memory_archive.Text.Search.one_of str_eq strip_prefix memory_archive.Text.Trim.trim
    memory_archive.Text.is_whitespace memory_archive.Text.len
braces_line = refl

key_command :
    to_cc_command (press (codes "Pressed: Return") (codes "LINUX")) ≡ codes "press {Enter}"
unfolding to_cc_command cc_keyboard str_eq memory_archive.Convert.Keys.is_modifier_combo
    strip_prefix memory_archive.Convert.Keys.normalize_key memory_archive.Text.Search.lookup
key_command = refl
