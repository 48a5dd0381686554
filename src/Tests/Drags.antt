-- ===== src/Tests/Drags.antt =====
-- Inputs for the modifiers, drags, keys and labels of ma-core/src/convert/mod.rs.
use memory_archive.Prelude.{
  if◌then◌else◌, is_some, is_empty, All, pos, negsuc, ℕ, ◌<◌, ◌≡◌, refl, ◌↔◌, ◌⊎◌, true, false,
  Option, none, some, List, [], ◌∷◌, ◌++◌, arith,
}
use memory_archive.Text.{Str, codes, str_eq}
use memory_archive.Event.{CommandEvent}
use memory_archive.Convert.{symbol_of, split_mouse_modifiers}
use memory_archive.Convert.Drag.{Point, path, scan_start, scan_from, scan_drag_path}
use memory_archive.Convert.Commands.{press_command, to_cc_command}
use memory_archive.Convert.Lines.{action_label, convert_mouse}
use memory_archive.Convert.Keys.{cc_keys}
use memory_archive.Text.Search.{lookup}
use memory_archive.Convert.Modifiers.{chain, IsModifier, NoLead, split_mouse_modifiers_iff}
use memory_archive.Convert.Paths.{sentence, IsPoint, scan_drag_path-sentence}
use memory_archive.Convert.Rounds.{scan_drag_path_enough}
use memory_archive.Convert.Replay.{replay_line, IsDrag, to_cc_command-IsDrag, to_cc_command-TooLong}
use memory_archive.Convert.Accepted.{
  in_form, press_command-InForm, IsLabel, action_label-IsLabel, convert_mouse-nonempty,
}

abbrev cmd_shift : List Str
cmd_shift = codes "Cmd" ∷ codes "Shift" ∷ []

split_mouse_modifiers_iff_example :
    (split_mouse_modifiers (codes "Cmd+Shift+Left-clicked at X=7, Y=3")
      ≡ (cmd_shift, codes "Left-clicked at X=7, Y=3"))
    ↔ ((codes "Cmd+Shift+Left-clicked at X=7, Y=3"
          ≡ chain cmd_shift (codes "Left-clicked at X=7, Y=3"))
        × All IsModifier cmd_shift
        × NoLead (codes "Left-clicked at X=7, Y=3"))
split_mouse_modifiers_iff_example =
    split_mouse_modifiers_iff (codes "Cmd+Shift+Left-clicked at X=7, Y=3") cmd_shift
      (codes "Left-clicked at X=7, Y=3")

abbrev start : Point
start = (pos 500, pos 400)

abbrev corner : Point
corner = (pos 700, pos 500)

abbrev end : Point
end = (pos 900, negsuc 6)

small-IsPoint : (m n : ℕ) → m < 1000 → n < 1000 → IsPoint (pos m, pos n)
small-IsPoint m n hm hn = (omega arith, omega arith)

start-IsPoint : IsPoint start
start-IsPoint = small-IsPoint 500 400 (omega arith) (omega arith)

corner-IsPoint : IsPoint corner
corner-IsPoint = small-IsPoint 700 500 (omega arith) (omega arith)

end-IsPoint : IsPoint end
end-IsPoint = (omega arith, omega arith)

scan_drag_path-sentence_example :
    scan_drag_path (sentence (some start) (corner ∷ []) end)
    ≡ path record { from = some start; via = corner ∷ []; to = end }
scan_drag_path-sentence_example =
    scan_drag_path-sentence (some start) (corner ∷ []) end start-IsPoint (corner-IsPoint, tt)
      end-IsPoint

scan_drag_path_enough_example :
    scan_from 100 scan_start (codes "Dragged to X=5, Y=6")
    ≡ scan_drag_path (codes "Dragged to X=5, Y=6")
scan_drag_path_enough_example =
    scan_drag_path_enough 100 (codes "Dragged to X=5, Y=6") (omega arith)

abbrev dragging : List Str → Option Point → List Point → Point → CommandEvent
dragging names from via to = record {
  agent_version = codes "1.3.0";
  os_type = codes "MACOS";
  timestamp = codes "2026-07-22T10:00:00.000Z";
  raw_command = chain names (sentence from via to);
  action_type = codes "mouse";
  action_subtype = codes "drag";
  success = true;
  mouse_x = pos 900;
  mouse_y = pos 0;
  position_captured = true;
  is_heartbeat = false;
}

cmd_shift-known : All IsModifier cmd_shift
unfolding symbol_of str_eq
cmd_shift-known = (refl, (refl, tt))

one_corner-IsDrag :
    IsDrag
      (dragging cmd_shift (some start) (corner ∷ []) end)
      cmd_shift
      (some start)
      (corner ∷ [])
      end
one_corner-IsDrag = record {
  action_type = refl;
  action_subtype = refl;
  raw_command = refl;
  names_known = cmd_shift-known;
  origin_fits = start-IsPoint;
  waypoints_fit = (corner-IsPoint, tt);
  destination_fits = end-IsPoint;
}

to_cc_command-IsDrag_example :
    to_cc_command (dragging cmd_shift (some start) (corner ∷ []) end)
    ≡ replay_line cmd_shift start (corner ∷ []) end
to_cc_command-IsDrag_example =
    to_cc_command-IsDrag (dragging cmd_shift (some start) (corner ∷ []) end) cmd_shift start
      (corner ∷ []) end one_corner-IsDrag (omega arith)

abbrev eight : List Point
eight = corner ∷ start ∷ corner ∷ start ∷ corner ∷ start ∷ corner ∷ start ∷ []

nine_points-IsDrag : IsDrag (dragging [] none eight end) [] none eight end
nine_points-IsDrag = record {
  action_type = refl;
  action_subtype = refl;
  raw_command = refl;
  names_known = tt;
  origin_fits = tt;
  waypoints_fit = (
    corner-IsPoint,
    (
      start-IsPoint,
      (
        corner-IsPoint,
        (start-IsPoint, (corner-IsPoint, (start-IsPoint, (corner-IsPoint, (start-IsPoint, tt))))),
      ),
    ),
  );
  destination_fits = end-IsPoint;
}

to_cc_command-TooLong_example :
    to_cc_command (dragging [] none eight end)
    ≡ codes "drag path of more than 8 points, not recorded"
to_cc_command-TooLong_example =
    to_cc_command-TooLong (dragging [] none eight end) [] none eight end nine_points-IsDrag
      (omega arith)

press_command-InForm_example :
    (name : Str) × (press_command (codes "Return")
      ≡ codes "press "
        ++ (if in_form (codes "Return") then codes "Return" else b'{' ∷ (name ++ b'}' ∷ [])))
    × ((name ≡ codes "Return") ⊎ (is_some (lookup cc_keys (codes "Return")) ≡ true))
press_command-InForm_example = press_command-InForm (codes "Return")

action_label-IsLabel_example : IsLabel (action_label (codes "a verb|from the wire"))
action_label-IsLabel_example = action_label-IsLabel (codes "a verb|from the wire")

convert_mouse-nonempty_example : is_empty (convert_mouse (dragging [] none eight end)) ≡ false
convert_mouse-nonempty_example = convert_mouse-nonempty (dragging [] none eight end)
