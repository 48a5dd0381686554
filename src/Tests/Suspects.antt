-- ===== src/Tests/Suspects.antt =====
-- Inputs for the record fidelity check: the truncations that the corpus holds.
use memory_archive.Prelude.{is_some, pos, ◌≡◌, refl, ◌↔◌, true, false, none, [], ◌∷◌, ◌++◌}
use memory_archive.Text.{Str, codes, str_eq, is_whitespace, strip_prefix}
use memory_archive.Event.{CommandEvent}
use memory_archive.Fidelity.{
  backslash, double_quote, unescaped_quote_count, ends_with_lone_escape, inspect_text, inspect,
}
use memory_archive.Fidelity.Quotes.{live_quotes, flag_after}
use memory_archive.Fidelity.Signals.{
  cut_at_quote, cut_at_escape, IsTyped, inspect-IsTyped, LooksCut, inspect_iff, FlaggedAs,
}

abbrev typed : Str → CommandEvent
typed text = record {
  agent_version = codes "1.0.0";
  os_type = codes "MACOS";
  timestamp = codes "2026-07-22T10:00:00.000Z";
  raw_command = codes "Typed: " ++ text;
  action_type = codes "keyboard";
  action_subtype = codes "type";
  success = true;
  mouse_x = pos 0;
  mouse_y = pos 0;
  position_captured = false;
  is_heartbeat = false;
}

abbrev printf : Str
printf = codes "printf"

printf-IsTyped : IsTyped (typed (printf ++ 0x20 ∷ backslash ∷ [])) (printf ++ 0x20 ∷ backslash ∷ [])
printf-IsTyped = record {
  action_type = refl;
  action_subtype = refl;
  raw_command = refl;
  nonempty = refl;
}

inspect_iff_example :
    (is_some (inspect (typed (printf ++ 0x20 ∷ backslash ∷ []))) ≡ true)
    ↔ LooksCut (printf ++ 0x20 ∷ backslash ∷ [])
inspect_iff_example =
    inspect_iff (typed (printf ++ 0x20 ∷ backslash ∷ [])) (printf ++ 0x20 ∷ backslash ∷ [])
      printf-IsTyped

cut_at_escape_example :
    FlaggedAs (typed (printf ++ 0x20 ∷ backslash ∷ [])) (codes "dangling-escape")
cut_at_escape_example =
    cut_at_escape (typed (printf ++ 0x20 ∷ backslash ∷ [])) printf printf-IsTyped

cut_at_quote_example :
    FlaggedAs (typed (printf ++ double_quote ∷ [])) (codes "unbalanced-double-quote")
unfolding live_quotes flag_after
cut_at_quote_example =
    cut_at_quote (typed (printf ++ double_quote ∷ [])) printf
      (record { action_type = refl; action_subtype = refl; raw_command = refl; nonempty = refl })
      refl refl

inspect-IsTyped_example : (text : Str) × IsTyped (typed (printf ++ 0x20 ∷ backslash ∷ [])) text
inspect-IsTyped_example =
    inspect-IsTyped (typed (printf ++ 0x20 ∷ backslash ∷ [])) cut_at_escape_example.0
      cut_at_escape_example.1

-- A path that ends in a backslash is not flagged.
path_passes : inspect (typed (codes "move C:\\dest\\")) ≡ none
unfolding inspect inspect_text ends_with_lone_escape unescaped_quote_count str_eq strip_prefix
    is_whitespace
path_passes = refl
