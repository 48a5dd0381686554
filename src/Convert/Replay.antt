-- ===== src/Convert/Replay.antt =====
-- The replay command of a reported drag, from ma-core/src/convert/mod.rs.
use memory_archive.Prelude.{
  ltb, if◌then◌else◌, lt→ltb, length, All, ℕ, ◌+◌, ◌≤◌, ◌<◌, ◌≡◌, refl, sym, ap, subst, ◌∙◌, true,
  false, Option, none, some, List, [], ◌∷◌, ◌++◌, ◌||◌, map, append_assoc, unwrap_or, arith,
}
use memory_archive.Text.{Str, codes, concat, str_eq, take_until, drop_until, str_eq_iff}
use memory_archive.Text.Search.{one_of}
use memory_archive.Event.{CommandEvent}
use memory_archive.Text.Decimal.{show_nat, show_int}
use memory_archive.Convert.{
  symbol_in, symbol_of, split_mouse_modifiers, is_symbol, split_subtype_symbols,
}
use memory_archive.Convert.Drag.{max_drag_points, Point, path, too_long, scan_drag_path}
use memory_archive.Convert.Commands.{
  drag_or_fallback, mouse_command, symbols_of, pair_text, via_command, drag_target, or_leaked,
  drag_command, cc_mouse, to_cc_command,
}
use memory_archive.Convert.Modifiers.{chain, IsModifier, NoLead, split_mouse_modifiers_iff}
use memory_archive.Convert.Paths.{
  sentence, IsPoint, outcome, points, AreSome, scan_drag_path-sentence,
}

-- No modifier name begins with a `D`.
d_unknown : (s : Str) → symbol_of (b'D' ∷ s) ≡ none
unfolding symbol_of str_eq
d_unknown s = refl

empty_unknown : symbol_of [] ≡ none
unfolding symbol_of str_eq
empty_unknown = refl

unknown : (name : Str) → symbol_of name ≡ none → ¬ IsModifier name
unknown name none_known known = ground arith

abbrev first : Str → ℕ
first [] = 0
first (c ∷ s) = c

d_leads : (s : Str) → NoLead (b'D' ∷ s)
d_leads s [] tail known e = unknown [] empty_unknown known
d_leads s (c ∷ name) tail known e =
    unknown (b'D' ∷ name) (d_unknown name)
      (subst (λ d. IsModifier (d ∷ name)) (sym (ap first e)) known)

sentence_d : (from : Option Point) (via : List Point) (to : Point) → NoLead (sentence from via to)
sentence_d none [] to = d_leads _
sentence_d none (p ∷ via) to = d_leads _
sentence_d (some from) via to = d_leads _

or_leaked-nil : (symbols : Str) → or_leaked symbols [] ≡ symbols
unfolding or_leaked
or_leaked-nil [] = refl
or_leaked-nil (c ∷ symbols) = refl

-- What an agent reports of a drag: the names of the modifiers that were held, and the sentence.
pub record IsDrag (event : CommandEvent) (names : List Str) (from : Option Point) (via : List Point)
    (to : Point) : Type 0 where
  pub action_type : event.action_type ≡ codes "mouse"
  pub action_subtype : event.action_subtype ≡ codes "drag"
  pub raw_command : event.raw_command ≡ chain names (sentence from via to)
  pub names_known : All IsModifier names
  pub origin_fits : AreSome from
  pub waypoints_fit : All IsPoint via
  pub destination_fits : IsPoint to

drag_subtype : split_subtype_symbols (codes "drag") ≡ ([], codes "drag")
unfolding split_subtype_symbols take_until drop_until is_symbol
drag_subtype = refl

mouse-drag :
    (event : CommandEvent) (names : List Str) (s : Str)
    → mouse_command event ([], codes "drag") (names, s)
      ≡ drag_or_fallback (or_leaked (symbols_of names) []) event.raw_command (scan_drag_path s)
unfolding mouse_command one_of str_eq
mouse-drag event names s = refl

cc_mouse-IsDrag :
    (event : CommandEvent) (names : List Str) (from : Option Point) (via : List Point) (to : Point)
    → IsDrag event names from via to
    → cc_mouse event
      ≡ drag_or_fallback
          (symbols_of names)
          event.raw_command
          (outcome from via (points from via) to)
unfolding cc_mouse
cc_mouse-IsDrag event names from via to d =
    let parts = split_mouse_modifiers event.raw_command in
    ap (λ p. mouse_command event p parts) (ap split_subtype_symbols d.action_subtype ∙ drag_subtype)
    ∙ ap (mouse_command event ([], codes "drag")) (
        (split_mouse_modifiers_iff event.raw_command names (sentence from via to)).1
          (d.raw_command, d.names_known, sentence_d from via to))
    ∙ mouse-drag event names (sentence from via to)
    ∙ ap (λ w. drag_or_fallback w event.raw_command (scan_drag_path (sentence from via to)))
        (or_leaked-nil (symbols_of names))
    ∙ ap (drag_or_fallback (symbols_of names) event.raw_command)
        (scan_drag_path-sentence from via to d.origin_fits d.waypoints_fit d.destination_fits)

to_cc_command-mouse :
    (event : CommandEvent)
    → event.action_type ≡ codes "mouse"
    → to_cc_command event ≡ cc_mouse event
unfolding to_cc_command
to_cc_command-mouse event e =
    let is_mouse : str_eq event.action_type (codes "mouse") ≡ true = (str_eq_iff _ _).1 e in
    rw is_mouse refl

-- The mark of each modifier.
abbrev pub mark : Str → Str
mark name =
    if str_eq (codes "Cmd") name || str_eq (codes "Win") name || str_eq (codes "Super") name
    then codes "#"
    else if str_eq (codes "Ctrl") name
    then codes "^"
    else if str_eq (codes "Shift") name
    then codes "+"
    else if str_eq (codes "Option") name || str_eq (codes "Alt") name
    then codes "!"
    else []

-- `<x> <y>`
abbrev pub coords : Point → Str
coords (x, y) = show_int x ++ b' ' ∷ show_int y

abbrev pub replay_target : List Point → Point → Str
replay_target [] to = b' ' ∷ coords to
replay_target via to =
    concat (map (λ p. codes " via " ++ coords p) via) ++ codes " to " ++ coords to

-- `<x> <y> <marks>drag <x> <y>`, or with waypoints
-- `<x> <y> <marks>drag via <x> <y> via <x> <y> … to <x> <y>`
abbrev pub replay_line : List Str → Point → List Point → Point → Str
replay_line names from via to =
    coords from ++ codes " " ++ concat (map mark names) ++ codes "drag" ++ replay_target via to

mark_lem : (name : Str) → unwrap_or [] (symbol_of name) ≡ mark name
unfolding symbol_of symbol_in
mark_lem name = ground arith

symbols_of-concat : (names : List Str) → symbols_of names ≡ concat (map mark names)
unfolding symbols_of concat
symbols_of-concat [] = refl
symbols_of-concat (name ∷ names) = rw (mark_lem name, symbols_of-concat names) refl

pair_text-coords : (p : Point) → pair_text p ≡ coords p
unfolding pair_text
pair_text-coords p = append_assoc (show_int p.0) (b' ' ∷ []) (show_int p.1)

via_command-concat :
    (via : List Point) → via_command via ≡ concat (map (λ p. codes " via " ++ coords p) via)
unfolding via_command concat
via_command-concat [] = refl
via_command-concat (p ∷ via) = rw (pair_text-coords p, via_command-concat via) refl

drag_target-replay : (via : List Point) (to : Point) → drag_target via to ≡ replay_target via to
unfolding drag_target
drag_target-replay [] to = rw (pair_text-coords to) refl
drag_target-replay (p ∷ via) to = rw (via_command-concat (p ∷ via), pair_text-coords to) refl

drag_command-replay :
    (names : List Str) (from : Point) (via : List Point) (to : Point)
    → drag_command (symbols_of names) from via to ≡ replay_line names from via to
unfolding drag_command
drag_command-replay names from via to =
    rw (pair_text-coords from, symbols_of-concat names, drag_target-replay via to) refl

-- A drag that was reported with its origin and at most six waypoints is replayed by the command
-- `<x> <y> <marks>drag <x> <y>`, or with waypoints `<x> <y> <marks>drag via <x> <y> … to <x> <y>`:
-- the origin, the mark of each modifier (^ for Ctrl, + for Shift, ! for Option and Alt, # for Cmd,
-- Win and Super), the waypoints in their order, and the destination.
pub to_cc_command-IsDrag :
    (event : CommandEvent) (names : List Str) (from : Point) (via : List Point) (to : Point)
    → IsDrag event names (some from) via to
    → length via ≤ 6
    → to_cc_command event ≡ replay_line names from via to
unfolding drag_or_fallback
to_cc_command-IsDrag event names from via to d h =
    let room : ltb max_drag_points (length via + 2) ≡ false = ground arith in
    to_cc_command-mouse event d.action_type
    ∙ cc_mouse-IsDrag event names (some from) via to d
    ∙ ap
        (λ b.
          drag_or_fallback (symbols_of names) event.raw_command
            (if b then too_long else path record { from = some from; via = via; to = to }))
        room
    ∙ drag_command-replay names from via to

-- A drag that was reported with more than eight points is recorded as such, and with no
-- coordinate.
pub to_cc_command-TooLong :
    (event : CommandEvent) (names : List Str) (from : Option Point) (via : List Point) (to : Point)
    → IsDrag event names from via to
    → 8 < points from via
    → to_cc_command event ≡ codes "drag path of more than 8 points, not recorded"
unfolding drag_or_fallback show_nat
to_cc_command-TooLong event names from via to d h =
    let long : ltb max_drag_points (points from via) ≡ true =
      lt→ltb max_drag_points (points from via) h in
    to_cc_command-mouse event d.action_type
    ∙ cc_mouse-IsDrag event names from via to d
    ∙ ap
        (λ b.
          drag_or_fallback (symbols_of names) event.raw_command
            (if b then too_long else path record { from = from; via = via; to = to }))
        long
