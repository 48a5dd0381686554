-- ===== src/Convert/Keys.antt =====
-- The keys of ma-core/src/convert/mod.rs: their readable names, and the names that Control-Center
-- takes. `str::to_uppercase`, Unicode's table of cases, is a parameter.
use memory_archive.Prelude.{
  leb, ◌==◌, if◌then◌else◌, length, unwrap_or, is_empty, all, ℕ, zero, suc, String, Bool, false,
  ◌&&◌, ◌||◌, none, some, List, [], ◌∷◌, ◌++◌,
}
use memory_archive.Text.{Str, codes, len, strip_prefix}
use memory_archive.Text.Trim.{trim}
use memory_archive.Text.Search.{find, contains, starts_with, strip_suffix, ends_with, join, lookup}
use memory_archive.Convert.{modifier_name, add_name}

-- the arms of `humanize_bare_key`
bare_keys : List (List String × String)
bare_keys =
    ("Return" ∷ "Enter" ∷ [], "Enter")
    ∷ ("Delete" ∷ "BackSpace" ∷ "Backspace" ∷ [], "Backspace")
    ∷ ("ForwardDelete" ∷ "Del" ∷ [], "Delete")
    ∷ ("Escape" ∷ "Esc" ∷ [], "Escape")
    ∷ ("Tab" ∷ [], "Tab")
    ∷ ("Space" ∷ "space" ∷ [], "Space")
    ∷ ("Up" ∷ [], "Up")
    ∷ ("Down" ∷ [], "Down")
    ∷ ("Left" ∷ [], "Left")
    ∷ ("Right" ∷ [], "Right")
    ∷ ("Home" ∷ [], "Home")
    ∷ ("End" ∷ [], "End")
    ∷ ("Page_Up" ∷ "Prior" ∷ "PgUp" ∷ [], "Page Up")
    ∷ ("Page_Down" ∷ "Next" ∷ "PgDn" ∷ [], "Page Down")
    ∷ ("Insert" ∷ [], "Insert")
    ∷ ("CapsLock" ∷ [], "Caps Lock")
    ∷ ("NumLock" ∷ [], "Num Lock")
    ∷ ("ScrollLock" ∷ [], "Scroll Lock")
    ∷ ("PrintScreen" ∷ [], "Print Screen")
    ∷ ("Pause" ∷ [], "Pause")
    ∷ ("F1" ∷ [], "F1")
    ∷ ("F2" ∷ [], "F2")
    ∷ ("F3" ∷ [], "F3")
    ∷ ("F4" ∷ [], "F4")
    ∷ ("F5" ∷ [], "F5")
    ∷ ("F6" ∷ [], "F6")
    ∷ ("F7" ∷ [], "F7")
    ∷ ("F8" ∷ [], "F8")
    ∷ ("F9" ∷ [], "F9")
    ∷ ("F10" ∷ [], "F10")
    ∷ ("F11" ∷ [], "F11")
    ∷ ("F12" ∷ [], "F12")
    ∷ ("VolumeUp" ∷ [], "Volume Up")
    ∷ ("VolumeDown" ∷ [], "Volume Down")
    ∷ ("Mute" ∷ [], "Mute")
    ∷ ("BrightnessUp" ∷ [], "Brightness Up")
    ∷ ("PlayPause" ∷ [], "Play/Pause")
    ∷ ("LWin" ∷ "RWin" ∷ [], "Win")
    ∷ []

unfoldable pub humanize_bare_key : Str → Str
unfolding bare_keys
humanize_bare_key key = unwrap_or key (lookup bare_keys key)

-- The text between the first and the last character of `{…}`.
unfoldable pub unwrap_braces : Str → Str
unwrap_braces key =
    if starts_with (b'{' ∷ []) key && ends_with (b'}' ∷ []) key
    then unwrap_or key (strip_suffix (b'}' ∷ []) (unwrap_or key (strip_prefix (b'{' ∷ []) key)))
    else key

unfoldable pub humanize_key_token : Str → Str
humanize_key_token key = humanize_bare_key (unwrap_braces key)

-- `s.trim_end_matches(pattern)`; a round for each character is enough.
trim_rounds : ℕ → Str → Str → Str
trim_rounds zero pattern s = s
trim_rounds (suc fuel) pattern s = elim (strip_suffix pattern s) [
  | none ↦ s
  | some shorter ↦ trim_rounds fuel pattern shorter
]

trim_end_matches : Str → Str → Str
unfolding trim_rounds
trim_end_matches pattern s = trim_rounds (length s) pattern s

modifier_labels : List (List String × String)
modifier_labels =
    ("Ctrl" ∷ "Control" ∷ [], "Ctrl")
    ∷ ("Shift" ∷ [], "Shift")
    ∷ ("Cmd" ∷ "Command" ∷ [], "Cmd")
    ∷ []

label_of : Str → Str
unfolding modifier_labels
label_of modifier = unwrap_or modifier (lookup modifier_labels modifier)

-- The two variables of the loop over `{Modifier down}key{Modifier up}`.
pub record Chord : Type 0 where
  pub modifiers : List Str
  pub base : Str

push_base : Str → Chord → Chord
push_base before chord =
    if is_empty before || all (λ c. c == b' ') before
    then chord
    else record chord { base = chord.base ++ before }

push_token : Str → Chord → Chord
unfolding label_of trim_end_matches
push_token token chord =
    if ends_with (codes " down") token
    then record chord {
      modifiers = chord.modifiers ++ label_of (trim_end_matches (codes " down") token) ∷ [];
    }
    else chord

-- A round takes a brace at least, so a round for each character is enough.
read_braces : (fuel : ℕ) → Str → Chord → Chord
unfolding push_base push_token
read_braces zero remaining chord = chord
read_braces (suc fuel) remaining chord = elim (find (b'{' ∷ []) remaining) [
  | none ↦ record chord { base = chord.base ++ remaining }
  | some (before, opened) ↦ elim (find (b'}' ∷ []) opened) [
    | none ↦ push_base before chord
    | some (token, after) ↦ read_braces fuel after (push_token token (push_base before chord))
  ]
]

unfoldable pub read_chord : Str → Chord
unfolding read_braces
read_chord key = read_braces (suc (length key)) key record { modifiers = []; base = [] }

-- The symbols in front of a key. One that stands alone, in at most one byte, is the key itself.
unfoldable pub chord_names : Str → List Str → Str → List Str × Str
chord_names os_type names [] = (names, [])
chord_names os_type names (c ∷ s) = elim (modifier_name c os_type) [
  | none ↦ (names, c ∷ s)
  | some name ↦
      if leb 2 (len (c ∷ s)) then chord_names os_type (add_name names name) s else (names, c ∷ s)
]

abbrev label_chord : Str → List Str × Str → Str
label_chord expanded ([], rest) = humanize_key_token expanded
label_chord expanded (name ∷ names, rest) =
    join (codes "+") (name ∷ names) ++ codes "+" ++ humanize_key_token rest

module _ (to_uppercase : Str → Str) where
  label_braces : Chord → Str
  label_braces chord =
      let base = humanize_bare_key (trim chord.base) in
      if is_empty chord.modifiers
      then base
      else join (codes "+") chord.modifiers ++ codes "+" ++ to_uppercase base

  expand : Str → Str
  unfolding label_braces
  expand key =
      if contains (codes " down}") key || contains (codes " up}") key
      then label_braces (read_chord key)
      else key

  unfoldable pub humanize_key : (key os_type : Str) → Str
  unfolding expand
  humanize_key key os_type = label_chord (expand key) (chord_names os_type [] (expand key))

-- The arms of `normalize_key`, up to the last.
abbrev pub cc_keys : List (List String × String)
cc_keys =
    ("Return" ∷ "Enter" ∷ [], "{Enter}")
    ∷ ("Delete" ∷ "BackSpace" ∷ "Backspace" ∷ [], "{Backspace}")
    ∷ ("ForwardDelete" ∷ [], "{Del}")
    ∷ ("Escape" ∷ [], "{Esc}")
    ∷ ("Tab" ∷ [], "{Tab}")
    ∷ ("Space" ∷ "space" ∷ [], "{Space}")
    ∷ ("Up" ∷ [], "{Up}")
    ∷ ("Down" ∷ [], "{Down}")
    ∷ ("Left" ∷ [], "{Left}")
    ∷ ("Right" ∷ [], "{Right}")
    ∷ ("Home" ∷ [], "{Home}")
    ∷ ("End" ∷ [], "{End}")
    ∷ ("Page_Up" ∷ "Prior" ∷ "PgUp" ∷ [], "{PgUp}")
    ∷ ("Page_Down" ∷ "Next" ∷ "PgDn" ∷ [], "{PgDn}")
    ∷ ("F1" ∷ [], "{F1}")
    ∷ ("F2" ∷ [], "{F2}")
    ∷ ("F3" ∷ [], "{F3}")
    ∷ ("F4" ∷ [], "{F4}")
    ∷ ("F5" ∷ [], "{F5}")
    ∷ ("F6" ∷ [], "{F6}")
    ∷ ("F7" ∷ [], "{F7}")
    ∷ ("F8" ∷ [], "{F8}")
    ∷ ("F9" ∷ [], "{F9}")
    ∷ ("F10" ∷ [], "{F10}")
    ∷ ("F11" ∷ [], "{F11}")
    ∷ ("F12" ∷ [], "{F12}")
    ∷ ("VolumeUp" ∷ [], "{VolumeUp}")
    ∷ ("VolumeDown" ∷ [], "{VolumeDown}")
    ∷ ("Mute" ∷ [], "{Mute}")
    ∷ ("BrightnessUp" ∷ [], "{BrightnessUp}")
    ∷ ("PlayPause" ∷ [], "{PlayPause}")
    ∷ ("LWin" ∷ [], "{LWin}")
    ∷ ("RWin" ∷ [], "{RWin}")
    ∷ []

unfoldable pub normalize_key : Str → Str
normalize_key key = unwrap_or (b'{' ∷ (key ++ b'}' ∷ [])) (lookup cc_keys key)

unfoldable pub is_chord_mark : ℕ → Bool
is_chord_mark c =
    c == b'^'
    || c == b'+'
    || c == b'!'
    || c == b'#'
    || c == 0x2318
    || c == 0x2303
    || c == 0x21E7
    || c == 0x2325
    || c == b'{'

unfoldable pub is_modifier_combo : Str → Bool
unfolding is_chord_mark
is_modifier_combo [] = false
is_modifier_combo (c ∷ key) = is_chord_mark c
