-- ===== src/Convert.antt =====
-- ma-core/src/convert/mod.rs: a captured event as a readable line and as the command that replays
-- it. This file has the modifiers of a mouse action and the label of its verb; the children have
-- the path of a drag, the keys, the readable lines and the replay commands.
pub mod Drag
pub mod Keys
pub mod Lines
pub mod Commands
pub mod Modifiers
pub mod Paths
pub mod Rounds
pub mod Replay
pub mod Accepted
use memory_archive.Prelude.{
  leb, ◌==◌, if◌then◌else◌, is_some, is_empty, all, ℕ, String, Bool, false, not, ◌&&◌, ◌||◌, Option,
  none, some, List, [], ◌∷◌, ◌++◌,
}
use memory_archive.Text.{Str, codes, str_eq, is_ascii_alphanumeric, len, take_until, drop_until}
use memory_archive.Text.Search.{strip_suffix, split_whitespace}

-- `MOUSE_MODIFIERS`
abbrev pub mouse_modifiers : List (String × String)
mouse_modifiers =
    ("Cmd", "#")
    ∷ ("Win", "#")
    ∷ ("Super", "#")
    ∷ ("Ctrl", "^")
    ∷ ("Shift", "+")
    ∷ ("Option", "!")
    ∷ ("Alt", "!")
    ∷ []

-- the symbol of the first row that has the name
symbol_in : List (String × String) → Str → Option Str
symbol_in [] name = none
symbol_in ((known, symbol) ∷ rows) name =
    let later = symbol_in rows name in
    if str_eq (codes known) name then some (codes symbol) else later

unfoldable pub symbol_of : Str → Option Str
unfolding symbol_in
symbol_of name = symbol_in mouse_modifiers name

unfoldable pub modifier_name : ℕ → Str → Option Str
modifier_name symbol os_type =
    if symbol == b'^'
    then some (codes "Ctrl")
    else if symbol == b'+'
    then some (codes "Shift")
    else if symbol == b'!'
    then some (if str_eq os_type (codes "MACOS") then codes "Option" else codes "Alt")
    else if symbol == b'#'
    then some (
        if str_eq os_type (codes "MACOS")
        then codes "Cmd"
        else if str_eq os_type (codes "WINDOWS")
        then codes "Win"
        else codes "Super")
    else none

-- The loop of `split_mouse_modifiers`, character by character: `head` is what was read since the
-- last boundary, which stands before `start`.
abbrev pub push_modifier : Str → List Str × Str → List Str × Str
push_modifier head (modifiers, rest) = (head ∷ modifiers, rest)

unfoldable pub split_from : (head start : Str) → Str → List Str × Str
split_from head start [] = ([], start)
split_from head start (c ∷ s) =
    let pushed = push_modifier head (split_from [] s s) in
    let further = split_from (head ++ c ∷ []) start s in
    if c == b'+' then (if is_some (symbol_of head) then pushed else ([], start)) else further

unfoldable pub split_mouse_modifiers : Str → List Str × Str
unfolding split_from
split_mouse_modifiers raw = split_from [] raw raw

-- `matches!(c, '#' | '^' | '+' | '!')`
unfoldable pub is_symbol : ℕ → Bool
is_symbol c = c == b'#' || c == b'^' || c == b'+' || c == b'!'

-- `Vec::contains`, and a push of what it does not contain
unfoldable pub contains_name : Str → List Str → Bool
contains_name name [] = false
contains_name name (known ∷ names) = str_eq known name || contains_name name names

unfoldable pub add_name : List Str → Str → List Str
unfolding contains_name
add_name names name = if contains_name name names then names else names ++ name ∷ []

abbrev pub add_some_name : List Str → Option Str → List Str
add_some_name names none = names
add_some_name names (some name) = add_name names name

unfoldable pub names_of_symbols : Str → List Str → Str → List Str
unfolding modifier_name add_name
names_of_symbols os_type names [] = names
names_of_symbols os_type names (symbol ∷ symbols) =
    names_of_symbols os_type (add_some_name names (modifier_name symbol os_type)) symbols

-- the symbols of the first token that is the subtype behind one symbol or more
symbols_of_token : Option Str → Option Str
symbols_of_token none = none
symbols_of_token (some symbols) =
    if is_empty symbols || not (all is_symbol symbols) then none else some symbols

command_symbols : Str → List Str → Option Str
unfolding symbols_of_token
command_symbols subtype [] = none
command_symbols subtype (token ∷ tokens) =
    let later = command_symbols subtype tokens in
    elim (symbols_of_token (strip_suffix subtype token)) [
      | none ↦ later
      | some symbols ↦ some symbols
    ]

abbrev names_of_found : Str → Option Str → List Str
names_of_found os_type none = []
names_of_found os_type (some symbols) = names_of_symbols os_type [] symbols

unfoldable pub modifiers_from_command_form : (rest subtype os_type : Str) → List Str
unfolding command_symbols
modifiers_from_command_form rest subtype os_type =
    if is_empty subtype
    then []
    else names_of_found os_type (command_symbols subtype (split_whitespace rest))

-- The symbols that a subtype begins with, and the rest.
unfoldable pub split_subtype_symbols : Str → Str × Str
split_subtype_symbols subtype =
    (take_until (λ c. not (is_symbol c)) subtype, drop_until (λ c. not (is_symbol c)) subtype)

abbrev pub max_subtype_len : ℕ
max_subtype_len = 32

unfoldable pub is_label_char : ℕ → Bool
is_label_char c = is_ascii_alphanumeric c || c == b'_' || c == b'-'

unfoldable pub safe_subtype : Str → Str
safe_subtype subtype =
    if leb (len subtype) max_subtype_len && not (is_empty subtype) && all is_label_char subtype
    then subtype
    else codes "unknown-action"
