-- ===== src/Fidelity/Quotes.antt =====
-- `unescaped_quote_count` against a reader that steps through the text with an escape flag.
use memory_archive.Prelude.{
  ◌==◌, if◌then◌else◌, ℕ, ◌+◌, ◌%◌, ◌≡◌, ◌∙◌, ◌≢◌, Bool, false, not, ◌&&◌, [], ◌∷◌, ◌++◌, arith,
}
use memory_archive.Text.{Str}
use memory_archive.Fidelity.{next_run, next_count, backslash, count_quotes, unescaped_quote_count}

-- The flag after one character: a backslash that is not itself escaped escapes the next one.
abbrev pub next_flag : Bool → ℕ → Bool
next_flag escaped ch = not escaped && ch == backslash

-- The live quotes of a text.
unfoldable pub live_quotes : ℕ → Bool → Str → ℕ
live_quotes quote escaped [] = 0
live_quotes quote escaped (ch ∷ text) =
    (if not escaped && ch == quote then 1 else 0) + live_quotes quote (next_flag escaped ch) text

-- The flag after a text.
unfoldable pub flag_after : Bool → Str → Bool
flag_after escaped [] = escaped
flag_after escaped (ch ∷ text) = flag_after (next_flag escaped ch) text

abbrev is_odd : ℕ → Bool
is_odd n = n % 2 == 1

count_quotes-live :
    (quote count backslashes : ℕ) (text : Str)
    → quote ≢ backslash
    → count_quotes quote count backslashes text
      ≡ count + live_quotes quote (is_odd backslashes) text
unfolding count_quotes live_quotes
count_quotes-live quote count backslashes [] h = omega arith
count_quotes-live quote count backslashes (ch ∷ text) h =
    count_quotes-live quote (next_count quote count backslashes ch) (next_run backslashes ch) text h
    ∙ ground arith

-- The count of the source is the number of live quotes, for every quote character but the backslash.
pub unescaped_quote_count-live :
    (text : Str) (quote : ℕ)
    → quote ≢ backslash
    → unescaped_quote_count text quote ≡ live_quotes quote false text
unfolding unescaped_quote_count
unescaped_quote_count-live text quote h = rw (count_quotes-live quote 0 0 text h) (omega arith)

pub live_quotes-append :
    (quote : ℕ) (escaped : Bool) (xs ys : Str)
    → live_quotes quote escaped (xs ++ ys)
      ≡ live_quotes quote escaped xs + live_quotes quote (flag_after escaped xs) ys
unfolding live_quotes flag_after
live_quotes-append quote escaped [] ys = omega arith
live_quotes-append quote escaped (x ∷ xs) ys =
    rw (live_quotes-append quote (next_flag escaped x) xs ys) (omega arith)
