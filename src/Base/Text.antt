-- ===== src/Base/Text.antt =====
-- Python's text operations that the program uses, on native strings, character by character. What a
-- character is (white space, digit) is a test on its code point.
use Prim.Native.Nat.{ℕ, zero, suc, ◌-◌}
use Prim.Native.Char.{Char, code}
use Prim.Native.String.{String, len}
use mathlib.Core.Bool.{Bool, true, false, not}
use mathlib.Core.List.{List, [], ◌∷◌}
use text.Mathlib.Text.{starts_with, ◌==◌ as str_eq}
use tft_stats_analytics.Base.Tests.{◌==◌, leb, if◌then◌else◌}
use tft_stats_analytics.Base.Lists.{keep_if}

-- The digits 0 to 9.
abbrev pub is_ascii_digit : ℕ → Bool
is_ascii_digit c = if leb 48 c then leb c 57 else false

abbrev pub on_head : Char → List String → List String
on_head c [] = (String.◌∷◌ c String.[]) ∷ []
on_head c (w ∷ ws) = (String.◌∷◌ c w) ∷ ws

-- The parts between the characters that pass the test; with a single character, `s.split(sep)`.
unfoldable pub split_by : (ℕ → Bool) → String → List String
split_by p String.[] = "" ∷ []
split_by p (String.◌∷◌ c s) =
    let rest = split_by p s in if p (code c) then "" ∷ rest else on_head c rest

abbrev pub is_blank : String → Bool
is_blank s = str_eq s ""

-- `s.split()`
unfoldable pub words : (ℕ → Bool) → String → List String
unfolding split_by
words is_space s = keep_if (λ w. not (is_blank w)) (split_by is_space s)

abbrev pub all_chars : (ℕ → Bool) → String → Bool
all_chars p String.[] = true
all_chars p (String.◌∷◌ c s) = if p (code c) then all_chars p s else false

-- `s.isdigit()` for a test of digits: not on the empty text.
abbrev pub is_number : (ℕ → Bool) → String → Bool
is_number p s = if is_blank s then false else all_chars p s

-- `s.replace(word, "")` for an ASCII word, with the characters of a match that are still to drop.
unfoldable pub remove_word : String → ℕ → String → String
remove_word word skip String.[] = String.[]
remove_word word (suc skip) (String.◌∷◌ c s) = remove_word word skip s
remove_word word zero (String.◌∷◌ c s) =
    let matched = remove_word word (len word - 1) s in
    let kept = String.◌∷◌ c (remove_word word zero s) in
    if starts_with (String.◌∷◌ c s) word then matched else kept

-- The characters that pass the test.
unfoldable pub keep_chars : (ℕ → Bool) → String → String
keep_chars p String.[] = String.[]
keep_chars p (String.◌∷◌ c s) =
    let rest = keep_chars p s in if p (code c) then String.◌∷◌ c rest else rest

-- Without the characters at the start that pass the test.
unfoldable pub drop_chars : (ℕ → Bool) → String → String
drop_chars p String.[] = String.[]
drop_chars p (String.◌∷◌ c s) =
    let rest = drop_chars p s in if p (code c) then rest else String.◌∷◌ c s

-- Without the first `n` characters.
unfoldable pub skip_chars : ℕ → String → String
skip_chars zero s = s
skip_chars (suc n) String.[] = String.[]
skip_chars (suc n) (String.◌∷◌ c s) = skip_chars n s

abbrev pub cons_unless : (ℕ → Bool) → Char → String → String
cons_unless p c String.[] = if p (code c) then String.[] else String.◌∷◌ c String.[]
cons_unless p c (String.◌∷◌ d s) = String.◌∷◌ c (String.◌∷◌ d s)

-- Without the characters at the end that pass the test.
unfoldable pub drop_end : (ℕ → Bool) → String → String
drop_end p String.[] = String.[]
drop_end p (String.◌∷◌ c s) = cons_unless p c (drop_end p s)

-- `s.strip()`
unfoldable pub strip_text : (ℕ → Bool) → String → String
unfolding drop_end drop_chars
strip_text is_space s = drop_end is_space (drop_chars is_space s)

-- `s.partition(sep)` for a separator of one character: what is before and after the first one, with
-- nothing after where there is none.
unfoldable pub partition : ℕ → String → String × String
partition sep String.[] = (String.[], String.[])
partition sep (String.◌∷◌ c s) =
    let rest = partition sep s in
    if code c == sep then (String.[], s) else (String.◌∷◌ c rest.0, rest.1)

-- `s.replace(a, b)` for single characters.
unfoldable pub replace_char : Char → Char → String → String
replace_char a b String.[] = String.[]
replace_char a b (String.◌∷◌ c s) =
    let rest = replace_char a b s in
    if code c == code a then String.◌∷◌ b rest else String.◌∷◌ c rest

-- `word in s`
unfoldable pub contains_word : String → String → Bool
contains_word word String.[] = starts_with String.[] word
contains_word word (String.◌∷◌ c s) =
    let rest = contains_word word s in if starts_with (String.◌∷◌ c s) word then true else rest
