-- ===== src/Api/Security/Params.antt =====
-- Input validation of api/security.py, on texts as lists of code points. Which code points are
-- white space or word characters, and lower case, are CPython's Unicode tables: parameters.
pub mod Clean
use Prim.Native.Char.{code}
use Prim.Native.String
use tft_stats_analytics.Base.{
  ℕ, zero, suc, String, Bool, true, false, not, ◌&&◌, ◌||◌, Option, none, some, List, [], ◌∷◌, map,
  ltb, leb, ◌==◌, if◌then◌else◌, length, any_of,
}
use tft_stats_analytics.Base.Int.{ℤ, leb_ℤ}

abbrev pub Text : Type 0
Text = List ℕ

-- The code points of a literal.
abbrev pub codes : String → Text
codes String.[] = []
codes (String.◌∷◌ c s) = code c ∷ codes s

pub record Unicode : Type 0 where
  pub is_space : ℕ → Bool
  pub is_word : ℕ → Bool
  pub lower : Text → Text

-- The details of the HTTPException(422).
pub data Reject : Type 0 where
  too_long invalid_characters malformed riot_id_required invalid_riot_id : Reject

pub data Result (A : Type 0) : Type 0 where
  ok : A → Result A
  err : Reject → Result A

infixl 10 ◌>>=◌
abbrev pub ◌>>=◌ : {A B : Type 0} → Result A → (A → Result B) → Result B
ok a >>= f = f a
err e >>= f = err e

-- `MAX_PARAM_LEN`, at its default
abbrev pub max_param_len : ℕ
max_param_len = 120

-- `[\x00-\x1f\x7f]`
abbrev pub is_control : ℕ → Bool
is_control c = leb c 31 || c == 127

unfoldable pub is_prefix : Text → Text → Bool
is_prefix [] s = true
is_prefix (p ∷ ps) [] = false
is_prefix (p ∷ ps) (c ∷ cs) = p == c && is_prefix ps cs

-- `p in s`
unfoldable pub contains : Text → Text → Bool
unfolding is_prefix
contains p [] = is_prefix p []
contains p (c ∷ cs) = is_prefix p (c ∷ cs) || contains p cs

module _ (u : Unicode) where
  -- `s.lstrip()`
  unfoldable pub strip_left : Text → Text
  strip_left [] = []
  strip_left (c ∷ cs) = let rest = strip_left cs in if u.is_space c then rest else c ∷ cs

  abbrev pub cons_unless_blank : ℕ → Text → Text
  cons_unless_blank c [] = if u.is_space c then [] else c ∷ []
  cons_unless_blank c (d ∷ ds) = c ∷ d ∷ ds

  -- `s.rstrip()`
  unfoldable pub strip_right : Text → Text
  strip_right [] = []
  strip_right (c ∷ cs) = cons_unless_blank c (strip_right cs)

  unfoldable pub strip : Text → Text
  unfolding strip_left strip_right
  strip s = strip_right (strip_left s)

  -- `clean_param`; the field's name only shows in the message of the exception
  unfoldable pub clean_param : Option Text → Result Text
  unfolding contains strip
  clean_param none = ok []
  clean_param (some value) =
      if ltb max_param_len (length value)
      then err too_long
      else if any_of is_control value
      then err invalid_characters
      else if contains (codes "..") value || contains (codes "://") (u.lower value)
      then err malformed
      else ok (strip value)

  -- `[\w .\-]`
  unfoldable pub is_name_char : ℕ → Bool
  is_name_char c = u.is_word c || c == b' ' || c == b'.' || c == b'-'

  abbrev pub is_alnum : ℕ → Bool
  is_alnum c = leb b'0' c && leb c b'9' || leb b'A' c && leb c b'Z' || leb b'a' c && leb c b'z'

  abbrev pub all_of : (ℕ → Bool) → Text → Bool
  all_of p [] = true
  all_of p (c ∷ cs) = p c && all_of p cs

  -- `(?:#[A-Za-z0-9]{1,10})?$`
  unfoldable pub is_tag : Text → Bool
  is_tag [] = true
  is_tag (c ∷ tag) = c == b'#' && leb 1 (length tag) && leb (length tag) 10 && all_of is_alnum tag

  -- `_RIOT_ID`, with `left` name characters still allowed and `needed` when one must come. No
  -- character of a name is the sign that begins the tag unless the word table says so. A text of
  -- `clean_param` has no line end, so `$` is the end.
  unfoldable pub is_riot_id_from : ℕ → Bool → Text → Bool
  unfolding is_tag is_name_char
  is_riot_id_from zero needed s = not needed && is_tag s
  is_riot_id_from (suc left) needed [] = not needed
  is_riot_id_from (suc left) needed (c ∷ cs) =
      is_name_char c && is_riot_id_from left false cs || not needed && is_tag (c ∷ cs)

  unfoldable pub is_riot_id : Text → Bool
  unfolding is_riot_id_from
  is_riot_id s = is_riot_id_from 30 true s

  abbrev pub non_empty : Text → Result Text
  non_empty [] = err riot_id_required
  non_empty (c ∷ cs) = ok (c ∷ cs)

  unfoldable pub validate_riot_id : Option Text → Result Text
  unfolding clean_param is_riot_id
  validate_riot_id raw = do
    cleaned ← clean_param raw
    val ← non_empty cleaned
    if is_riot_id val then ok val else err invalid_riot_id

-- `clamp`; `none` is a value that `int` refuses
unfoldable pub clamp : Option ℤ → ℤ → ℤ → ℤ
clamp none lo hi = lo
clamp (some v) lo hi =
    let capped = if leb_ℤ hi v then hi else v in if leb_ℤ capped lo then lo else capped
