-- ===== src/Query/Text.antt =====
-- Texts as lists of code points, with the methods of Python's `str` that
-- src/localmail/search/query.py calls.
use Prim.Native.String.{String}
use Prim.Native.Char.{code}
use localmail.Common.{
  ℕ, ◌+◌, ◌-◌, ◌*◌, leb, ◌==◌, Bool, true, false, ◌&&◌, ◌||◌, Option, none, some, List, [], ◌∷◌,
  ◌++◌, if◌then◌else◌,
}

abbrev pub Text : Type 0
Text = List ℕ

-- The code points of a literal.
abbrev pub codes : String → Text
codes String.[] = []
codes (String.◌∷◌ c s) = code c ∷ codes s

abbrev pub text_eq : Text → Text → Bool
text_eq [] [] = true
text_eq [] (d ∷ t) = false
text_eq (c ∷ s) [] = false
text_eq (c ∷ s) (d ∷ t) = c == d && text_eq s t

abbrev pub is_empty : Text → Bool
is_empty [] = true
is_empty (c ∷ s) = false

abbrev pub between : ℕ → ℕ → ℕ → Bool
between lo hi c = leb lo c && leb c hi

-- str.isspace
abbrev pub is_space : ℕ → Bool
is_space c =
    between 9 13 c
    || between 28 32 c
    || c == 133
    || c == 160
    || c == 5760
    || between 8192 8202 c
    || between 8232 8233 c
    || c == 8239
    || c == 8287
    || c == 12288

-- str.isascii and str.isdigit together
abbrev pub is_digit : ℕ → Bool
is_digit c = between b'0' b'9' c

abbrev pub is_surrogate : ℕ → Bool
is_surrogate c = between 55296 57343 c

abbrev pub any : (ℕ → Bool) → Text → Bool
any p [] = false
any p (c ∷ s) = p c || any p s

abbrev pub all : (ℕ → Bool) → Text → Bool
all p [] = true
all p (c ∷ s) = p c && all p s

-- str.partition(":"): what stands before the first colon, and after it where there is one
unfoldable pub before_colon : Text → Text
before_colon [] = []
before_colon (c ∷ s) = let rest = before_colon s in if c == b':' then [] else c ∷ rest

unfoldable pub after_colon : Text → Option Text
after_colon [] = none
after_colon (c ∷ s) = let rest = after_colon s in if c == b':' then some s else rest

unfoldable pub strip_left : (ℕ → Bool) → Text → Text
strip_left p [] = []
strip_left p (c ∷ s) = let rest = strip_left p s in if p c then rest else c ∷ s

unfoldable pub strip_right : (ℕ → Bool) → Text → Text
strip_right p [] = []
strip_right p (c ∷ s) = let rest = strip_right p s in if p c && is_empty rest then [] else c ∷ rest

-- str.strip
abbrev pub strip : (ℕ → Bool) → Text → Text
strip p s = strip_right p (strip_left p s)

-- int() of ASCII digits
abbrev pub decimal_from : ℕ → Text → ℕ
decimal_from n [] = n
decimal_from n (c ∷ s) = decimal_from (n * 10 + (c - b'0')) s

-- " ".join
unfoldable pub join_words : List Text → Text
join_words [] = []
join_words (w ∷ []) = w
join_words (w ∷ v ∷ ws) = w ++ b' ' ∷ join_words (v ∷ ws)

-- str.replace of one character, by another or by nothing
unfoldable pub replace_char : ℕ → ℕ → Text → Text
replace_char a b [] = []
replace_char a b (c ∷ s) = (if c == a then b else c) ∷ replace_char a b s

unfoldable pub remove_char : ℕ → Text → Text
remove_char a [] = []
remove_char a (c ∷ s) = let rest = remove_char a s in if c == a then rest else c ∷ rest
