-- ===== src/Query/Tokens.antt =====
-- `_tokenize`, `semantic_text`, `excluded_text` and `quoted_filter_value` of
-- src/localmail/search/query.py.
pub mod Whole
use localmail.Common.{
  ℕ, ◌==◌, Bool, true, false, ◌&&◌, ◌||◌, not, Option, none, some, List, [], ◌∷◌, ◌++◌,
  if◌then◌else◌,
}
use localmail.Query.Text.{
  Text, is_space, is_empty, replace_char, remove_char, text_eq, join_words, any, codes,
}

-- A token without its quotes, and with them.
pub record Token : Type 0 where
  pub text : Text
  pub raw : Text

-- The variables of the loop.
pub record Scanner : Type 0 where
  pub buf : Text
  pub raw : Text
  pub quoted : Bool

abbrev pub initial : Scanner
initial = record { buf = []; raw = []; quoted = false }

-- The token that ends here, if it has a character.
abbrev pub flush : Scanner → List Token
flush st = if is_empty st.buf then [] else record { text = st.buf; raw = st.raw } ∷ []

abbrev pub keep : ℕ → Scanner → Scanner
keep ch st = record st { buf = st.buf ++ ch ∷ []; raw = st.raw ++ ch ∷ [] }

abbrev pub quote : ℕ → Bool → Scanner → Scanner
quote ch quoted st = record st { raw = st.raw ++ ch ∷ []; quoted = quoted }

-- The body of the loop: the variables after one character, and the token that it ends.
unfoldable pub read_char : ℕ → Scanner → Scanner × List Token
read_char ch st =
    if st.quoted
    then (if ch == b'"' then (quote ch false st, []) else (keep ch st, []))
    else if ch == b'"'
    then (quote ch true st, [])
    else if is_space ch
    then (initial, flush st)
    else (keep ch st, [])

unfoldable pub scan : Scanner → Text → List Token
scan st [] = flush st
scan st (ch ∷ s) = let (st', out) = read_char ch st in out ++ scan st' s

unfoldable pub tokenize : Text → List Token
tokenize s = scan initial s

-- None when nothing is left.
unfoldable pub quoted_filter_value : Text → Option Text
quoted_filter_value value =
    let s = replace_char b'\r' b' ' (replace_char b'\n' b' ' (remove_char b'"' value)) in
    if is_empty s then none else some (b'"' ∷ s ++ b'"' ∷ [])

-- `str.lower` and `str.isalnum` are parameters.
module _ (lower : Text → Text) (is_alnum : ℕ → Bool) where
  abbrev pub is_or : Text → Bool
  is_or raw = text_eq (lower raw) (codes "or")

  -- One dash in front, not two.
  abbrev pub is_exclusion : Text → Bool
  is_exclusion [] = false
  is_exclusion (c ∷ []) = c == b'-'
  is_exclusion (c ∷ d ∷ raw) = c == b'-' && not (d == b'-')

  abbrev pub is_wanted : Token → Bool
  is_wanted tok = not (is_empty tok.text) && not (is_or tok.raw) && not (is_exclusion tok.raw)

  abbrev pub positive : List Token → List Text
  positive [] = []
  positive (tok ∷ toks) =
      let rest = positive toks in if is_wanted tok then tok.text ∷ rest else rest

  unfoldable pub semantic_text : Text → Text
  semantic_text free_text = join_words (positive (tokenize free_text))

  abbrev pub starts_or : List Token → Bool
  starts_or [] = false
  starts_or (tok ∷ toks) = is_or tok.raw

  -- `prior` is whether the token before is an OR.
  abbrev pub excluded : Bool → List Token → List Text
  excluded prior [] = []
  excluded prior (tok ∷ toks) =
      let rest = excluded (is_or tok.raw) toks in
      if is_exclusion tok.raw && any is_alnum tok.text && not prior && not (starts_or toks)
      then tok.raw ∷ rest
      else rest

  unfoldable pub excluded_text : Text → Text
  excluded_text free_text = join_words (excluded false (tokenize free_text))
