-- ===== src/Api/Filters.antt =====
-- The filters of a search request and the query composed from them: `filter_key_error`,
-- `build_query_string`, `_filter_tokens`, `_quote_value` and `_validate_date` of
-- src/localmail/api/search.py, with `parse_int_id` of src/localmail/api/ids.py. `str.lower` and
-- `strptime` of the standard library are parameters.
pub mod Whole
pub mod Reads
pub mod Parts
pub mod Decimal
pub mod FreeText
use localmail.Common.{
  ℕ, Bool, if◌then◌else◌, ◌==◌, leb, ltb, is_some, zero, suc, ◌+◌, ◌/◌, true, false, not, ◌&&◌,
  ◌||◌, Option, none, some, List, [], ◌∷◌, ◌++◌,
}
use localmail.Query.Text.{
  Text, is_space, is_empty, is_digit, all, codes, strip, join_words, any, decimal_from,
}
use localmail.Query.Compose.{digit}
use localmail.Common.Lists.{length}
use localmail.Query.Tokens.{quoted_filter_value}
use localmail.Query.Fields.{int_max_str_digits}

-- has_attachment: absent or null, a boolean, or a value of another type.
pub data HasFilter : Type 0 where
  no_has : HasFilter
  wants_has : Bool → HasFilter
  odd_has : HasFilter

-- lang: absent or null, a text, or a list of texts.
pub data LangFilter : Type 0 where
  no_lang : LangFilter
  one_lang : Text → LangFilter
  many_langs : List Text → LangFilter

-- The filters that a request gives; a list that is absent is empty.
pub record Filters : Type 0 where
  pub unknown_keys : List Text
  pub account_ids : List Text
  pub folder_ids : List Text
  pub from_text : Option Text
  pub to_text : Option Text
  pub subject : Option Text
  pub attachment_name : Option Text
  pub after : Option Text
  pub before : Option Text
  pub date_from : Option Text
  pub date_to : Option Text
  pub lang : LangFilter
  pub has_attachment : HasFilter

-- The ValidationFailed that a malformed filter raises, with the key that it names.
pub data FilterError : Type 0 where
  unknown_filters : List Text → FilterError
  malformed_id : Text → FilterError
  nothing_quoted : Text → FilterError
  malformed_date : Text → FilterError
  empty_langs : FilterError
  empty_lang : FilterError
  malformed_lang : Text → FilterError
  malformed_has : FilterError

pub data Composed {ℓ} (A : Type ℓ) : Type ℓ where
  composed : A → Composed A
  invalid : FilterError → Composed A

-- int() refuses a longer text of digits.
unfoldable pub parse_int_id : Text → Text → Composed ℕ
parse_int_id value field =
    if not (is_empty value) && all is_digit value && leb (length value) int_max_str_digits
    then composed (decimal_from 0 value)
    else invalid (malformed_id field)

-- str() of a number, with more rounds than it has digits.
unfoldable pub decimal_fuel : ℕ → ℕ → Text
decimal_fuel zero n = []
decimal_fuel (suc fuel) n =
    let rest = decimal_fuel fuel (n / 10) in
    if ltb n 10 then (b'0' + n) ∷ [] else rest ++ digit n ∷ []

unfoldable pub decimal : ℕ → Text
decimal n = decimal_fuel (suc n) n

-- The parts so far and the next ones; the first refusal ends the composition.
infixr 30 ◌then_parts◌
abbrev pub ◌then_parts◌ : Composed (List Text) → Composed (List Text) → Composed (List Text)
invalid e then_parts parts = invalid e
composed ws then_parts invalid e = invalid e
composed ws then_parts composed vs = composed (ws ++ vs)

abbrev pub id_part : Text → Composed ℕ → Composed (List Text)
id_part key (invalid e) = invalid e
id_part key (composed n) = composed ((key ++ b':' ∷ decimal n) ∷ [])

unfoldable pub id_parts : Text → List Text → Composed (List Text)
id_parts key [] = composed []
id_parts key (v ∷ vs) = id_part key (parse_int_id v key) then_parts id_parts key vs

abbrev pub quoted_part : Text → Option Text → Composed (List Text)
quoted_part key none = invalid (nothing_quoted key)
quoted_part key (some quoted) = composed ((key ++ b':' ∷ quoted) ∷ [])

-- An empty text is an absent filter.
unfoldable pub text_part : Text → Option Text → Composed (List Text)
text_part key none = composed []
text_part key (some v) = if is_empty v then composed [] else quoted_part key (quoted_filter_value v)

-- \d{1,2}
abbrev pub day_shape : Text → Bool
day_shape [] = false
day_shape (a ∷ []) = is_digit a
day_shape (a ∷ b ∷ []) = is_digit a && is_digit b
day_shape (a ∷ b ∷ c ∷ s) = false

abbrev pub dash_day_shape : Text → Bool
dash_day_shape [] = false
dash_day_shape (d ∷ s) = d == b'-' && day_shape s

abbrev pub month_shape : Text → Bool
month_shape [] = false
month_shape (a ∷ []) = false
month_shape (a ∷ b ∷ s) =
    is_digit a && ((b == b'-' && day_shape s) || (is_digit b && dash_day_shape s))

-- `_DATE_SHAPE`: \d{4}-\d{1,2}-\d{1,2}
abbrev pub date_shape : Text → Bool
date_shape (a ∷ b ∷ c ∷ d ∷ e ∷ s) = all is_digit (a ∷ b ∷ c ∷ d ∷ []) && e == b'-' && month_shape s
date_shape _ = false

abbrev pub is_bad_lang : ℕ → Bool
is_bad_lang ch = is_space ch || (ch == b'"' || ch == 39)

abbrev pub has_filter : HasFilter → Composed (List Text)
has_filter no_has = composed []
has_filter (wants_has true) = composed (codes "has:attachment" ∷ [])
has_filter (wants_has false) = composed (codes "has:no-attachment" ∷ [])
has_filter odd_has = invalid malformed_has

module _ (lower : Text → Text) (strptime : Text → Option ℕ) where
  unfoldable pub validate_date : Text → Bool
  validate_date value = date_shape value && is_some (strptime value)

  -- The operator's key, and the one that the refusal names.
  unfoldable pub date_part : Text → Text → Option Text → Composed (List Text)
  date_part key field none = composed []
  date_part key field (some v) =
      if is_empty v
      then composed []
      else if validate_date v
      then composed ((key ++ b':' ∷ v) ∷ [])
      else invalid (malformed_date field)

  abbrev pub lang_code : Text → Composed (List Text)
  lang_code s =
      if is_empty s
      then invalid empty_lang
      else if any is_bad_lang s
      then invalid (malformed_lang s)
      else composed ((codes "lang:" ++ s) ∷ [])

  unfoldable pub lang_each : List Text → Composed (List Text)
  lang_each [] = composed []
  lang_each (v ∷ vs) = lang_code (lower (strip is_space v)) then_parts lang_each vs

  abbrev pub lang_parts : LangFilter → Composed (List Text)
  lang_parts no_lang = composed []
  lang_parts (one_lang v) = lang_each (v ∷ [])
  lang_parts (many_langs []) = invalid empty_langs
  lang_parts (many_langs (v ∷ vs)) = lang_each (v ∷ vs)

  -- `_filter_tokens`
  unfoldable pub filter_tokens : Filters → Composed (List Text)
  filter_tokens filters =
      id_parts (codes "account_id") filters.account_ids
      then_parts id_parts (codes "folder_id") filters.folder_ids
      then_parts text_part (codes "from") filters.from_text
      then_parts text_part (codes "to") filters.to_text
      then_parts text_part (codes "subject") filters.subject
      then_parts text_part (codes "attachment_name") filters.attachment_name
      then_parts date_part (codes "after") (codes "after") filters.after
      then_parts date_part (codes "before") (codes "before") filters.before
      then_parts date_part (codes "after") (codes "date_from") filters.date_from
      then_parts date_part (codes "before") (codes "date_to") filters.date_to
      then_parts lang_parts filters.lang
      then_parts has_filter filters.has_attachment

  abbrev pub with_free_text : Text → Composed (List Text) → Composed Text
  with_free_text free_text (invalid e) = invalid e
  with_free_text free_text (composed parts) =
      composed (join_words (if is_empty free_text then parts else parts ++ free_text ∷ []))

  -- A key that is not a filter is refused, whatever else is given.
  abbrev pub known : List Text → Composed Text → Composed Text
  known [] result = result
  known (key ∷ keys) result = invalid (unknown_filters (key ∷ keys))

  unfoldable pub build_query_string : Text → Filters → Composed Text
  build_query_string free_text filters =
      known filters.unknown_keys (with_free_text free_text (filter_tokens filters))
