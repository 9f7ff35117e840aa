-- ===== src/Query/Parse.antt =====
-- `parse_query` of src/localmail/search/query.py. `str.lower` and `strptime` of the standard library
-- are parameters.
pub mod Follows
pub mod Prefix
pub mod Storable
use localmail.Common.{
  ℕ, leb, ◌==◌, Bool, true, false, ◌&&◌, ◌||◌, not, Option, none, some, List, [], ◌∷◌, ◌++◌,
  if◌then◌else◌,
}
use localmail.Common.Lists.{length}
use localmail.Query.Text.{
  Text, join_words, text_eq, is_empty, any, before_colon, strip, codes, all, is_surrogate, is_space,
  after_colon, is_digit, decimal_from,
}
use localmail.Query.Tokens.{Token, tokenize}
use localmail.Query.Fields.{
  Op, QueryParseError, QueryResult, Effect, Fields, SearchFilters, ParsedQuery, operator,
  is_fixed_shape, int_max_str_digits, then_add, parse_id, dated, free, apply_has, apply, and_then,
  no_fields, or_none, parsed_query, is_unstorable, parsed, refused, set_from, set_to, set_subject,
  set_label, set_attachment_name, add_account, add_folder, add_lang, add_free, add_account_id,
  add_folder_id, set_after, set_before, set_has, nothing, from_op, to_op, subject_op, after_op,
  before_op, has_op, label_op, account_op, folder_op, account_id_op, folder_id_op, lang_op,
  attachment_name_op, unstorable, empty_value, bad_id, bad_date, bad_has, has_contradiction,
}

module _ (lower : Text → Text) (strptime : Text → Option ℕ) where
  unfoldable pub parse_date : Op → Text → QueryResult ℕ
  parse_date op value = dated op value (strptime value)

  -- The value of one has: token.
  unfoldable pub parse_has : Text → QueryResult Effect
  parse_has value =
      let key = lower value in
      if text_eq key (codes "attachment")
      then parsed (set_has true)
      else if text_eq key (codes "no-attachment")
      then parsed (set_has false)
      else refused (bad_has value)

  -- The operator of a token that has a colon.
  abbrev pub token_operator : Text → Option Text → Option Op
  token_operator tok none = none
  token_operator tok (some value) = operator (lower (before_colon tok))

  unfoldable pub valued : Op → Text → QueryResult Effect
  valued from_op value = parsed (set_from value)
  valued to_op value = parsed (set_to value)
  valued subject_op value = parsed (set_subject value)
  valued label_op value = parsed (set_label value)
  valued attachment_name_op value = parsed (set_attachment_name value)
  valued account_op value = parsed (add_account value)
  valued folder_op value = parsed (add_folder value)
  valued account_id_op value = then_add add_account_id (parse_id account_id_op value)
  valued folder_id_op value = then_add add_folder_id (parse_id folder_id_op value)
  valued after_op value = then_add set_after (parse_date after_op value)
  valued before_op value = then_add set_before (parse_date before_op value)
  valued has_op value = parse_has value
  valued lang_op value = parsed nothing

  abbrev pub lang : Text → QueryResult Effect
  lang value =
      let normalized = lower (strip is_space value) in
      if is_empty normalized then refused (empty_value lang_op) else parsed (add_lang normalized)

  abbrev pub operated : Token → Option Op → Text → QueryResult Effect
  operated tok none value = parsed (free tok.raw)
  operated tok (some lang_op) value = lang value
  operated tok (some op) value =
      if is_empty value
      then (if is_fixed_shape op then refused (empty_value op) else parsed (free tok.raw))
      else valued op value

  abbrev pub split : Token → Option Text → QueryResult Effect
  split tok none = parsed (free tok.raw)
  split tok (some value) = operated tok (operator (lower (before_colon tok.text))) value

  -- What a token does, or why it is refused, but for a has: that contradicts an earlier one.
  unfoldable pub read_token : Token → QueryResult Effect
  read_token tok =
      if is_unstorable tok.text
      then refused (unstorable (token_operator tok.text (after_colon tok.text)))
      else split tok (after_colon tok.text)

  abbrev pub parse_token : Token → QueryResult Fields → QueryResult Fields
  parse_token tok (refused e) = refused e
  parse_token tok (parsed f) = and_then (read_token tok) f

  -- The loop over the tokens: the first refusal ends it.
  unfoldable pub parse_tokens : List Token → QueryResult Fields → QueryResult Fields
  parse_tokens [] result = result
  parse_tokens (tok ∷ toks) result = parse_tokens toks (parse_token tok result)

  unfoldable pub parse_query : Text → QueryResult ParsedQuery
  parse_query query = parsed_query (parse_tokens (tokenize query) (parsed no_fields))
