-- ===== src/Api/SearchExamples.antt =====
-- Search requests of a user with two accounts.
use localmail.Api.Filters.{
  composed, invalid, wants_has, one_lang, many_langs, Filters, build_query_string, filter_tokens,
  malformed_lang, parse_int_id, decimal_fuel, decimal, id_parts, text_part, validate_date,
  date_part, lang_each,
}
use localmail.Common.{ℕ, ◌≡◌, refl, true, Option, none, some, List, [], ◌∷◌, ◌++◌, map}
use localmail.Query.Text.{
  before_colon, Text, after_colon, codes, all, strip_left, strip_right, join_words, replace_char,
  remove_char,
}
use localmail.Query.Tokens.{Token, tokenize, scan, read_char, quoted_filter_value}
use localmail.Api.Scope.{scope_filters_by_acl, clamp_account_ids_to_acl, distinct, parse_ids}
use localmail.Api.Filters.Reads.{is_key_char}
use localmail.Common.Lists.{All}
use localmail.Query.Parse.Follows.{IsFilter}
use localmail.Query.Parse.{read_token, parse_query, parse_date, parse_has, valued, parse_tokens}
use localmail.Query.Parse.Prefix.{SameText}
use localmail.Api.Filters.FreeText.{build_query_string-parse_query}
use localmail.Query.Fields.{operator, parse_id, apply}
use localmail.Sync.Order.{sorted, insert_sorted}
use localmail.Common.Table.{select}

program : Unit {0}
unfolding before_colon after_colon strip_left strip_right join_words replace_char remove_char scan
    read_char tokenize quoted_filter_value operator parse_id parse_date parse_has valued read_token
    apply parse_tokens parse_query parse_int_id decimal_fuel decimal id_parts text_part
    validate_date date_part lang_each filter_tokens build_query_string distinct
    clamp_account_ids_to_acl parse_ids scope_filters_by_acl sorted insert_sorted select
program = tt

abbrev keep_case : Text → Text
keep_case s = s

abbrev first_day : Text → Option ℕ
first_day s = some 1

abbrev filters : Filters
filters = record {
  unknown_keys = [];
  account_ids = codes "12" ∷ codes "03" ∷ [];
  folder_ids = [];
  from_text = some (codes "a\" has:b");
  to_text = none;
  subject = some [];
  attachment_name = none;
  after = none;
  before = none;
  date_from = some (codes "2024-2-9");
  date_to = none;
  lang = many_langs (codes " en " ∷ []);
  has_attachment = wants_has true;
}

abbrev query : Text
query =
    codes
      "account_id:12 account_id:3 from:\"a has:b\" after:2024-2-9 lang:en has:attachment tax \"un"

keeps : (s : Text) → all is_key_char s ≡ true → keep_case s ≡ s
keeps s h = refl

build_query_string-parse_query_example :
    (toks : List Token) × (filter_tokens keep_case first_day filters
      ≡ composed (map (λ tok. tok.raw) toks))
    × (tokenize query ≡ toks ++ tokenize (codes "tax \"un"))
    × All (λ tok. IsFilter (read_token keep_case first_day tok)) toks
    × SameText
        (parse_query keep_case first_day query)
        (parse_query keep_case first_day (codes "tax \"un"))
unfolding program
build_query_string-parse_query_example =
    build_query_string-parse_query keep_case first_day keeps (codes "tax \"un") query filters refl

malformed_language :
    build_query_string keep_case first_day
      (codes "tax")
      (record filters { lang = one_lang (codes "en has:x") })
    ≡ invalid (malformed_lang (codes "en has:x"))
unfolding program
malformed_language = refl

abbrev allowed : List ℕ
allowed = 7 ∷ 3 ∷ []

one_account_scoped :
    scope_filters_by_acl filters allowed
    ≡ composed (some (record filters { account_ids = codes "3" ∷ [] }))
unfolding program
one_account_scoped = refl
