-- ===== src/Query/Examples.antt =====
-- Queries composed, read and refused.
use localmail.Common.{ℕ, ◌≡◌, refl, true, none, some, [], ◌∷◌, Option, inl, ◌++◌}
use localmail.Query.Text.{
  Text, codes, before_colon, after_colon, strip_left, strip_right, join_words, replace_char,
  remove_char, all,
}
use localmail.Query.Tokens.{scan, read_char, tokenize, quoted_filter_value}
use localmail.Query.Fields.{operator, parse_id, apply, refused, QueryParseError}
use localmail.Query.Parse.{parse_date, parse_has, valued, read_token, parse_tokens, parse_query}
use localmail.Query.Compose.{each, given, flag_parts, compose_cli_query, Flags}
use localmail.Query.Compose.FreeText.{is_lower, compose_cli_query-parse_query}
use localmail.Query.Compose.Sound.{AllFilled, flag_tokens, compose_cli_query-tokenize, plain}
use localmail.Query.Parse.Prefix.{SameText}
use localmail.Query.Tokens.Whole.{in_quotes}
use localmail.Query.Parse.Storable.{parse_query-refused}

program : Unit {0}
unfolding before_colon after_colon strip_left strip_right join_words replace_char remove_char scan
    read_char tokenize quoted_filter_value operator parse_id parse_date parse_has valued read_token
    apply parse_tokens parse_query each given flag_parts compose_cli_query
program = tt

abbrev lower : Text → Text
lower s = s

abbrev no_dates : Text → Option ℕ
no_dates s = none

abbrev flags : Flags
flags = record {
  accounts = codes "a\" from:b" ∷ [];
  folders = [];
  after = some (record { year = 2024; month = 2; day = 9 });
  before = none;
  from_substr = none;
  to_substr = none;
  subject_substr = some (codes "");
  has_attachment = some true;
  label = none;
}

lower_keeps : (s : Text) → all is_lower s ≡ true → lower s ≡ s
lower_keeps s h = refl

filled : AllFilled flags
unfolding program
filled = ((refl, tt), tt, tt, tt, inl refl, tt)

compose_cli_query-tokenize_example :
    (query : Text) × (compose_cli_query (codes "tax \"un") flags ≡ some query)
    × (tokenize query ≡ flag_tokens flags ++ tokenize (codes "tax \"un"))
unfolding program
compose_cli_query-tokenize_example = compose_cli_query-tokenize (codes "tax \"un") flags filled

compose_cli_query-parse_query_example :
    (query : Text) × (compose_cli_query (codes "tax") flags ≡ some query)
    × SameText (parse_query lower no_dates query) (parse_query lower no_dates (codes "tax"))
unfolding program
compose_cli_query-parse_query_example =
    compose_cli_query-parse_query lower no_dates lower_keeps (codes "tax") flags filled

parse_query-refused_example :
    (e : QueryParseError) × (parse_query lower no_dates (b'a' ∷ b'"' ∷ 0 ∷ []) ≡ refused e)
unfolding program
parse_query-refused_example = parse_query-refused lower no_dates (b'a' ∷ b'"' ∷ 0 ∷ []) refl

one_account :
    tokenize (codes "account:\"a b\" c")
    ≡ in_quotes (codes "account:") (codes "a b") ∷ plain (codes "c") ∷ []
unfolding program
one_account = refl
