-- ===== src/Api/Filters/FreeText.antt =====
-- What the parser makes of a query that `build_query_string` of src/localmail/api/search.py composes.
use mathlib.Core.Path.{subst}
use localmail.Api.Filters.{
  composed, invalid, Text, all, Composed, is_empty, filter_tokens, with_free_text, known,
  build_query_string, Filters, join_words,
}
use localmail.Common.{
  Bool-cases, ℕ, ◌≡◌, refl, ap, inl, inr, true, Option, List, [], ◌∷◌, ◌++◌, sym, ◌∙◌, map,
}
use localmail.Query.Text.{Text, all, is_empty, join_words}
use localmail.Api.Filters.Reads.{is_key_char, IsFilterToken, AreFilters}
use localmail.Query.Tokens.Whole.{IsWhole, tokenize-join_words}
use localmail.Query.Tokens.{Token, tokenize}
use localmail.Query.Compose.Sound.{alone}
use localmail.Query.Parse.{parse_query, read_token}
use localmail.Common.Lists.{All, All-mono}
use localmail.Query.Parse.Follows.{IsFilter}
use localmail.Query.Parse.Prefix.{SameText, filters-SameText}
use localmail.Api.Filters.Parts.{filter_tokens-AreFilters}

module _ (lower : Text → Text) (strptime : Text → Option ℕ)
    (lower_keeps : (s : Text) → all is_key_char s ≡ true → lower s ≡ s) where
  abbrev text_of : Composed Text → Text
  text_of (composed t) = t
  text_of (invalid e) = []

  -- The tokens of a composition of such parts and a free text.
  composed-tokenize :
      (parts : Composed (List Text)) (free_text query : Text)
      → AreFilters lower strptime parts
      → with_free_text lower strptime free_text parts ≡ composed query
      → (toks : List Token) × (parts ≡ composed (map (λ tok. tok.raw) toks))
        × All (IsFilterToken lower strptime) toks
        × (tokenize query ≡ toks ++ tokenize free_text)
  composed-tokenize (invalid e) free_text query good h = absurd (cc h)
  composed-tokenize (composed parts) free_text query (toks, e, f) h =
      let whole : All IsWhole toks = All-mono toks (λ tok x. x.0) f in
      let words = map (λ tok. tok.raw) toks in
      elim (Bool-cases (is_empty free_text)) [
        | inl n ↦
            let r : with_free_text lower strptime free_text (composed parts)
                ≡ composed (join_words words) =
              rw (e, n) refl in
            let q : join_words words ≡ query = ap text_of (sym r ∙ h) in
            (
              toks,
              ap composed e,
              f,
              subst (λ x. tokenize x ≡ toks ++ tokenize free_text) q (alone toks free_text whole n),
            )
        | inr n ↦
            let r : with_free_text lower strptime free_text (composed parts)
                ≡ composed (join_words (words ++ free_text ∷ [])) =
              rw (e, n) refl in
            let q : join_words (words ++ free_text ∷ []) ≡ query = ap text_of (sym r ∙ h) in
            (
              toks,
              ap composed e,
              f,
              subst (λ x. tokenize x ≡ toks ++ tokenize free_text) q
                  (tokenize-join_words toks free_text whole n),
            )
      ]

  all_known :
      (keys : List Text) (result : Composed Text) (query : Text)
      → known lower strptime keys result ≡ composed query
      → result ≡ composed query
  all_known [] result query h = h
  all_known (key ∷ keys) result query h = absurd (cc h)

  -- Where the filters of a request are accepted, the composed query is read as one token for each
  -- part that a filter gave, in their order, and then as the tokens of the free text alone; none
  -- of the former is free text, and where the query is accepted, so is the free text alone, and
  -- both have the same free text. So nothing in a value or in the free text, an unclosed quote
  -- included, adds a token or swallows one. `str.lower` leaves lower-case letters of ASCII and
  -- underscores as they are.
  pub build_query_string-parse_query :
      (free_text query : Text) (filters : Filters)
      → build_query_string lower strptime free_text filters ≡ composed query
      → (toks : List Token) × (filter_tokens lower strptime filters
          ≡ composed (map (λ tok. tok.raw) toks))
        × (tokenize query ≡ toks ++ tokenize free_text)
        × All (λ tok. IsFilter (read_token lower strptime tok)) toks
        × SameText (parse_query lower strptime query) (parse_query lower strptime free_text)
  unfolding build_query_string parse_query
  build_query_string-parse_query free_text query filters h =
      let (toks, e, f, t) =
        composed-tokenize (filter_tokens lower strptime filters) free_text query
          (filter_tokens-AreFilters lower strptime lower_keeps filters)
          (all_known filters.unknown_keys
            (with_free_text lower strptime free_text (filter_tokens lower strptime filters)) query
            h) in
      let reads = All-mono toks (λ tok x. x.1) f in
      (toks, e, t, reads, rw t (filters-SameText lower strptime toks (tokenize free_text) reads))
