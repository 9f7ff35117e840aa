-- ===== src/Query/Parse/Prefix.antt =====
-- Tokens of filters before the free text.
use localmail.Common.{
  ℕ, ◌≡◌, inl, inr, false, Option, some, List, [], ◌∷◌, ◌++◌, refl, sym, ap, ◌∙◌, Bool-cases, ◌≢◌,
}
use localmail.Query.Text.{
  Text, join_words, after_colon, text_eq, before_colon, codes, is_empty, strip, is_space,
}
use localmail.Query.Tokens.{Token}
use localmail.Common.Lists.{All}
use localmail.Query.Fields.{
  Op, QueryParseError, QueryResult, Effect, Fields, ParsedQuery, operator, then_add, parse_id,
  and_then, no_fields, parsed_query, is_unstorable, parsed, refused, add_account_id, add_folder_id,
  set_after, set_before, from_op, to_op, subject_op, after_op, before_op, has_op, label_op,
  account_op, folder_op, account_id_op, folder_id_op, lang_op, attachment_name_op,
}
use localmail.Query.Parse.{
  parse_tokens, parse_token, valued, read_token, parse_has, operated, parse_date, lang, strip,
  is_space,
}
use localmail.Query.Parse.Follows.{
  Agrees, SameFree, IsFilter, Follows, Follows-trans, none_added, and_then-SameFree,
  and_then-Follows,
}

-- The same free text, where the first query is accepted; the second then is as well.
abbrev pub SameText : QueryResult ParsedQuery → QueryResult ParsedQuery → Type 0
SameText (refused e) q0 = Unit
SameText (parsed q) (refused e) = ⊥
SameText (parsed q) (parsed q0) = q.free_text ≡ q0.free_text

module _ (lower : Text → Text) (strptime : Text → Option ℕ) where
  pub parse_tokens-refused :
      (toks : List Token) (e : QueryParseError)
      → parse_tokens lower strptime toks (refused e) ≡ refused e
  unfolding parse_tokens
  parse_tokens-refused [] e = refl
  parse_tokens-refused (tok ∷ toks) e = parse_tokens-refused toks e

  rest-Follows :
      (toks : List Token) (f f0 : Fields) (r r0 : QueryResult Fields)
      → ((g g0 : Fields)
          → Agrees g.has_attachment g0.has_attachment
          → Follows g g0
              (parse_tokens lower strptime toks (parsed g))
              (parse_tokens lower strptime toks (parsed g0)))
      → Follows f f0 r r0
      → Follows f f0 (parse_tokens lower strptime toks r) (parse_tokens lower strptime toks r0)
  rest-Follows toks f f0 (refused e) r0 k h = rw (parse_tokens-refused toks e) tt
  rest-Follows toks f f0 (parsed g) (refused e) k h = absurd h
  rest-Follows toks f f0 (parsed g) (parsed g0) k (a, added) =
      Follows-trans f f0 g g0 (parse_tokens lower strptime toks (parsed g))
        (parse_tokens lower strptime toks (parsed g0)) (a, added) (k g g0 a)

  parse_tokens-Follows :
      (toks : List Token) (f f0 : Fields)
      → Agrees f.has_attachment f0.has_attachment
      → Follows f f0
          (parse_tokens lower strptime toks (parsed f))
          (parse_tokens lower strptime toks (parsed f0))
  unfolding parse_tokens
  parse_tokens-Follows [] f f0 a = (a, none_added f f0)
  parse_tokens-Follows (tok ∷ toks) f f0 a =
      rest-Follows toks f f0 (and_then (read_token lower strptime tok) f)
        (and_then (read_token lower strptime tok) f0) (parse_tokens-Follows toks)
        (and_then-Follows (read_token lower strptime tok) f f0 a)

  SameFree-trans :
      (f g : Fields) (r : QueryResult Fields) → SameFree f (parsed g) → SameFree g r → SameFree f r
  SameFree-trans f g (refused e) h k = tt
  SameFree-trans f g (parsed x) h k = k ∙ h

  rest-SameFree :
      (toks : List Token) (f : Fields) (r : QueryResult Fields)
      → ((g : Fields) → SameFree g (parse_tokens lower strptime toks (parsed g)))
      → SameFree f r
      → SameFree f (parse_tokens lower strptime toks r)
  rest-SameFree toks f (refused e) k same = rw (parse_tokens-refused toks e) tt
  rest-SameFree toks f (parsed g) k same =
      SameFree-trans f g (parse_tokens lower strptime toks (parsed g)) same (k g)

  filters-SameFree :
      (toks : List Token) (f : Fields)
      → All (λ tok. IsFilter (read_token lower strptime tok)) toks
      → SameFree f (parse_tokens lower strptime toks (parsed f))
  unfolding parse_tokens
  filters-SameFree [] f h = refl
  filters-SameFree (tok ∷ toks) f (h, rest) =
      rest-SameFree toks f (and_then (read_token lower strptime tok) f)
        (λ g. filters-SameFree toks g rest) (and_then-SameFree (read_token lower strptime tok) f h)

  parse_tokens-append :
      (xs ys : List Token) (r : QueryResult Fields)
      → parse_tokens lower strptime (xs ++ ys) r
        ≡ parse_tokens lower strptime ys (parse_tokens lower strptime xs r)
  unfolding parse_tokens
  parse_tokens-append [] ys r = refl
  parse_tokens-append (x ∷ xs) ys r = parse_tokens-append xs ys (parse_token lower strptime x r)

  parsed_query-SameText :
      (f : Fields) (r r0 : QueryResult Fields)
      → f.free_parts ≡ []
      → Follows f no_fields r r0
      → SameText (parsed_query r) (parsed_query r0)
  parsed_query-SameText f (refused e) r0 n h = tt
  parsed_query-SameText f (parsed g) (refused e) n h = absurd h
  parsed_query-SameText f (parsed g) (parsed g0) n (a, (s, e, e0)) =
      ap join_words (e ∙ ap (◌++ s) n ∙ sym e0)

  after_filters :
      (toks : List Token) (r : QueryResult Fields)
      → SameFree no_fields r
      → SameText
          (parsed_query (parse_tokens lower strptime toks r))
          (parsed_query (parse_tokens lower strptime toks (parsed no_fields)))
  after_filters toks (refused e) h = rw (parse_tokens-refused toks e) tt
  after_filters toks (parsed f) h =
      parsed_query-SameText f (parse_tokens lower strptime toks (parsed f))
        (parse_tokens lower strptime toks (parsed no_fields)) h
        (parse_tokens-Follows toks f no_fields (inl refl))

  -- Filters before other tokens leave the free text alone.
  pub filters-SameText :
      (xs ys : List Token)
      → All (λ tok. IsFilter (read_token lower strptime tok)) xs
      → SameText
          (parsed_query (parse_tokens lower strptime (xs ++ ys) (parsed no_fields)))
          (parsed_query (parse_tokens lower strptime ys (parsed no_fields)))
  filters-SameText xs ys h = rw (parse_tokens-append xs ys (parsed no_fields)) (
      after_filters ys (parse_tokens lower strptime xs (parsed no_fields))
        (filters-SameFree xs no_fields h))

  then_add-IsFilter :
      (k : ℕ → Effect) (r : QueryResult ℕ)
      → ((n : ℕ) → IsFilter (parsed (k n)))
      → IsFilter (then_add k r)
  then_add-IsFilter k (parsed n) h = h n
  then_add-IsFilter k (refused e) h = tt

  valued-IsFilter : (op : Op) (v : Text) → IsFilter (valued lower strptime op v)
  unfolding valued parse_has
  valued-IsFilter from_op v = tt
  valued-IsFilter to_op v = tt
  valued-IsFilter subject_op v = tt
  valued-IsFilter label_op v = tt
  valued-IsFilter attachment_name_op v = tt
  valued-IsFilter account_op v = tt
  valued-IsFilter folder_op v = tt
  valued-IsFilter lang_op v = tt
  valued-IsFilter account_id_op v =
      then_add-IsFilter add_account_id (parse_id account_id_op v) (λ n. tt)
  valued-IsFilter folder_id_op v =
      then_add-IsFilter add_folder_id (parse_id folder_id_op v) (λ n. tt)
  valued-IsFilter after_op v =
      then_add-IsFilter set_after (parse_date lower strptime after_op v) (λ n. tt)
  valued-IsFilter before_op v =
      then_add-IsFilter set_before (parse_date lower strptime before_op v) (λ n. tt)
  valued-IsFilter has_op v = elim (Bool-cases (text_eq (lower v) (codes "attachment"))) [
    | inl e ↦ rw e tt
    | inr e ↦ elim (Bool-cases (text_eq (lower v) (codes "no-attachment"))) [
      | inl d ↦ rw (e, d) tt
      | inr d ↦ rw (e, d) tt
    ]
  ]

  operated-IsFilter :
      (tok : Token) (op : Op) (v : Text)
      → op ≢ lang_op
      → is_empty v ≡ false
      → IsFilter (operated lower strptime tok (some op) v)
  operated-IsFilter tok from_op v l n = rw n (valued-IsFilter from_op v)
  operated-IsFilter tok to_op v l n = rw n (valued-IsFilter to_op v)
  operated-IsFilter tok subject_op v l n = rw n (valued-IsFilter subject_op v)
  operated-IsFilter tok after_op v l n = rw n (valued-IsFilter after_op v)
  operated-IsFilter tok before_op v l n = rw n (valued-IsFilter before_op v)
  operated-IsFilter tok has_op v l n = rw n (valued-IsFilter has_op v)
  operated-IsFilter tok label_op v l n = rw n (valued-IsFilter label_op v)
  operated-IsFilter tok account_op v l n = rw n (valued-IsFilter account_op v)
  operated-IsFilter tok folder_op v l n = rw n (valued-IsFilter folder_op v)
  operated-IsFilter tok account_id_op v l n = rw n (valued-IsFilter account_id_op v)
  operated-IsFilter tok folder_id_op v l n = rw n (valued-IsFilter folder_id_op v)
  operated-IsFilter tok attachment_name_op v l n = rw n (valued-IsFilter attachment_name_op v)
  operated-IsFilter tok lang_op v l n = absurd (l refl)

  -- A token with an operator, not lang:, and a value.
  pub read_token-IsFilter :
      (tok : Token) (op : Op) (v : Text)
      → after_colon tok.text ≡ some v
      → operator (lower (before_colon tok.text)) ≡ some op
      → op ≢ lang_op
      → is_empty v ≡ false
      → IsFilter (read_token lower strptime tok)
  unfolding read_token
  read_token-IsFilter tok op v e o l n = elim (Bool-cases (is_unstorable tok.text)) [
    | inl u ↦ rw u tt
    | inr u ↦ rw (u, e, o) (operated-IsFilter tok op v l n)
  ]

  lang-IsFilter : (v : Text) → IsFilter (lang lower strptime v)
  lang-IsFilter v = elim (Bool-cases (is_empty (lower (strip is_space v)))) [
    | inl e ↦ rw e tt
    | inr e ↦ rw e tt
  ]

  -- A token with lang:.
  pub read_token-lang :
      (tok : Token) (v : Text)
      → after_colon tok.text ≡ some v
      → operator (lower (before_colon tok.text)) ≡ some lang_op
      → IsFilter (read_token lower strptime tok)
  unfolding read_token
  read_token-lang tok v e o = elim (Bool-cases (is_unstorable tok.text)) [
    | inl u ↦ rw u tt
    | inr u ↦ rw (u, e, o) (lang-IsFilter v)
  ]
