-- ===== src/Query/Parse/Storable.antt =====
-- What Postgres cannot store is refused, wherever it stands in the query.
use localmail.Common.{
  ℕ, ◌≡◌, inl, inr, Bool, true, false, Option, List, [], ◌∷◌, ◌++◌, refl, arith, ◌||◌, ◌==◌,
  Bool-cases, ap,
}
use localmail.Query.Fields.{
  QueryResult, parsed, refused, Fields, is_unstorable, QueryParseError, unstorable, no_fields,
  parsed_query,
}
use localmail.Query.Parse.{
  Token, Text, any, is_space, is_surrogate, read_token, parse_tokens, parse_query, tokenize,
  parse_token, token_operator, after_colon,
}
use localmail.Query.Tokens.{Token, Scanner, scan, flush, read_char, tokenize, initial}
use localmail.Query.Text.{Text, any, is_space, is_surrogate, after_colon}
use localmail.Query.Parse.Prefix.{parse_tokens-refused}

abbrev some_token : (ℕ → Bool) → List Token → Bool
some_token p [] = false
some_token p (tok ∷ toks) = any p tok.text || some_token p toks

any-append : (p : ℕ → Bool) (s t : Text) → any p (s ++ t) ≡ any p s || any p t
any-append p [] t = refl
any-append p (c ∷ s) t = ground (arith, any-append p s t)

some_token-append :
    (p : ℕ → Bool) (xs ys : List Token)
    → some_token p (xs ++ ys) ≡ some_token p xs || some_token p ys
some_token-append p [] ys = refl
some_token-append p (x ∷ xs) ys = ground (arith, some_token-append p xs ys)

flush-some_token : (p : ℕ → Bool) (st : Scanner) → some_token p (flush st) ≡ any p st.buf
flush-some_token p st = by_buffer st.buf
  where
    by_buffer : (b : Text) → some_token p (flush (record st { buf = b })) ≡ any p b
    by_buffer [] = refl
    by_buffer (c ∷ b) = ground arith

-- A character is kept in the buffer or in the token that it ends.
read_char-some_token :
    (p : ℕ → Bool) (st : Scanner) (c : ℕ)
    → (p c ≡ true → (c == b'"') || is_space c ≡ false)
    → any p st.buf || p c ≡ true
    → some_token p (read_char c st).1 || any p (read_char c st).0.buf ≡ true
unfolding read_char
read_char-some_token p st c h k =
    let kept = any-append p st.buf (c ∷ []) in
    elim (Bool-cases (c == b'"')) [
      | inl q ↦ elim (Bool-cases st.quoted) [
        | inl e ↦ rw (e, q) (ground (arith, h, q))
        | inr e ↦ rw (e, q) (ground (arith, h, q))
      ]
      | inr q ↦ elim (Bool-cases st.quoted) [
        | inl e ↦ rw (e, q) (ground (arith, kept))
        | inr e ↦ elim (Bool-cases (is_space c)) [
          | inl w ↦ rw (e, q, w) (ground (arith, h, w, flush-some_token p st))
          | inr w ↦ rw (e, q, w) (ground (arith, kept))
        ]
      ]
    ]

carried :
    (a b c d x y : Bool)
    → (x || y ≡ true → a || b ≡ true)
    → x || (y || c) ≡ true
    → (b || c ≡ true → d ≡ true)
    → a || d ≡ true
carried true b c d x y h k l = refl
carried false b c d true y h k l = l (ground (arith, h))
carried false b c d false true h k l = l (ground (arith, h))
carried false b c d false false h k l = l (ground (arith, h))

-- A character that is neither a quote nor white space is in some token.
scan-some_token :
    (p : ℕ → Bool) (st : Scanner) (s : Text)
    → ((c : ℕ) → p c ≡ true → (c == b'"') || is_space c ≡ false)
    → any p st.buf || any p s ≡ true
    → some_token p (scan st s) ≡ true
unfolding scan
scan-some_token p st [] h k = ground (arith, flush-some_token p st)
scan-some_token p st (c ∷ s) h k =
    let st' = (read_char c st).0 in
    let out = (read_char c st).1 in
    rw (some_token-append p out (scan st' s)) (
      carried (some_token p out) (any p st'.buf) (any p s) (some_token p (scan st' s))
        (any p st.buf) (p c) (read_char-some_token p st c (h c)) k (scan-some_token p st' s h))

abbrev is_bad : ℕ → Bool
is_bad c = c == 0 || is_surrogate c

unstorable_bad : (t : Text) → is_unstorable t ≡ any is_bad t
unstorable_bad [] = refl
unstorable_bad (c ∷ t) = ground (arith, unstorable_bad t)

tokenize-some_token :
    (query : Text) → is_unstorable query ≡ true → some_token is_bad (tokenize query) ≡ true
unfolding tokenize
tokenize-some_token query h =
    scan-some_token is_bad initial query (λ c k. ground arith)
      (ground (arith, unstorable_bad query, h))

module _ (lower : Text → Text) (strptime : Text → Option ℕ) where
  read_token-refused :
      (tok : Token)
      → is_unstorable tok.text ≡ true
      → (e : QueryParseError) × (read_token lower strptime tok ≡ refused e)
  unfolding read_token
  read_token-refused tok h =
      (unstorable (token_operator lower strptime tok.text (after_colon tok.text)), rw h refl)

  parse_tokens-some_token :
      (toks : List Token) (r : QueryResult Fields)
      → some_token is_bad toks ≡ true
      → (e : QueryParseError) × (parse_tokens lower strptime toks r ≡ refused e)
  unfolding parse_tokens
  parse_tokens-some_token [] r h = absurd (cc h)
  parse_tokens-some_token (tok ∷ toks) (refused e) h =
      (e, parse_tokens-refused lower strptime toks e)
  parse_tokens-some_token (tok ∷ toks) (parsed f) h = elim (Bool-cases (is_unstorable tok.text)) [
    | inl u ↦
        let (e, k) = read_token-refused tok u in
        (e, rw k (parse_tokens-refused lower strptime toks e))
    | inr u ↦
        parse_tokens-some_token toks (parse_token lower strptime tok (parsed f))
          (ground (arith, unstorable_bad tok.text, u))
  ]

  -- A NUL or a surrogate anywhere in a query, inside quotes or out, makes the parser refuse it.
  pub parse_query-refused :
      (query : Text)
      → is_unstorable query ≡ true
      → (e : QueryParseError) × (parse_query lower strptime query ≡ refused e)
  unfolding parse_query
  parse_query-refused query h =
      let (e, k) =
        parse_tokens-some_token (tokenize query) (parsed no_fields) (tokenize-some_token query h) in
      (e, ap parsed_query k)
