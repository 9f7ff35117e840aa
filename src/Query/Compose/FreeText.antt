-- ===== src/Query/Compose/FreeText.antt =====
-- What the parser makes of a composed query.
use localmail.Common.{
  ℕ, ◌≡◌, inl, inr, Bool, true, false, Option, none, some, List, [], ◌∷◌, ◌++◌, refl, ap, ◌∙◌,
  Bool-cases, ◌≢◌,
}
use localmail.Query.Fields.{
  Op, from_op, to_op, subject_op, after_op, before_op, has_op, label_op, account_op, folder_op,
  lang_op, operator,
}
use localmail.Query.Parse.{parse_query, read_token}
use localmail.Query.Text.{between, Text, all, is_empty, after_colon, before_colon, codes}
use localmail.Query.Tokens.{Token, tokenize}
use localmail.Query.Compose.{Day, Flags, compose_cli_query, isoformat, codes}
use localmail.Query.Parse.Follows.{IsFilter}
use localmail.Query.Parse.Prefix.{read_token-IsFilter, SameText, filters-SameText}
use localmail.Query.Tokens.Whole.{in_quotes}
use localmail.Query.Compose.Sound.{
  plain, IsGivenFilled, AllFilled, IsFilled, given_tokens, dated_tokens, has_tokens, flag_tokens,
  each_tokens, clean, compose_cli_query-tokenize,
}
use localmail.Common.Lists.{All, All-append}

abbrev pub is_lower : ℕ → Bool
is_lower c = between b'a' b'z' c

module _ (lower : Text → Text) (strptime : Text → Option ℕ)
    (lower_keeps : (s : Text) → all is_lower s ≡ true → lower s ≡ s) where
  abbrev Reads : Token → Type 0
  Reads tok = IsFilter (read_token lower strptime tok)

  -- A key that ends in a colon, before a value.
  keyed :
      (key name : Text) (op : Op) (tok : Token) (v : Text)
      → tok.text ≡ key ++ v
      → after_colon (key ++ v) ≡ some v
      → before_colon (key ++ v) ≡ name
      → all is_lower name ≡ true
      → operator name ≡ some op
      → op ≢ lang_op
      → is_empty v ≡ false
      → Reads tok
  keyed key name op tok v e a b low o l n =
      read_token-IsFilter lower strptime tok op v (ap after_colon e ∙ a)
        (ap operator (ap lower (ap before_colon e ∙ b) ∙ lower_keeps name low) ∙ o) l n

  each-Reads :
      (key : Text) (vs : List Text)
      → ((v : Text) → is_empty v ≡ false → Reads (in_quotes key v))
      → All IsFilled vs
      → All Reads (each_tokens key vs)
  each-Reads key [] h filled = tt
  each-Reads key (v ∷ vs) h (filled, rest) = (h (clean v) filled, each-Reads key vs h rest)

  given-Reads :
      (key : Text) (o : Option Text)
      → ((v : Text) → is_empty v ≡ false → Reads (in_quotes key v))
      → IsGivenFilled o
      → All Reads (given_tokens key o)
  given-Reads key none h filled = tt
  given-Reads key (some v) h filled = elim (Bool-cases (is_empty v)) [
    | inl e ↦ rw e tt
    | inr e ↦ rw e (h (clean v) (elim filled [ inl x ↦ absurd (cc (e, x)) | inr x ↦ x ]), tt)
  ]

  dated_part-Reads :
      (key : Text) (o : Option Day)
      → ((v : Text) → is_empty v ≡ false → Reads (plain (key ++ v)))
      → All Reads (dated_tokens key o)
  dated_part-Reads key none h = tt
  dated_part-Reads key (some d) h = (h (isoformat d) refl, tt)

  has-Reads : (o : Option Bool) → All Reads (has_tokens o)
  unfolding after_colon before_colon operator
  has-Reads (some true) = (
    keyed (codes "has:") (codes "has") has_op (plain (codes "has:attachment")) (codes "attachment")
        refl refl refl refl refl (λ e. cc e) refl,
    tt,
  )
  has-Reads (some false) = tt
  has-Reads none = tt

  flag_tokens-Reads : (flags : Flags) → AllFilled flags → All Reads (flag_tokens flags)
  unfolding after_colon before_colon operator
  flag_tokens-Reads flags (a, f, from, to, subject, label) =
      All-append Reads _ _
        (each-Reads (codes "account:") flags.accounts
          (λ v n.
            keyed (codes "account:") (codes "account") account_op (in_quotes (codes "account:") v) v
              refl refl refl refl refl (λ e. cc e) n)
          a)
        (All-append Reads _ _
          (each-Reads (codes "folder:") flags.folders
            (λ v n.
              keyed (codes "folder:") (codes "folder") folder_op (in_quotes (codes "folder:") v) v
                refl refl refl refl refl (λ e. cc e) n)
            f)
          (All-append Reads _ _
            (given-Reads (codes "from:") flags.from_substr
              (λ v n.
                keyed (codes "from:") (codes "from") from_op (in_quotes (codes "from:") v) v refl
                  refl refl refl refl (λ e. cc e) n)
              from)
            (All-append Reads _ _
              (given-Reads (codes "to:") flags.to_substr
                (λ v n.
                  keyed (codes "to:") (codes "to") to_op (in_quotes (codes "to:") v) v refl refl
                    refl refl refl (λ e. cc e) n)
                to)
              (All-append Reads _ _
                (given-Reads (codes "subject:") flags.subject_substr
                  (λ v n.
                    keyed (codes "subject:") (codes "subject") subject_op
                      (in_quotes (codes "subject:") v) v refl refl refl refl refl (λ e. cc e) n)
                  subject)
                (All-append Reads _ _
                  (dated_part-Reads (codes "after:") flags.after (λ v n.
                    keyed (codes "after:") (codes "after") after_op (plain (codes "after:" ++ v)) v
                      refl refl refl refl refl (λ e. cc e) n))
                  (All-append Reads _ _
                    (dated_part-Reads (codes "before:") flags.before (λ v n.
                      keyed (codes "before:") (codes "before") before_op
                        (plain (codes "before:" ++ v)) v refl refl refl refl refl (λ e. cc e) n))
                    (All-append Reads _ _ (has-Reads flags.has_attachment) (
                      given-Reads (codes "label:") flags.label
                        (λ v n.
                          keyed (codes "label:") (codes "label") label_op
                            (in_quotes (codes "label:") v) v refl refl refl refl refl (λ e. cc e) n)
                        label))))))))

  -- Where a composed query is accepted, so is its free text alone, and both have the same free
  -- text: no flag adds to it or takes from it. Every value that is given has a character that is
  -- not a quote, and `str.lower` leaves the lower-case letters of ASCII as they are.
  pub compose_cli_query-parse_query :
      (free_text : Text) (flags : Flags)
      → AllFilled flags
      → (query : Text) × (compose_cli_query free_text flags ≡ some query)
        × SameText (parse_query lower strptime query) (parse_query lower strptime free_text)
  unfolding parse_query
  compose_cli_query-parse_query free_text flags filled =
      let (query, e, t) = compose_cli_query-tokenize free_text flags filled in
      (
        query,
        e,
        rw t (
            filters-SameText lower strptime (flag_tokens flags) (tokenize free_text)
              (flag_tokens-Reads flags filled)),
      )
