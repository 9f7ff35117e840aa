-- ===== src/Api/Filters/Parts.antt =====
-- Each part that src/localmail/api/search.py composes from a filter.
use localmail.Api.Filters.{
  no_has, wants_has, odd_has, no_lang, one_lang, many_langs, composed, invalid, Text, all, Composed,
  id_parts, text_part, date_part, lang_code, lang_each, LangFilter, HasFilter, quoted_filter_value,
  validate_date, is_empty, lang_parts, has_filter, any, strip, codes, is_bad_lang, is_space,
  id_part, date_shape, decimal, parse_int_id, filter_tokens, Filters,
}
use localmail.Common.{
  is_some, Bool-cases, ℕ, ◌≡◌, refl, ap, ◌≢◌, inl, inr, true, false, Option, none, some, List, [],
  ◌∷◌, ◌++◌, ◌∙◌,
}
use localmail.Query.Text.{
  Text, all, after_colon, before_colon, is_empty, any, strip, codes, is_space,
}
use localmail.Api.Filters.Reads.{
  is_key_char, AreFilters, then_parts-AreFilters, IsKey, one_part, quoted_token,
  plain-IsFilterToken, lang-IsFilterToken, quoted-IsFilterToken,
}
use localmail.Query.Tokens.Whole.{is_plain}
use localmail.Query.Fields.{
  Op, operator, lang_op, has_op, account_id_op, folder_id_op, from_op, to_op, subject_op,
  attachment_name_op, after_op, before_op,
}
use localmail.Query.Tokens.{quoted_filter_value}
use localmail.Query.Compose.Sound.{clean, plain, clean-unquoted}
use localmail.Api.Filters.Whole.{decimal-plain, date_shape-plain, lang_plain, decimal_filled}

module _ (lower : Text → Text) (strptime : Text → Option ℕ)
    (lower_keeps : (s : Text) → all is_key_char s ≡ true → lower s ≡ s) where
  abbrev pub Good : Composed (List Text) → Type 0
  Good parts = AreFilters lower strptime parts

  nothing_given : Good (composed [])
  nothing_given = ([], refl, tt)

  id_parts-AreFilters :
      (key : Text) (op : Op) (vs : List Text)
      → IsKey lower strptime key op
      → op ≢ lang_op
      → Good (id_parts key vs)
  unfolding id_parts
  id_parts-AreFilters key op [] k l = nothing_given
  id_parts-AreFilters key op (v ∷ vs) k l =
      then_parts-AreFilters lower strptime (id_part key (parse_int_id v key)) (id_parts key vs)
        (one (parse_int_id v key)) (id_parts-AreFilters key op vs k l)
    where
      one : (r : Composed ℕ) → Good (id_part key r)
      one (invalid e) = tt
      one (composed n) = one_part lower strptime (plain (key ++ b':' ∷ decimal n)) (
          plain-IsFilterToken lower strptime key op (decimal n) k l (decimal-plain n)
            (decimal_filled n))

  text_part-AreFilters :
      (key : Text) (op : Op) (o : Option Text)
      → IsKey lower strptime key op
      → op ≢ lang_op
      → Good (text_part key o)
  unfolding text_part quoted_filter_value
  text_part-AreFilters key op none k l = nothing_given
  text_part-AreFilters key op (some v) k l = elim (Bool-cases (is_empty v)) [
    | inl e ↦ rw e nothing_given
    | inr e ↦ elim (Bool-cases (is_empty (clean v))) [
      | inl d ↦ rw (e, d) tt
      | inr d ↦
          rw (e, d)
            (one_part lower strptime (quoted_token key (clean v))
              (quoted-IsFilterToken lower strptime key op (clean v) k l (clean-unquoted v) d))
    ]
  ]

  date_part-AreFilters :
      (key field : Text) (op : Op) (o : Option Text)
      → IsKey lower strptime key op
      → op ≢ lang_op
      → Good (date_part lower strptime key field o)
  unfolding date_part validate_date
  date_part-AreFilters key field op none k l = nothing_given
  date_part-AreFilters key field op (some v) k l = elim (Bool-cases (is_empty v)) [
    | inl e ↦ rw e nothing_given
    | inr e ↦ elim (Bool-cases (date_shape v)) [
      | inr d ↦ rw (e, d) tt
      | inl d ↦ elim (Bool-cases (is_some (strptime v))) [
        | inr c ↦ rw (e, d, c) tt
        | inl c ↦
            rw (e, d, c)
              (one_part lower strptime (plain (key ++ b':' ∷ v))
                (plain-IsFilterToken lower strptime key op v k l (date_shape-plain v d) e))
      ]
    ]
  ]

  named :
      (key : Text) (op : Op)
      → all is_plain key ≡ true
      → ((v : Text) → after_colon (key ++ b':' ∷ v) ≡ some v)
      → ((v : Text) → before_colon (key ++ b':' ∷ v) ≡ key)
      → all is_key_char key ≡ true
      → operator key ≡ some op
      → IsKey lower strptime key op
  named key op p a b low o = record {
    plain_key = p;
    after = a;
    before = b;
    names = ap operator (lower_keeps key low) ∙ o;
  }

  lang_key : IsKey lower strptime (codes "lang") lang_op
  unfolding after_colon before_colon operator
  lang_key = named (codes "lang") lang_op refl (λ v. refl) (λ v. refl) refl refl

  lang_code-AreFilters : (s : Text) → Good (lang_code lower strptime s)
  lang_code-AreFilters s = elim (Bool-cases (is_empty s)) [
    | inl e ↦ rw e tt
    | inr e ↦ elim (Bool-cases (any is_bad_lang s)) [
      | inl d ↦ rw (e, d) tt
      | inr d ↦
          rw (e, d)
            (one_part lower strptime (plain (codes "lang:" ++ s))
              (lang-IsFilterToken lower strptime (codes "lang") s lang_key (lang_plain s d)))
    ]
  ]

  lang_each-AreFilters : (vs : List Text) → Good (lang_each lower strptime vs)
  unfolding lang_each
  lang_each-AreFilters [] = nothing_given
  lang_each-AreFilters (v ∷ vs) =
      then_parts-AreFilters lower strptime (lang_code lower strptime (lower (strip is_space v)))
        (lang_each lower strptime vs) (lang_code-AreFilters (lower (strip is_space v)))
        (lang_each-AreFilters vs)

  lang_parts-AreFilters : (o : LangFilter) → Good (lang_parts lower strptime o)
  lang_parts-AreFilters no_lang = nothing_given
  lang_parts-AreFilters (one_lang v) = lang_each-AreFilters (v ∷ [])
  lang_parts-AreFilters (many_langs []) = tt
  lang_parts-AreFilters (many_langs (v ∷ vs)) = lang_each-AreFilters (v ∷ vs)

  has_key : IsKey lower strptime (codes "has") has_op
  unfolding after_colon before_colon operator
  has_key = named (codes "has") has_op refl (λ v. refl) (λ v. refl) refl refl

  has_value :
      (v : Text)
      → all is_plain v ≡ true
      → is_empty v ≡ false
      → Good (composed ((codes "has" ++ b':' ∷ v) ∷ []))
  has_value v h n =
      one_part lower strptime (plain (codes "has" ++ b':' ∷ v))
        (plain-IsFilterToken lower strptime (codes "has") has_op v has_key (λ e. cc e) h n)

  has_filter-AreFilters : (o : HasFilter) → Good (has_filter o)
  has_filter-AreFilters no_has = nothing_given
  has_filter-AreFilters odd_has = tt
  has_filter-AreFilters (wants_has true) = has_value (codes "attachment") refl refl
  has_filter-AreFilters (wants_has false) = has_value (codes "no-attachment") refl refl

  pub filter_tokens-AreFilters : (filters : Filters) → Good (filter_tokens lower strptime filters)
  unfolding filter_tokens after_colon before_colon operator
  filter_tokens-AreFilters filters =
      then_parts-AreFilters lower strptime _ _
        (id_parts-AreFilters (codes "account_id") account_id_op filters.account_ids
          (named (codes "account_id") account_id_op refl (λ v. refl) (λ v. refl) refl refl)
          (λ e. cc e))
        (then_parts-AreFilters lower strptime _ _
          (id_parts-AreFilters (codes "folder_id") folder_id_op filters.folder_ids
            (named (codes "folder_id") folder_id_op refl (λ v. refl) (λ v. refl) refl refl)
            (λ e. cc e))
          (then_parts-AreFilters lower strptime _ _
            (text_part-AreFilters (codes "from") from_op filters.from_text
              (named (codes "from") from_op refl (λ v. refl) (λ v. refl) refl refl) (λ e. cc e))
            (then_parts-AreFilters lower strptime _ _
              (text_part-AreFilters (codes "to") to_op filters.to_text
                (named (codes "to") to_op refl (λ v. refl) (λ v. refl) refl refl) (λ e. cc e))
              (then_parts-AreFilters lower strptime _ _
                (text_part-AreFilters (codes "subject") subject_op filters.subject
                  (named (codes "subject") subject_op refl (λ v. refl) (λ v. refl) refl refl)
                  (λ e. cc e))
                (then_parts-AreFilters lower strptime _ _
                  (text_part-AreFilters (codes "attachment_name") attachment_name_op
                    filters.attachment_name
                    (named (codes "attachment_name") attachment_name_op refl (λ v. refl) (λ v. refl)
                      refl refl)
                    (λ e. cc e))
                  (then_parts-AreFilters lower strptime _ _
                    (date_part-AreFilters (codes "after") (codes "after") after_op filters.after
                      (named (codes "after") after_op refl (λ v. refl) (λ v. refl) refl refl)
                      (λ e. cc e))
                    (then_parts-AreFilters lower strptime _ _
                      (date_part-AreFilters (codes "before") (codes "before") before_op
                        filters.before
                        (named (codes "before") before_op refl (λ v. refl) (λ v. refl) refl refl)
                        (λ e. cc e))
                      (then_parts-AreFilters lower strptime _ _
                        (date_part-AreFilters (codes "after") (codes "date_from") after_op
                          filters.date_from
                          (named (codes "after") after_op refl (λ v. refl) (λ v. refl) refl refl)
                          (λ e. cc e))
                        (then_parts-AreFilters lower strptime _ _
                          (date_part-AreFilters (codes "before") (codes "date_to") before_op
                            filters.date_to
                            (named (codes "before") before_op refl (λ v. refl) (λ v. refl) refl
                              refl)
                            (λ e. cc e))
                          (then_parts-AreFilters lower strptime _ _
                            (lang_parts-AreFilters filters.lang)
                            (has_filter-AreFilters filters.has_attachment)))))))))))
