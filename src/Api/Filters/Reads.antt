-- ===== src/Api/Filters/Reads.antt =====
-- The parser reads the parts that src/localmail/api/search.py composes as filters.
use mathlib.Core.Path.{subst}
use localmail.Common.{
  ◌==◌, ℕ, ◌≡◌, refl, sym, ap, ◌∙◌, ◌≢◌, Bool, true, false, not, ◌||◌, Option, some, List, [], ◌∷◌,
  ◌++◌, map,
}
use localmail.Query.Compose.FreeText.{is_lower}
use localmail.Query.Text.{Text, all, is_empty, after_colon, before_colon}
use localmail.Query.Tokens.{Token}
use localmail.Query.Fields.{Op, lang_op, operator}
use localmail.Api.Filters.{Composed, all, composed, is_empty, ◌then_parts◌, invalid}
use localmail.Query.Tokens.Whole.{
  IsWhole, is_plain, in_quotes, append-snoc, plain-IsWhole, quoted-IsWhole,
}
use localmail.Query.Parse.Follows.{IsFilter}
use localmail.Common.Lists.{All, All-append}
use localmail.Query.Compose.Sound.{map-append, all-append, plain, is_empty-append}
use localmail.Query.Parse.{read_token}
use localmail.Query.Parse.Prefix.{read_token-IsFilter, read_token-lang}

abbrev pub is_key_char : ℕ → Bool
is_key_char c = is_lower c || c == b'_'

abbrev pub quoted_token : Text → Text → Token
quoted_token key v = record {
  text = key ++ b':' ∷ v;
  raw = key ++ (b':' ∷ (b'"' ∷ (v ++ (b'"' ∷ []))));
}

module _ (lower : Text → Text) (strptime : Text → Option ℕ) where
  -- The name of an operator.
  pub record IsKey (key : Text) (op : Op) : Type 0 where
    pub plain_key : all is_plain key ≡ true
    pub after : (v : Text) → after_colon (key ++ b':' ∷ v) ≡ some v
    pub before : (v : Text) → before_colon (key ++ b':' ∷ v) ≡ key
    pub names : operator (lower key) ≡ some op

  -- One token, whatever stands after it, that is not free text.
  abbrev pub IsFilterToken : Token → Type 0
  IsFilterToken tok = IsWhole tok × IsFilter (read_token lower strptime tok)

  -- The parts are the words of such tokens, where they are composed.
  abbrev pub AreFilters : Composed (List Text) → Type 0
  AreFilters (invalid e) = Unit
  AreFilters (composed parts) =
      (toks : List Token) × (parts ≡ map (λ tok. tok.raw) toks) × All IsFilterToken toks

  pub then_parts-AreFilters :
      (p q : Composed (List Text)) → AreFilters p → AreFilters q → AreFilters (p then_parts q)
  then_parts-AreFilters (invalid e) q h k = tt
  then_parts-AreFilters (composed ws) (invalid e) h k = tt
  then_parts-AreFilters (composed ws) (composed vs) (xs, e, f) (ys, d, g) = (
    xs ++ ys,
    rw (e, d) (sym (map-append (λ tok. tok.raw) xs ys)),
    All-append IsFilterToken xs ys f g,
  )

  pub one_part : (tok : Token) → IsFilterToken tok → AreFilters (composed (tok.raw ∷ []))
  one_part tok h = (tok ∷ [], refl, (h, tt))

  keyed-IsFilter :
      (key : Text) (op : Op) (tok : Token) (v : Text)
      → IsKey key op
      → op ≢ lang_op
      → tok.text ≡ key ++ b':' ∷ v
      → is_empty v ≡ false
      → IsFilter (read_token lower strptime tok)
  keyed-IsFilter key op tok v k l e n =
      read_token-IsFilter lower strptime tok op v (ap after_colon e ∙ k.after v)
        (ap operator (ap lower (ap before_colon e ∙ k.before v)) ∙ k.names) l n

  keyed-plain :
      (key : Text) (op : Op) (v : Text)
      → IsKey key op
      → all is_plain v ≡ true
      → all is_plain (key ++ b':' ∷ v) ≡ true
  keyed-plain key op v k h = rw (all-append is_plain key (b':' ∷ v), k.plain_key) h

  pub plain-IsFilterToken :
      (key : Text) (op : Op) (v : Text)
      → IsKey key op
      → op ≢ lang_op
      → all is_plain v ≡ true
      → is_empty v ≡ false
      → IsFilterToken (plain (key ++ b':' ∷ v))
  plain-IsFilterToken key op v k l h n = (
    plain-IsWhole (key ++ b':' ∷ v) (keyed-plain key op v k h)
        (is_empty-append key (b':' ∷ v) refl),
    keyed-IsFilter key op (plain (key ++ b':' ∷ v)) v k l refl n,
  )

  pub lang-IsFilterToken :
      (key v : Text)
      → IsKey key lang_op
      → all is_plain v ≡ true
      → IsFilterToken (plain (key ++ b':' ∷ v))
  lang-IsFilterToken key v k h = (
    plain-IsWhole (key ++ b':' ∷ v) (keyed-plain key lang_op v k h)
        (is_empty-append key (b':' ∷ v) refl),
    read_token-lang lower strptime (plain (key ++ b':' ∷ v)) v (k.after v)
        (ap operator (ap lower (k.before v)) ∙ k.names),
  )

  pub quoted-IsFilterToken :
      (key : Text) (op : Op) (v : Text)
      → IsKey key op
      → op ≢ lang_op
      → all (λ c. not (c == b'"')) v ≡ true
      → is_empty v ≡ false
      → IsFilterToken (quoted_token key v)
  quoted-IsFilterToken key op v k l h n =
      let e : in_quotes (key ++ b':' ∷ []) v ≡ quoted_token key v =
        rw (append-snoc key v b':', append-snoc key (b'"' ∷ (v ++ (b'"' ∷ []))) b':') refl in
      (
        subst IsWhole e (
            quoted-IsWhole (key ++ b':' ∷ []) v (keyed-plain key op [] k refl) h
              (is_empty-append (key ++ b':' ∷ []) v n)),
        keyed-IsFilter key op (quoted_token key v) v k l refl n,
      )
