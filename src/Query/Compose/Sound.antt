-- ===== src/Query/Compose/Sound.antt =====
-- What the tokenizer makes of a composed query.
use localmail.Common.{
  ℕ, ◌==◌, ◌≡◌, Bool, true, false, ◌&&◌, not, Option, none, some, List, [], ◌∷◌, ◌++◌,
  if◌then◌else◌, refl, arith, map, Bool-cases, sym, ap, ◌⊎◌, inl, inr, ◌/◌, ◌∙◌,
}
use localmail.Query.Text.{Text, replace_char, remove_char, all, is_empty, codes, join_words}
use localmail.Query.Tokens.{Token, quoted_filter_value, tokenize, scan}
use localmail.Query.Compose.{
  Flags, each, given, is_empty, Day, codes, isoformat, part, dated_part, digit, has_part,
  flag_parts, compose_cli_query, ◌and_parts◌, join_words,
}
use localmail.Query.Tokens.Whole.{
  in_quotes, IsWhole, is_plain, quoted-IsWhole, plain-IsWhole, tokenize-join_words,
  tokenize-join_words_alone, append-nil,
}
use localmail.Common.Lists.{All, All-append}

-- What is left of a value in quotes.
abbrev pub clean : Text → Text
clean value = replace_char b'\r' b' ' (replace_char b'\n' b' ' (remove_char b'"' value))

abbrev pub IsFilled : Text → Type 0
IsFilled value = is_empty (clean value) ≡ false

abbrev pub each_tokens : Text → List Text → List Token
each_tokens key vs = map (λ v. in_quotes key (clean v)) vs

abbrev pub given_tokens : Text → Option Text → List Token
given_tokens key none = []
given_tokens key (some v) = if is_empty v then [] else in_quotes key (clean v) ∷ []

abbrev pub plain : Text → Token
plain s = record { text = s; raw = s }

abbrev pub dated_tokens : Text → Option Day → List Token
dated_tokens key none = []
dated_tokens key (some d) = plain (key ++ isoformat d) ∷ []

abbrev pub has_tokens : Option Bool → List Token
has_tokens (some true) = plain (codes "has:attachment") ∷ []
has_tokens (some false) = []
has_tokens none = []

-- One token for each flag that is given.
abbrev pub flag_tokens : Flags → List Token
flag_tokens flags =
    each_tokens (codes "account:") flags.accounts
    ++ (each_tokens (codes "folder:") flags.folders
        ++ (given_tokens (codes "from:") flags.from_substr
            ++ (given_tokens (codes "to:") flags.to_substr
                ++ (given_tokens (codes "subject:") flags.subject_substr
                    ++ (dated_tokens (codes "after:") flags.after
                        ++ (dated_tokens (codes "before:") flags.before
                            ++ (has_tokens flags.has_attachment
                                ++ given_tokens (codes "label:") flags.label)))))))

-- A value that is given and not empty is not empty without its quotes.
abbrev pub IsGivenFilled : Option Text → Type 0
IsGivenFilled none = Unit
IsGivenFilled (some v) = (is_empty v ≡ true) ⊎ IsFilled v

abbrev pub AllFilled : Flags → Type 0
AllFilled flags =
    All IsFilled flags.accounts
    × All IsFilled flags.folders
    × IsGivenFilled flags.from_substr
    × IsGivenFilled flags.to_substr
    × IsGivenFilled flags.subject_substr
    × IsGivenFilled flags.label

-- The words of a list of parts are those of whole tokens.
abbrev Yields : Option (List Text) → List Token → Type 0
Yields parts toks = (parts ≡ some (map (λ tok. tok.raw) toks)) × All IsWhole toks

pub map-append {ℓ κ} :
    {A : Type ℓ} {B : Type κ} (f : A → B) (xs ys : List A) → map f (xs ++ ys) ≡ map f xs ++ map f ys
map-append f [] ys = refl
map-append f (x ∷ xs) ys = ap (◌∷◌ (f x)) (map-append f xs ys)

and_parts-Yields :
    (p q : Option (List Text)) (xs ys : List Token)
    → Yields p xs
    → Yields q ys
    → Yields (p and_parts q) (xs ++ ys)
and_parts-Yields p q xs ys (e, w) (f, v) =
    (rw (e, f) (ap some (sym (map-append (λ tok. tok.raw) xs ys))), All-append IsWhole xs ys w v)

unquoted-replace_char :
    (a : ℕ) (s : Text)
    → all (λ c. not (c == b'"')) s ≡ true
    → all (λ c. not (c == b'"')) (replace_char a b' ' s) ≡ true
unfolding replace_char
unquoted-replace_char a [] h = refl
unquoted-replace_char a (c ∷ s) h = ground (arith, unquoted-replace_char a s)

unquoted-remove_char : (v : Text) → all (λ c. not (c == b'"')) (remove_char b'"' v) ≡ true
unfolding remove_char
unquoted-remove_char [] = refl
unquoted-remove_char (c ∷ v) = ground (arith, unquoted-remove_char v)

pub is_empty-append : (s t : Text) → is_empty t ≡ false → is_empty (s ++ t) ≡ false
is_empty-append [] t h = h
is_empty-append (c ∷ s) t h = refl

pub all-append : (p : ℕ → Bool) (s t : Text) → all p (s ++ t) ≡ all p s && all p t
all-append p [] t = refl
all-append p (c ∷ s) t = ground (arith, all-append p s t)

digit-plain : (n : ℕ) → is_plain (digit n) ≡ true
digit-plain n = ground arith

pub clean-unquoted : (v : Text) → all (λ c. not (c == b'"')) (clean v) ≡ true
clean-unquoted v =
    unquoted-replace_char b'\r' (replace_char b'\n' b' ' (remove_char b'"' v))
      (unquoted-replace_char b'\n' (remove_char b'"' v) (unquoted-remove_char v))

part-Yields :
    (key v : Text)
    → all is_plain key ≡ true
    → IsFilled v
    → Yields (part key v) (in_quotes key (clean v) ∷ [])
unfolding quoted_filter_value
part-Yields key v h filled = (
  rw filled refl,
  (quoted-IsWhole key (clean v) h (clean-unquoted v) (is_empty-append key (clean v) filled), tt),
)

each-Yields :
    (key : Text) (vs : List Text)
    → all is_plain key ≡ true
    → All IsFilled vs
    → Yields (each key vs) (each_tokens key vs)
unfolding each
each-Yields key [] h filled = (refl, tt)
each-Yields key (v ∷ vs) h (filled, rest) =
    and_parts-Yields (part key v) (each key vs) (in_quotes key (clean v) ∷ []) (each_tokens key vs)
      (part-Yields key v h filled) (each-Yields key vs h rest)

given-Yields :
    (key : Text) (o : Option Text)
    → all is_plain key ≡ true
    → IsGivenFilled o
    → Yields (given key o) (given_tokens key o)
unfolding given
given-Yields key none h filled = (refl, tt)
given-Yields key (some v) h filled = elim (Bool-cases (is_empty v)) [
  | inl e ↦ rw e (refl, tt)
  | inr e ↦ rw e (part-Yields key v h (elim filled [ inl x ↦ absurd (cc (e, x)) | inr x ↦ x ]))
]

plain_date : (d : Day) → all is_plain (isoformat d) ≡ true
plain_date d =
    rw
      (
        digit-plain (d.year / 1000),
        digit-plain (d.year / 100),
        digit-plain (d.year / 10),
        digit-plain d.year,
        digit-plain (d.month / 10),
        digit-plain d.month,
        digit-plain (d.day / 10),
        digit-plain d.day,
      )
      refl

dated_part-Yields :
    (key : Text) (o : Option Day)
    → all is_plain key ≡ true
    → Yields (dated_part key o) (dated_tokens key o)
dated_part-Yields key none h = (refl, tt)
dated_part-Yields key (some d) h = (
  refl,
  (
    plain-IsWhole (key ++ isoformat d)
        (rw (all-append is_plain key (isoformat d), h) (plain_date d))
        (is_empty-append key (isoformat d) refl),
    tt,
  ),
)

has-Yields : (o : Option Bool) → Yields (has_part o) (has_tokens o)
has-Yields (some true) = (refl, (plain-IsWhole (codes "has:attachment") refl refl, tt))
has-Yields (some false) = (refl, tt)
has-Yields none = (refl, tt)

flag_parts-Yields :
    (flags : Flags) → AllFilled flags → Yields (flag_parts flags) (flag_tokens flags)
unfolding flag_parts
flag_parts-Yields flags (a, f, from, to, subject, label) =
    and_parts-Yields _ _ _ _ (each-Yields (codes "account:") flags.accounts refl a) (
      and_parts-Yields _ _ _ _ (each-Yields (codes "folder:") flags.folders refl f) (
        and_parts-Yields _ _ _ _ (given-Yields (codes "from:") flags.from_substr refl from) (
          and_parts-Yields _ _ _ _ (given-Yields (codes "to:") flags.to_substr refl to) (
            and_parts-Yields _ _ _ _
              (given-Yields (codes "subject:") flags.subject_substr refl subject)
              (and_parts-Yields _ _ _ _ (dated_part-Yields (codes "after:") flags.after refl) (
                and_parts-Yields _ _ _ _ (dated_part-Yields (codes "before:") flags.before refl) (
                  and_parts-Yields _ _ _ _ (has-Yields flags.has_attachment)
                    (given-Yields (codes "label:") flags.label refl label))))))))

empty_text : (t : Text) → is_empty t ≡ true → t ≡ []
empty_text [] h = refl
empty_text (c ∷ t) h = absurd (cc h)

pub alone :
    (toks : List Token) (t : Text)
    → All IsWhole toks
    → is_empty t ≡ true
    → tokenize (join_words (map (λ tok. tok.raw) toks)) ≡ toks ++ tokenize t
unfolding tokenize scan
alone toks t whole h =
    tokenize-join_words_alone toks whole
    ∙ sym (ap (λ x. toks ++ tokenize x) (empty_text t h) ∙ append-nil toks)

-- Flags first, then the free text: the composition succeeds, and the tokenizer reads one token for
-- each flag, with the value that was given less its quotes, and then the tokens of the free text
-- alone. So nothing in a value or in the free text, an unclosed quote included, adds an operator or
-- swallows one. Every value that is given has a character that is not a quote.
pub compose_cli_query-tokenize :
    (free_text : Text) (flags : Flags)
    → AllFilled flags
    → (query : Text) × (compose_cli_query free_text flags ≡ some query)
      × (tokenize query ≡ flag_tokens flags ++ tokenize free_text)
unfolding compose_cli_query
compose_cli_query-tokenize free_text flags filled =
    let toks = flag_tokens flags in
    let (e, whole) = flag_parts-Yields flags filled in
    elim (Bool-cases (is_empty free_text)) [
      | inl n ↦
          (join_words (map (λ tok. tok.raw) toks), rw (e, n) refl, alone toks free_text whole n)
      | inr n ↦ (
        join_words (map (λ tok. tok.raw) toks ++ free_text ∷ []),
        rw (e, n) refl,
        tokenize-join_words toks free_text whole n,
      )
    ]
