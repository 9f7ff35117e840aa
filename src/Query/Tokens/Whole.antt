-- ===== src/Query/Tokens/Whole.antt =====
-- Words that the tokenizer reads as one token, whatever comes after them.
use localmail.Common.{
  ℕ, ◌==◌, ◌≡◌, true, false, ◌&&◌, not, List, [], ◌∷◌, ◌++◌, refl, arith, ap, ◌∙◌, Bool, map, sym,
}
use localmail.Query.Tokens.{Token, scan, tokenize, initial, read_char}
use localmail.Query.Text.{is_space, Text, all, join_words, is_empty}
use localmail.Common.Lists.{All}

-- The text of the token reaches the scanner as its buffer, outside quotes, and is not empty.
abbrev pub IsWhole : Token → Type 0
IsWhole tok =
    ((t : Text)
      → scan initial (tok.raw ++ t)
        ≡ scan (record { buf = tok.text; raw = tok.raw; quoted = false }) t)
    × (is_empty tok.text ≡ false)

abbrev pub is_plain : ℕ → Bool
is_plain c = not (c == b'"') && not (is_space c)

pub append-snoc {ℓ} : {A : Type ℓ} (xs ys : List A) (x : A) → (xs ++ x ∷ []) ++ ys ≡ xs ++ x ∷ ys
append-snoc [] ys x = refl
append-snoc (z ∷ xs) ys x = ap (◌∷◌ z) (append-snoc xs ys x)

pub append-nil {ℓ} : {A : Type ℓ} (xs : List A) → xs ++ [] ≡ xs
append-nil [] = refl
append-nil (z ∷ xs) = ap (◌∷◌ z) (append-nil xs)

pub append_assoc {ℓ} : {A : Type ℓ} (xs ys zs : List A) → (xs ++ ys) ++ zs ≡ xs ++ (ys ++ zs)
append_assoc [] ys zs = refl
append_assoc (x ∷ xs) ys zs = ap (◌∷◌ x) (append_assoc xs ys zs)

scan-plain :
    (buf raw s t : Text)
    → all is_plain s ≡ true
    → scan (record { buf = buf; raw = raw; quoted = false }) (s ++ t)
      ≡ scan (record { buf = buf ++ s; raw = raw ++ s; quoted = false }) t
unfolding scan read_char
scan-plain buf raw [] t h = rw (append-nil buf, append-nil raw) refl
scan-plain buf raw (c ∷ s) t h =
    let plain : (c == b'"') ≡ false = ground arith in
    let close : is_space c ≡ false = ground arith in
    let rest : all is_plain s ≡ true = ground arith in
    rw (plain, close)
      (scan-plain (buf ++ c ∷ []) (raw ++ c ∷ []) s t rest
        ∙ rw (append-snoc buf s c, append-snoc raw s c) refl)

-- Up to the closing quote.
scan-quoted :
    (buf raw s t : Text)
    → all (λ c. not (c == b'"')) s ≡ true
    → scan (record { buf = buf; raw = raw; quoted = true }) (s ++ t)
      ≡ scan (record { buf = buf ++ s; raw = raw ++ s; quoted = true }) t
unfolding scan read_char
scan-quoted buf raw [] t h = rw (append-nil buf, append-nil raw) refl
scan-quoted buf raw (c ∷ s) t h =
    let plain : (c == b'"') ≡ false = ground arith in
    let rest : all (λ c. not (c == b'"')) s ≡ true = ground arith in
    rw plain (
      scan-quoted (buf ++ c ∷ []) (raw ++ c ∷ []) s t rest
      ∙ rw (append-snoc buf s c, append-snoc raw s c) refl)

-- A word of plain characters.
pub plain-IsWhole :
    (s : Text) → all is_plain s ≡ true → is_empty s ≡ false → IsWhole (record { text = s; raw = s })
plain-IsWhole s h n = ((λ t. scan-plain [] [] s t h), n)

-- A plain prefix and a value in quotes.
abbrev pub in_quotes : Text → Text → Token
in_quotes key value = record { text = key ++ value; raw = key ++ (b'"' ∷ (value ++ (b'"' ∷ []))) }

pub quoted-IsWhole :
    (key value : Text)
    → all is_plain key ≡ true
    → all (λ c. not (c == b'"')) value ≡ true
    → is_empty (key ++ value) ≡ false
    → IsWhole (in_quotes key value)
unfolding scan read_char
quoted-IsWhole key value h k n = (
  λ t.
      ap (scan initial) (
        append_assoc key (b'"' ∷ (value ++ (b'"' ∷ []))) t
        ∙ ap (λ x. key ++ (b'"' ∷ x)) (append_assoc value (b'"' ∷ []) t))
      ∙ scan-plain [] [] key (b'"' ∷ (value ++ (b'"' ∷ t))) h
      ∙ scan-quoted key (key ++ b'"' ∷ []) value (b'"' ∷ t) k
      ∙ ap (λ r. scan (record { buf = key ++ value; raw = r; quoted = false }) t)
          (append_assoc (key ++ b'"' ∷ []) value (b'"' ∷ [])
            ∙ append-snoc key (value ++ b'"' ∷ []) b'"'),
  n,
)

-- Words in a row are read one by one, and what stands after them as if it stood alone.
pub tokenize-join_words :
    (toks : List Token) (rest : Text)
    → All IsWhole toks
    → is_empty rest ≡ false
    → tokenize (join_words (map (λ tok. tok.raw) toks ++ rest ∷ [])) ≡ toks ++ tokenize rest
unfolding tokenize join_words scan read_char
tokenize-join_words [] rest h n = refl
tokenize-join_words (tok ∷ []) rest ((whole, filled), h) n = whole (b' ' ∷ rest) ∙ rw filled refl
tokenize-join_words (tok ∷ tok' ∷ toks) rest ((whole, filled), h) n =
    whole (b' ' ∷ join_words (map (λ tok. tok.raw) (tok' ∷ toks) ++ rest ∷ []))
    ∙ rw filled (ap (◌∷◌ tok) (tokenize-join_words (tok' ∷ toks) rest h n))

pub tokenize-join_words_alone :
    (toks : List Token)
    → All IsWhole toks
    → tokenize (join_words (map (λ tok. tok.raw) toks)) ≡ toks
unfolding tokenize join_words scan read_char
tokenize-join_words_alone [] h = refl
tokenize-join_words_alone (tok ∷ []) ((whole, filled), h) =
    ap tokenize (sym (append-nil tok.raw)) ∙ whole [] ∙ rw filled refl
tokenize-join_words_alone (tok ∷ tok' ∷ toks) ((whole, filled), h) =
    whole (b' ' ∷ join_words (map (λ tok. tok.raw) (tok' ∷ toks)))
    ∙ rw filled (ap (◌∷◌ tok) (tokenize-join_words_alone (tok' ∷ toks) h))
