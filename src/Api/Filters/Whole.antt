-- ===== src/Api/Filters/Whole.antt =====
-- The parts that src/localmail/api/search.py composes are words that the tokenizer reads whole.
use localmail.Common.{
  ◌==◌, Bool-cases, ltb, ℕ, zero, suc, ◌/◌, ◌<◌, ◌≡◌, refl, ◌∙◌, inl, inr, Bool, true, false, ◌||◌,
  [], ◌∷◌, arith, ap,
}
use localmail.Api.Filters.{
  decimal_fuel, decimal, all, is_empty, day_shape, dash_day_shape, month_shape, date_shape, any,
  is_bad_lang, digit,
}
use localmail.Query.Text.{Text, is_digit, all, is_empty, any}
use localmail.Query.Compose.Sound.{all-append, is_empty-append}
use localmail.Query.Tokens.Whole.{is_plain}
use localmail.Query.Compose.{digit}

pub decimal_fuel-digits : (fuel n : ℕ) → n < fuel → all is_digit (decimal_fuel fuel n) ≡ true
unfolding decimal_fuel
decimal_fuel-digits zero n h = refl
decimal_fuel-digits (suc fuel) n h = elim (Bool-cases (ltb n 10)) [
  | inl e ↦ rw e (ground arith)
  | inr e ↦ rw e (
      all-append is_digit (decimal_fuel fuel (n / 10)) (digit n ∷ [])
      ∙ rw (decimal_fuel-digits fuel (n / 10) (ground arith)) (ground arith))
]

pub all_weaker :
    (p q : ℕ → Bool) (s : Text)
    → ((c : ℕ) → p c ≡ true → q c ≡ true)
    → all p s ≡ true
    → all q s ≡ true
all_weaker p q [] f h = refl
all_weaker p q (c ∷ s) f h = ground (arith, f c, all_weaker p q s f)

pub digits-plain : (s : Text) → all is_digit s ≡ true → all is_plain s ≡ true
digits-plain s h = all_weaker is_digit is_plain s (λ c k. ground arith) h

pub decimal-plain : (n : ℕ) → all is_plain (decimal n) ≡ true
unfolding decimal
decimal-plain n =
    digits-plain (decimal_fuel (suc n) n) (decimal_fuel-digits (suc n) n (omega arith))

pub decimal_filled : (n : ℕ) → is_empty (decimal n) ≡ false
unfolding decimal decimal_fuel
decimal_filled n = elim (Bool-cases (ltb n 10)) [
  | inl e ↦ rw e refl
  | inr e ↦ rw e (is_empty-append (decimal_fuel n (n / 10)) (digit n ∷ []) refl)
]

day_shape-digits : (s : Text) → day_shape s ≡ true → all is_digit s ≡ true
day_shape-digits [] h = absurd (cc h)
day_shape-digits (a ∷ []) h = ground arith
day_shape-digits (a ∷ b ∷ []) h = ground arith
day_shape-digits (a ∷ b ∷ c ∷ s) h = absurd (cc h)

abbrev is_dated : ℕ → Bool
is_dated c = is_digit c || c == b'-'

dated_weaker : (s : Text) → all is_digit s ≡ true → all is_dated s ≡ true
dated_weaker s h = all_weaker is_digit is_dated s (λ c k. ground arith) h

dash_day_shape-dated : (s : Text) → dash_day_shape s ≡ true → all is_dated s ≡ true
dash_day_shape-dated [] h = refl
dash_day_shape-dated (d ∷ s) h = ground (arith, dated_weaker s, day_shape-digits s)

month_shape-dated : (s : Text) → month_shape s ≡ true → all is_dated s ≡ true
month_shape-dated [] h = refl
month_shape-dated (a ∷ []) h = absurd (cc h)
month_shape-dated (a ∷ b ∷ s) h =
    ground (arith, dash_day_shape-dated s, dated_weaker s, day_shape-digits s)

date_shape-dated : (s : Text) → date_shape s ≡ true → all is_dated s ≡ true
date_shape-dated [] h = refl
date_shape-dated (a ∷ []) h = absurd (cc h)
date_shape-dated (a ∷ b ∷ []) h = absurd (cc h)
date_shape-dated (a ∷ b ∷ c ∷ []) h = absurd (cc h)
date_shape-dated (a ∷ b ∷ c ∷ d ∷ []) h = absurd (cc h)
date_shape-dated (a ∷ b ∷ c ∷ d ∷ e ∷ s) h = ground (arith, month_shape-dated s)

dated_char-plain : (c : ℕ) → is_dated c ≡ true → is_plain c ≡ true
dated_char-plain c h = elim (Bool-cases (is_digit c)) [
  | inl e ↦ ground arith
  | inr e ↦ let k : c ≡ b'-' = ground arith in ap is_plain k
]

dated-plain : (s : Text) → all is_dated s ≡ true → all is_plain s ≡ true
dated-plain s h = all_weaker is_dated is_plain s dated_char-plain h

pub date_shape-plain : (s : Text) → date_shape s ≡ true → all is_plain s ≡ true
date_shape-plain s h = dated-plain s (date_shape-dated s h)

pub lang_plain : (s : Text) → any is_bad_lang s ≡ false → all is_plain s ≡ true
lang_plain [] h = refl
lang_plain (c ∷ s) h = ground (arith, lang_plain s)
