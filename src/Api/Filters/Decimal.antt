-- ===== src/Api/Filters/Decimal.antt =====
-- `str` and `parse_int_id` of src/localmail/api/ids.py on the ids of a database.
use localmail.Api.Filters.{
  composed, Text, decimal_fuel, parse_int_id, decimal_from, length, decimal, digit,
  int_max_str_digits, all, is_digit,
}
use localmail.Common.{
  ltb, Bool-cases, leb, ℕ, zero, suc, ◌+◌, ◌-◌, ◌*◌, ◌/◌, ◌^◌, ◌≤◌, ◌<◌, ◌≡◌, refl, ap, ◌∙◌, inl,
  inr, true, [], ◌∷◌, ◌++◌, arith,
}
use localmail.Query.Text.{Text, decimal_from, all, is_digit}
use localmail.Common.Lists.{length, length-append}
use localmail.Query.Compose.{digit}
use localmail.Query.Fields.{int_max_str_digits}
use localmail.Api.Filters.Whole.{decimal_filled, decimal_fuel-digits}

decimal_from-snoc :
    (acc : ℕ) (s : Text) (d : ℕ)
    → decimal_from acc (s ++ d ∷ []) ≡ decimal_from acc s * 10 + (d - b'0')
decimal_from-snoc acc [] d = refl
decimal_from-snoc acc (c ∷ s) d = decimal_from-snoc (acc * 10 + (c - b'0')) s d

decimal_fuel-decimal_from : (fuel n : ℕ) → n < fuel → decimal_from 0 (decimal_fuel fuel n) ≡ n
unfolding decimal_fuel
decimal_fuel-decimal_from zero n h = absurd (omega arith)
decimal_fuel-decimal_from (suc fuel) n h = elim (Bool-cases (ltb n 10)) [
  | inl e ↦ rw e (omega arith)
  | inr e ↦
      let above : 10 ≤ n = ground arith in
      rw e (
        decimal_from-snoc 0 (decimal_fuel fuel (n / 10)) (digit n)
        ∙ rw (decimal_fuel-decimal_from fuel (n / 10) (omega arith)) (omega arith))
]

decimal_fuel-length :
    (k fuel n : ℕ) → n < fuel → n < 10 ^ suc k → length (decimal_fuel fuel n) ≤ suc k
unfolding decimal_fuel
decimal_fuel-length k zero n h b = absurd (omega arith)
decimal_fuel-length zero (suc fuel) n h b =
    let e : ltb n 10 ≡ true = ground arith in rw e (omega arith)
decimal_fuel-length (suc k) (suc fuel) n h b = elim (Bool-cases (ltb n 10)) [
  | inl e ↦ rw e (omega arith)
  | inr e ↦
      let above : 10 ≤ n = ground arith in
      let shorter : n / 10 < 10 ^ suc k = omega arith in
      rw e (
        omega (
          arith,
          length-append (decimal_fuel fuel (n / 10)) (digit n ∷ []),
          decimal_fuel-length k fuel (n / 10) (omega arith) shorter,
        ))
]

-- An id of a column of type BIGINT.
abbrev pub IsBigint : ℕ → Type 0
IsBigint n = n < 2 ^ 63

pub decimal_fits : (n : ℕ) → IsBigint n → leb (length (decimal n)) int_max_str_digits ≡ true
unfolding decimal
decimal_fits n h =
    let short : length (decimal n) ≤ 19 =
      decimal_fuel-length 18 (suc n) n (omega arith) (omega arith) in
    ground arith

pub decimal-is_digit : (n : ℕ) → all is_digit (decimal n) ≡ true
unfolding decimal
decimal-is_digit n = decimal_fuel-digits (suc n) n (omega arith)

pub decimal-decimal_from : (n : ℕ) → decimal_from 0 (decimal n) ≡ n
unfolding decimal
decimal-decimal_from n = decimal_fuel-decimal_from (suc n) n (omega arith)

pub decimal-parse_int_id :
    (n : ℕ) (field : Text) → IsBigint n → parse_int_id (decimal n) field ≡ composed n
unfolding parse_int_id
decimal-parse_int_id n field h =
    rw (decimal_filled n, decimal-is_digit n, decimal_fits n h)
      (ap composed (decimal-decimal_from n))
