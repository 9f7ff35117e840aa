-- ===== src/Api/Ranges.antt =====
-- src/localmail/api/range_requests.py, from the two fields of a `bytes=` header on; Ranges/Header cuts
-- them out. A field is what `int` makes of its text.
pub mod Header
use localmail.Common.{
  ℕ, leb, if◌then◌else◌, ltb, Bool-cases, ◌==◌, ◌-◌, ◌≤◌, ◌<◌, min, ◌≡◌, refl, inl, inr, Bool, true,
  false, not, ◌&&◌, ◌||◌, Option, none, some, arith,
}
use localmail.Common.Int.{ℤ, pos, negsuc, le_zero, lt_zero, to_nat}

pub data Field : Type 0 where
  missing : Field
  number : ℤ → Field
  malformed : Field

pub record ByteRange : Type 0 where
  pub start : ℕ
  pub end : ℕ

-- The whole resource with 200, a part with 206, or 416.
pub data RangeResult : Type 0 where
  full : RangeResult
  partial : ByteRange → RangeResult
  unsatisfiable : RangeResult

unfoldable pub suffix_range : ℤ → ℕ → RangeResult
suffix_range suffix size =
    if le_zero suffix
    then unsatisfiable
    else partial (record { start = size - to_nat suffix; end = size - 1 })

unfoldable pub open_ended_range : ℤ → ℕ → RangeResult
open_ended_range start size =
    if lt_zero start
    then full
    else if leb size (to_nat start)
    then unsatisfiable
    else partial (record { start = to_nat start; end = size - 1 })

-- `start < 0 or end < 0 or end < start`
abbrev pub is_disordered : ℤ → ℤ → Bool
is_disordered start end = lt_zero start || lt_zero end || ltb (to_nat end) (to_nat start)

unfoldable pub closed_range : ℤ → ℤ → ℕ → RangeResult
closed_range start end size =
    if is_disordered start end
    then full
    else if leb size (to_nat start)
    then unsatisfiable
    else partial (record { start = to_nat start; end = min (to_nat end) (size - 1) })

-- The fields of a resource that is not empty. `malformed` is the ValueError of `int`.
abbrev pub range_of_fields : Field → Field → ℕ → RangeResult
range_of_fields missing missing size = full
range_of_fields missing (number suffix) size = suffix_range suffix size
range_of_fields missing malformed size = full
range_of_fields (number start) missing size = open_ended_range start size
range_of_fields (number start) (number end) size = closed_range start end size
range_of_fields (number start) malformed size = full
range_of_fields malformed end size = full

abbrev pub is_missing : Field → Bool
is_missing missing = true
is_missing (number n) = false
is_missing malformed = false

-- `none` is a header that is absent, of another unit, or without exactly one range.
unfoldable pub parse_byte_range : Option (Field × Field) → ℕ → RangeResult
parse_byte_range none size = full
parse_byte_range (some (start, end)) size =
    if is_missing start && is_missing end
    then full
    else if size == 0
    then unsatisfiable
    else range_of_fields start end size

-- The bytes that the fields ask for by RFC 9110: the last ones, those from a start on, or those
-- from a start to an end.
abbrev pub asks_for : Field → Field → ℕ → ℕ → Bool
asks_for missing missing size i = false
asks_for missing (number n) size i = not (le_zero n) && leb (size - to_nat n) i
asks_for missing malformed size i = false
asks_for (number s) missing size i = not (lt_zero s) && leb (to_nat s) i
asks_for (number s) (number e) size i =
    not (lt_zero s) && not (lt_zero e) && leb (to_nat s) i && leb i (to_nat e)
asks_for (number s) malformed size i = false
asks_for malformed e size i = false

-- The fields are no range.
abbrev pub is_no_range : Field → Field → Bool
is_no_range missing missing = true
is_no_range missing (number n) = false
is_no_range missing malformed = true
is_no_range (number s) missing = lt_zero s
is_no_range (number s) (number e) = is_disordered s e
is_no_range (number s) malformed = true
is_no_range malformed e = true

abbrev pub covers : ByteRange → ℕ → Bool
covers r i = leb r.start i && leb i r.end

-- What a result says of byte `i` of a resource of `size` bytes.
abbrev pub Answers : Field → Field → ℕ → ℕ → RangeResult → Type 0
Answers s e size i full = is_no_range s e ≡ true
Answers s e size i unsatisfiable = (asks_for s e size i && ltb i size) ≡ false
Answers s e size i (partial r) =
    (r.start ≤ r.end) × (r.end < size) × (covers r i ≡ (asks_for s e size i && ltb i size))

suffix_range-Answers :
    (n : ℤ) (size i : ℕ) → 0 < size → Answers missing (number n) size i (suffix_range n size)
unfolding suffix_range
suffix_range-Answers (negsuc n) size i positive = refl
suffix_range-Answers (pos n) size i positive = elim (Bool-cases (leb n 0)) [
  | inl e ↦ rw e (ground (arith, e))
  | inr e ↦ rw e (ground arith, ground arith, ground arith)
]

open_ended_range-Answers :
    (s : ℤ) (size i : ℕ) → 0 < size → Answers (number s) missing size i (open_ended_range s size)
unfolding open_ended_range
open_ended_range-Answers (negsuc s) size i positive = refl
open_ended_range-Answers (pos s) size i positive = elim (Bool-cases (leb size s)) [
  | inl e ↦ rw e (ground arith)
  | inr e ↦ rw e (ground arith, ground arith, ground arith)
]

closed_range-Answers :
    (s e : ℤ) (size i : ℕ) → 0 < size → Answers (number s) (number e) size i (closed_range s e size)
unfolding closed_range
closed_range-Answers (negsuc s) e size i positive = refl
closed_range-Answers (pos s) (negsuc e) size i positive = refl
closed_range-Answers (pos s) (pos e) size i positive = elim (Bool-cases (ltb e s)) [
  | inl bad ↦ rw bad bad
  | inr good ↦ elim (Bool-cases (leb size s)) [
    | inl past ↦ rw (good, past) (ground arith)
    | inr inside ↦ rw (good, inside) (ground arith, ground arith, ground arith)
  ]
]

fields-Answers :
    (s e : Field) (size i : ℕ) → 0 < size → Answers s e size i (range_of_fields s e size)
fields-Answers missing missing size i positive = refl
fields-Answers missing (number n) size i positive = suffix_range-Answers n size i positive
fields-Answers missing malformed size i positive = refl
fields-Answers (number s) missing size i positive = open_ended_range-Answers s size i positive
fields-Answers (number s) (number e) size i positive = closed_range-Answers s e size i positive
fields-Answers (number s) malformed size i positive = refl
fields-Answers malformed e size i positive = refl

missing-is_no_range : (s e : Field) → (is_missing s && is_missing e) ≡ true → is_no_range s e ≡ true
missing-is_no_range missing missing h = refl
missing-is_no_range missing (number n) h = ground arith
missing-is_no_range missing malformed h = refl
missing-is_no_range (number n) e h = ground arith
missing-is_no_range malformed e h = refl

-- Every answer to a Range header is the right one for every byte of the resource: a part is not
-- empty, ends within the resource, and has a byte exactly where the header asks for it and the
-- resource has it; 416 means that the header asks for no byte that there is; and the whole resource
-- is served only where the fields are no range.
pub parse_byte_range-Answers :
    (s e : Field) (size i : ℕ) → Answers s e size i (parse_byte_range (some (s, e)) size)
unfolding parse_byte_range
parse_byte_range-Answers s e size i = elim (Bool-cases (is_missing s && is_missing e)) [
  | inl both ↦ rw both (missing-is_no_range s e both)
  | inr one ↦ elim (Bool-cases (size == 0)) [
    | inl empty ↦ rw (one, empty) (ground arith)
    | inr some_byte ↦ rw (one, some_byte) (fields-Answers s e size i (ground arith))
  ]
]
