-- ===== src/Paging.antt =====
-- src/localmail/text_window.py: a stored text that is read in windows. A text is the list of its
-- code points. `substring` is Postgres' function of that name.
pub mod Client
mod Examples
use localmail.Common.{
  ℕ, ltb, if◌then◌else◌, ◌==◌, leb, ◌+◌, min, Bool, true, false, not, Option, none, some, List,
}
use localmail.Common.Int.{ℤ, lt_zero, to_nat, le_zero}
use localmail.Common.Lists.{length}

pub data WindowError : Type 0 where
  negative_offset : ℤ → WindowError
  limit_below_one : ℤ → WindowError

abbrev pub max_text_chars : ℕ
max_text_chars = 1073741824

unfoldable pub text_window_error : ℤ → Option ℤ → Option WindowError
text_window_error offset limit =
    if lt_zero offset
    then some (negative_offset offset)
    else elim limit [ none ↦ none | some n ↦ if le_zero n then some (limit_below_one n) else none ]

-- A validated window; `limit = none` means to the end.
pub record TextWindow : Type 0 where
  pub offset : ℕ
  pub limit : Option ℕ

abbrev limit_of : Option ℤ → Option ℕ
limit_of none = none
limit_of (some n) = some (to_nat n)

-- The constructor, `none` where it raises.
unfoldable pub make_window : ℤ → Option ℤ → Option TextWindow
make_window offset limit = elim (text_window_error offset limit) [
  | some e ↦ none
  | none ↦ some (record { offset = to_nat offset; limit = limit_of limit })
]

abbrev pub sql_from : TextWindow → ℕ
sql_from w = min w.offset max_text_chars + 1

abbrev pub capped : Option ℕ → Option ℕ
capped none = none
capped (some n) = some (min n max_text_chars)

abbrev pub sql_for : TextWindow → Option ℕ
sql_for w = capped w.limit

pub record TextPage {ℓ} (A : Type ℓ) : Type ℓ where
  pub text : List A
  pub offset : ℕ
  pub limit : Option ℕ
  pub total : ℕ
  pub next_offset : Option ℕ

-- `next_offset` is the end of the page where there is more to read.
abbrev pub end_below : ℕ → ℕ → Option ℕ
end_below end total = if ltb end total then some end else none

abbrev pub over_limit : Option ℕ → ℕ → Bool
over_limit none n = false
over_limit (some limit) n = ltb limit n

abbrev pub same_offset : Option ℕ → Option ℕ → Bool
same_offset none none = true
same_offset (some a) (some b) = a == b
same_offset none (some b) = false
same_offset (some a) none = false

abbrev pub stays : Option ℕ → ℕ → Bool
stays none offset = false
stays (some next) offset = leb next offset

-- `__post_init__` of `TextPage`: `none` where one of its three checks raises.
unfoldable pub make_page {ℓ} : {A : Type ℓ} → TextPage A → Option (TextPage A)
make_page p =
    if over_limit p.limit (length p.text)
    then none
    else if not (same_offset p.next_offset (end_below (p.offset + length p.text) p.total))
    then none
    else if stays p.next_offset p.offset
    then none
    else some p

unfoldable pub page {ℓ} : {A : Type ℓ} → TextWindow → List A → ℕ → Option (TextPage A)
page w text total = make_page (record {
  text = text;
  offset = w.offset;
  limit = w.limit;
  total = total;
  next_offset = end_below (w.offset + length text) total;
})
