-- ===== src/Api/Ranges/Header.antt =====
-- The text of a Range header: src/localmail/api/range_requests.py. Python's `int` is a parameter, none
-- where it raises ValueError.
use localmail.Api.Ranges.{missing, malformed, number, Field}
use localmail.Common.{if◌then◌else◌, ◌==◌, ℕ, Bool, not, ◌||◌, Option, none, some, [], ◌∷◌}
use localmail.Common.Int.{ℤ}
use localmail.Query.Text.{Text, is_empty, any, is_space, codes, strip}

abbrev pub is_dash : ℕ → Bool
is_dash c = c == b'-'

abbrev pub is_comma : ℕ → Bool
is_comma c = c == b','

abbrev pub before_dash : Text → Text
before_dash [] = []
before_dash (c ∷ s) = let rest = before_dash s in if is_dash c then [] else c ∷ rest

abbrev pub after_dash : Text → Text
after_dash [] = []
after_dash (c ∷ s) = let rest = after_dash s in if is_dash c then s else rest

-- str.startswith and the slice after the prefix
abbrev pub without_prefix : Text → Text → Option Text
without_prefix [] s = some s
without_prefix (p ∷ prefix) [] = none
without_prefix (p ∷ prefix) (c ∷ s) = if c == p then without_prefix prefix s else none

module _ (int : Text → Option ℤ) where
  abbrev pub as_number : Option ℤ → Field
  as_number none = malformed
  as_number (some n) = number n

  abbrev pub read_field : Text → Field
  read_field s = if is_empty s then missing else as_number (int s)

  abbrev pub spec_fields : Text → Option (Field × Field)
  spec_fields spec =
      if is_empty spec || any is_comma spec || not (any is_dash spec)
      then none
      else some (
        read_field (strip is_space (before_dash spec)),
        read_field (strip is_space (after_dash spec)),
      )

  abbrev pub of_spec : Option Text → Option (Field × Field)
  of_spec none = none
  of_spec (some spec) = spec_fields (strip is_space spec)

  unfoldable pub range_fields : Option Text → Option (Field × Field)
  range_fields none = none
  range_fields (some header) = of_spec (without_prefix (codes "bytes=") header)
