-- ===== src/Api/Cursors.antt =====
-- The cursors of searches and of the message list: src/localmail/api/browse_cursor.py and the codecs
-- of src/localmail/api/search_cursor.py. A moment is a number; base64, with the ASCII codec around it,
-- and the ISO form of a moment are those of the standard library, a parameter.
pub mod Browse
pub mod Codecs
pub mod Next
pub mod RoundTrip
pub mod Plan
pub mod Axes
pub mod Stated
use localmail.Keyset.{asc, desc, SortOrder}
use localmail.Common.{
  is_some, leb, ltb, ◌==◌, if◌then◌else◌, ℕ, zero, suc, ◌-◌, ◌%◌, Bool, not, ◌&&◌, ◌||◌, Option,
  none, some, List, [], ◌∷◌, ◌++◌,
}
use localmail.Query.Text.{Text, is_empty, strip_right, text_eq, codes, all, is_digit, decimal_from}
use localmail.Common.Lists.{length}
use localmail.Api.Filters.{decimal}
use localmail.Query.Fields.{int_max_str_digits}

pub record BrowseCursor : Type 0 where
  pub ts : Option ℕ
  pub id : ℕ

pub data KeysetWalk : Type 0 where
  text_walk archive_walk : KeysetWalk

-- A KeysetCursor with the walk that it continues.
pub record WalkCursor : Type 0 where
  pub ts : Option ℕ
  pub id : ℕ
  pub order : SortOrder
  pub walk : KeysetWalk

pub record SearchCursor : Type 0 where
  pub token : Text
  pub page : ℕ

-- A value, a ValidationFailed, or the ValueError of an int() that nothing catches.
pub data CursorResult {ℓ} (A : Type ℓ) : Type ℓ where
  decoded : A → CursorResult A
  validation_failed : CursorResult A
  value_error : CursorResult A

pub record Library : Type 0 where
  pub b64encode : Text → Text
  pub b64decode : Text → Option Text
  pub isoformat : ℕ → Text
  pub fromisoformat : Text → Option ℕ

-- str.split of one character
abbrev pub push : ℕ → List Text → List Text
push c [] = (c ∷ []) ∷ []
push c (w ∷ ws) = (c ∷ w) ∷ ws

unfoldable pub split_on : ℕ → Text → List Text
split_on sep [] = [] ∷ []
split_on sep (c ∷ s) = let rest = split_on sep s in if c == sep then [] ∷ rest else push c rest

-- str.rpartition(":"): what stands before the last colon and after it
abbrev pub or_here : ℕ → Text → Option (Text × Text) → Option (Text × Text)
or_here c s (some (t, u)) = some (c ∷ t, u)
or_here c s none = if c == b':' then some ([], s) else none

unfoldable pub rpartition : Text → Option (Text × Text)
rpartition [] = none
rpartition (c ∷ s) = or_here c s (rpartition s)

-- What is left of a text that starts with a prefix.
unfoldable pub remove_prefix : Text → Text → Option Text
remove_prefix [] s = some s
remove_prefix (c ∷ p) [] = none
remove_prefix (c ∷ p) (d ∷ s) = let rest = remove_prefix p s in if c == d then rest else none

-- `_parse_nonneg_int`; int() refuses a longer text of digits.
unfoldable pub parse_nonneg_int : Text → CursorResult ℕ
parse_nonneg_int s =
    if not (is_empty s) && all is_digit s
    then (if leb (length s) int_max_str_digits then decoded (decimal_from 0 s) else value_error)
    else validation_failed

abbrev pub positioned : Option ℕ → CursorResult ℕ → CursorResult BrowseCursor
positioned ts (decoded id) = decoded (record { ts = ts; id = id })
positioned ts validation_failed = validation_failed
positioned ts value_error = value_error

unfoldable pub repeat_char : ℕ → ℕ → Text
repeat_char zero c = []
repeat_char (suc n) c = c ∷ repeat_char n c

-- raw + "=" * (-len(raw) % 4)
abbrev pub padded : Text → Text
padded raw = raw ++ repeat_char ((4 - length raw % 4) % 4) b'='

module _ (lib : Library) where
  abbrev pub payload : Option ℕ → ℕ → Text
  payload none id = b'n' ∷ b'|' ∷ decimal id
  payload (some t) id = b'd' ∷ b'|' ∷ lib.isoformat t ++ b'|' ∷ decimal id

  unfoldable pub encode_browse_cursor : BrowseCursor → Text
  encode_browse_cursor cur = strip_right (λ c. c == b'=') (lib.b64encode (payload cur.ts cur.id))

  abbrev pub dated_position : Option ℕ → Text → CursorResult BrowseCursor
  dated_position none id = validation_failed
  dated_position (some t) id = positioned (some t) (parse_nonneg_int id)

  abbrev pub of_parts : List Text → CursorResult BrowseCursor
  of_parts (kind ∷ id ∷ []) =
      if text_eq kind (codes "n") then positioned none (parse_nonneg_int id) else validation_failed
  of_parts (kind ∷ t ∷ id ∷ []) =
      if text_eq kind (codes "d")
      then dated_position (lib.fromisoformat t) id
      else validation_failed
  of_parts _ = validation_failed

  abbrev pub of_body : Option Text → CursorResult BrowseCursor
  of_body none = validation_failed
  of_body (some body) = of_parts (split_on b'|' body)

  unfoldable pub decode_browse_cursor : Text → CursorResult BrowseCursor
  decode_browse_cursor raw =
      if is_empty raw then validation_failed else of_body (lib.b64decode (padded raw))

  -- `_KEYSET_PREFIXES`
  abbrev pub keyset_prefix : SortOrder → KeysetWalk → Text
  keyset_prefix asc text_walk = codes "KAT|"
  keyset_prefix asc archive_walk = codes "KA|"
  keyset_prefix desc text_walk = codes "KT|"
  keyset_prefix desc archive_walk = codes "K|"

  unfoldable pub encode_keyset_cursor : WalkCursor → Text
  encode_keyset_cursor ks =
      keyset_prefix ks.order ks.walk ++ encode_browse_cursor (record { ts = ks.ts; id = ks.id })

  abbrev pub walking : SortOrder → KeysetWalk → CursorResult BrowseCursor → CursorResult WalkCursor
  walking order walk (decoded bc) =
      decoded (record { ts = bc.ts; id = bc.id; order = order; walk = walk })
  walking order walk validation_failed = validation_failed
  walking order walk value_error = value_error

  -- One row of the table, and the rows after it.
  abbrev pub row :
      SortOrder → KeysetWalk → Option Text → CursorResult WalkCursor → CursorResult WalkCursor
  row order walk none rest = rest
  row order walk (some raw) rest = walking order walk (decode_browse_cursor raw)

  unfoldable pub decode_keyset_cursor : Text → CursorResult WalkCursor
  decode_keyset_cursor raw = row asc text_walk (remove_prefix (keyset_prefix asc text_walk) raw) (
      row asc archive_walk (remove_prefix (keyset_prefix asc archive_walk) raw) (
        row desc text_walk (remove_prefix (keyset_prefix desc text_walk) raw) (
          row desc archive_walk (remove_prefix (keyset_prefix desc archive_walk) raw)
            validation_failed)))

  unfoldable pub is_keyset_cursor : Text → Bool
  is_keyset_cursor raw =
      is_some (remove_prefix (keyset_prefix asc text_walk) raw)
      || (is_some (remove_prefix (keyset_prefix asc archive_walk) raw)
          || (is_some (remove_prefix (keyset_prefix desc text_walk) raw)
              || is_some (remove_prefix (keyset_prefix desc archive_walk) raw)))

unfoldable pub encode_search_cursor : SearchCursor → Text
encode_search_cursor cursor = cursor.token ++ b':' ∷ decimal cursor.page

abbrev pub with_page : Text → CursorResult ℕ → CursorResult SearchCursor
with_page token (decoded page) =
    if ltb page 1 then validation_failed else decoded (record { token = token; page = page })
with_page token validation_failed = validation_failed
with_page token value_error = value_error

abbrev pub of_sides : Option (Text × Text) → CursorResult SearchCursor
of_sides none = validation_failed
of_sides (some (token, page)) =
    if is_empty token then validation_failed else with_page token (parse_nonneg_int page)

unfoldable pub decode_search_cursor : Text → CursorResult SearchCursor
decode_search_cursor raw = of_sides (rpartition raw)
