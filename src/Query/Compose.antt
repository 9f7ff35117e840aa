-- ===== src/Query/Compose.antt =====
-- `compose_cli_query` of src/localmail/cli_search_query.py.
pub mod Sound
pub mod FreeText
use localmail.Common.{
  ℕ, ◌==◌, ◌+◌, ◌/◌, ◌%◌, Bool, true, false, ◌&&◌, ◌||◌, not, Option, none, some, List, [], ◌∷◌,
  ◌++◌, if◌then◌else◌,
}
use localmail.Query.Text.{Text, is_empty, codes, join_words}
use localmail.Query.Tokens.{quoted_filter_value}

-- A day of the years 1 to 9999.
pub record Day : Type 0 where
  pub year : ℕ
  pub month : ℕ
  pub day : ℕ

abbrev pub digit : ℕ → ℕ
digit n = b'0' + n % 10

-- date.isoformat
abbrev pub isoformat : Day → Text
isoformat d =
    digit (d.year / 1000)
    ∷ digit (d.year / 100)
    ∷ digit (d.year / 10)
    ∷ digit d.year
    ∷ b'-'
    ∷ digit (d.month / 10)
    ∷ digit d.month
    ∷ b'-'
    ∷ digit (d.day / 10)
    ∷ digit d.day
    ∷ []

pub record Flags : Type 0 where
  pub accounts : List Text
  pub folders : List Text
  pub after : Option Day
  pub before : Option Day
  pub from_substr : Option Text
  pub to_substr : Option Text
  pub subject_substr : Option Text
  pub has_attachment : Option Bool
  pub label : Option Text

-- The parts so far and the next ones; `none` is the ValueError for an empty value.
infixr 30 ◌and_parts◌
abbrev pub ◌and_parts◌ : Option (List Text) → Option (List Text) → Option (List Text)
none and_parts parts = none
some ws and_parts none = none
some ws and_parts some vs = some (ws ++ vs)

abbrev pub prefixed : Text → Option Text → Option (List Text)
prefixed key none = none
prefixed key (some quoted) = some ((key ++ quoted) ∷ [])

-- f"key:{_quote(value)}"
abbrev pub part : Text → Text → Option (List Text)
part key value = prefixed key (quoted_filter_value value)

unfoldable pub each : Text → List Text → Option (List Text)
each key [] = some []
each key (v ∷ vs) = part key v and_parts each key vs

-- None and the empty text are no flag.
unfoldable pub given : Text → Option Text → Option (List Text)
given key none = some []
given key (some v) = if is_empty v then some [] else part key v

abbrev pub dated_part : Text → Option Day → Option (List Text)
dated_part key none = some []
dated_part key (some d) = some ((key ++ isoformat d) ∷ [])

abbrev pub has_part : Option Bool → Option (List Text)
has_part (some true) = some (codes "has:attachment" ∷ [])
has_part (some false) = some []
has_part none = some []

unfoldable pub flag_parts : Flags → Option (List Text)
flag_parts flags =
    each (codes "account:") flags.accounts
    and_parts each (codes "folder:") flags.folders
    and_parts given (codes "from:") flags.from_substr
    and_parts given (codes "to:") flags.to_substr
    and_parts given (codes "subject:") flags.subject_substr
    and_parts dated_part (codes "after:") flags.after
    and_parts dated_part (codes "before:") flags.before
    and_parts has_part flags.has_attachment
    and_parts given (codes "label:") flags.label

abbrev pub joined_with : Text → Option (List Text) → Option Text
joined_with free_text none = none
joined_with free_text (some parts) =
    some (join_words (if is_empty free_text then parts else parts ++ free_text ∷ []))

unfoldable pub compose_cli_query : Text → Flags → Option Text
compose_cli_query free_text flags = joined_with free_text (flag_parts flags)
