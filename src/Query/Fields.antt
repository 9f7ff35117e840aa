-- ===== src/Query/Fields.antt =====
-- The operators, errors and results of src/localmail/search/query.py, and the variables of the loop of
-- `parse_query`; a date is the number of its day.
use localmail.Common.{
  ℕ, leb, ◌==◌, Bool, true, false, ◌&&◌, ◌||◌, not, Option, none, some, List, [], ◌∷◌, ◌++◌,
  if◌then◌else◌,
}
use localmail.Common.Lists.{length}
use localmail.Query.Text.{
  Text, join_words, text_eq, is_empty, any, strip, codes, all, is_surrogate, is_digit, decimal_from,
}

pub data Op : Type 0 where
  from_op to_op subject_op after_op before_op has_op label_op : Op
  account_op folder_op account_id_op folder_id_op lang_op attachment_name_op : Op

-- `none` names the query as a whole.
pub data QueryParseError : Type 0 where
  unstorable : Option Op → QueryParseError
  empty_value : Op → QueryParseError
  bad_id : Op → Text → QueryParseError
  bad_date : Op → Text → QueryParseError
  bad_has : Text → QueryParseError
  has_contradiction : QueryParseError

pub data QueryResult {ℓ} (A : Type ℓ) : Type ℓ where
  parsed : A → QueryResult A
  refused : QueryParseError → QueryResult A

-- What one token does: set or extend a filter, add free text, or nothing.
pub data Effect : Type 0 where
  set_from set_to set_subject set_label set_attachment_name : Text → Effect
  add_account add_folder add_lang add_free : Text → Effect
  add_account_id add_folder_id set_after set_before : ℕ → Effect
  set_has : Bool → Effect
  nothing : Effect

-- The variables of the loop.
pub record Fields : Type 0 where
  pub free_parts : List Text
  pub account_names : List Text
  pub folders : List Text
  pub account_ids : List ℕ
  pub folder_ids : List ℕ
  pub from_substr : Option Text
  pub to_substr : Option Text
  pub subject_substr : Option Text
  pub label : Option Text
  pub attachment_name_substr : Option Text
  pub after : Option ℕ
  pub before : Option ℕ
  pub has_attachment : Option Bool
  pub languages : List Text

-- The fields of SearchFilters that the parser sets, where an empty list becomes None.
pub record SearchFilters : Type 0 where
  pub account_names : List Text
  pub folders : Option (List Text)
  pub account_ids : Option (List ℕ)
  pub folder_ids : Option (List ℕ)
  pub from_substr : Option Text
  pub to_substr : Option Text
  pub subject_substr : Option Text
  pub after : Option ℕ
  pub before : Option ℕ
  pub has_attachment : Option Bool
  pub label : Option Text
  pub languages : Option (List Text)
  pub attachment_name_substr : Option Text

pub record ParsedQuery : Type 0 where
  pub free_text : Text
  pub filters : SearchFilters

-- `_OPERATORS`
unfoldable pub operator : Text → Option Op
operator op =
    if text_eq op (codes "from")
    then some from_op
    else if text_eq op (codes "to")
    then some to_op
    else if text_eq op (codes "subject")
    then some subject_op
    else if text_eq op (codes "after")
    then some after_op
    else if text_eq op (codes "before")
    then some before_op
    else if text_eq op (codes "has")
    then some has_op
    else if text_eq op (codes "label")
    then some label_op
    else if text_eq op (codes "account")
    then some account_op
    else if text_eq op (codes "folder")
    then some folder_op
    else if text_eq op (codes "account_id")
    then some account_id_op
    else if text_eq op (codes "folder_id")
    then some folder_id_op
    else if text_eq op (codes "lang")
    then some lang_op
    else if text_eq op (codes "attachment_name")
    then some attachment_name_op
    else none

-- `_FIXED_SHAPE_OPERATORS`
abbrev pub is_fixed_shape : Op → Bool
is_fixed_shape after_op = true
is_fixed_shape before_op = true
is_fixed_shape has_op = true
is_fixed_shape account_id_op = true
is_fixed_shape folder_id_op = true
is_fixed_shape _ = false

-- Python refuses to convert a longer text of digits.
abbrev pub int_max_str_digits : ℕ
int_max_str_digits = 4300

abbrev pub then_add : (ℕ → Effect) → QueryResult ℕ → QueryResult Effect
then_add f (parsed n) = parsed (f n)
then_add f (refused e) = refused e

unfoldable pub parse_id : Op → Text → QueryResult ℕ
parse_id op value =
    if not (is_empty value) && all is_digit value && leb (length value) int_max_str_digits
    then parsed (decimal_from 0 value)
    else refused (bad_id op value)

abbrev pub dated : Op → Text → Option ℕ → QueryResult ℕ
dated op value none = refused (bad_date op value)
dated op value (some day) = parsed day

-- A dash alone is dropped.
abbrev pub free : Text → Effect
free raw = if is_empty (strip (λ c. c == b'-') raw) then nothing else add_free raw

-- A has: against the one before it.
abbrev pub apply_has : Bool → Option Bool → Fields → QueryResult Fields
apply_has true (some false) f = refused has_contradiction
apply_has false (some true) f = refused has_contradiction
apply_has wanted _ f = parsed (record f { has_attachment = some wanted })

unfoldable pub apply : Effect → Fields → QueryResult Fields
apply (set_from v) f = parsed (record f { from_substr = some v })
apply (set_to v) f = parsed (record f { to_substr = some v })
apply (set_subject v) f = parsed (record f { subject_substr = some v })
apply (set_label v) f = parsed (record f { label = some v })
apply (set_attachment_name v) f = parsed (record f { attachment_name_substr = some v })
apply (add_account v) f = parsed (record f { account_names = f.account_names ++ v ∷ [] })
apply (add_folder v) f = parsed (record f { folders = f.folders ++ v ∷ [] })
apply (add_lang v) f = parsed (record f { languages = f.languages ++ v ∷ [] })
apply (add_free v) f = parsed (record f { free_parts = f.free_parts ++ v ∷ [] })
apply (add_account_id n) f = parsed (record f { account_ids = f.account_ids ++ n ∷ [] })
apply (add_folder_id n) f = parsed (record f { folder_ids = f.folder_ids ++ n ∷ [] })
apply (set_after day) f = parsed (record f { after = some day })
apply (set_before day) f = parsed (record f { before = some day })
apply (set_has wanted) f = apply_has wanted f.has_attachment f
apply nothing f = parsed f

abbrev pub and_then : QueryResult Effect → Fields → QueryResult Fields
and_then (refused e) f = refused e
and_then (parsed eff) f = apply eff f

abbrev pub no_fields : Fields
no_fields = record {
  free_parts = [];
  account_names = [];
  folders = [];
  account_ids = [];
  folder_ids = [];
  from_substr = none;
  to_substr = none;
  subject_substr = none;
  label = none;
  attachment_name_substr = none;
  after = none;
  before = none;
  has_attachment = none;
  languages = [];
}

abbrev pub or_none {ℓ} : {A : Type ℓ} → List A → Option (List A)
or_none [] = none
or_none (x ∷ xs) = some (x ∷ xs)

abbrev pub parsed_query : QueryResult Fields → QueryResult ParsedQuery
parsed_query (refused e) = refused e
parsed_query (parsed f) = parsed (record {
  free_text = join_words f.free_parts;
  filters = record {
    account_names = f.account_names;
    folders = or_none f.folders;
    account_ids = or_none f.account_ids;
    folder_ids = or_none f.folder_ids;
    from_substr = f.from_substr;
    to_substr = f.to_substr;
    subject_substr = f.subject_substr;
    after = f.after;
    before = f.before;
    has_attachment = f.has_attachment;
    label = f.label;
    languages = or_none f.languages;
    attachment_name_substr = f.attachment_name_substr;
  };
})

-- `_reject_unstorable`: a NUL or a surrogate.
abbrev pub is_unstorable : Text → Bool
is_unstorable tok = any (λ c. c == 0) tok || any is_surrogate tok
