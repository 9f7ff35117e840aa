-- ===== src/Sync/Messages.antt =====
-- The writes of src/localmail/sync.py for one message: its row, its label, and the record of one
-- that failed. A `Fault` is what Postgres, the parser or the file system raises.
pub mod Grows
pub mod Dedup
use localmail.Common.{
  str_eq, if◌then◌else◌, ◌==◌, is_none, ℕ, ◌+◌, String, Bool, true, false, not, ◌&&◌, ◌||◌, Option,
  none, some, List, [], ◌∷◌, ◌++◌,
}
use localmail.Sync.Store.{Parsed, Message, Db, Label, FailedMessage}
use localmail.Common.Table.{find, exists, update, delete, insert}

-- An exception: one of `DB_CONTENTION_ERRORS` of src/localmail/db.py, or any other.
pub data Fault : Type 0 where
  contention other : Fault

pub data Result {ℓ} (A : Type ℓ) : Type ℓ where
  ok : A → Result A
  raise : Fault → Result A

infixl 5 ◌>>=◌
abbrev pub ◌>>=◌ {ℓ κ} : {A : Type ℓ} {B : Type κ} → Result A → (A → Result B) → Result B
ok a >>= f = f a
raise e >>= f = raise e

-- A property of the value, where there is one.
abbrev pub Returns {ℓ κ} : {A : Type ℓ} → (A → Type κ) → Result A → Type κ
Returns P (ok a) = P a
Returns P (raise e) = Unit

pub Returns-bind {ℓ κ ν} :
    {A : Type ℓ} {B : Type κ} (P : A → Type ν) (Q : B → Type ν) (m : Result A) (f : A → Result B)
    → Returns P m
    → ((a : A) → P a → Returns Q (f a))
    → Returns Q (m >>= f)
Returns-bind P Q (ok a) f h k = k a h
Returns-bind P Q (raise e) f h k = tt

pub any_value {ℓ} : {A : Type ℓ} (m : Result A) → Returns (λ a. Unit {0}) m
any_value (ok a) = tt
any_value (raise e) = tt

pub Returns-mono {ℓ κ} :
    {A : Type ℓ} {P Q : A → Type κ} (m : Result A)
    → Returns P m
    → ((a : A) → P a → Q a)
    → Returns Q m
Returns-mono (ok a) h k = k a h
Returns-mono (raise e) h k = tt

-- Equality of Message-Ids under `=`, which no NULL satisfies.
abbrev pub same_id : Option String → Option String → Bool
same_id none b = false
same_id (some a) none = false
same_id (some a) (some b) = str_eq a b

-- The rows that `_existing_message_id` asks for, by the Message-Id or, where there is none, by the
-- digest; also the rows of the two unique indexes that an INSERT of `parsed` conflicts with.
unfoldable pub has_key : ℕ → Parsed → Message → Bool
has_key account_id parsed m =
    m.account_id == account_id
    && (same_id m.parsed.message_id parsed.message_id
        || (is_none parsed.message_id
            && is_none m.parsed.message_id
            && str_eq m.parsed.raw_sha256 parsed.raw_sha256))

abbrev pub has_message_row : ℕ → Message → Bool
has_message_row id m = m.id == id

unfoldable pub existing_message_id : List Message → ℕ → Parsed → Option ℕ
existing_message_id messages account_id parsed = elim (find (has_key account_id parsed) messages) [
  | none ↦ none
  | some m ↦ some m.id
]

abbrev pub new_message : ℕ → ℕ → Parsed → Option ℕ → Message
new_message id account_id parsed internal_date = record {
  id = id;
  account_id = account_id;
  parsed = parsed;
  internal_date = internal_date;
  attachments = [];
}

-- The INSERT ... ON CONFLICT DO NOTHING: `none` where any unique index is violated, the primary key
-- included. The sequence has moved on in either case.
unfoldable pub insert_message : Db → ℕ → Parsed → Option ℕ → Db × Option ℕ
insert_message db account_id parsed internal_date =
    let next = record db { message_seq = db.message_seq + 1 } in
    if exists (has_key account_id parsed) db.messages
      || exists (has_message_row db.message_seq) db.messages
    then (next, none)
    else (
      record next {
        messages = insert (new_message db.message_seq account_id parsed internal_date) db.messages;
      },
      some db.message_seq,
    )

-- `arrived` are the rows that other writers commit between the first lookup and the INSERT.
unfoldable pub arrive : List Message → Db → Db
arrive arrived db = record db { messages = db.messages ++ arrived }

-- The re-read after a conflict: the row of the writer who won, or the RuntimeError.
abbrev pub race_winner : Db → Option ℕ → Result (Db × ℕ × Bool)
race_winner db (some id) = ok (db, id, false)
race_winner db none = raise other

unfoldable pub insert_or_race : ℕ → Parsed → Db × Option ℕ → Result (Db × ℕ × Bool)
insert_or_race account_id parsed (db, some id) = ok (db, id, true)
insert_or_race account_id parsed (db, none) =
    race_winner db (existing_message_id db.messages account_id parsed)

unfoldable pub found_or_insert :
    List Message → Db → ℕ → Parsed → Option ℕ → Option ℕ → Result (Db × ℕ × Bool)
found_or_insert arrived db account_id parsed internal_date (some id) =
    ok (arrive arrived db, id, false)
found_or_insert arrived db account_id parsed internal_date none =
    insert_or_race account_id parsed
      (insert_message (arrive arrived db) account_id parsed internal_date)

unfoldable pub upsert_message : List Message → Db → ℕ → Parsed → Option ℕ → Result (Db × ℕ × Bool)
unfolding insert_or_race found_or_insert
upsert_message arrived db account_id parsed internal_date =
    found_or_insert arrived db account_id parsed internal_date
      (existing_message_id db.messages account_id parsed)

abbrev pub has_label : ℕ → ℕ → Label → Bool
has_label message_id mailbox_id l = l.message_id == message_id && l.mailbox_id == mailbox_id

-- Another message has the UID: UNIQUE (mailbox_id, uid).
abbrev pub has_uid_of_other : ℕ → ℕ → ℕ → Label → Bool
has_uid_of_other message_id mailbox_id uid l =
    l.mailbox_id == mailbox_id && l.uid == uid && not (l.message_id == message_id)

abbrev pub set_label : ℕ → List String → Label → Label
set_label uid flags l = record l { uid = uid; flags = flags }

unfoldable pub upsert_label : List Label → ℕ → ℕ → ℕ → List String → Result (List Label)
upsert_label labels message_db_id mailbox_id uid flags =
    if exists (has_uid_of_other message_db_id mailbox_id uid) labels
    then raise other
    else if exists (has_label message_db_id mailbox_id) labels
    then ok (update (has_label message_db_id mailbox_id) (set_label uid flags) labels)
    else ok (
        insert
          (record { message_id = message_db_id; mailbox_id = mailbox_id; uid = uid; flags = flags })
          labels)

unfoldable pub set_message_attachments : List Message → ℕ → List String → List Message
set_message_attachments messages message_db_id rows =
    update (has_message_row message_db_id) (λ m. record m { attachments = rows }) messages

unfoldable pub clear_mailbox_labels : List Label → ℕ → List Label
clear_mailbox_labels labels mailbox_id = delete (λ l. l.mailbox_id == mailbox_id) labels

-- What the world around one message decides: `parse` is parse_message of parser.py, `none` where it
-- raises; `stored` are the rows of write_attachments; `fault` is an exception that a statement
-- raises although the model would let it pass.
pub record World : Type 0 where
  pub parse : String → Option Parsed
  pub stored : Parsed → List String
  pub arrived : ℕ → List Message
  pub fault : ℕ → Option Fault

abbrev pub is_nonempty : List String → Bool
is_nonempty [] = false
is_nonempty (x ∷ xs) = true

abbrev pub with_attachments : World → Parsed → Db × ℕ × Bool → Db
with_attachments w parsed (db, id, did_insert) =
    if did_insert && is_nonempty parsed.attachments
    then record db { messages = set_message_attachments db.messages id (w.stored parsed) }
    else db

unfoldable pub link_message :
    World → Parsed → ℕ → ℕ → List String → Db × ℕ × Bool → Result (Db × Bool)
link_message w parsed mailbox_id uid flags (db, id, did_insert) = do
  labels ← upsert_label db.labels id mailbox_id uid flags
  ok (with_attachments w parsed (record db { labels = labels }, id, did_insert), did_insert)

unfoldable pub store_parsed :
    World → Db → ℕ → ℕ → ℕ → List String → Option ℕ → Option Parsed → Result (Db × Bool)
store_parsed w db account_id mailbox_id uid flags internal_date none = raise other
store_parsed w db account_id mailbox_id uid flags internal_date (some parsed) =
    upsert_message (w.arrived uid) db account_id parsed internal_date
    >>= link_message w parsed mailbox_id uid flags

abbrev pub unless_fault {ℓ} : {A : Type ℓ} → Option Fault → Result A → Result A
unless_fault none m = m
unless_fault (some e) m = raise e

-- The result carries the new state and whether a row was inserted.
unfoldable pub process_one_message :
    World → Db → ℕ → ℕ → ℕ → String → List String → Option ℕ → Result (Db × Bool)
unfolding link_message store_parsed
process_one_message w db account_id mailbox_id uid raw flags internal_date =
    unless_fault (w.fault uid)
      (store_parsed w db account_id mailbox_id uid flags internal_date (w.parse raw))

abbrev pub has_failed : ℕ → ℕ → ℕ → FailedMessage → Bool
has_failed account_id mailbox_id uid f =
    f.account_id == account_id && (f.mailbox_id == mailbox_id && f.uid == uid)

abbrev pub fail_again : String → FailedMessage → FailedMessage
fail_again raw f = record f { raw_bytes = raw; retry_count = f.retry_count + 1 }

unfoldable pub record_failed_message : Option Fault → Db → ℕ → ℕ → ℕ → String → Result Db
record_failed_message (some contention) db account_id mailbox_id uid raw = raise contention
record_failed_message (some other) db account_id mailbox_id uid raw = ok db
record_failed_message none db account_id mailbox_id uid raw =
    let next = record db { failed_seq = db.failed_seq + 1 } in
    if exists (has_failed account_id mailbox_id uid) db.failed
    then ok (record next {
      failed = update (has_failed account_id mailbox_id uid) (fail_again raw) db.failed;
    })
    else ok (record next {
      failed =
          insert
            (record {
              id = db.failed_seq;
              account_id = account_id;
              mailbox_id = mailbox_id;
              uid = uid;
              raw_bytes = raw;
              retry_count = 0;
            })
            db.failed;
    })
