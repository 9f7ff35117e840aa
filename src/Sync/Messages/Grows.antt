-- ===== src/Sync/Messages/Grows.antt =====
-- What every write of the sync pass to the tables of messages keeps.
use text.Mathlib.TextPositions.{eq_refl}
use localmail.Common.{
  ℕ, String, ◌≡◌, refl, ◌∙◌, true, Option, some, List, ◌++◌, arith, Bool-cases, inl, inr, ◌||◌,
  none, is_none, ◌==◌, str_eq, ◌&&◌,
}
use localmail.Sync.Store.{Db, Parsed, Message}
use localmail.Sync.Messages.{
  existing_message_id, has_key, arrive, insert_message, Parsed, Message, set_message_attachments,
  exists, has_label, has_failed, new_message, has_message_row, same_id,
}
use localmail.Common.Table.{exists}
use localmail.Common.Table.Laws.{find-append, find-update}

-- What a write keeps: a message that is found by its key is found as the same row, and no label or
-- record of a failure goes.
pub record Grows (db db' : Db) : Type 0 where
  pub messages :
      (a : ℕ) (parsed : Parsed) (id : ℕ)
      → existing_message_id db.messages a parsed ≡ some id
      → existing_message_id db'.messages a parsed ≡ some id
  pub labels :
      (id m : ℕ)
      → exists (has_label id m) db.labels ≡ true
      → exists (has_label id m) db'.labels ≡ true
  pub failed :
      (a m u : ℕ)
      → exists (has_failed a m u) db.failed ≡ true
      → exists (has_failed a m u) db'.failed ≡ true
  pub holds : db'.holds ≡ db.holds
  pub mailboxes : db'.mailboxes ≡ db.mailboxes

pub Grows-refl : (db : Db) → Grows db db
Grows-refl db = record {
  messages = λ a p id h. h;
  labels = λ id m h. h;
  failed = λ a m u h. h;
  holds = refl;
  mailboxes = refl;
}

pub Grows-trans : (a b c : Db) → Grows a b → Grows b c → Grows a c
Grows-trans a b c g h = record {
  messages = λ x p id e. h.messages x p id (g.messages x p id e);
  labels = λ id m e. h.labels id m (g.labels id m e);
  failed = λ x m u e. h.failed x m u (g.failed x m u e);
  holds = h.holds ∙ g.holds;
  mailboxes = h.mailboxes ∙ g.mailboxes;
}

existing-append :
    (xs ys : List Message) (a : ℕ) (parsed : Parsed) (id : ℕ)
    → existing_message_id xs a parsed ≡ some id
    → existing_message_id (xs ++ ys) a parsed ≡ some id
unfolding existing_message_id
existing-append xs ys a parsed id h = ground (arith, find-append (has_key a parsed) xs ys)

has_key-set :
    (a : ℕ) (parsed : Parsed) (rows : List String) (m : Message)
    → has_key a parsed (record m { attachments = rows }) ≡ has_key a parsed m
unfolding has_key
has_key-set a parsed rows m = refl

pub existing-set :
    (xs : List Message) (i : ℕ) (rows : List String) (a : ℕ) (parsed : Parsed)
    → existing_message_id (set_message_attachments xs i rows) a parsed
      ≡ existing_message_id xs a parsed
unfolding existing_message_id set_message_attachments
existing-set xs i rows a parsed = ground (
  arith,
  find-update (has_key a parsed) (has_message_row i) (λ m. record m { attachments = rows }) xs
      (has_key-set a parsed rows),
)

pub arrive-Grows : (arrived : List Message) (db : Db) → Grows db (arrive arrived db)
unfolding arrive
arrive-Grows arrived db = record {
  messages = λ a p id h. existing-append db.messages arrived a p id h;
  labels = λ id m h. h;
  failed = λ a m u h. h;
  holds = refl;
  mailboxes = refl;
}

-- A row under the key that is asked for is found.
same_key :
    (a : ℕ) (s : String) (o : Option String)
    → (a == a && (same_id o o || (is_none o && is_none o && str_eq s s))) ≡ true
same_key a s none = ground (arith, eq_refl s)
same_key a s (some x) = ground (arith, eq_refl x)

pub has_key_self :
    (id a : ℕ) (parsed : Parsed) (date : Option ℕ)
    → has_key a parsed (new_message id a parsed date) ≡ true
unfolding has_key
has_key_self id a parsed date = same_key a parsed.raw_sha256 parsed.message_id

pub insert_message-Grows :
    (db : Db) (a : ℕ) (parsed : Parsed) (date : Option ℕ)
    → Grows db (insert_message db a parsed date).0
unfolding insert_message
insert_message-Grows db a parsed date =
    elim (Bool-cases (
      exists (has_key a parsed) db.messages
      || exists (has_message_row db.message_seq) db.messages)) [
        | inl conflict ↦ rw conflict (record {
          messages = λ x p id h. h;
          labels = λ id m h. h;
          failed = λ x m u h. h;
          holds = refl;
          mailboxes = refl;
        })
        | inr new ↦ rw new (record {
          messages = λ x p id h. existing-append db.messages _ x p id h;
          labels = λ id m h. h;
          failed = λ x m u h. h;
          holds = refl;
          mailboxes = refl;
        })
      ]
