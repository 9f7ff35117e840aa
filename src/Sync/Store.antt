-- ===== src/Sync/Store.antt =====
-- The tables that a sync pass reads and writes (migrations/0001_init.sql, 0003, 0033 and 0034), one
-- record for a row. Moments are numbers of one unit of the server clock. A digest, a body and an
-- exception are texts.
use localmail.Common.{ℕ, String, Option, List}

-- transient_fetches, PRIMARY KEY (mailbox_id, uid)
pub record Hold : Type 0 where
  pub mailbox_id : ℕ
  pub uid : ℕ
  pub attempt_count : ℕ
  pub first_seen_at : ℕ
  pub last_seen_at : ℕ
  pub gave_up_at : Option ℕ

-- message_labels, PRIMARY KEY (message_id, mailbox_id), UNIQUE (mailbox_id, uid)
pub record Label : Type 0 where
  pub message_id : ℕ
  pub mailbox_id : ℕ
  pub uid : ℕ
  pub flags : List String

-- failed_messages, UNIQUE (account_id, mailbox_id, uid)
pub record FailedMessage : Type 0 where
  pub id : ℕ
  pub account_id : ℕ
  pub mailbox_id : ℕ
  pub uid : ℕ
  pub raw_bytes : String
  pub retry_count : ℕ

-- ParsedMessage of parser.py: the fields of the dedup key, the attachments and the raw bytes. The
-- other columns are copied by the INSERT, and read by no operation modelled here.
pub record Parsed : Type 0 where
  pub message_id : Option String
  pub raw_sha256 : String
  pub raw_bytes : String
  pub attachments : List String

-- messages
pub record Message : Type 0 where
  pub id : ℕ
  pub account_id : ℕ
  pub parsed : Parsed
  pub internal_date : Option ℕ
  pub attachments : List String

-- mailboxes, UNIQUE (account_id, name)
pub record Mailbox : Type 0 where
  pub id : ℕ
  pub account_id : ℕ
  pub name : String
  pub delimiter : Option String
  pub flags : List String
  pub uidvalidity : Option ℕ
  pub uidnext : Option ℕ
  pub last_sync_at : Option ℕ

-- `message_seq` and `failed_seq` are the ids that the sequences give next.
pub record Db : Type 0 where
  pub mailboxes : List Mailbox
  pub messages : List Message
  pub message_seq : ℕ
  pub labels : List Label
  pub failed : List FailedMessage
  pub failed_seq : ℕ
  pub holds : List Hold
