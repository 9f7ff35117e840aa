-- ===== src/Sync/Uids.antt =====
-- src/localmail/uids.py: the allocation of synthetic UIDs and the resume point of a sync pass.
use localmail.Common.{
  ℕ, ◌+◌, min, max, String, Bool, Option, none, some, List, [], ◌∷◌, ◌&&◌, ◌==◌, str_eq,
  if◌then◌else◌,
}
use localmail.Sync.Store.{Label, FailedMessage}

abbrev pub archive_auth_method : String
archive_auth_method = "archive"

unfoldable pub next_uid_after : Option ℕ → ℕ
next_uid_after none = 1
next_uid_after (some n) = n + 1

unfoldable pub should_reallocate_uid : String → Bool
should_reallocate_uid auth_method = str_eq auth_method archive_auth_method

unfoldable pub checkpoint_uidnext : ℕ → Option ℕ → ℕ
checkpoint_uidnext highest_seen none = highest_seen + 1
checkpoint_uidnext highest_seen (some hold_at) = min (highest_seen + 1) hold_at

-- SELECT COALESCE(MAX(uid), 0) FROM message_labels WHERE mailbox_id = %s
unfoldable pub max_label_uid : List Label → ℕ → ℕ
max_label_uid [] mailbox_id = 0
max_label_uid (l ∷ labels) mailbox_id =
    let rest = max_label_uid labels mailbox_id in
    if l.mailbox_id == mailbox_id then max l.uid rest else rest

-- SELECT COALESCE(MAX(uid), 0) FROM failed_messages WHERE account_id = %s AND mailbox_id = %s
unfoldable pub max_failed_uid : List FailedMessage → ℕ → ℕ → ℕ
max_failed_uid [] account_id mailbox_id = 0
max_failed_uid (f ∷ failed) account_id mailbox_id =
    let rest = max_failed_uid failed account_id mailbox_id in
    if f.account_id == account_id && f.mailbox_id == mailbox_id then max f.uid rest else rest

unfoldable pub max_reserved_uid : List Label → List FailedMessage → ℕ → ℕ → ℕ
max_reserved_uid labels failed account_id mailbox_id =
    max (max_label_uid labels mailbox_id) (max_failed_uid failed account_id mailbox_id)
