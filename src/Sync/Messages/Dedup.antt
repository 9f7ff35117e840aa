-- ===== src/Sync/Messages/Dedup.antt =====
-- The deduplication of messages: a message that is processed is in the archive under its key, with
-- a label in its mailbox.
use localmail.Common.{
  ℕ, String, ◌≡◌, refl, ◌∙◌, Bool, true, Option, some, List, arith, Option-cases, Bool-cases, inl,
  inr, none, [], ◌∷◌, false, ◌&&◌,
}
use localmail.Sync.Store.{Db, Parsed, Message, Label}
use localmail.Sync.Messages.{
  existing_message_id, has_key, arrive, insert_message, upsert_message, upsert_label, Parsed,
  Message, set_message_attachments, Label, exists, has_label, has_failed, new_message,
  insert_or_race, Returns, found_or_insert, has_uid_of_other, World, set_label, with_attachments,
  is_nonempty, link_message, store_parsed, process_one_message, record_failed_message, Returns-bind,
  fail_again,
}
use localmail.Common.Table.{exists, find}
use localmail.Common.Table.Laws.{find-append, exists-update, exists-insert, exists-append}
use localmail.Sync.Messages.Grows.{
  Grows, has_key_self, Grows-trans, arrive-Grows, existing-set, Grows-refl, insert_message-Grows,
}

-- What a successful upsert promises.
abbrev pub Upserted : Db → ℕ → Parsed → Db × ℕ × Bool → Type 0
Upserted db a parsed r = Grows db r.0 × (existing_message_id r.0.messages a parsed ≡ some r.1)

insert_message-finds :
    (db : Db) (a : ℕ) (parsed : Parsed) (date : Option ℕ) (id : ℕ)
    → (insert_message db a parsed date).1 ≡ some id
    → existing_message_id (insert_message db a parsed date).0.messages a parsed ≡ some id
unfolding insert_message existing_message_id find
insert_message-finds db a parsed date id h = ground (
  arith,
  find-append (has_key a parsed) db.messages (new_message db.message_seq a parsed date ∷ []),
  has_key_self db.message_seq a parsed date,
)

insert_or_race-Upserted :
    (db : Db) (a : ℕ) (parsed : Parsed) (r : Db × Option ℕ)
    → Grows db r.0
    → ((id : ℕ) → r.1 ≡ some id → existing_message_id r.0.messages a parsed ≡ some id)
    → Returns (Upserted db a parsed) (insert_or_race a parsed r)
unfolding insert_or_race
insert_or_race-Upserted db a parsed (db', some id) g h = (g, h id refl)
insert_or_race-Upserted db a parsed (db', none) g h =
    elim (Option-cases (existing_message_id db'.messages a parsed)) [
      | inl gone ↦ rw gone tt
      | inr (id, e) ↦ rw e (g, e)
    ]

upsert_message-Upserted :
    (arrived : List Message) (db : Db) (a : ℕ) (parsed : Parsed) (date : Option ℕ)
    → Returns (Upserted db a parsed) (upsert_message arrived db a parsed date)
unfolding upsert_message
upsert_message-Upserted arrived db a parsed date =
    elim (Option-cases (existing_message_id db.messages a parsed)) [
      | inl new ↦
          let db' = arrive arrived db in
          rw (new, found_or_insert)
            (insert_or_race-Upserted db a parsed (insert_message db' a parsed date)
              (Grows-trans db db' (insert_message db' a parsed date).0 (arrive-Grows arrived db)
                (insert_message-Grows db' a parsed date))
              (insert_message-finds db' a parsed date))
      | inr (id, e) ↦
          rw (e, found_or_insert)
            (arrive-Grows arrived db, (arrive-Grows arrived db).messages a parsed id e)
    ]

abbrev pub Labelled : List Label → ℕ → ℕ → List Label → Type 0
Labelled labels i m labels' =
    (exists (has_label i m) labels' ≡ true)
    × ((i' m' : ℕ)
        → exists (has_label i' m') labels ≡ true
        → exists (has_label i' m') labels' ≡ true)

abbrev row_of : ℕ → ℕ → ℕ → List String → Label
row_of i m u flags = record { message_id = i; mailbox_id = m; uid = u; flags = flags }

upsert_label-Labelled :
    (labels : List Label) (i m u : ℕ) (flags : List String)
    → Returns (Labelled labels i m) (upsert_label labels i m u flags)
unfolding upsert_label
upsert_label-Labelled labels i m u flags =
    elim (Bool-cases (exists (has_uid_of_other i m u) labels)) [
      | inl taken ↦ rw taken tt
      | inr free ↦ elim (Bool-cases (exists (has_label i m) labels)) [
        | inl old ↦
            let same = λ (i' m' : ℕ).
              exists-update (has_label i' m') (has_label i m) (set_label u flags) labels
                (λ r. refl) in
            rw (free, old) (same i m ∙ old, λ i' m' h. same i' m' ∙ h)
        | inr new ↦
            rw (free, new)
              (
                exists-insert (has_label i m) (row_of i m u flags) labels (ground arith),
                λ i' m' h. exists-append (has_label i' m') labels (row_of i m u flags ∷ []) h,
              )
      ]
    ]

-- The message of a processed UID is in the archive: its row is found by its key, and has a label in
-- the mailbox.
abbrev pub is_archived : Option Parsed → Db → ℕ → ℕ → Bool
is_archived none db a m = false
is_archived (some parsed) db a m = elim (existing_message_id db.messages a parsed) [
  | none ↦ false
  | some id ↦ exists (has_label id m) db.labels
]

abbrev pub Archived : Db → Option Parsed → ℕ → ℕ → Db × Bool → Type 0
Archived db parsed a m r = Grows db r.0 × (is_archived parsed r.0 a m ≡ true)

attached-Grows :
    (db : Db) (id : ℕ) (rows : List String)
    → Grows db (record db { messages = set_message_attachments db.messages id rows })
attached-Grows db id rows = record {
  messages = λ a p i h. existing-set db.messages id rows a p ∙ h;
  labels = λ i m h. h;
  failed = λ a m u h. h;
  holds = refl;
  mailboxes = refl;
}

with_attachments-Grows :
    (w : World) (parsed : Parsed) (db : Db) (id : ℕ) (b : Bool)
    → Grows db (with_attachments w parsed (db, id, b))
with_attachments-Grows w parsed db id b = elim (Bool-cases (b && is_nonempty parsed.attachments)) [
  | inl attach ↦ rw attach (attached-Grows db id (w.stored parsed))
  | inr plain ↦ rw plain (Grows-refl db)
]

-- The archive has the message as soon as the key finds a row with a label.
Archived-intro :
    (db db' : Db) (a m id : ℕ) (parsed : Parsed)
    → Grows db db'
    → existing_message_id db.messages a parsed ≡ some id
    → exists (has_label id m) db.labels ≡ true
    → is_archived (some parsed) db' a m ≡ true
Archived-intro db db' a m id parsed g e h =
    rw (g.messages a parsed id e, is_archived) (g.labels id m h)

label-Grows :
    (db : Db) (labels : List Label) (i m : ℕ)
    → Labelled db.labels i m labels
    → Grows db (record db { labels = labels })
label-Grows db labels i m h = record {
  messages = λ a p id e. e;
  labels = h.1;
  failed = λ a m u e. e;
  holds = refl;
  mailboxes = refl;
}

link_message-Archived :
    (w : World) (db : Db) (a : ℕ) (parsed : Parsed) (m u : ℕ) (flags : List String)
    (r : Db × ℕ × Bool)
    → Upserted db a parsed r
    → Returns (Archived db (some parsed) a m) (link_message w parsed m u flags r)
unfolding link_message
link_message-Archived w db a parsed m u flags (db', id, b) (g, e) =
    Returns-bind (Labelled db'.labels id m) (Archived db (some parsed) a m)
      (upsert_label db'.labels id m u flags) _ (upsert_label-Labelled db'.labels id m u flags)
      λ labels h.
        let db2 : Db = record db' { labels = labels } in
        let db3 = with_attachments w parsed (db2, id, b) in
        let linked = label-Grows db' labels id m h in
        let done = with_attachments-Grows w parsed db2 id b in
        (
          Grows-trans db db' db3 g (Grows-trans db' db2 db3 linked done),
          Archived-intro db2 db3 a m id parsed done e h.0,
        )

store_parsed-Archived :
    (w : World) (db : Db) (a m u : ℕ) (flags : List String) (date : Option ℕ)
    (parsed : Option Parsed)
    → Returns (Archived db parsed a m) (store_parsed w db a m u flags date parsed)
unfolding store_parsed
store_parsed-Archived w db a m u flags date none = tt
store_parsed-Archived w db a m u flags date (some parsed) =
    Returns-bind (Upserted db a parsed) (Archived db (some parsed) a m)
      (upsert_message (w.arrived u) db a parsed date) _
      (upsert_message-Upserted (w.arrived u) db a parsed date)
      (link_message-Archived w db a parsed m u flags)

-- A message that is processed without an exception is in the archive, and nothing that was there
-- goes.
pub process_one_message-Archived :
    (w : World) (db : Db) (a m u : ℕ) (raw : String) (flags : List String) (date : Option ℕ)
    → Returns (Archived db (w.parse raw) a m) (process_one_message w db a m u raw flags date)
unfolding process_one_message
process_one_message-Archived w db a m u raw flags date = elim (Option-cases (w.fault u)) [
  | inl e ↦ rw e (store_parsed-Archived w db a m u flags date (w.parse raw))
  | inr (f, e) ↦ rw e tt
]

abbrev pub Recorded : Db → ℕ → ℕ → ℕ → Db → Type 0
Recorded db a m u db' = Grows db db' × (exists (has_failed a m u) db'.failed ≡ true)

-- The record of a failure, where its write does not fail itself.
pub record_failed_message-Recorded :
    (db : Db) (a m u : ℕ) (raw : String)
    → Returns (Recorded db a m u) (record_failed_message none db a m u raw)
unfolding record_failed_message
record_failed_message-Recorded db a m u raw =
    elim (Bool-cases (exists (has_failed a m u) db.failed)) [
      | inl old ↦
          let same = λ (a' m' u' : ℕ).
            exists-update (has_failed a' m' u') (has_failed a m u) (fail_again raw) db.failed
              (λ f. refl) in
          rw old (
            record {
              messages = λ x p id e. e;
              labels = λ i k e. e;
              failed = λ a' m' u' e. same a' m' u' ∙ e;
              holds = refl;
              mailboxes = refl;
            },
            same a m u ∙ old,
          )
      | inr new ↦ rw new (
        record {
          messages = λ x p id e. e;
          labels = λ i k e. e;
          failed = λ a' m' u' e. exists-append (has_failed a' m' u') db.failed _ e;
          holds = refl;
          mailboxes = refl;
        },
        exists-insert (has_failed a m u) _ db.failed (ground arith),
      )
    ]

pub archived_keeps :
    (db db' : Db) (a m : ℕ) (parsed : Option Parsed)
    → Grows db db'
    → is_archived parsed db a m ≡ true
    → is_archived parsed db' a m ≡ true
archived_keeps db db' a m none g h = h
archived_keeps db db' a m (some parsed) g h =
    elim (Option-cases (existing_message_id db.messages a parsed)) [
      | inl gone ↦ ground (arith, gone)
      | inr (id, e) ↦ Archived-intro db db' a m id parsed g e (ground (arith, e, h))
    ]
