-- ===== src/Import/Log.antt =====
-- What the counters of src/localmail/importer/runner.py say of the messages that it leaves behind.
use localmail.Import.{
  stored, linked, refused_row, unrecorded, did_insert, did_link, contended, poisoned, arrives,
  breaks, Kind, Counters, Entry, Event, Runner, open_mailbox, take_message, checkpoint_import,
  commit_import, add_entry, Outcome, ImportConfig, of_mailbox, settle_message, next_after,
  should_checkpoint, one_processed, or_uid, advance,
}
use localmail.Common.{
  Bool-cases, ℕ, suc, ◌+◌, ◌-◌, ◌≡◌, refl, sym, ap, ◌∙◌, inl, inr, Bool, true, false, Option, none,
  some, List, [], ◌∷◌, ◌++◌, map, arith,
}
use localmail.Common.Table.{count, exists, find, update}
use localmail.Common.Lists.{length, length-append}
use localmail.Common.Table.Counts.{count-append}
use localmail.Query.Tokens.Whole.{append-nil, append_assoc}

abbrev pub kind_stored : Kind → Bool
kind_stored stored = true
kind_stored linked = false
kind_stored refused_row = false
kind_stored unrecorded = false

abbrev pub kind_linked : Kind → Bool
kind_linked stored = false
kind_linked linked = true
kind_linked refused_row = false
kind_linked unrecorded = false

abbrev pub kind_refused : Kind → Bool
kind_refused stored = false
kind_refused linked = false
kind_refused refused_row = true
kind_refused unrecorded = true

-- The counters are those of the entries.
abbrev pub Tallies : Counters → List Entry → Type 0
Tallies c log =
    (c.processed ≡ length log)
    × (c.inserted ≡ count (λ e. kind_stored e.kind) log)
    × (c.skipped_dup ≡ count (λ e. kind_linked e.kind) log)
    × (c.failed ≡ count (λ e. kind_refused e.kind) log)

abbrev pub mailboxes : List Entry → List ℕ
mailboxes log = map (λ e. e.mailbox) log

-- The mailboxes of the messages of a source.
abbrev pub names : List Event → List ℕ
names [] = []
names (breaks ∷ events) = names events
names (arrives name outcome now cancel ∷ events) = name ∷ names events

-- What has been taken from the source is in the open transaction, and a first part of it is
-- committed.
abbrev pub IsTallied : List ℕ → Runner → Type 0
IsTallied seen r =
    Tallies r.c r.log
    × Tallies r.committed r.committed_log
    × (mailboxes r.log ≡ seen)
    × ((rest : List ℕ) × (seen ≡ mailboxes r.committed_log ++ rest))

pub commit-IsTallied :
    (seen : List ℕ) (r : Runner) → IsTallied seen r → IsTallied seen (commit_import r)
commit-IsTallied seen r (t, k, m, p) = (t, t, m, ([], sym m ∙ sym (append-nil (mailboxes r.log))))

pub open_mailbox-IsTallied :
    (reserved : ℕ → ℕ) (name : ℕ) (seen : List ℕ) (r : Runner)
    → IsTallied seen r
    → IsTallied seen (open_mailbox reserved name r)
unfolding open_mailbox
open_mailbox-IsTallied reserved name seen r h =
    elim (Bool-cases (exists (of_mailbox name) r.uid_counters)) [
      | inl e ↦ rw e h
      | inr e ↦ rw e (commit-IsTallied seen r h)
    ]

mailboxes-snoc :
    (log : List Entry) (e : Entry) → mailboxes (log ++ e ∷ []) ≡ mailboxes log ++ e.mailbox ∷ []
mailboxes-snoc [] e = refl
mailboxes-snoc (x ∷ log) e = ap (◌∷◌ x.mailbox) (mailboxes-snoc log e)

-- The open transaction gains an entry that its counters count.
add_entry-IsTallied :
    (seen : List ℕ) (c : Counters) (e : Entry) (r : Runner)
    → IsTallied seen r
    → Tallies c (r.log ++ e ∷ [])
    → IsTallied (seen ++ e.mailbox ∷ []) (add_entry c e r)
add_entry-IsTallied seen c e r (t, k, m, (rest, p)) h = (
  h,
  k,
  mailboxes-snoc r.log e ∙ ap (◌++ (e.mailbox ∷ [])) m,
  (
    rest ++ e.mailbox ∷ [],
    ap (◌++ (e.mailbox ∷ [])) p ∙ append_assoc (mailboxes r.committed_log) rest (e.mailbox ∷ []),
  ),
)

-- One entry more, and the counters of its kind.
Tallies-snoc :
    (c d : Counters) (log : List Entry) (e : Entry)
    → Tallies c log
    → d.processed ≡ c.processed + 1
    → d.inserted ≡ c.inserted + count (λ x. kind_stored x.kind) (e ∷ [])
    → d.skipped_dup ≡ c.skipped_dup + count (λ x. kind_linked x.kind) (e ∷ [])
    → d.failed ≡ c.failed + count (λ x. kind_refused x.kind) (e ∷ [])
    → Tallies d (log ++ e ∷ [])
Tallies-snoc c d log e (n, s, l, f) n' s' l' f' = (
  omega (arith, length-append log (e ∷ [])),
  omega (arith, count-append (λ x. kind_stored x.kind) log (e ∷ [])),
  omega (arith, count-append (λ x. kind_linked x.kind) log (e ∷ [])),
  omega (arith, count-append (λ x. kind_refused x.kind) log (e ∷ [])),
)

abbrev pub HasSettled : List ℕ → ℕ → Option Runner → Type 0
HasSettled seen name none = Unit
HasSettled seen name (some r) = IsTallied (seen ++ name ∷ []) r

settle_message-HasSettled :
    (seen : List ℕ) (name uid : ℕ) (o : Outcome) (r : Runner)
    → IsTallied seen r
    → HasSettled seen name (settle_message name uid o r)
unfolding count
settle_message-HasSettled seen name uid contended r h = tt
settle_message-HasSettled seen name uid did_insert r (t, k, m, p) =
    let e : Entry = record { mailbox = name; uid = uid; kind = stored } in
    let c = one_processed (record r.c { inserted = suc r.c.inserted }) in
    add_entry-IsTallied seen c e r (t, k, m, p)
      (Tallies-snoc r.c c r.log e t (omega arith) (omega arith) (omega arith) (omega arith))
settle_message-HasSettled seen name uid did_link r (t, k, m, p) =
    let e : Entry = record { mailbox = name; uid = uid; kind = linked } in
    let c = one_processed (record r.c { skipped_dup = suc r.c.skipped_dup }) in
    add_entry-IsTallied seen c e r (t, k, m, p)
      (Tallies-snoc r.c c r.log e t (omega arith) (omega arith) (omega arith) (omega arith))
settle_message-HasSettled seen name uid (poisoned prior true) r (t, k, m, p) =
    let e : Entry = record { mailbox = name; uid = or_uid uid prior; kind = refused_row } in
    let c = one_processed (record r.c { failed = suc r.c.failed }) in
    add_entry-IsTallied seen c e r (t, k, m, p)
      (Tallies-snoc r.c c r.log e t (omega arith) (omega arith) (omega arith) (omega arith))
settle_message-HasSettled seen name uid (poisoned prior false) r (t, k, m, p) =
    let e : Entry = record { mailbox = name; uid = or_uid uid prior; kind = unrecorded } in
    let c = one_processed (record r.c { failed = suc r.c.failed }) in
    add_entry-IsTallied seen c e r (t, k, m, p)
      (Tallies-snoc r.c c r.log e t (omega arith) (omega arith) (omega arith) (omega arith))

pub take_message-HasSettled :
    (reserved : ℕ → ℕ) (seen : List ℕ) (name : ℕ) (o : Outcome) (r : Runner)
    → IsTallied seen r
    → HasSettled seen name (take_message reserved name o r)
unfolding take_message
take_message-HasSettled reserved seen name o r h =
    let opened = open_mailbox reserved name r in
    settle_message-HasSettled seen name (next_after (find (of_mailbox name) opened.uid_counters)) o
      (record opened { uid_counters = update (of_mailbox name) advance opened.uid_counters })
      (open_mailbox-IsTallied reserved name seen r h)

pub checkpoint-IsTallied :
    (cfg : ImportConfig) (now : ℕ) (cancel : Bool) (seen : List ℕ) (r : Runner)
    → IsTallied seen r
    → IsTallied seen (checkpoint_import cfg now cancel r).0
unfolding checkpoint_import
checkpoint-IsTallied cfg now cancel seen r h =
    elim (Bool-cases (
      should_checkpoint cfg r.c.processed r.processed_at_last_checkpoint
        (now - r.last_checkpoint_at))) [ inl e ↦ rw e (commit-IsTallied seen r h) | inr e ↦ rw e h ]
