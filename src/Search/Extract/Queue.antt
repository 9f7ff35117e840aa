-- ===== src/Search/Extract/Queue.antt =====
-- The report of the queue: `fetch_queue_counts` of src/localmail/search/extract_queue.py.
use localmail.Common.{if◌then◌else◌, ◌==◌, ℕ, ◌+◌, Bool, true, false, not, ◌&&◌, Option, none, some}
use localmail.Search.Extract.{
  AttachmentText, ExtractDb, ExtractConfig, Blob, can_claim, text_of_sha, under_retry_caps,
}
use localmail.Query.Text.{is_empty}
use localmail.Common.Table.{count, find, exists}

pub record QueueCounts : Type 0 where
  pub eligible : ℕ
  pub extracted : ℕ
  pub no_text : ℕ
  pub gave_up : ℕ
  pub pending : ℕ
  pub claimable : ℕ

abbrev pub text_filed : Option AttachmentText → Bool
text_filed none = false
text_filed (some r) = not (is_empty r.extracted_text)

abbrev pub nothing_filed : Option AttachmentText → Bool
nothing_filed none = false
nothing_filed (some r) = is_empty r.extracted_text

-- `EXTRACTED_WHERE_SQL`
abbrev pub is_extracted : ExtractDb → Blob → Bool
is_extracted db b = text_filed (find (text_of_sha b.sha256) db.texts)

-- `NO_TEXT_WHERE_SQL`
abbrev pub is_no_text : ExtractDb → Blob → Bool
is_no_text db b = nothing_filed (find (text_of_sha b.sha256) db.texts)

-- `GAVE_UP_WHERE_SQL`
abbrev pub is_gave_up : ExtractConfig → ExtractDb → Blob → Bool
is_gave_up cfg db b =
    not (exists (text_of_sha b.sha256) db.texts) && not (under_retry_caps cfg db b)

abbrev pub as_int : Bool → ℕ
as_int true = 1
as_int false = 0

-- In other than exactly one bucket.
abbrev pub is_misfiled : ExtractConfig → ExtractDb → Blob → Bool
is_misfiled cfg db b = not (
    as_int (is_extracted db b)
      + as_int (is_no_text db b)
      + as_int (is_gave_up cfg db b)
      + as_int (can_claim cfg db b)
    == 1)

-- `__post_init__`; none is the QueueCountsInconsistent.
abbrev pub checked : ℕ → QueueCounts → Option QueueCounts
checked misfiled c =
    if misfiled == 0
    then (if c.extracted + c.no_text + c.gave_up + c.pending == c.eligible then some c else none)
    else none

-- `allowlisted` is what Postgres answers to ALLOWLISTED_WHERE_SQL, whatever that is.
module _ (allowlisted : Blob → Bool) where
  abbrev pub filed : (Blob → Bool) → Blob → Bool
  filed p b = allowlisted b && p b

  -- `QUEUE_COUNTS_SQL` on `db`, and `CLAIMABLE_TOTAL_SQL` on `db'`: two statements, each with a
  -- snapshot of its own.
  abbrev pub counts : ExtractConfig → ExtractDb → ExtractDb → QueueCounts
  counts cfg db db' = record {
    eligible = count allowlisted db.blobs;
    extracted = count (filed (is_extracted db)) db.blobs;
    no_text = count (filed (is_no_text db)) db.blobs;
    gave_up = count (filed (is_gave_up cfg db)) db.blobs;
    pending = count (filed (can_claim cfg db)) db.blobs;
    claimable = count (can_claim cfg db') db'.blobs;
  }

  unfoldable pub fetch_queue_counts : ExtractConfig → ExtractDb → ExtractDb → Option QueueCounts
  fetch_queue_counts cfg db db' =
      checked (count (filed (is_misfiled cfg db)) db.blobs) (counts cfg db db')
