-- ===== src/Search/Extract/Partition.antt =====
-- The four buckets of src/localmail/search/extract_queue.py divide the queue.
-- Which of the four a blob is in, from what the tables say of it.
use localmail.Common.{
  Bool-cases, is_some, ◌+◌, ◌≤◌, ◌≡◌, refl, inl, inr, Bool, true, false, not, ◌&&◌, Option, none,
  some, List, [], ◌∷◌, arith, ==_iff, ◌==◌, min, sym, ap, ◌∙◌, ◌↔◌,
}
use localmail.Search.Extract.{
  AttachmentText, ExtractConfig, ExtractDb, Blob, can_claim, text_of_sha, under_retry_caps,
  claim_batch, order_by, seen_before,
}
use localmail.Query.Text.{is_empty}
use localmail.Search.Extract.Queue.{
  as_int, text_filed, nothing_filed, filed, is_misfiled, is_extracted, is_no_text, is_gave_up,
  fetch_queue_counts, QueueCounts, counts,
}
use localmail.Common.Table.{count, find, select}
use localmail.Common.Lists.{length, length-take}
use localmail.Keyset.{order_by}
use localmail.Keyset.Ordered.{order_by-length}
use localmail.Common.Table.Laws.{length-select}

one_bucket :
    (o : Option AttachmentText) (caps : Bool)
    → as_int (text_filed o)
        + as_int (nothing_filed o)
        + as_int (not (is_some o) && not caps)
        + as_int (not (is_some o) && caps)
      ≡ 1
one_bucket none true = refl
one_bucket none false = refl
one_bucket (some r) caps = elim (Bool-cases (is_empty r.extracted_text)) [
  | inl e ↦ rw e refl
  | inr e ↦ rw e refl
]

module _ (allowlisted : Blob → Bool) (cfg : ExtractConfig) (db : ExtractDb) where
  none_misfiled : (rows : List Blob) → count (filed allowlisted (is_misfiled cfg db)) rows ≡ 0
  unfolding count
  none_misfiled [] = refl
  none_misfiled (b ∷ rows) = ground (
    arith,
    none_misfiled rows,
    one_bucket (find (text_of_sha b.sha256) db.texts) (under_retry_caps cfg db b),
  )

  buckets_add :
      (rows : List Blob)
      → count (filed allowlisted (is_extracted db)) rows
          + count (filed allowlisted (is_no_text db)) rows
          + count (filed allowlisted (is_gave_up cfg db)) rows
          + count (filed allowlisted (can_claim cfg db)) rows
        ≡ count (allowlisted) rows
  unfolding count
  buckets_add [] = refl
  buckets_add (b ∷ rows) = ground (
    arith,
    buckets_add rows,
    one_bucket (find (text_of_sha b.sha256) db.texts) (under_retry_caps cfg db b),
  )

  pending_le :
      (rows : List Blob)
      → count (filed allowlisted (can_claim cfg db)) rows ≤ count (can_claim cfg db) rows
  unfolding count
  pending_le [] = omega arith
  pending_le (b ∷ rows) = ground (arith, pending_le rows)

module _ (cfg : ExtractConfig) (db : ExtractDb) where
  claim_batch-length :
      length (claim_batch cfg db) ≡ min cfg.batch_size (count (can_claim cfg db) db.blobs)
  unfolding claim_batch
  claim_batch-length =
      length-take cfg.batch_size (order_by seen_before (select (can_claim cfg db) db.blobs))
      ∙ ap (min cfg.batch_size) (
          order_by-length seen_before (select (can_claim cfg db) db.blobs)
          ∙ length-select (can_claim cfg db) db.blobs)

no_batch : (batch : List Blob) → length batch ≡ 0 → batch ≡ []
no_batch [] h = refl
no_batch (b ∷ batch) h = absurd (omega arith)

-- The report of the queue, whose two statements see the tables as they are then, `db` and `later`,
-- never fails its own check: the blobs that the allowlists admit divide into those with a text, those
-- without one, those given up and those pending; what is pending is part of what the worker could claim
-- at the first statement; and nothing is reported as left to claim exactly where the batch, of one blob
-- at least, that the worker would claim at the second is empty. What Postgres admits by the allowlists
-- is any condition on a blob.
pub fetch_queue_counts-claim_batch :
    (allowlisted : Blob → Bool) (cfg : ExtractConfig) (db later : ExtractDb)
    → 1 ≤ cfg.batch_size
    → (c : QueueCounts) × (fetch_queue_counts allowlisted cfg db later ≡ some c)
      × (c.eligible ≡ c.extracted + c.no_text + c.gave_up + c.pending)
      × (c.pending ≤ count (can_claim cfg db) db.blobs)
      × ((c.claimable ≡ 0) ↔ (claim_batch cfg later ≡ []))
unfolding fetch_queue_counts
fetch_queue_counts-claim_batch allowlisted cfg db later some_batch =
    let add = buckets_add allowlisted cfg db db.blobs in
    let sums : (count (filed allowlisted (is_extracted db)) db.blobs
            + count (filed allowlisted (is_no_text db)) db.blobs
            + count (filed allowlisted (is_gave_up cfg db)) db.blobs
            + count (filed allowlisted (can_claim cfg db)) db.blobs
          == count allowlisted db.blobs)
        ≡ true =
      (==_iff _ _).1 add in
    (
      counts allowlisted cfg db later,
      rw (none_misfiled allowlisted cfg db db.blobs, sums) refl,
      sym add,
      pending_le allowlisted cfg db db.blobs,
      (
        λ none_left. no_batch (claim_batch cfg later) (claim_batch-length cfg later ∙ omega arith),
        λ empty.
            let e : length (claim_batch cfg later) ≡ 0 = ap length empty in
            omega (arith, claim_batch-length cfg later),
      ),
    )
