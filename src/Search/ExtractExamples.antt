-- ===== src/Search/ExtractExamples.antt =====
-- Three attachments, of which one is read, one fails and one is interrupted again and again.
use localmail.Search.Extract.{
  extracts, raises, docling_missing, ExtractConfig, ExtractDb, Extraction, Extractors, claim_batch,
  Blob, insert_attachment_text, upsert_attempts, record_failure_safely, record_transient_safely,
  clear_transient, can_claim,
}
use localmail.Common.{
  if◌then◌else◌, ◌==◌, ℕ, ◌+◌, ◌≤◌, ◌≡◌, refl, ◌↔◌, true, false, none, some, [], ◌∷◌, arith,
}
use localmail.Common.Table.{find, select, delete, update, count}
use localmail.Query.Text.{Text, codes}
use localmail.Search.Extract.Queue.{fetch_queue_counts, QueueCounts}
use localmail.Search.Extract.Drains.{sweeps, most_sweeps, sweeps-claim_batch}
use localmail.Search.Extract.Partition.{fetch_queue_counts-claim_batch}
use localmail.Keyset.{insert_by, order_by}
use localmail.Search.Extract.Worker.{
  is_allowlisted, process_blob, write, run_blob, run_blobs, run_extract_worker_once,
}

program : Unit {0}
unfolding find select delete update count insert_by order_by claim_batch insert_attachment_text
    upsert_attempts record_failure_safely record_transient_safely clear_transient is_allowlisted
    process_blob write run_blob run_blobs run_extract_worker_once sweeps fetch_queue_counts
program = tt

abbrev small_letters : Text → Text
small_letters s = s

-- The name from its last dot on.
abbrev suffix_after : Text → Text → Text
suffix_after found [] = found
suffix_after found (c ∷ s) = if c == b'.' then suffix_after (c ∷ s) s else suffix_after found s

abbrev suffix : Text → Text
suffix s = suffix_after [] s

abbrev cfg : ExtractConfig
cfg = record {
  run_extract_worker = true;
  batch_size = 2;
  max_retries = 2;
  max_transient_retries = 1;
  max_blob_bytes = 1000;
  mime_allowlist = codes "text/plain" ∷ [];
  extension_allowlist = codes ".pdf" ∷ [];
}

abbrev attached : ℕ → Text → Blob
attached sha name = record {
  sha256 = sha;
  mime_type = none;
  size_bytes = 10;
  first_seen_at = sha;
  filenames = name ∷ [];
}

abbrev archive : ExtractDb
archive = record {
  blobs =
      attached 3 (codes "c.pdf")
      ∷ attached 1 (codes "a.pdf")
      ∷ attached 2 (codes "b.pdf")
      ∷ attached 4 (codes "d.gif")
      ∷ [];
  texts = [];
  failed = [];
  transient = [];
}

abbrev answer : ℕ → Extraction
answer sha = if sha == 1 then extracts (codes "l") (codes "hello") else raises (sha == 3)

abbrev answers : ℕ → Extractors
answers i = record {
  lightweight = λ b name. answer b.sha256;
  docling = λ b name. raises false;
  docling_import = docling_missing;
  records = λ b. true;
}

sweeps-claim_batch_example :
    claim_batch cfg (
      sweeps small_letters suffix cfg
        (most_sweeps small_letters suffix cfg archive)
        answers
        archive)
    ≡ []
sweeps-claim_batch_example =
    sweeps-claim_batch small_letters suffix cfg answers archive refl (λ i b. refl)

-- One has its text, one its sentinel, and two are given up.
after_five :
    fetch_queue_counts
      (is_allowlisted small_letters suffix cfg)
      cfg
      (sweeps small_letters suffix cfg 5 answers archive)
      (sweeps small_letters suffix cfg 5 answers archive)
    ≡ some (record {
      eligible = 3;
      extracted = 1;
      no_text = 0;
      gave_up = 2;
      pending = 0;
      claimable = 0;
    })
unfolding program
after_five = refl

fetch_queue_counts-claim_batch_example :
    (c : QueueCounts) × (fetch_queue_counts
        (is_allowlisted small_letters suffix cfg)
        cfg
        archive
        archive
      ≡ some c)
    × (c.eligible ≡ c.extracted + c.no_text + c.gave_up + c.pending)
    × (c.pending ≤ count (can_claim cfg archive) archive.blobs)
    × ((c.claimable ≡ 0) ↔ (claim_batch cfg archive ≡ []))
fetch_queue_counts-claim_batch_example =
    fetch_queue_counts-claim_batch (is_allowlisted small_letters suffix cfg) cfg archive archive
      (omega arith)
