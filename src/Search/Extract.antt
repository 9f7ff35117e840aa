-- ===== src/Search/Extract.antt =====
-- The attachment-extraction queue and its worker: src/localmail/search/extract_queue.py,
-- src/localmail/search/attachment_kind.py and src/localmail/search/extract_worker.py. What an
-- extractor answers is any text or any exception. `str.lower` and `Path.suffix` are parameters.
pub mod Worker
pub mod Queue
pub mod Partition
pub mod Budget
pub mod Claimed
pub mod Share
pub mod Sweep
pub mod Drains
use localmail.Common.{
  leb, ltb, ◌==◌, if◌then◌else◌, ℕ, suc, Bool, true, false, not, ◌&&◌, ◌||◌, Option, none, some,
  List, [], ◌∷◌,
}
use localmail.Query.Text.{Text, codes, is_empty, text_eq}
use localmail.Common.Table.{find, exists, delete, insert, update, select}
use localmail.Common.Lists.{take}
use localmail.Keyset.{order_by}

-- attachment_blobs, with the file names that messages gave each blob.
pub record Blob : Type 0 where
  pub sha256 : ℕ
  pub mime_type : Option Text
  pub size_bytes : ℕ
  pub first_seen_at : ℕ
  pub filenames : List Text

pub record AttachmentText : Type 0 where
  pub sha256 : ℕ
  pub extractor : Text
  pub extracted_text : Text

-- A row of failed_extractions or of transient_extractions.
pub record Attempts : Type 0 where
  pub sha256 : ℕ
  pub tries : ℕ

pub record ExtractDb : Type 0 where
  pub blobs : List Blob
  pub texts : List AttachmentText
  pub failed : List Attempts
  pub transient : List Attempts

pub record ExtractConfig : Type 0 where
  pub run_extract_worker : Bool
  pub batch_size : ℕ
  pub max_retries : ℕ
  pub max_transient_retries : ℕ
  pub max_blob_bytes : ℕ
  pub mime_allowlist : List Text
  pub extension_allowlist : List Text

-- What extract() does: the name of the extractor and a text, or an exception, which is transient or
-- not.
pub data Extraction : Type 0 where
  extracts : Text → Text → Extraction
  raises : Bool → Extraction

-- `_try_import_docling`: None, the ExtractorConfigurationError, or the class.
pub data Docling : Type 0 where
  docling_missing docling_broken docling_found : Docling

-- The answers of one sweep, and whether the row of a failure can be written.
pub record Extractors : Type 0 where
  pub lightweight : Blob → Option Text → Extraction
  pub docling : Blob → Option Text → Extraction
  pub docling_import : Docling
  pub records : Blob → Bool

abbrev pub text_of_sha : ℕ → AttachmentText → Bool
text_of_sha sha r = r.sha256 == sha

abbrev pub attempts_of_sha : ℕ → Attempts → Bool
attempts_of_sha sha r = r.sha256 == sha

abbrev pub tries_of : Option Attempts → ℕ
tries_of none = 0
tries_of (some r) = r.tries

-- No row, or one below the cap.
abbrev pub below : ℕ → Option Attempts → Bool
below cap none = true
below cap (some r) = ltb r.tries cap

-- `_UNDER_RETRY_CAPS_SQL`
abbrev pub under_retry_caps : ExtractConfig → ExtractDb → Blob → Bool
under_retry_caps cfg db b =
    below cfg.max_retries (find (attempts_of_sha b.sha256) db.failed)
    && below cfg.max_transient_retries (find (attempts_of_sha b.sha256) db.transient)

-- `CLAIMABLE_WHERE_SQL`
abbrev pub can_claim : ExtractConfig → ExtractDb → Blob → Bool
can_claim cfg db b = not (exists (text_of_sha b.sha256) db.texts) && under_retry_caps cfg db b

abbrev pub seen_before : Blob → Blob → Bool
seen_before a b = leb a.first_seen_at b.first_seen_at

-- `_claim_batch`
unfoldable pub claim_batch : ExtractConfig → ExtractDb → List Blob
claim_batch cfg db = take cfg.batch_size (order_by seen_before (select (can_claim cfg db) db.blobs))

-- `_insert_attachment_text`: ON CONFLICT DO NOTHING
unfoldable pub insert_attachment_text : AttachmentText → ExtractDb → ExtractDb
insert_attachment_text r db =
    if exists (text_of_sha r.sha256) db.texts then db else record db { texts = insert r db.texts }

abbrev pub one_more : Attempts → Attempts
one_more r = record r { tries = suc r.tries }

-- INSERT ... ON CONFLICT (sha256) DO UPDATE, which counts one more
unfoldable pub upsert_attempts : ℕ → List Attempts → List Attempts
upsert_attempts sha rows =
    if exists (attempts_of_sha sha) rows
    then update (attempts_of_sha sha) one_more rows
    else insert (record { sha256 = sha; tries = 1 }) rows

-- `_record_failure_safely`, given whether the row can be written.
unfoldable pub record_failure_safely : Bool → ℕ → ExtractDb → ExtractDb
record_failure_safely writable sha db =
    if writable then record db { failed = upsert_attempts sha db.failed } else db

-- `_record_transient_safely`
unfoldable pub record_transient_safely : Bool → ℕ → ExtractDb → ExtractDb
record_transient_safely writable sha db =
    if writable then record db { transient = upsert_attempts sha db.transient } else db

-- `_clear_transient`
unfoldable pub clear_transient : ℕ → ExtractDb → ExtractDb
clear_transient sha db = record db { transient = delete (attempts_of_sha sha) db.transient }
