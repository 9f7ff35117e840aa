-- ===== src/Search/Extract/Worker.antt =====
-- One sweep of src/localmail/search/extract_worker.py, with src/localmail/search/attachment_kind.py.
use localmail.Search.Extract.{
  extracts, raises, docling_missing, docling_broken, docling_found, Text, codes, Extraction,
  Docling, ExtractConfig, Blob, Extractors, AttachmentText, ExtractDb, insert_attachment_text,
  exists, claim_batch, clear_transient, attempts_of_sha, record_failure_safely,
  record_transient_safely,
}
use localmail.Common.{
  ltb, if◌then◌else◌, Bool, true, false, ◌||◌, Option, none, some, List, [], ◌∷◌,
}
use localmail.Query.Text.{Text, codes, is_empty, text_eq}
use localmail.Common.Table.{exists}

-- What `_process_blob` does with a blob: a row of attachment_text, with the extractor that it names,
-- a row of failed_extractions, or a transient exception.
pub data Disposition : Type 0 where
  stores : Text → Text → Disposition
  fails : Text → Disposition
  interrupted : Disposition

abbrev pub lightweight_empty : Disposition
lightweight_empty = stores (codes "lightweight-empty") []

-- Without a text from either extractor.
abbrev pub without_text : Extraction → Disposition
without_text (extracts who t) = lightweight_empty
without_text (raises true) = interrupted
without_text (raises false) = fails (codes "lightweight")

abbrev pub after_docling : Extraction → Extraction → Disposition
after_docling lw (raises true) = interrupted
after_docling lw (raises false) = fails (codes "docling")
after_docling lw (extracts who t) = if is_empty t then without_text lw else stores who t

abbrev pub fall_back : Docling → Extraction → Extraction → Disposition
fall_back docling_found lw dl = after_docling lw dl
fall_back docling_broken lw dl = interrupted
fall_back docling_missing lw dl = without_text lw

abbrev pub after_lightweight : Bool → Docling → Extraction → Extraction → Disposition
after_lightweight pdf import (raises tr) dl =
    if pdf then fall_back import (raises tr) dl else without_text (raises tr)
after_lightweight pdf import (extracts who t) dl =
    if is_empty t
    then (if pdf then fall_back import (extracts who t) dl else without_text (extracts who t))
    else stores who t

module _ (lower : Text → Text) (suffix : Text → Text) where
  abbrev pub extension_of : Option Text → Text
  extension_of none = []
  extension_of (some name) = if is_empty name then [] else lower (suffix name)

  abbrev pub one_of : Text → List Text → Bool
  one_of t [] = false
  one_of t (s ∷ ss) = text_eq t (lower s) || one_of t ss

  abbrev pub any_extension : List Text → List Text → Bool
  any_extension allowed [] = false
  any_extension allowed (name ∷ names) =
      one_of (extension_of (some name)) allowed || any_extension allowed names

  abbrev pub mime_of : Option Text → Text
  mime_of none = lower []
  mime_of (some m) = lower m

  unfoldable pub is_allowlisted : ExtractConfig → Blob → Bool
  is_allowlisted cfg b =
      one_of (mime_of b.mime_type) cfg.mime_allowlist
      || any_extension cfg.extension_allowlist b.filenames

  abbrev pub first_name : List Text → Option Text
  first_name [] = none
  first_name (name ∷ names) = some name

  abbrev pub named_in : List Text → List Text → Option Text → Option Text
  named_in allowed [] default_name = default_name
  named_in allowed (name ∷ names) default_name =
      let rest = named_in allowed names default_name in
      if one_of (extension_of (some name)) allowed then some name else rest

  abbrev pub preferred_filename : List Text → List Text → Option Text
  preferred_filename allowed names = named_in allowed names (first_name names)

  abbrev pub is_pdf : Option Text → Option Text → Bool
  is_pdf mime name =
      text_eq (mime_of mime) (codes "application/pdf") || text_eq (extension_of name) (codes ".pdf")

  -- `_process_blob`
  unfoldable pub process_blob : ExtractConfig → Extractors → Blob → Disposition
  process_blob cfg ext b =
      let name = preferred_filename cfg.extension_allowlist b.filenames in
      if ltb cfg.max_blob_bytes b.size_bytes
      then stores (codes "size-skipped") []
      else after_lightweight (is_pdf b.mime_type name) ext.docling_import (ext.lightweight b name)
          (ext.docling b name)

  abbrev pub text_row : Blob → Text → Text → AttachmentText
  text_row b extractor t = record { sha256 = b.sha256; extractor = extractor; extracted_text = t }

  -- The statements for a disposition; `history` is whether the claim read a transient count.
  unfoldable pub write : Extractors → Bool → Blob → Disposition → ExtractDb → ExtractDb
  write ext history b (stores extractor t) db =
      let written = insert_attachment_text (text_row b extractor t) db in
      if history then clear_transient b.sha256 written else written
  write ext history b (fails extractor) db = record_failure_safely (ext.records b) b.sha256 db
  write ext history b interrupted db = record_transient_safely (ext.records b) b.sha256 db

  -- One blob of a batch.
  unfoldable pub run_blob : ExtractConfig → Extractors → Bool → Blob → ExtractDb → ExtractDb
  run_blob cfg ext history b db =
      if is_allowlisted cfg b
      then write ext history b (process_blob cfg ext b) db
      else insert_attachment_text (text_row b (codes "type-skipped") []) db

  -- The loop over the batch; `claimed` is the database that the claim read.
  unfoldable pub run_blobs :
      ExtractConfig → Extractors → ExtractDb → List Blob → ExtractDb → ExtractDb
  run_blobs cfg ext claimed [] db = db
  run_blobs cfg ext claimed (b ∷ batch) db =
      run_blobs cfg ext claimed batch
        (run_blob cfg ext (exists (attempts_of_sha b.sha256) claimed.transient) b db)

  unfoldable pub run_extract_worker_once : ExtractConfig → Extractors → ExtractDb → ExtractDb
  run_extract_worker_once cfg ext db =
      if cfg.run_extract_worker then run_blobs cfg ext db (claim_batch cfg db) db else db
