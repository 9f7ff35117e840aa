-- ===== src/Search/Extract/Claimed.antt =====
-- A blob that the worker of src/localmail/search/extract_worker.py has claimed has a try left, which
-- the sweep uses up.
use localmail.Common.{
  if◌then◌else◌, Bool-cases, ◌==◌, ℕ, suc, ◌+◌, ◌<◌, ◌≡◌, refl, ap, ◌∙◌, inl, inr, Bool, true,
  false, Option, none, some, arith,
}
use localmail.Search.Extract.{
  Attempts, ExtractConfig, insert_attachment_text, clear_transient, record_failure_safely,
  record_transient_safely, below, ExtractDb, AttachmentText, tries_of, Blob, can_claim, find,
  attempts_of_sha, upsert_attempts,
}
use localmail.Search.Extract.Budget.{budget, has_text, failed_tries, transient_tries, upsert-tries}
use localmail.Common.Table.{find}
use localmail.Search.Extract.Queue.{as_int}

claimed_caps : (cap : ℕ) (o : Option Attempts) → below cap o ≡ true → tries_of o < suc cap
claimed_caps cap none h = omega arith
claimed_caps cap (some r) h = ground arith

-- What a blob that is claimed has left.
pub can_claim-budget :
    (cfg : ExtractConfig) (db : ExtractDb) (b : Blob)
    → can_claim cfg db b ≡ true
    → (has_text db b.sha256 ≡ false)
      × (failed_tries db b.sha256 < suc cfg.max_retries)
      × (transient_tries db b.sha256 < suc cfg.max_transient_retries)
can_claim-budget cfg db b h = (
  ground (arith, h),
  claimed_caps cfg.max_retries (find (attempts_of_sha b.sha256) db.failed) (ground (arith, h)),
  claimed_caps cfg.max_transient_retries (find (attempts_of_sha b.sha256) db.transient)
      (ground (arith, h)),
)

pub can_claim-positive :
    (cfg : ExtractConfig) (db : ExtractDb) (b : Blob)
    → can_claim cfg db b ≡ true
    → 0 < budget cfg db b.sha256
unfolding budget
can_claim-positive cfg db b h =
    let (none_yet, f, x) = can_claim-budget cfg db b h in rw none_yet (omega arith)

pub failed_less :
    (cfg : ExtractConfig) (db : ExtractDb) (b : Blob)
    → can_claim cfg db b ≡ true
    → budget cfg (record_failure_safely true b.sha256 db) b.sha256 < budget cfg db b.sha256
unfolding budget record_failure_safely
failed_less cfg db b h =
    let (none_yet, f, x) = can_claim-budget cfg db b h in
    let same : (b.sha256 == b.sha256) ≡ true = ground arith in
    let more : tries_of (find (attempts_of_sha b.sha256) (upsert_attempts b.sha256 db.failed))
        ≡ failed_tries db b.sha256 + 1 =
      upsert-tries b.sha256 b.sha256 db.failed
      ∙ ap (λ c. failed_tries db b.sha256 + as_int c) same in
    rw (none_yet, more) (omega arith)

pub transient_less :
    (cfg : ExtractConfig) (db : ExtractDb) (b : Blob)
    → can_claim cfg db b ≡ true
    → budget cfg (record_transient_safely true b.sha256 db) b.sha256 < budget cfg db b.sha256
unfolding budget record_transient_safely
transient_less cfg db b h =
    let (none_yet, f, x) = can_claim-budget cfg db b h in
    let same : (b.sha256 == b.sha256) ≡ true = ground arith in
    let more : tries_of (find (attempts_of_sha b.sha256) (upsert_attempts b.sha256 db.transient))
        ≡ transient_tries db b.sha256 + 1 =
      upsert-tries b.sha256 b.sha256 db.transient
      ∙ ap (λ c. transient_tries db b.sha256 + as_int c) same in
    rw (none_yet, more) (omega arith)

-- The statements of a sweep leave the table of blobs alone.
pub insert-blobs :
    (r : AttachmentText) (db : ExtractDb) → (insert_attachment_text r db).blobs ≡ db.blobs
unfolding insert_attachment_text
insert-blobs r db = elim (Bool-cases (has_text db r.sha256)) [
  | inl e ↦ rw e refl
  | inr e ↦ rw e refl
]

pub stored-blobs :
    (history : Bool) (r : AttachmentText) (db : ExtractDb)
    → (if history
        then clear_transient r.sha256 (insert_attachment_text r db)
        else insert_attachment_text r db).blobs
      ≡ db.blobs
unfolding clear_transient
stored-blobs true r db = insert-blobs r db
stored-blobs false r db = insert-blobs r db

pub failure-blobs :
    (w : Bool) (sha : ℕ) (db : ExtractDb) → (record_failure_safely w sha db).blobs ≡ db.blobs
unfolding record_failure_safely
failure-blobs true sha db = refl
failure-blobs false sha db = refl

pub transient-blobs :
    (w : Bool) (sha : ℕ) (db : ExtractDb) → (record_transient_safely w sha db).blobs ≡ db.blobs
unfolding record_transient_safely
transient-blobs true sha db = refl
transient-blobs false sha db = refl
