-- ===== src/Search/Extract/Sweep.antt =====
-- A sweep of src/localmail/search/extract_worker.py takes something from the budgets.
use mathlib.Core.Path.{subst}
use localmail.Search.Extract.Worker.{
  stores, fails, interrupted, write, run_blob, run_blobs, Disposition, is_allowlisted, text_row,
  process_blob,
}
use localmail.Common.{
  if◌then◌else◌, Bool-cases, ℕ, ◌≤◌, ◌<◌, ◌≡◌, inl, inr, Bool, true, false, List, [], ◌∷◌, arith,
  refl, ◌∙◌, ◌⊎◌, sym,
}
use localmail.Search.Extract.{
  Blob, ExtractConfig, ExtractDb, AttachmentText, can_claim, Extractors, clear_transient,
  insert_attachment_text, attempts_of_sha,
}
use localmail.Common.Table.{exists}
use localmail.Query.Text.{Text, codes}
use localmail.Common.Lists.{All}
use localmail.Search.Extract.Budget.{
  budget, insert-budget, failure-budget, has_text-budget, clear-budget, transient-budget,
  insert-has_text,
}
use localmail.Search.Extract.Claimed.{
  stored-blobs, can_claim-positive, failure-blobs, failed_less, transient-blobs, transient_less,
  insert-blobs,
}
use localmail.Search.Extract.Share.{total, HasShare, all_left}

module _ (lower : Text → Text) (suffix : Text → Text) (cfg : ExtractConfig) where
  stored-budget :
      (history : Bool) (r : AttachmentText) (db : ExtractDb) (s : ℕ)
      → budget cfg
          (if history
            then clear_transient r.sha256 (insert_attachment_text r db)
            else insert_attachment_text r db)
          s
        ≤ budget cfg db s
  stored-budget false r db s = insert-budget cfg r db s
  stored-budget true r db s = omega (
    arith,
    clear-budget cfg r.sha256 (insert_attachment_text r db) s (insert-has_text r db),
    insert-budget cfg r db s,
  )

  write-budget :
      (ext : Extractors) (history : Bool) (b : Blob) (d : Disposition) (db : ExtractDb) (s : ℕ)
      → budget cfg (write lower suffix ext history b d db) s ≤ budget cfg db s
  unfolding write
  write-budget ext history b (stores extractor t) db s =
      stored-budget history (text_row lower suffix b extractor t) db s
  write-budget ext history b (fails extractor) db s =
      failure-budget cfg (ext.records b) b.sha256 db s
  write-budget ext history b interrupted db s = transient-budget cfg (ext.records b) b.sha256 db s

  run_blob-budget :
      (ext : Extractors) (history : Bool) (b : Blob) (db : ExtractDb) (s : ℕ)
      → budget cfg (run_blob lower suffix cfg ext history b db) s ≤ budget cfg db s
  unfolding run_blob
  run_blob-budget ext history b db s = elim (Bool-cases (is_allowlisted lower suffix cfg b)) [
    | inl e ↦ rw e (write-budget ext history b (process_blob lower suffix cfg ext b) db s)
    | inr e ↦ rw e (insert-budget cfg (text_row lower suffix b (codes "type-skipped") []) db s)
  ]

  run_blobs-budget :
      (ext : Extractors) (claimed : ExtractDb) (batch : List Blob) (db : ExtractDb) (s : ℕ)
      → budget cfg (run_blobs lower suffix cfg ext claimed batch db) s ≤ budget cfg db s
  unfolding run_blobs
  run_blobs-budget ext claimed [] db s = omega arith
  run_blobs-budget ext claimed (b ∷ batch) db s =
      let history = exists (attempts_of_sha b.sha256) claimed.transient in
      let next = run_blob lower suffix cfg ext history b db in
      omega (arith, run_blobs-budget ext claimed batch next s, run_blob-budget ext history b db s)

  stored_less :
      (history : Bool) (r : AttachmentText) (db : ExtractDb)
      → 0 < budget cfg db r.sha256
      → budget cfg
          (if history
            then clear_transient r.sha256 (insert_attachment_text r db)
            else insert_attachment_text r db)
          r.sha256
        < budget cfg db r.sha256
  stored_less false r db p =
      omega
        (arith, has_text-budget cfg (insert_attachment_text r db) r.sha256 (insert-has_text r db))
  stored_less true r db p = omega (
    arith,
    clear-budget cfg r.sha256 (insert_attachment_text r db) r.sha256 (insert-has_text r db),
    has_text-budget cfg (insert_attachment_text r db) r.sha256 (insert-has_text r db),
  )

  written_less :
      (ext : Extractors) (history : Bool) (b : Blob) (d : Disposition) (db : ExtractDb)
      → can_claim cfg db b ≡ true
      → ext.records b ≡ true
      → budget cfg (write lower suffix ext history b d db) b.sha256 < budget cfg db b.sha256
  unfolding write
  written_less ext history b (stores extractor t) db h w =
      stored_less history (text_row lower suffix b extractor t) db (can_claim-positive cfg db b h)
  written_less ext history b (fails extractor) db h w = rw w (failed_less cfg db b h)
  written_less ext history b interrupted db h w = rw w (transient_less cfg db b h)

  run_blob_less :
      (ext : Extractors) (history : Bool) (b : Blob) (db : ExtractDb)
      → can_claim cfg db b ≡ true
      → ext.records b ≡ true
      → budget cfg (run_blob lower suffix cfg ext history b db) b.sha256 < budget cfg db b.sha256
  unfolding run_blob
  run_blob_less ext history b db h w = elim (Bool-cases (is_allowlisted lower suffix cfg b)) [
    | inl e ↦ rw e (written_less ext history b (process_blob lower suffix cfg ext b) db h w)
    | inr e ↦ rw e (
        stored_less false (text_row lower suffix b (codes "type-skipped") []) db
          (can_claim-positive cfg db b h))
  ]

  run_blob-blobs :
      (ext : Extractors) (history : Bool) (b : Blob) (db : ExtractDb)
      → (run_blob lower suffix cfg ext history b db).blobs ≡ db.blobs
  unfolding run_blob write
  run_blob-blobs ext history b db = elim (Bool-cases (is_allowlisted lower suffix cfg b)) [
    | inl e ↦ rw e (kept (process_blob lower suffix cfg ext b))
    | inr e ↦ rw e (insert-blobs (text_row lower suffix b (codes "type-skipped") []) db)
  ]
    where
      kept : (d : Disposition) → (write lower suffix ext history b d db).blobs ≡ db.blobs
      kept (stores extractor t) = stored-blobs history (text_row lower suffix b extractor t) db
      kept (fails extractor) = failure-blobs (ext.records b) b.sha256 db
      kept interrupted = transient-blobs (ext.records b) b.sha256 db

  run_blobs-blobs :
      (ext : Extractors) (claimed : ExtractDb) (batch : List Blob) (db : ExtractDb)
      → (run_blobs lower suffix cfg ext claimed batch db).blobs ≡ db.blobs
  unfolding run_blobs
  run_blobs-blobs ext claimed [] db = refl
  run_blobs-blobs ext claimed (b ∷ batch) db =
      let history = exists (attempts_of_sha b.sha256) claimed.transient in
      run_blobs-blobs ext claimed batch (run_blob lower suffix cfg ext history b db)
      ∙ run_blob-blobs ext history b db

  -- A batch that is not empty takes something from the budgets.
  pub run_blobs_less :
      (ext : Extractors) (db : ExtractDb) (batch : List Blob)
      → ((b : Blob) → ext.records b ≡ true)
      → All (λ b. HasShare db.blobs b × (can_claim cfg db b ≡ true)) batch
      → (batch ≡ []) ⊎ (all_left cfg (run_blobs lower suffix cfg ext db batch db) < all_left cfg db)
  unfolding run_blobs
  run_blobs_less ext db [] w h = inl refl
  run_blobs_less ext db (b ∷ batch) w ((counted, claimable), hs) =
      let history = exists (attempts_of_sha b.sha256) db.transient in
      let after = run_blob lower suffix cfg ext history b db in
      let end = run_blobs lower suffix cfg ext db batch after in
      let kept : end.blobs ≡ db.blobs =
        run_blobs-blobs ext db batch after ∙ run_blob-blobs ext history b db in
      let less : total (budget cfg end) db.blobs < total (budget cfg db) db.blobs =
        counted (budget cfg db) (budget cfg end)
          (λ s.
            omega
              (arith, run_blobs-budget ext db batch after s, run_blob-budget ext history b db s))
          (omega (
            arith,
            run_blobs-budget ext db batch after b.sha256,
            run_blob_less ext history b db claimable (w b),
          )) in
      inr (subst (λ rows. total (budget cfg end) rows < all_left cfg db) (sym kept) less)
