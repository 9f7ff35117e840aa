-- ===== src/Search/Extract/Drains.antt =====
-- The worker of src/localmail/search/extract_worker.py gets to the end of its queue.
use mathlib.Core.Path.{subst}
use localmail.Search.Extract.Worker.{run_blobs, run_extract_worker_once}
use localmail.Common.{
  if◌then◌else◌, ℕ, zero, suc, ◌+◌, ◌≤◌, ◌<◌, ◌≡◌, inl, inr, Bool, true, false, List, [], ◌∷◌,
  arith, refl, ◌∙◌, ◌⊎◌, ◌*◌, ap, sym,
}
use localmail.Search.Extract.{Blob, claim_batch, ExtractConfig, ExtractDb, Extractors}
use localmail.Query.Text.{Text}
use localmail.Common.Lists.{length}
use localmail.Search.Extract.Budget.{budget, budget_of, has_text, failed_tries, transient_tries}
use localmail.Search.Extract.Share.{total, claim_batch-All, all_left}
use localmail.Search.Extract.Sweep.{run_blobs_less}

module _ (lower : Text → Text) (suffix : Text → Text) (cfg : ExtractConfig) where
  once-less :
      (ext : Extractors) (db : ExtractDb)
      → cfg.run_extract_worker ≡ true
      → ((b : Blob) → ext.records b ≡ true)
      → (claim_batch cfg db ≡ [])
        ⊎ (all_left cfg (run_extract_worker_once lower suffix cfg ext db) < all_left cfg db)
  unfolding run_extract_worker_once
  once-less ext db on w =
      let swept = run_blobs lower suffix cfg ext db (claim_batch cfg db) db in
      let e : run_extract_worker_once lower suffix cfg ext db ≡ swept =
        ap (λ x. if x then swept else db) on in
      subst (λ d. (claim_batch cfg db ≡ []) ⊎ (all_left cfg d < all_left cfg db)) (sym e)
        (run_blobs_less lower suffix cfg ext db (claim_batch cfg db) w (claim_batch-All cfg db))

  once-idle :
      (ext : Extractors) (db : ExtractDb)
      → claim_batch cfg db ≡ []
      → run_extract_worker_once lower suffix cfg ext db ≡ db
  unfolding run_extract_worker_once run_blobs
  once-idle ext db h =
      let swept : run_blobs lower suffix cfg ext db (claim_batch cfg db) db ≡ db =
        ap (λ batch. run_blobs lower suffix cfg ext db batch db) h in
      ap (λ d. if cfg.run_extract_worker then d else db) swept ∙ either cfg.run_extract_worker
    where
      either : (b : Bool) → (if b then db else db) ≡ db
      either true = refl
      either false = refl

  -- Some sweeps, each with answers of its own from the extractors.
  unfoldable pub sweeps : ℕ → (ℕ → Extractors) → ExtractDb → ExtractDb
  sweeps zero ext db = db
  sweeps (suc n) ext db =
      sweeps n (λ i. ext (suc i)) (run_extract_worker_once lower suffix cfg (ext 0) db)

  sweeps-idle :
      (n : ℕ) (ext : ℕ → Extractors) (db : ExtractDb)
      → claim_batch cfg db ≡ []
      → sweeps n ext db ≡ db
  unfolding sweeps
  sweeps-idle zero ext db h = refl
  sweeps-idle (suc n) ext db h = rw (once-idle (ext 0) db h) (sweeps-idle n (λ i. ext (suc i)) db h)

  drained :
      (n : ℕ) (ext : ℕ → Extractors) (db : ExtractDb)
      → cfg.run_extract_worker ≡ true
      → ((i : ℕ) (b : Blob) → (ext i).records b ≡ true)
      → all_left cfg db ≤ n
      → claim_batch cfg (sweeps n ext db) ≡ []
  unfolding sweeps
  drained zero ext db on w h = elim (once-less (ext 0) db on (w 0)) [
    | inl e ↦ e
    | inr less ↦ absurd (omega arith)
  ]
  drained (suc n) ext db on w h = elim (once-less (ext 0) db on (w 0)) [
    | inl e ↦
        rw (once-idle (ext 0) db e)
          (ap (claim_batch cfg) (sweeps-idle n (λ i. ext (suc i)) db e) ∙ e)
    | inr less ↦
        drained n (λ i. ext (suc i)) (run_extract_worker_once lower suffix cfg (ext 0) db) on
          (λ i b. w (suc i) b) (omega arith)
  ]

  -- The most that a queue can hold back the worker.
  abbrev pub most_sweeps : ExtractDb → ℕ
  most_sweeps db = length db.blobs * (cfg.max_retries + cfg.max_transient_retries + 2)

  total-bound :
      (db : ExtractDb) (rows : List Blob)
      → total (budget cfg db) rows ≤ length rows * (cfg.max_retries + cfg.max_transient_retries + 2)
  unfolding budget
  total-bound db [] = omega arith
  total-bound db (b ∷ rows) =
      let most = cfg.max_retries + cfg.max_transient_retries + 2 in
      let one : budget cfg db b.sha256 ≤ most =
        budget-bound (has_text db b.sha256) (failed_tries db b.sha256)
          (transient_tries db b.sha256) in
      omega (arith, total-bound db rows, one)
    where
      budget-bound :
          (t : Bool) (f x : ℕ)
          → budget_of cfg t f x ≤ cfg.max_retries + cfg.max_transient_retries + 2
      budget-bound true f x = omega arith
      budget-bound false f x = omega arith

  -- Whatever the extractors answer, sweep after sweep, the queue is drained: after as many sweeps as
  -- there are blobs, times both retry caps and two more, nothing is left to claim. The worker is
  -- switched on, and the row of a failure can be written.
  pub sweeps-claim_batch :
      (ext : ℕ → Extractors) (db : ExtractDb)
      → cfg.run_extract_worker ≡ true
      → ((i : ℕ) (b : Blob) → (ext i).records b ≡ true)
      → claim_batch cfg (sweeps (most_sweeps db) ext db) ≡ []
  sweeps-claim_batch ext db on w = drained (most_sweeps db) ext db on w (total-bound db db.blobs)
