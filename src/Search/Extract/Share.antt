-- ===== src/Search/Extract/Share.antt =====
-- What each blob that a sweep claims counts for in a total over all of them.
use localmail.Common.{
  Bool-cases, ℕ, zero, suc, ◌+◌, ◌≤◌, ◌<◌, ◌≡◌, inl, inr, Bool, true, List, [], ◌∷◌, arith,
}
use localmail.Search.Extract.{
  Blob, claim_batch, ExtractConfig, ExtractDb, can_claim, order_by, seen_before,
}
use localmail.Common.Table.{select}
use localmail.Common.Lists.{All, All-mono, take}
use localmail.Keyset.{order_by}
use localmail.Keyset.Ordered.{order_by-All}
use localmail.Search.Extract.Budget.{budget}

abbrev pub total : (ℕ → ℕ) → List Blob → ℕ
total f [] = 0
total f (b ∷ rows) = f b.sha256 + total f rows

total_le : (f g : ℕ → ℕ) (rows : List Blob) → ((s : ℕ) → g s ≤ f s) → total g rows ≤ total f rows
total_le f g [] h = omega arith
total_le f g (b ∷ rows) h = omega (arith, h b.sha256, total_le f g rows h)

-- One of the rows, as its share of a total.
abbrev pub HasShare : List Blob → Blob → Type 0
HasShare rows b =
    (f g : ℕ → ℕ) → ((s : ℕ) → g s ≤ f s) → g b.sha256 < f b.sha256 → total g rows < total f rows

each-HasShare : (rows : List Blob) → All (HasShare rows) rows
each-HasShare [] = tt
each-HasShare (b ∷ rows) = (
  λ f g h k. omega (arith, total_le f g rows h),
  All-mono rows (λ c count_c f g h k. omega (arith, h b.sha256, count_c f g h k))
      (each-HasShare rows),
)

All-select :
    (P : Blob → Type 0) (p : Blob → Bool) (rows : List Blob)
    → All P rows
    → All (λ b. P b × (p b ≡ true)) (select p rows)
unfolding select
All-select P p [] h = tt
All-select P p (b ∷ rows) (h, hs) = elim (Bool-cases (p b)) [
  | inl e ↦ rw e ((h, e), All-select P p rows hs)
  | inr e ↦ rw e (All-select P p rows hs)
]

All-take : (P : Blob → Type 0) (n : ℕ) (rows : List Blob) → All P rows → All P (take n rows)
All-take P zero rows h = tt
All-take P (suc n) [] h = tt
All-take P (suc n) (b ∷ rows) (h, hs) = (h, All-take P n rows hs)

pub claim_batch-All :
    (cfg : ExtractConfig) (db : ExtractDb)
    → All (λ b. HasShare db.blobs b × (can_claim cfg db b ≡ true)) (claim_batch cfg db)
unfolding claim_batch
claim_batch-All cfg db =
    All-take _ cfg.batch_size (order_by seen_before (select (can_claim cfg db) db.blobs)) (
      order_by-All seen_before _ (select (can_claim cfg db) db.blobs)
        (All-select (HasShare db.blobs) (can_claim cfg db) db.blobs (each-HasShare db.blobs)))

abbrev pub all_left : ExtractConfig → ExtractDb → ℕ
all_left cfg db = total (budget cfg db) db.blobs
