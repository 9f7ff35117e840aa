-- ===== src/Sync/Order/Laws.antt =====
-- `sorted` orders a list and loses nothing; the batches are the list again, each within the size.
use mathlib.Core.Path.{subst}
use localmail.Common.{
  leb→le, Bool-cases, leb, ℕ, zero, suc, ◌≤◌, ◌<◌, ◌≡◌, refl, ap, ◌∙◌, inl, inr, List, [], ◌∷◌,
  ◌++◌, arith, ==_iff, ◌==◌, Bool, true, some,
}
use localmail.Common.Lists.{All, All-mono, take, length, drop, length-drop, take-append-drop}
use localmail.Sync.Order.{insert_sorted, sorted, batches_fuel, batches, select, filter_new_uids}
use localmail.Common.Table.{find, select, exists}

-- Each entry is at most every later one.
abbrev pub Ascending : List ℕ → Type 0
Ascending [] = Unit
Ascending (u ∷ uids) = All (λ v. u ≤ v) uids × Ascending uids

unfoldable pub concat : List (List ℕ) → List ℕ
concat [] = []
concat (chunk ∷ chunks) = chunk ++ concat chunks

insert_sorted-All :
    (P : ℕ → Type 0) (u : ℕ) (uids : List ℕ) → P u → All P uids → All P (insert_sorted u uids)
unfolding insert_sorted
insert_sorted-All P u [] h k = (h, tt)
insert_sorted-All P u (v ∷ uids) h k = elim (Bool-cases (leb u v)) [
  | inl le ↦ rw le (h, k)
  | inr gt ↦ rw gt (k.0, insert_sorted-All P u uids h k.1)
]

insert_sorted-Ascending :
    (u : ℕ) (uids : List ℕ) → Ascending uids → Ascending (insert_sorted u uids)
unfolding insert_sorted
insert_sorted-Ascending u [] h = (tt, tt)
insert_sorted-Ascending u (v ∷ uids) h = elim (Bool-cases (leb u v)) [
  | inl le ↦ rw le ((leb→le u v le, All-mono uids (λ x k. omega (arith, leb→le u v le)) h.0), h)
  | inr gt ↦
      rw gt (
        insert_sorted-All (λ x. v ≤ x) u uids (ground arith) h.0,
        insert_sorted-Ascending u uids h.1,
      )
]

pub sorted-Ascending : (uids : List ℕ) → Ascending (sorted uids)
unfolding sorted
sorted-Ascending [] = tt
sorted-Ascending (u ∷ uids) = insert_sorted-Ascending u (sorted uids) (sorted-Ascending uids)

pub sorted-All : (P : ℕ → Type 0) (uids : List ℕ) → All P uids → All P (sorted uids)
unfolding sorted
sorted-All P [] h = tt
sorted-All P (u ∷ uids) h = insert_sorted-All P u (sorted uids) h.0 (sorted-All P uids h.1)

take-All : (P : ℕ → Type 0) (n : ℕ) (uids : List ℕ) → All P uids → All P (take n uids)
take-All P zero uids h = tt
take-All P (suc n) [] h = tt
take-All P (suc n) (u ∷ uids) h = (h.0, take-All P n uids h.1)

concat-batches_fuel :
    (fuel : ℕ) (uids : List ℕ) (size : ℕ)
    → length uids ≤ fuel
    → 0 < size
    → concat (batches_fuel fuel uids size) ≡ uids
unfolding batches_fuel concat
concat-batches_fuel fuel [] size h k = refl
concat-batches_fuel zero (u ∷ uids) size h k = absurd (omega arith)
concat-batches_fuel (suc fuel) (u ∷ uids) size h k =
    ap (◌++◌ (take size (u ∷ uids))) (
      concat-batches_fuel fuel (drop size (u ∷ uids)) size
        (omega (arith, length-drop size (u ∷ uids))) k)
    ∙ take-append-drop size (u ∷ uids)

-- The batches hold every item, in order.
pub concat-batches : (uids : List ℕ) (size : ℕ) → 0 < size → concat (batches uids size) ≡ uids
unfolding batches
concat-batches uids size h = concat-batches_fuel (length uids) uids size (omega arith) h

-- An entry has what all entries have.
pub All-entry :
    (P : ℕ → Type 0) (u : ℕ) (uids : List ℕ) → All P uids → exists (λ v. v == u) uids ≡ true → P u
unfolding find
All-entry P u [] h e = cc
All-entry P u (v ∷ uids) h e = elim (Bool-cases (v == u)) [
  | inl same ↦ subst P ((==_iff v u).0 same) h.0
  | inr other ↦ All-entry P u uids h.1 (ground arith)
]

select-All : (q : ℕ → Bool) (uids : List ℕ) → All (λ v. q v ≡ true) (select q uids)
unfolding select
select-All q [] = tt
select-All q (v ∷ uids) = elim (Bool-cases (q v)) [
  | inl fits ↦ rw fits (fits, select-All q uids)
  | inr other ↦ rw other (select-All q uids)
]

-- What `_filter_new_uids` lets through is at least the known watermark, in ascending order.
pub filter_new_uids-Ascending :
    (uids : List ℕ) (known : ℕ)
    → Ascending (filter_new_uids uids (some known))
      × All (λ v. known ≤ v) (filter_new_uids uids (some known))
unfolding filter_new_uids
filter_new_uids-Ascending uids known = (
  sorted-Ascending (select (λ u. leb known u) uids),
  sorted-All (λ v. known ≤ v) (select (λ u. leb known u) uids)
      (All-mono (select (λ u. leb known u) uids) (λ v h. leb→le known v h)
        (select-All (λ u. leb known u) uids)),
)
