-- ===== src/Sync/Order.antt =====
-- The order in which `sync_mailbox` takes the UIDs: `_filter_new_uids`, `sorted` and `_batches` of
-- src/localmail/sync.py.
pub mod Laws
use localmail.Common.{leb, if◌then◌else◌, ℕ, zero, suc, Option, none, some, List, [], ◌∷◌}
use localmail.Common.Lists.{take, length, drop}
use localmail.Common.Table.{select}

-- `_batches`, with the number of items as fuel: each round takes at least one.
unfoldable pub batches_fuel : ℕ → List ℕ → ℕ → List (List ℕ)
batches_fuel fuel [] size = []
batches_fuel zero (u ∷ items) size = []
batches_fuel (suc fuel) (u ∷ items) size =
    take size (u ∷ items) ∷ batches_fuel fuel (drop size (u ∷ items)) size

unfoldable pub batches : List ℕ → ℕ → List (List ℕ)
unfolding batches_fuel
batches items size = batches_fuel (length items) items size

-- Python's `sorted`.
unfoldable pub insert_sorted : ℕ → List ℕ → List ℕ
insert_sorted u [] = u ∷ []
insert_sorted u (v ∷ uids) = if leb u v then u ∷ v ∷ uids else v ∷ insert_sorted u uids

unfoldable pub sorted : List ℕ → List ℕ
unfolding insert_sorted
sorted [] = []
sorted (u ∷ uids) = insert_sorted u (sorted uids)

unfoldable pub filter_new_uids : List ℕ → Option ℕ → List ℕ
unfolding sorted
filter_new_uids uids none = sorted uids
filter_new_uids uids (some known) = sorted (select (λ u. leb known u) uids)
