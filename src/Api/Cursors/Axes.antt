-- ===== src/Api/Cursors/Axes.antt =====
-- The two axes of an ordering, each against what a request states: src/localmail/search/sort_axes.py.
use localmail.Keyset.{asc, desc, SortOrder}
use localmail.Api.Cursors.{text_walk, archive_walk, SortOrder, KeysetWalk}
use localmail.Api.Cursors.Plan.{
  by_rank, by_date, SortMode, or_default, sort_matches, order_matches, walk_continues, pool_pair,
  order_applies,
}
use localmail.Common.{◌≡◌, refl, true, false, Option, none, some}

-- A stated value is the one that is used.
abbrev pub IsStated {ℓ} : {A : Type ℓ} → Option A → A → Type ℓ
IsStated none y = Unit
IsStated (some x) y = x ≡ y

pub sort_matches-IsStated :
    (sort : Option SortMode) (m : SortMode) → sort_matches sort m ≡ true → IsStated sort m
sort_matches-IsStated none m h = tt
sort_matches-IsStated (some by_rank) by_rank h = refl
sort_matches-IsStated (some by_rank) by_date h = absurd (cc h)
sort_matches-IsStated (some by_date) by_rank h = absurd (cc h)
sort_matches-IsStated (some by_date) by_date h = refl

pub order_matches-IsStated :
    (order : Option SortOrder) (o : SortOrder) → order_matches order o ≡ true → IsStated order o
order_matches-IsStated none o h = tt
order_matches-IsStated (some asc) asc h = refl
order_matches-IsStated (some asc) desc h = absurd (cc h)
order_matches-IsStated (some desc) asc h = absurd (cc h)
order_matches-IsStated (some desc) desc h = refl

pub or_default-IsStated {ℓ} : {A : Type ℓ} (d : A) (o : Option A) → IsStated o (or_default d o)
or_default-IsStated d none = tt
or_default-IsStated d (some x) = refl

pub walk_continues-text :
    (k w : KeysetWalk) → walk_continues k w ≡ true → k ≡ text_walk → w ≡ text_walk
walk_continues-text text_walk text_walk h e = refl
walk_continues-text text_walk archive_walk h e = absurd (cc h)
walk_continues-text archive_walk text_walk h e = refl
walk_continues-text archive_walk archive_walk h e = e

pub pool_pair-order :
    (sort : Option SortMode) (order : Option SortOrder)
    → pool_pair sort order ≡ true
    → sort ≡ some by_rank
    → order ≡ some asc
    → ⊥
pool_pair-order none order h e d = cc e
pool_pair-order (some m) none h e d = cc d
pool_pair-order (some by_rank) (some asc) h e d = cc h
pool_pair-order (some by_rank) (some desc) h e d = cc d
pool_pair-order (some by_date) (some o) h e d = cc e

pub ranked_desc : (m : SortMode) (o : SortOrder) → order_applies m o ≡ true → m ≡ by_rank → o ≡ desc
ranked_desc by_rank asc h e = absurd (cc h)
ranked_desc by_rank desc h e = refl
ranked_desc by_date o h e = absurd (cc e)

pub ranked_asc :
    (m : SortMode) (order : Option SortOrder)
    → order_applies m (or_default desc order) ≡ false
    → (order ≡ some asc) × (m ≡ by_rank)
ranked_asc by_rank none h = absurd (cc h)
ranked_asc by_rank (some asc) h = (refl, refl)
ranked_asc by_rank (some desc) h = absurd (cc h)
ranked_asc by_date order h = absurd (cc h)

pub sort_conflict :
    (sort : Option SortMode) → sort_matches sort by_date ≡ false → sort ≡ some by_rank
sort_conflict none h = absurd (cc h)
sort_conflict (some by_rank) h = refl
sort_conflict (some by_date) h = absurd (cc h)

pub order_conflict :
    (order : Option SortOrder) (o : SortOrder)
    → order_matches order o ≡ false
    → (stated : SortOrder) × (order ≡ some stated) × (stated ≡ o → ⊥)
order_conflict none o h = absurd (cc h)
order_conflict (some asc) asc h = absurd (cc h)
order_conflict (some asc) desc h = (asc, refl, λ e. cc e)
order_conflict (some desc) asc h = (desc, refl, λ e. cc e)
order_conflict (some desc) desc h = absurd (cc h)

pub pool_conflict :
    (sort : Option SortMode) (order : Option SortOrder)
    → pool_pair sort order ≡ false
    → (sort ≡ some by_rank) × (order ≡ some asc)
pool_conflict none order h = absurd (cc h)
pool_conflict (some m) none h = absurd (cc h)
pool_conflict (some by_rank) (some asc) h = (refl, refl)
pool_conflict (some by_rank) (some desc) h = absurd (cc h)
pool_conflict (some by_date) (some o) h = absurd (cc h)
