-- ===== src/Daemon/Reconcile.antt =====
-- src/localmail/daemon_reconcile.py, and the loops of `reconcile` in src/localmail/daemon.py that
-- carry its plan out. A dict is the list of its entries; a moment is a number.
use localmail.Common.{
  ℕ, ◌==◌, ◌≡◌, Bool, false, not, ◌&&◌, ◌||◌, Option, none, some, is_some, List, [], ◌∷◌, refl, ap,
  ◌∙◌, arith, if◌then◌else◌, inl, inr, Bool-cases, Option-cases,
}
use localmail.Common.Table.{find, delete, insert, select}
use localmail.Sync.Order.{sorted, insert_sorted}

pub record Fingerprint : Type 0 where
  pub account_id : ℕ
  pub updated_at : ℕ

pub record ReconcilePlan : Type 0 where
  pub to_spawn : List ℕ
  pub to_teardown : List ℕ
  pub to_respawn : List ℕ

abbrev pub is_at : ℕ → Fingerprint → Bool
is_at account_id f = f.account_id == account_id

abbrev pub updated : Option Fingerprint → Option ℕ
updated none = none
updated (some f) = some f.updated_at

-- dict.get
abbrev pub fingerprint_of : ℕ → List Fingerprint → Option ℕ
fingerprint_of account_id entries = updated (find (is_at account_id) entries)

unfoldable pub keys : List Fingerprint → List ℕ
keys [] = []
keys (f ∷ entries) = f.account_id ∷ keys entries

abbrev pub differs : Option ℕ → Option ℕ → Bool
differs (some t) (some u) = not (t == u)
differs (some t) none = false
differs none u = false

unfoldable pub plan_reconcile : List Fingerprint → List Fingerprint → ReconcilePlan
plan_reconcile running desired = record {
  to_spawn = sorted (select (λ i. not (is_some (fingerprint_of i running))) (keys desired));
  to_teardown = sorted (select (λ i. not (is_some (fingerprint_of i desired))) (keys running));
  to_respawn =
      sorted (
        select (λ i. differs (fingerprint_of i running) (fingerprint_of i desired)) (keys running));
}

-- `_teardown_account`
abbrev pub teardown : ℕ → List Fingerprint → List Fingerprint
teardown account_id entries = delete (is_at account_id) entries

abbrev pub assign : ℕ → Option ℕ → List Fingerprint → List Fingerprint
assign account_id none entries = entries
assign account_id (some t) entries =
    insert (record { account_id = account_id; updated_at = t }) (delete (is_at account_id) entries)

-- `_spawn_account` with the row that was read from the database
abbrev pub spawn : List Fingerprint → ℕ → List Fingerprint → List Fingerprint
spawn desired account_id entries = assign account_id (fingerprint_of account_id desired) entries

unfoldable pub teardown_each : List ℕ → List Fingerprint → List Fingerprint
teardown_each [] entries = entries
teardown_each (i ∷ ids) entries = teardown_each ids (teardown i entries)

unfoldable pub spawn_each : List Fingerprint → List ℕ → List Fingerprint → List Fingerprint
spawn_each desired [] entries = entries
spawn_each desired (i ∷ ids) entries = spawn_each desired ids (spawn desired i entries)

unfoldable pub respawn_each : List Fingerprint → List ℕ → List Fingerprint → List Fingerprint
respawn_each desired [] entries = entries
respawn_each desired (i ∷ ids) entries =
    respawn_each desired ids (spawn desired i (teardown i entries))

unfoldable pub reconcile : List Fingerprint → List Fingerprint → List Fingerprint
reconcile running desired =
    let plan = plan_reconcile running desired in
    spawn_each desired plan.to_spawn
      (respawn_each desired plan.to_respawn (teardown_each plan.to_teardown running))

abbrev pub mem : ℕ → List ℕ → Bool
mem i [] = false
mem i (j ∷ ids) = (j == i) || mem i ids

mem-insert_sorted : (i j : ℕ) (ids : List ℕ) → mem i (insert_sorted j ids) ≡ (j == i) || mem i ids
unfolding insert_sorted
mem-insert_sorted i j [] = refl
mem-insert_sorted i j (k ∷ ids) = ground (arith, mem-insert_sorted i j ids)

pub mem-sorted : (i : ℕ) (ids : List ℕ) → mem i (sorted ids) ≡ mem i ids
unfolding sorted
mem-sorted i [] = refl
mem-sorted i (j ∷ ids) = ground (arith, mem-insert_sorted i j (sorted ids), mem-sorted i ids)

pub mem-select : (p : ℕ → Bool) (i : ℕ) (ids : List ℕ) → mem i (select p ids) ≡ mem i ids && p i
unfolding select
mem-select p i [] = refl
mem-select p i (j ∷ ids) = elim (Bool-cases (j == i)) [
  | inl e ↦ let same : j ≡ i = ground arith in ground (arith, ap p same, mem-select p i ids)
  | inr e ↦ ground (arith, mem-select p i ids)
]

mem-keys :
    (i : ℕ) (entries : List Fingerprint) → mem i (keys entries) ≡ is_some (fingerprint_of i entries)
unfolding keys find
mem-keys i [] = refl
mem-keys i (f ∷ entries) = ground (arith, mem-keys i entries)

fingerprint_of-teardown :
    (i j : ℕ) (entries : List Fingerprint)
    → fingerprint_of i (teardown j entries) ≡ (if j == i then none else fingerprint_of i entries)
unfolding find delete
fingerprint_of-teardown i j [] = ground arith
fingerprint_of-teardown i j (f ∷ entries) = ground (arith, fingerprint_of-teardown i j entries)

fingerprint_of-insert :
    (i j t : ℕ) (entries : List Fingerprint)
    → fingerprint_of i (insert (record { account_id = j; updated_at = t }) entries) ≡ (
        if is_some (fingerprint_of i entries)
        then fingerprint_of i entries
        else if j == i
        then some t
        else none)
unfolding find
fingerprint_of-insert i j t [] = ground arith
fingerprint_of-insert i j t (f ∷ entries) = ground (arith, fingerprint_of-insert i j t entries)

fingerprint_of-assign :
    (i j : ℕ) (o : Option ℕ) (entries : List Fingerprint)
    → fingerprint_of i (assign j o entries)
      ≡ (if (j == i) && is_some o then o else fingerprint_of i entries)
fingerprint_of-assign i j none entries = ground arith
fingerprint_of-assign i j (some t) entries = ground (
  arith,
  fingerprint_of-insert i j t (delete (is_at j) entries),
  fingerprint_of-teardown i j entries,
)

-- The entry of an account that is desired becomes the desired one.
fingerprint_of-spawn :
    (desired : List Fingerprint) (i j : ℕ) (entries : List Fingerprint)
    → fingerprint_of i (spawn desired j entries) ≡ (
        if (j == i) && is_some (fingerprint_of i desired)
        then fingerprint_of i desired
        else fingerprint_of i entries)
fingerprint_of-spawn desired i j entries = elim (Bool-cases (j == i)) [
  | inl e ↦
      let same : j ≡ i = ground arith in
      fingerprint_of-assign i j (fingerprint_of j desired) entries ∙ rw (e, same) refl
  | inr e ↦ fingerprint_of-assign i j (fingerprint_of j desired) entries ∙ rw e refl
]

fingerprint_of-teardown_each :
    (i : ℕ) (ids : List ℕ) (entries : List Fingerprint)
    → fingerprint_of i (teardown_each ids entries)
      ≡ (if mem i ids then none else fingerprint_of i entries)
unfolding teardown_each
fingerprint_of-teardown_each i [] entries = refl
fingerprint_of-teardown_each i (j ∷ ids) entries = ground (
  arith,
  fingerprint_of-teardown_each i ids (teardown j entries),
  fingerprint_of-teardown i j entries,
)

fingerprint_of-spawn_each :
    (desired : List Fingerprint) (i : ℕ) (ids : List ℕ) (entries : List Fingerprint)
    → fingerprint_of i (spawn_each desired ids entries) ≡ (
        if mem i ids && is_some (fingerprint_of i desired)
        then fingerprint_of i desired
        else fingerprint_of i entries)
unfolding spawn_each
fingerprint_of-spawn_each desired i [] entries = refl
fingerprint_of-spawn_each desired i (j ∷ ids) entries = ground (
  arith,
  fingerprint_of-spawn_each desired i ids (spawn desired j entries),
  fingerprint_of-spawn desired i j entries,
)

fingerprint_of-respawn_each :
    (desired : List Fingerprint) (i : ℕ) (ids : List ℕ) (entries : List Fingerprint)
    → fingerprint_of i (respawn_each desired ids entries)
      ≡ (if mem i ids then fingerprint_of i desired else fingerprint_of i entries)
unfolding respawn_each
fingerprint_of-respawn_each desired i [] entries = refl
fingerprint_of-respawn_each desired i (j ∷ ids) entries =
    elim (Option-cases (fingerprint_of i desired)) [
      | inl e ↦ ground (
        arith,
        e,
        fingerprint_of-respawn_each desired i ids (spawn desired j (teardown j entries)),
        fingerprint_of-spawn desired i j (teardown j entries),
        fingerprint_of-teardown i j entries,
      )
      | inr (t, e) ↦ ground (
        arith,
        e,
        fingerprint_of-respawn_each desired i ids (spawn desired j (teardown j entries)),
        fingerprint_of-spawn desired i j (teardown j entries),
        fingerprint_of-teardown i j entries,
      )
    ]

planned :
    (p : ℕ → Bool) (i : ℕ) (entries : List Fingerprint)
    → mem i (sorted (select p (keys entries))) ≡ is_some (fingerprint_of i entries) && p i
planned p i entries =
    mem-sorted i (select p (keys entries))
    ∙ mem-select p i (keys entries)
    ∙ ap (λ b. b && p i) (mem-keys i entries)

-- What the three loops leave for an account, from what it had and what is wanted.
converged :
    (r d : Option ℕ)
    → (if (is_some d && not (is_some r)) && is_some d
        then d
        else if is_some r && differs r d
        then d
        else if is_some r && not (is_some d)
        then none
        else r)
      ≡ d
converged none none = refl
converged none (some u) = refl
converged (some t) none = refl
converged (some t) (some u) = elim (Bool-cases (t == u)) [
  | inl e ↦ let same : t ≡ u = ground arith in rw e (ap some same)
  | inr e ↦ rw e refl
]

-- Carrying out the plan of a reconcile leaves every account with the fingerprint that is desired,
-- and no account that is not desired, where the database and the threads do not fail.
pub reconcile-fingerprint_of :
    (running desired : List Fingerprint) (account_id : ℕ)
    → fingerprint_of account_id (reconcile running desired) ≡ fingerprint_of account_id desired
unfolding reconcile plan_reconcile
reconcile-fingerprint_of running desired i =
    let down = sorted (select (λ i. not (is_some (fingerprint_of i desired))) (keys running)) in
    let again = sorted (
      select (λ i. differs (fingerprint_of i running) (fingerprint_of i desired)) (keys running)) in
    let up = sorted (select (λ i. not (is_some (fingerprint_of i running))) (keys desired)) in
    fingerprint_of-spawn_each desired i up (respawn_each desired again (teardown_each down running))
    ∙ rw
        (
          fingerprint_of-respawn_each desired i again (teardown_each down running),
          fingerprint_of-teardown_each i down running,
          planned (λ i. not (is_some (fingerprint_of i desired))) i running,
          planned (λ i. differs (fingerprint_of i running) (fingerprint_of i desired)) i running,
          planned (λ i. not (is_some (fingerprint_of i running))) i desired,
        )
        (converged (fingerprint_of i running) (fingerprint_of i desired))
