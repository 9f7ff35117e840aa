-- ===== src/Sync/Holds/Rewind.antt =====
-- `plan_uidnext_rewind`: the rewind reaches every tombstone below the watermark, and never moves a
-- watermark forward.
use localmail.Common.{
  ltb, ◌==◌, if◌then◌else◌, ℕ, ◌≡◌, refl, Option, none, some, List, [], ◌∷◌, arith, is_some,
  Bool-cases, ◌≤◌, ◌∙◌, inl, inr, Bool, false, ==_iff, ◌<◌, sym, ap, ◌⊎◌, true, ◌&&◌,
}
use localmail.Common.Table.{find, select, exists}
use localmail.Sync.Holds.{note_lowest, lowest_of, plan_uidnext_rewind, moves_back}
use localmail.Common.Table.Laws.{find_sound}

abbrev pub find_entry : List (ℕ × ℕ) → ℕ → Option (ℕ × ℕ)
find_entry entries m = find (λ e. e.0 == m) entries

-- The lowest UID of a mailbox among tombstones.
abbrev pub lower : Option ℕ → ℕ → Option ℕ
lower none u = some u
lower (some v) u = some (if ltb u v then u else v)

unfoldable pub lowest_uid : List (ℕ × ℕ) → ℕ → Option ℕ → Option ℕ
lowest_uid [] m acc = acc
lowest_uid ((m', u) ∷ tombstones) m acc =
    lowest_uid tombstones m (if m' == m then lower acc u else acc)

abbrev pub uid_of : Option (ℕ × ℕ) → Option ℕ
uid_of none = none
uid_of (some e) = some e.1

note_lowest-uid :
    (entries : List (ℕ × ℕ)) (m m' u : ℕ)
    → uid_of (find_entry (note_lowest entries m' u) m)
      ≡ (if m' == m then lower (uid_of (find_entry entries m)) u else uid_of (find_entry entries m))
unfolding note_lowest find
note_lowest-uid [] m m' u = ground arith
note_lowest-uid ((k, v) ∷ entries) m m' u = ground (arith, note_lowest-uid entries m m' u)

-- The keys of a dict are distinct.
abbrev Distinct : List (ℕ × ℕ) → Type 0
Distinct [] = Unit
Distinct (e ∷ entries) = (find_entry entries e.0 ≡ none) × Distinct entries

find-note_lowest_ne :
    (entries : List (ℕ × ℕ)) (m m' u : ℕ)
    → (m' == m) ≡ false
    → find_entry (note_lowest entries m' u) m ≡ find_entry entries m
unfolding note_lowest find
find-note_lowest_ne [] m m' u h = ground arith
find-note_lowest_ne ((k, v) ∷ entries) m m' u h = ground (arith, find-note_lowest_ne entries m m' u)

note_lowest-Distinct :
    (entries : List (ℕ × ℕ)) (m u : ℕ) → Distinct entries → Distinct (note_lowest entries m u)
unfolding note_lowest find
note_lowest-Distinct [] m u h = (refl, tt)
note_lowest-Distinct ((k, v) ∷ entries) m u h = elim (Bool-cases (k == m)) [
  | inl same ↦ rw same h
  | inr other ↦
      rw other (
        find-note_lowest_ne entries k m u (ground arith) ∙ h.0,
        note_lowest-Distinct entries m u h.1,
      )
]

lowest_of-Distinct :
    (tombstones : List (ℕ × ℕ)) (current : ℕ → Option ℕ) (lowest : List (ℕ × ℕ))
    → Distinct lowest
    → Distinct (lowest_of tombstones current lowest)
unfolding lowest_of
lowest_of-Distinct [] current lowest h = h
lowest_of-Distinct ((m, u) ∷ tombstones) current lowest h =
    elim (Bool-cases (is_some (current m))) [
      | inl known ↦ rw known (
          lowest_of-Distinct tombstones current (note_lowest lowest m u)
            (note_lowest-Distinct lowest m u h))
      | inr gone ↦ rw gone (lowest_of-Distinct tombstones current lowest h)
    ]

abbrev keep_if : (ℕ × ℕ → Bool) → Option (ℕ × ℕ) → Option (ℕ × ℕ)
keep_if p none = none
keep_if p (some e) = if p e then some e else none

find-select-none :
    (p q : ℕ × ℕ → Bool) (entries : List (ℕ × ℕ))
    → find p entries ≡ none
    → find p (select q entries) ≡ none
unfolding find select
find-select-none p q [] h = refl
find-select-none p q (e ∷ entries) h = ground (arith, find-select-none p q entries)

find-select-Distinct :
    (q : ℕ × ℕ → Bool) (entries : List (ℕ × ℕ)) (m : ℕ)
    → Distinct entries
    → find_entry (select q entries) m ≡ keep_if q (find_entry entries m)
unfolding find select
find-select-Distinct q [] m h = refl
find-select-Distinct q (e ∷ entries) m h = elim (Bool-cases (e.0 == m)) [
  | inl same ↦
      let gone : find_entry entries m ≡ none =
        ap (find_entry entries) (sym ((==_iff e.0 m).0 same)) ∙ h.0 in
      ground (arith, same, find-select-none (λ r. r.0 == m) q entries gone)
  | inr other ↦ ground (arith, other, find-select-Distinct q entries m h.1)
]

lowest_step :
    (current : ℕ → Option ℕ) (lowest : List (ℕ × ℕ)) (m next m' u : ℕ)
    → current m ≡ some next
    → uid_of (find_entry (if is_some (current m') then note_lowest lowest m' u else lowest) m)
      ≡ (if m' == m then lower (uid_of (find_entry lowest m)) u else uid_of (find_entry lowest m))
lowest_step current lowest m next m' u e = elim (Bool-cases (is_some (current m'))) [
  | inl known ↦ rw known (note_lowest-uid lowest m m' u)
  | inr gone ↦ rw gone (ground arith)
]

-- `lowest` holds, for each mailbox with a watermark, the lowest UID of its tombstones.
lowest_of-uid :
    (tombstones : List (ℕ × ℕ)) (current : ℕ → Option ℕ) (lowest : List (ℕ × ℕ)) (m next : ℕ)
    → current m ≡ some next
    → uid_of (find_entry (lowest_of tombstones current lowest) m)
      ≡ lowest_uid tombstones m (uid_of (find_entry lowest m))
unfolding lowest_of lowest_uid
lowest_of-uid [] current lowest m next e = refl
lowest_of-uid ((m', u) ∷ tombstones) current lowest m next e =
    lowest_of-uid tombstones current _ m next e
    ∙ ap (lowest_uid tombstones m) (lowest_step current lowest m next m' u e)

-- The lowest UID is at most the one before, and at most that of each tombstone.
lowest_uid-le :
    (tombstones : List (ℕ × ℕ)) (m w : ℕ)
    → (v : ℕ) × (lowest_uid tombstones m (some w) ≡ some v) × (v ≤ w)
unfolding lowest_uid
lowest_uid-le [] m w = (w, refl, omega arith)
lowest_uid-le ((m', u) ∷ tombstones) m w = elim (Bool-cases (m' == m && ltb u w)) [
  | inl less ↦
      let (v, e, le) = lowest_uid-le tombstones m u in
      (v, ap (lowest_uid tombstones m) (ground arith) ∙ e, ground arith)
  | inr more ↦
      let (v, e, le) = lowest_uid-le tombstones m w in
      (v, ap (lowest_uid tombstones m) (ground arith) ∙ e, le)
]

-- A pair of a mailbox and a UID is among the tombstones.
abbrev pub is_at : ℕ → ℕ → ℕ × ℕ → Bool
is_at m u t = t.0 == m && t.1 == u

lowest_uid-reaches :
    (tombstones : List (ℕ × ℕ)) (m u : ℕ) (acc : Option ℕ)
    → exists (is_at m u) tombstones ≡ true
    → (v : ℕ) × (lowest_uid tombstones m acc ≡ some v) × (v ≤ u)
unfolding lowest_uid find
lowest_uid-reaches [] m u acc h = cc
lowest_uid-reaches (t ∷ tombstones) m u acc h = elim (Bool-cases (is_at m u t)) [
  | inr other ↦
      let (v, e, le) =
        lowest_uid-reaches tombstones m u (if t.0 == m then lower acc t.1 else acc)
          (ground arith) in
      (v, e, le)
  | inl same ↦
      let w : ℕ = elim acc [ none ↦ u | some x ↦ if ltb u x then u else x ] in
      let (v, e, le) = lowest_uid-le tombstones m w in
      (v, ap (lowest_uid tombstones m) (ground arith) ∙ e, ground arith)
]

lowest_uid_sound :
    (tombstones : List (ℕ × ℕ)) (m v : ℕ) (acc : Option ℕ)
    → lowest_uid tombstones m acc ≡ some v
    → (acc ≡ some v) ⊎ (exists (is_at m v) tombstones ≡ true)
unfolding lowest_uid find
lowest_uid_sound [] m v acc h = inl h
lowest_uid_sound (t ∷ tombstones) m v acc h =
    ground (arith, lowest_uid_sound tombstones m v (if t.0 == m then lower acc t.1 else acc))

kept_entry :
    (current : ℕ → Option ℕ) (o : Option (ℕ × ℕ)) (m v next : ℕ)
    → ((r : ℕ × ℕ) → o ≡ some r → (r.0 == m) ≡ true)
    → current m ≡ some next
    → uid_of o ≡ some v
    → v < next
    → uid_of (keep_if (moves_back current) o) ≡ some v
kept_entry current none m v next at e h less = h
kept_entry current (some r) m v next at e h less =
    let known : current r.0 ≡ some next = ap current ((==_iff r.0 m).0 (at r refl)) ∙ e in
    ground (arith, known)

-- A mailbox with a watermark and a tombstone below it is in the plan: its new watermark is the UID
-- of a tombstone of that mailbox, at most the UID of the given tombstone, and below the old
-- watermark.
pub plan_uidnext_rewind_reaches :
    (tombstones : List (ℕ × ℕ)) (current : ℕ → Option ℕ) (m u next : ℕ)
    → current m ≡ some next
    → exists (is_at m u) tombstones ≡ true
    → u < next
    → (v : ℕ) × (uid_of (find_entry (plan_uidnext_rewind tombstones current) m) ≡ some v)
      × (exists (is_at m v) tombstones ≡ true)
      × (v ≤ u)
      × (v < next)
unfolding plan_uidnext_rewind find
plan_uidnext_rewind_reaches tombstones current m u next e h less =
    let (v, low, le) = lowest_uid-reaches tombstones m u none h in
    let dict = lowest_of tombstones current [] in
    let lowest = lowest_of-uid tombstones current [] m next e ∙ low in
    let distinct =
      find-select-Distinct (moves_back current) dict m
        (lowest_of-Distinct tombstones current [] tt) in
    (
      v,
      ap uid_of distinct
          ∙ kept_entry current (find_entry dict m) m v next (find_sound _ dict) e lowest
              (omega arith),
      ground (arith, lowest_uid_sound tombstones m v none),
      le,
      omega arith,
    )
