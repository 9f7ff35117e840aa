-- ===== src/Search/PageCache.antt =====
-- src/localmail/search/page_cache.py: the entries in the order of the OrderedDict, the oldest first.
use text.Mathlib.TextPositions.{eq_refl}
use localmail.Common.{
  ℕ, if◌then◌else◌, str_eq, ltb, ◌≤◌, ◌<◌, String, ◌≡◌, Bool, false, Option, none, some, List, [],
  ◌∷◌, ◌++◌, arith, Bool-cases, Option-cases, refl, ap, inl, inr, true, str_eq_iff, is_some, ◌∙◌,
}
use localmail.Common.Int.{ℤ, diff_gt}
use localmail.Common.Table.{delete, find, exists, update, insert}
use localmail.Common.Lists.{length}
use localmail.Common.Table.Laws.{find_sound, find-delete-none, find-append, exists-insert}

-- Readings of the clock are in milliseconds. The check of the value's type is left out: the model's
-- values are of one type.

pub record Entry {ℓ} (V : Type ℓ) : Type ℓ where
  pub key : String
  pub stored_at : ℕ
  pub value : V

module _ {ℓ} {V : Type ℓ} where
  abbrev pub has_entry : String → Entry V → Bool
  has_entry key e = str_eq e.key key

  abbrev pub at_end : String → List (Entry V) → Option (Entry V) → List (Entry V)
  at_end key entries none = entries
  at_end key entries (some e) = delete (has_entry key) entries ++ e ∷ []

  unfoldable pub move_to_end : String → List (Entry V) → List (Entry V)
  move_to_end key entries = at_end key entries (find (has_entry key) entries)

  abbrev pub entry_of : String → ℕ → V → Entry V
  entry_of key now value = record { key = key; stored_at = now; value = value }

  abbrev pub set_value : ℕ → V → Entry V → Entry V
  set_value now value e = record e { stored_at = now; value = value }

  unfoldable pub assign : String → ℕ → V → List (Entry V) → List (Entry V)
  assign key now value entries =
      if exists (has_entry key) entries
      then update (has_entry key) (set_value now value) entries
      else insert (entry_of key now value) entries

  -- `while len(self._data) > self._maxsize: popitem(last=False)`
  unfoldable pub evict : ℕ → List (Entry V) → List (Entry V)
  evict maxsize [] = []
  evict maxsize (e ∷ entries) =
      let rest = evict maxsize entries in
      if ltb maxsize (length (e ∷ entries)) then rest else e ∷ entries

  unfoldable pub put : ℕ → ℕ → String → V → List (Entry V) → List (Entry V)
  put maxsize now key value entries = evict maxsize (
      assign key now value
        (if exists (has_entry key) entries then move_to_end key entries else entries))

  -- `none` is CacheMissError.
  abbrev pub got : ℤ → ℕ → String → List (Entry V) → Option (Entry V) → List (Entry V) × Option V
  got ttl now key entries none = (entries, none)
  got ttl now key entries (some e) =
      if diff_gt now e.stored_at ttl
      then (delete (has_entry key) entries, none)
      else (move_to_end key entries, some e.value)

  unfoldable pub get : ℤ → ℕ → String → List (Entry V) → List (Entry V) × Option V
  get ttl now key entries = got ttl now key entries (find (has_entry key) entries)

  unfoldable pub invalidate : String → List (Entry V) → List (Entry V)
  invalidate key entries = delete (has_entry key) entries

  length-evict : (maxsize : ℕ) (entries : List (Entry V)) → length (evict maxsize entries) ≤ maxsize
  unfolding evict
  length-evict maxsize [] = omega arith
  length-evict maxsize (e ∷ entries) = ground (arith, length-evict maxsize entries)

  evict-last :
      (maxsize : ℕ) (key : String) (entries : List (Entry V)) (e : Entry V)
      → 0 < maxsize
      → find (has_entry key) (entries ++ e ∷ []) ≡ some e
      → exists (has_entry key) entries ≡ false
      → find (has_entry key) (evict maxsize (entries ++ e ∷ [])) ≡ some e
  unfolding evict find
  evict-last maxsize key [] e positive found absent =
      let room : ltb maxsize 1 ≡ false = ground arith in rw room found
  evict-last maxsize key (x ∷ entries) e positive found absent =
      let other : has_entry key x ≡ false = ground arith in
      elim (Bool-cases (ltb maxsize (length (x ∷ entries ++ e ∷ [])))) [
        | inl full ↦ rw full (
            evict-last maxsize key entries e positive (ground (arith, found, other))
              (ground (arith, absent, other)))
        | inr room ↦ rw room found
      ]

  update-delete :
      (key : String) (f : Entry V → Entry V) (entries : List (Entry V)) (e : Entry V)
      → has_entry key e ≡ true
      → update (has_entry key) f (delete (has_entry key) entries ++ e ∷ [])
        ≡ delete (has_entry key) entries ++ f e ∷ []
  unfolding update delete
  update-delete key f [] e h = rw h refl
  update-delete key f (x ∷ entries) e h = elim (Bool-cases (has_entry key x)) [
    | inl same ↦ rw same (update-delete key f entries e h)
    | inr other ↦ rw (other, other) (ap (◌∷◌ x) (update-delete key f entries e h))
  ]

  delete_absent :
      (key : String) (entries : List (Entry V))
      → exists (has_entry key) entries ≡ false
      → delete (has_entry key) entries ≡ entries
  unfolding delete find
  delete_absent key [] h = refl
  delete_absent key (x ∷ entries) h =
      let other : has_entry key x ≡ false = ground arith in
      rw other (ap (◌∷◌ x) (delete_absent key entries (ground (arith, h, other))))

  -- A put leaves the other entries in order, then the new one, less the oldest ones in excess.
  put-evict :
      (maxsize now : ℕ) (key : String) (value : V) (entries : List (Entry V))
      → put maxsize now key value entries
        ≡ evict maxsize (delete (has_entry key) entries ++ entry_of key now value ∷ [])
  unfolding put assign move_to_end
  put-evict maxsize now key value entries = elim (Option-cases (find (has_entry key) entries)) [
    | inl none_there ↦
        rw (none_there, none_there, delete_absent key entries (ap is_some none_there)) refl
    | inr (e, there) ↦
        let same = find_sound (has_entry key) entries e there in
        rw
          (
            there,
            exists-insert (has_entry key) e (delete (has_entry key) entries) same,
            update-delete key (set_value now value) entries e same,
          )
          (ap (λ k. evict maxsize (delete (has_entry key) entries ++ entry_of k now value ∷ []))
            ((str_eq_iff e.key key).0 same))
  ]

  find-put :
      (maxsize now : ℕ) (key : String) (value : V) (entries : List (Entry V))
      → 0 < maxsize
      → find (has_entry key) (put maxsize now key value entries) ≡ some (entry_of key now value)
  unfolding find
  find-put maxsize now key value entries positive =
      let new = entry_of key now value in
      let gone = find-delete-none (has_entry key) (has_entry key) entries (λ x h. h) in
      ap (find (has_entry key)) (put-evict maxsize now key value entries)
      ∙ evict-last maxsize key (delete (has_entry key) entries) new positive
          (rw
            (
              find-append (has_entry key) (delete (has_entry key) entries) (new ∷ []),
              gone,
              eq_refl key,
            )
            refl)
          (ap is_some gone)

  find_moved :
      (key : String) (entries : List (Entry V)) (e : Entry V)
      → has_entry key e ≡ true
      → find (has_entry key) (at_end key entries (some e)) ≡ some e
  unfolding find
  find_moved key entries e h =
      rw
        (
          find-append (has_entry key) (delete (has_entry key) entries) (e ∷ []),
          find-delete-none (has_entry key) (has_entry key) entries (λ x k. k),
          h,
        )
        refl

  -- After a put the cache is within its size, whatever it held, and a get of that key at any later
  -- moment returns the value that was put, unless more than the lifetime has passed: then it is a
  -- miss, and a further get is a miss at every moment. The size is not 0.
  pub get-put :
      (maxsize now later last : ℕ) (ttl : ℤ) (key : String) (value : V) (entries : List (Entry V))
      → 0 < maxsize
      → (length (put maxsize now key value entries) ≤ maxsize)
        × ((get ttl later key (put maxsize now key value entries)).1
            ≡ (if diff_gt later now ttl then none else some value))
        × ((get ttl last key (get ttl later key (put maxsize now key value entries)).0).1 ≡ (
            if diff_gt later now ttl
            then none
            else (if diff_gt last now ttl then none else some value)))
  unfolding get move_to_end
  get-put maxsize now later last ttl key value entries positive =
      let kept = put maxsize now key value entries in
      let new = entry_of key now value in
      let found = find-put maxsize now key value entries positive in
      (
        rw (put-evict maxsize now key value entries)
            (length-evict maxsize (delete (has_entry key) entries ++ new ∷ [])),
        elim (Bool-cases (diff_gt later now ttl)) [
          | inl old ↦ rw (found, old) refl
          | inr young ↦ rw (found, young) refl
        ],
        elim (Bool-cases (diff_gt later now ttl)) [
          | inl old ↦
              rw (found, old, find-delete-none (has_entry key) (has_entry key) kept (λ x h. h)) refl
          | inr young ↦
              let moved : find (has_entry key) (move_to_end key kept) ≡ some new =
                ap (λ o. find (has_entry key) (at_end key kept o)) found
                ∙ find_moved key kept new (eq_refl key) in
              elim (Bool-cases (diff_gt last now ttl)) [
                | inl old ↦ rw (found, young, moved, old) refl
                | inr fresh ↦ rw (found, young, moved, fresh) refl
              ]
        ],
      )
