-- ===== src/Common/Table/Laws.antt =====
-- What a read sees after a write.
use localmail.Common.{
  ◌+◌, ◌≡◌, refl, Bool, true, false, Option, none, some, List, [], ◌∷◌, ◌++◌, arith, if◌then◌else◌,
  ◌≤◌,
}
use localmail.Common.Lists.{length}
use localmail.Common.Table.{select, find, exists, delete, update, count, insert}

module _ {ℓ} {A : Type ℓ} where
  abbrev pub apply_if : (A → Bool) → (A → A) → Option A → Option A
  apply_if p f none = none
  apply_if p f (some r) = some (if p r then f r else r)

  abbrev pub or_else : Option A → Option A → Option A
  or_else none o = o
  or_else (some r) o = some r

  -- A row that is found satisfies the predicate.
  pub find_sound : (p : A → Bool) (rows : List A) (r : A) → find p rows ≡ some r → p r ≡ true
  unfolding find
  find_sound p [] r h = ground arith
  find_sound p (x ∷ rows) r h = ground (arith, find_sound p rows r)

  pub find-append :
      (p : A → Bool) (xs ys : List A) → find p (xs ++ ys) ≡ or_else (find p xs) (find p ys)
  unfolding find
  find-append p [] ys = refl
  find-append p (x ∷ xs) ys = ground (arith, find-append p xs ys)

  -- A row that a DELETE spares is still the one that is found.
  pub find-delete_spared :
      (p q : A → Bool) (rows : List A) (r : A)
      → find p rows ≡ some r
      → q r ≡ false
      → find p (delete q rows) ≡ some r
  unfolding find delete
  find-delete_spared p q [] r h k = ground arith
  find-delete_spared p q (x ∷ rows) r h k = ground (arith, find-delete_spared p q rows r)

  -- A DELETE of all the rows that a read asks for leaves it none.
  pub find-delete-none :
      (p q : A → Bool) (rows : List A)
      → ((r : A) → p r ≡ true → q r ≡ true)
      → find p (delete q rows) ≡ none
  unfolding find delete
  find-delete-none p q [] h = refl
  find-delete-none p q (x ∷ rows) h = ground (arith, h x, find-delete-none p q rows h)

  -- A DELETE of none of the rows that a read asks for does not change what it sees.
  pub find-delete_other :
      (p q : A → Bool) (rows : List A)
      → ((r : A) → p r ≡ true → q r ≡ false)
      → find p (delete q rows) ≡ find p rows
  unfolding find delete
  find-delete_other p q [] h = refl
  find-delete_other p q (x ∷ rows) h = ground (arith, h x, find-delete_other p q rows h)

  -- An UPDATE that leaves alone what the read asks about shows in the row that is found.
  pub find-update :
      (p q : A → Bool) (f : A → A) (rows : List A)
      → ((r : A) → p (f r) ≡ p r)
      → find p (update q f rows) ≡ apply_if q f (find p rows)
  unfolding find update
  find-update p q f [] h = refl
  find-update p q f (x ∷ rows) h = ground (arith, h x, find-update p q f rows h)

  pub find-update_other :
      (p q : A → Bool) (f : A → A) (rows : List A)
      → ((r : A) → p (f r) ≡ p r)
      → ((r : A) → p r ≡ true → q r ≡ false)
      → find p (update q f rows) ≡ find p rows
  unfolding find update
  find-update_other p q f [] h k = refl
  find-update_other p q f (x ∷ rows) h k =
      ground (arith, h x, k x, find-update_other p q f rows h k)

  pub find-update_self :
      (p : A → Bool) (f : A → A) (rows : List A) (r : A)
      → ((r : A) → p (f r) ≡ p r)
      → find p rows ≡ some r
      → find p (update p f rows) ≡ some (f r)
  unfolding find update
  find-update_self p f [] r h k = ground arith
  find-update_self p f (x ∷ rows) r h k = ground (arith, h x, find-update_self p f rows r h)

  pub exists-append :
      (p : A → Bool) (xs ys : List A) → exists p xs ≡ true → exists p (xs ++ ys) ≡ true
  exists-append p xs ys h = ground (arith, find-append p xs ys)

  pub exists-insert :
      (p : A → Bool) (r : A) (xs : List A) → p r ≡ true → exists p (insert r xs) ≡ true
  unfolding find
  exists-insert p r xs h = ground (arith, find-append p xs (r ∷ []))

  pub exists-update :
      (p q : A → Bool) (f : A → A) (xs : List A)
      → ((r : A) → p (f r) ≡ p r)
      → exists p (update q f xs) ≡ exists p xs
  exists-update p q f xs h = ground (arith, find-update p q f xs h)

  pub length-delete :
      (q : A → Bool) (rows : List A) → length (delete q rows) + count q rows ≡ length rows
  unfolding delete count
  length-delete q [] = omega arith
  length-delete q (x ∷ rows) = ground (arith, length-delete q rows)

  pub length-select : (q : A → Bool) (rows : List A) → length (select q rows) ≡ count q rows
  unfolding select count
  length-select q [] = refl
  length-select q (x ∷ rows) = ground (arith, length-select q rows)

  pub select-delete : (q : A → Bool) (rows : List A) → select q (delete q rows) ≡ []
  unfolding select delete
  select-delete q [] = refl
  select-delete q (x ∷ rows) = ground (arith, select-delete q rows)

  pub exists_mono :
      (p q : A → Bool) (rows : List A)
      → ((r : A) → q r ≡ true → p r ≡ true)
      → exists q rows ≡ true
      → exists p rows ≡ true
  unfolding find
  exists_mono p q [] h e = ground arith
  exists_mono p q (r ∷ rows) h e = ground (arith, h r, exists_mono p q rows h)

  -- The condition of the row that is found, false where there is none.
  abbrev pub found_and : (A → Bool) → Option A → Bool
  found_and q none = false
  found_and q (some r) = q r

  uncounted :
      (p q : A → Bool) (rows : List A)
      → ((r : A) → q r ≡ true → p r ≡ true)
      → count p rows ≡ 0
      → exists q rows ≡ false
  unfolding count find
  uncounted p q [] h e = refl
  uncounted p q (r ∷ rows) h e = ground (arith, h r, uncounted p q rows h)

  -- Under a unique key, a row with the key and a further condition is the row with the key.
  pub exists_at_key :
      (p q : A → Bool) (rows : List A)
      → ((r : A) → q r ≡ true → p r ≡ true)
      → count p rows ≤ 1
      → exists q rows ≡ found_and q (find p rows)
  unfolding count find
  exists_at_key p q [] h e = refl
  exists_at_key p q (r ∷ rows) h e =
      ground (arith, h r, exists_at_key p q rows h, uncounted p q rows h)

  -- The row that is found shows that there is one with any condition that it has.
  pub find_exists :
      (p q : A → Bool) (rows : List A) (r : A)
      → find p rows ≡ some r
      → q r ≡ true
      → exists q rows ≡ true
  unfolding find
  find_exists p q [] r h k = ground arith
  find_exists p q (x ∷ rows) r h k = ground (arith, find_exists p q rows r)

  -- Where no row has the wider condition, none has the narrower.
  pub find_narrower :
      (p q : A → Bool) (rows : List A)
      → ((x : A) → q x ≡ true → p x ≡ true)
      → exists p rows ≡ false
      → find q rows ≡ none
  unfolding find
  find_narrower p q [] h e = refl
  find_narrower p q (x ∷ rows) h e = ground (arith, h x, find_narrower p q rows h)
