-- ===== src/Common/Table/Counts.antt =====
-- What COUNT(*) answers after an INSERT, a DELETE, and within a narrower SELECT.
use localmail.Common.{
  ◌+◌, ◌≤◌, ◌≡◌, refl, Bool, true, false, List, [], ◌∷◌, ◌++◌, arith, ◌||◌, ◌&&◌,
}
use localmail.Common.Table.{select, delete, update, count, exists, find}

module _ {ℓ} {A : Type ℓ} where
  pub count-append : (p : A → Bool) (xs ys : List A) → count p (xs ++ ys) ≡ count p xs + count p ys
  unfolding count
  count-append p [] ys = omega arith
  count-append p (x ∷ xs) ys = ground (arith, count-append p xs ys)

  -- A DELETE of none of the rows that are counted.
  pub count-delete_other :
      (p q : A → Bool) (rows : List A)
      → ((r : A) → p r ≡ true → q r ≡ false)
      → count p (delete q rows) ≡ count p rows
  unfolding count delete
  count-delete_other p q [] h = refl
  count-delete_other p q (x ∷ rows) h = ground (arith, h x, count-delete_other p q rows h)

  pub count-delete_le : (p q : A → Bool) (rows : List A) → count p (delete q rows) ≤ count p rows
  unfolding count delete
  count-delete_le p q [] = omega arith
  count-delete_le p q (x ∷ rows) = ground (arith, count-delete_le p q rows)

  -- Rows that have `g` are counted among those with `q` that have `p`.
  pub count-select_le :
      (p q g : A → Bool) (rows : List A)
      → ((r : A) → g r ≡ true → p r ≡ true)
      → ((r : A) → g r ≡ true → q r ≡ true)
      → count g rows ≤ count p (select q rows)
  unfolding count select
  count-select_le p q g [] h k = omega arith
  count-select_le p q g (x ∷ rows) h k = ground (arith, h x, k x, count-select_le p q g rows h k)

  pub count-update :
      (p q : A → Bool) (f : A → A) (rows : List A)
      → ((r : A) → p (f r) ≡ p r)
      → count p (update q f rows) ≡ count p rows
  unfolding count update
  count-update p q f [] h = refl
  count-update p q f (x ∷ rows) h = ground (arith, h x, count-update p q f rows h)

  pub count-exists : (p : A → Bool) (rows : List A) → exists p rows ≡ true → 1 ≤ count p rows
  unfolding count find
  count-exists p [] h = ground arith
  count-exists p (x ∷ rows) h = ground (arith, count-exists p rows)

  pub count-absent : (p : A → Bool) (rows : List A) → exists p rows ≡ false → count p rows ≡ 0
  unfolding count find
  count-absent p [] h = refl
  count-absent p (x ∷ rows) h = ground (arith, count-absent p rows)

  -- Two conditions that exclude each other.
  pub count_add :
      (p q r : A → Bool) (rows : List A)
      → ((x : A) → p x ≡ q x || r x)
      → ((x : A) → q x && r x ≡ false)
      → count p rows ≡ count q rows + count r rows
  unfolding count
  count_add p q r [] h k = omega arith
  count_add p q r (x ∷ rows) h k = ground (arith, h x, k x, count_add p q r rows h k)

  pub count_mono :
      (p q : A → Bool) (rows : List A)
      → ((r : A) → q r ≡ true → p r ≡ true)
      → count q rows ≤ count p rows
  unfolding count
  count_mono p q [] h = omega arith
  count_mono p q (r ∷ rows) h = ground (arith, h r, count_mono p q rows h)

  -- An UPDATE after which a row has `p` only where it had it.
  pub count-update_le :
      (p q : A → Bool) (f : A → A) (rows : List A)
      → ((r : A) → q r ≡ true → p (f r) ≡ true → p r ≡ true)
      → count p (update q f rows) ≤ count p rows
  unfolding count update
  count-update_le p q f [] h = omega arith
  count-update_le p q f (x ∷ rows) h = ground (arith, h x, count-update_le p q f rows h)

  pub exists-update_none :
      (p q : A → Bool) (f : A → A) (rows : List A)
      → ((r : A) → q r ≡ true → p (f r) ≡ true → p r ≡ true)
      → exists p rows ≡ false
      → exists p (update q f rows) ≡ false
  unfolding find update
  exists-update_none p q f [] h e = refl
  exists-update_none p q f (x ∷ rows) h e = ground (arith, h x, exists-update_none p q f rows h)

  pub exists-delete_none :
      (p q : A → Bool) (rows : List A) → exists p rows ≡ false → exists p (delete q rows) ≡ false
  unfolding find delete
  exists-delete_none p q [] e = refl
  exists-delete_none p q (x ∷ rows) e = ground (arith, exists-delete_none p q rows)

  -- A DELETE that meets none of the rows that are counted.
  pub count-delete_unmet :
      (p q : A → Bool) (rows : List A)
      → exists (λ r. p r && q r) rows ≡ false
      → count p (delete q rows) ≡ count p rows
  unfolding count delete find
  count-delete_unmet p q [] e = refl
  count-delete_unmet p q (x ∷ rows) e = ground (arith, count-delete_unmet p q rows)
