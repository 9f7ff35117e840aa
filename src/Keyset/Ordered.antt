-- ===== src/Keyset/Ordered.antt =====
-- ORDER BY with a strict order, and WHERE before it.
use localmail.Common.{
  ◌≡◌, Bool, true, false, List, [], ◌∷◌, refl, ap, inl, inr, Bool-cases, if◌then◌else◌, sym, ◌∙◌,
  suc, arith,
}
use localmail.Common.Lists.{All, All-mono, length}
use localmail.Common.Table.{select, count}
use localmail.Keyset.{insert_by, order_by}

-- `apart` tells rows with different keys.
abbrev pub AreApart {ℓ} : {A : Type ℓ} → (A → A → Bool) → List A → Type 0
AreApart apart [] = Unit
AreApart apart (x ∷ rows) = All (λ y. apart x y ≡ true) rows × AreApart apart rows

module _ {ℓ} {A : Type ℓ} (r : A → A → Bool) where
  abbrev pub IsOrdered : List A → Type 0
  IsOrdered [] = Unit
  IsOrdered (x ∷ rows) = All (λ y. r x y ≡ true) rows × IsOrdered rows

  insert_by-All {κ} :
      (P : A → Type κ) (x : A) (rows : List A) → P x → All P rows → All P (insert_by r x rows)
  unfolding insert_by
  insert_by-All P x [] h k = (h, tt)
  insert_by-All P x (y ∷ rows) h (k, ks) = elim (Bool-cases (r x y)) [
    | inl e ↦ rw e (h, (k, ks))
    | inr e ↦ rw e (k, insert_by-All P x rows h ks)
  ]

  pub order_by-All {κ} : (P : A → Type κ) (rows : List A) → All P rows → All P (order_by r rows)
  unfolding order_by
  order_by-All P [] h = tt
  order_by-All P (x ∷ rows) (h, hs) = insert_by-All P x (order_by r rows) h (order_by-All P rows hs)

  select-All {κ} :
      (P : A → Type κ) (p : A → Bool) (rows : List A) → All P rows → All P (select p rows)
  unfolding select
  select-All P p [] h = tt
  select-All P p (x ∷ rows) (h, hs) = elim (Bool-cases (p x)) [
    | inl e ↦ rw e (h, select-All P p rows hs)
    | inr e ↦ rw e (select-All P p rows hs)
  ]

  insert_by-first :
      (x : A) (rows : List A) → All (λ y. r x y ≡ true) rows → insert_by r x rows ≡ x ∷ rows
  unfolding insert_by
  insert_by-first x [] h = refl
  insert_by-first x (y ∷ rows) (h, hs) = rw h refl

  insert_by-count :
      (p : A → Bool) (x : A) (rows : List A) → count p (insert_by r x rows) ≡ count p (x ∷ rows)
  unfolding insert_by count
  insert_by-count p x [] = refl
  insert_by-count p x (y ∷ rows) = ground (arith, insert_by-count p x rows)

  pub order_by-count : (p : A → Bool) (rows : List A) → count p (order_by r rows) ≡ count p rows
  unfolding order_by count
  order_by-count p [] = refl
  order_by-count p (x ∷ rows) =
      ground (arith, insert_by-count p x (order_by r rows), order_by-count p rows)

  insert_by-length : (x : A) (rows : List A) → length (insert_by r x rows) ≡ suc (length rows)
  unfolding insert_by
  insert_by-length x [] = refl
  insert_by-length x (y ∷ rows) = ground (arith, insert_by-length x rows)

  pub order_by-length : (rows : List A) → length (order_by r rows) ≡ length rows
  unfolding order_by insert_by
  order_by-length [] = refl
  order_by-length (x ∷ rows) = insert_by-length x (order_by r rows) ∙ ap suc (order_by-length rows)

  module _ (trans : (x y z : A) → r x y ≡ true → r y z ≡ true → r x z ≡ true) where
    select-insert_by :
        (p : A → Bool) (x : A) (rows : List A)
        → IsOrdered rows
        → select p (insert_by r x rows)
          ≡ (if p x then insert_by r x (select p rows) else select p rows)
    unfolding select insert_by
    select-insert_by p x [] h = refl
    select-insert_by p x (y ∷ rows) (h, hs) = elim (Bool-cases (r x y)) [
      | inl e ↦ rw e (elim (Bool-cases (p x)) [
        | inl px ↦ rw px (
            sym (
              insert_by-first x (select p (y ∷ rows)) (
                select-All (λ z. r x z ≡ true) p (y ∷ rows)
                  (e, All-mono rows (λ z k. trans x y z e k) h))))
        | inr px ↦ rw px refl
      ])
      | inr e ↦
          rw (e, select-insert_by p x rows hs)
            (elim (Bool-cases (p x)) [
              | inl px ↦ elim (Bool-cases (p y)) [
                | inl py ↦ rw (px, py, e) refl
                | inr py ↦ rw (px, py) refl
              ]
              | inr px ↦ elim (Bool-cases (p y)) [
                | inl py ↦ rw (px, py) refl
                | inr py ↦ rw (px, py) refl
              ]
            ])
    ]

    module _ (apart : A → A → Bool)
        (total : (x y : A) → apart x y ≡ true → r x y ≡ false → r y x ≡ true) where
      insert_by-IsOrdered :
          (x : A) (rows : List A)
          → All (λ y. apart x y ≡ true) rows
          → IsOrdered rows
          → IsOrdered (insert_by r x rows)
      unfolding insert_by
      insert_by-IsOrdered x [] a h = (tt, tt)
      insert_by-IsOrdered x (y ∷ rows) (a, rest) (h, hs) = elim (Bool-cases (r x y)) [
        | inl e ↦ rw e ((e, All-mono rows (λ z k. trans x y z e k) h), (h, hs))
        | inr e ↦ rw e (
          insert_by-All (λ z. r y z ≡ true) x rows (total x y a e) h,
          insert_by-IsOrdered x rows rest hs,
        )
      ]

      pub order_by-IsOrdered : (rows : List A) → AreApart apart rows → IsOrdered (order_by r rows)
      unfolding order_by
      order_by-IsOrdered [] h = tt
      order_by-IsOrdered (x ∷ rows) (a, h) =
          insert_by-IsOrdered x (order_by r rows) (order_by-All (λ y. apart x y ≡ true) rows a)
            (order_by-IsOrdered rows h)

      -- WHERE before ORDER BY gives the rows of the ordered list that have the condition.
      pub order_by-select :
          (p : A → Bool) (rows : List A)
          → AreApart apart rows
          → order_by r (select p rows) ≡ select p (order_by r rows)
      unfolding order_by select
      order_by-select p [] h = refl
      order_by-select p (x ∷ rows) (a, h) = elim (Bool-cases (p x)) [
        | inl e ↦ rw e (
            ap (insert_by r x) (order_by-select p rows h)
            ∙ sym (select-insert_by p x (order_by r rows) (order_by-IsOrdered rows h) ∙ rw e refl))
        | inr e ↦ rw e (
            order_by-select p rows h
            ∙ sym (select-insert_by p x (order_by r rows) (order_by-IsOrdered rows h) ∙ rw e refl))
      ]
