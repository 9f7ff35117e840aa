-- ===== src/Keyset/Walk.antt =====
-- The pages of a walk, one after another.
use localmail.Common.{
  ℕ, zero, suc, ◌-◌, ◌≡◌, ◌==◌, Bool, true, false, not, Option, none, some, List, [], ◌∷◌, ◌++◌,
  refl, ap, ◌∙◌, arith, inl, inr, Bool-cases, ◌&&◌, ◌||◌, is_none,
}
use localmail.Common.Lists.{All, All-mono, length, take}
use localmail.Common.Table.{select}
use localmail.Keyset.{
  desc, asc, SortOrder, Message, before_desc, before, clause_at, last_of, date_expr, before_at,
}
use localmail.Keyset.Ordered.{IsOrdered}

abbrev pub apart : Message → Message → Bool
apart a b = not (a.id == b.id)

before_desc_trans :
    (t u v : Option ℕ) (i j k : ℕ)
    → before_desc t i u j ≡ true
    → before_desc u j v k ≡ true
    → before_desc t i v k ≡ true
before_desc_trans none none none i j k g h = ground arith
before_desc_trans none none (some v) i j k g h = ground arith
before_desc_trans none (some u) v i j k g h = ground arith
before_desc_trans (some t) none none i j k g h = ground arith
before_desc_trans (some t) none (some v) i j k g h = ground arith
before_desc_trans (some t) (some u) none i j k g h = refl
before_desc_trans (some t) (some u) (some v) i j k g h = ground arith

before_desc-total :
    (t u : Option ℕ) (i j : ℕ)
    → not (i == j) ≡ true
    → before_desc t i u j ≡ false
    → before_desc u j t i ≡ true
before_desc-total none none i j g h = ground arith
before_desc-total none (some u) i j g h = refl
before_desc-total (some t) none i j g h = ground arith
before_desc-total (some t) (some u) i j g h = ground arith

before_desc-asym :
    (t u : Option ℕ) (i j : ℕ) → before_desc t i u j ≡ true → before_desc u j t i ≡ false
before_desc-asym none none i j h = ground arith
before_desc-asym none (some u) i j h = ground arith
before_desc-asym (some t) none i j h = refl
before_desc-asym (some t) (some u) i j h = ground arith

before_desc_irrefl : (t : Option ℕ) (i : ℕ) → before_desc t i t i ≡ false
before_desc_irrefl none i = ground arith
before_desc_irrefl (some t) i = ground arith

pub before_trans :
    (o : SortOrder) (a b c : Message)
    → before o a b ≡ true
    → before o b c ≡ true
    → before o a c ≡ true
before_trans desc a b c g h =
    before_desc_trans (date_expr a) (date_expr b) (date_expr c) a.id b.id c.id g h
before_trans asc a b c g h =
    before_desc_trans (date_expr c) (date_expr b) (date_expr a) c.id b.id a.id h g

pub before-total :
    (o : SortOrder) (a b : Message) → apart a b ≡ true → before o a b ≡ false → before o b a ≡ true
before-total desc a b g h = before_desc-total (date_expr a) (date_expr b) a.id b.id g h
before-total asc a b g h = before_desc-total (date_expr b) (date_expr a) b.id a.id (ground arith) h

before-asym : (o : SortOrder) (a b : Message) → before o a b ≡ true → before o b a ≡ false
before-asym desc a b h = before_desc-asym (date_expr a) (date_expr b) a.id b.id h
before-asym asc a b h = before_desc-asym (date_expr b) (date_expr a) b.id a.id h

pub before_irrefl : (o : SortOrder) (a : Message) → before o a a ≡ false
before_irrefl desc a = before_desc_irrefl (date_expr a) a.id
before_irrefl asc a = before_desc_irrefl (date_expr a) a.id

-- The predicate of a cursor, with the undated block where the page is topped up from it.
abbrev pub is_topped : SortOrder → Option ℕ → Bool
is_topped desc (some t) = true
is_topped desc none = false
is_topped asc t = false

pub clause_covers :
    (o : SortOrder) (t u : Option ℕ) (i j : ℕ)
    → clause_at o t i u j || (is_topped o t && is_none u) ≡ before_at o t i u j
clause_covers desc none none i j = ground arith
clause_covers desc none (some u) i j = ground arith
clause_covers desc (some t) none i j = ground arith
clause_covers desc (some t) (some u) i j = ground arith
clause_covers asc none none i j = ground arith
clause_covers asc none (some u) i j = ground arith
clause_covers asc (some t) none i j = ground arith
clause_covers asc (some t) (some u) i j = ground arith

pub select-suffix :
    (p : Message → Bool) (xs : List Message) (m : Message) (rows : List Message)
    → All (λ x. p x ≡ false) xs
    → p m ≡ false
    → select p (xs ++ m ∷ rows) ≡ select p rows
unfolding select
select-suffix p [] m rows h k = rw k refl
select-suffix p (x ∷ xs) m rows (h, hs) k = rw h (select-suffix p xs m rows hs k)

pub select-true :
    (p : Message → Bool) (rows : List Message) → All (λ x. p x ≡ true) rows → select p rows ≡ rows
unfolding select
select-true p [] h = refl
select-true p (x ∷ rows) (h, hs) = rw h (ap (◌∷◌ x) (select-true p rows hs))

pub select-false :
    (p : Message → Bool) (rows : List Message) → All (λ x. p x ≡ false) rows → select p rows ≡ []
unfolding select
select-false p [] h = refl
select-false p (x ∷ rows) (h, hs) = rw h (select-false p rows hs)

All-at :
    (P : Message → Type 0) (xs : List Message) (m : Message) (rows : List Message)
    → All P (xs ++ m ∷ rows)
    → P m
All-at P [] m rows (h, hs) = h
All-at P (x ∷ xs) m rows (h, hs) = All-at P xs m rows hs

-- Before the last of a prefix stands the rest of the prefix.
pub IsOrdered-prefix :
    (o : SortOrder) (xs : List Message) (m : Message) (rows : List Message)
    → IsOrdered (before o) (xs ++ m ∷ rows)
    → All (λ x. before o m x ≡ false) xs
      × All (λ x. before o m x ≡ true) rows
      × IsOrdered (before o) rows
IsOrdered-prefix o [] m rows (h, hs) = (tt, h, hs)
IsOrdered-prefix o (x ∷ xs) m rows (h, hs) =
    let (a, b, c) = IsOrdered-prefix o xs m rows hs in
    ((before-asym o x m (All-at (λ y. before o x y ≡ true) xs m rows h), a), b, c)

pub take-append :
    (n : ℕ) (xs ys : List Message) → take n (xs ++ ys) ≡ take n xs ++ take (n - length xs) ys
take-append zero xs ys = let e : 0 ≡ 0 - length xs = omega arith in ap (λ k. take k ys) e
take-append (suc n) [] ys = let e : suc n ≡ suc n - 0 = omega arith in ap (λ k. take k ys) e
take-append (suc n) (x ∷ xs) ys =
    ap (◌∷◌ x) (take-append n xs ys ∙ ap (λ k. take n xs ++ take k ys) (omega arith))

pub last-split :
    (m : Message) (rows : List Message)
    → (xs : List Message) × (l : Message) × (last_of (m ∷ rows) ≡ some l)
      × (m ∷ rows ≡ xs ++ l ∷ [])
last-split m [] = ([], m, refl, refl)
last-split m (n ∷ rows) = let (xs, l, e, f) = last-split n rows in (m ∷ xs, l, e, ap (◌∷◌ m) f)

-- Two conditions that part an ordered list: the first comes first.
pub select-parts :
    (o : SortOrder) (p q : Message → Bool) (rows : List Message)
    → All (λ x. p x || q x ≡ true) rows
    → All (λ x. q x ≡ true → p x ≡ false) rows
    → ((x y : Message) → before o x y ≡ true → q x ≡ true → q y ≡ true)
    → IsOrdered (before o) rows
    → select p rows ++ select q rows ≡ rows
unfolding select
select-parts o p q [] h k stays r = refl
select-parts o p q (x ∷ rows) (h, hs) (k, ks) stays (r, rs) = elim (Bool-cases (q x)) [
  | inl qx ↦
      let all_q = All-mono rows (λ y l. stays x y l qx) r in
      rw (qx, k qx, select-false p rows (both_All rows all_q ks), select-true q rows all_q) refl
  | inr qx ↦
      rw (qx, left_true (p x) (q x) h qx) (ap (◌∷◌ x) (select-parts o p q rows hs ks stays rs))
]
  where
    left_true : (a b : Bool) → a || b ≡ true → b ≡ false → a ≡ true
    left_true a b e f = ground arith

    both_All :
        (ys : List Message)
        → All (λ y. q y ≡ true) ys
        → All (λ y. q y ≡ true → p y ≡ false) ys
        → All (λ y. p y ≡ false) ys
    both_All [] u v = tt
    both_All (y ∷ ys) (u, us) (v, vs) = (v u, both_All ys us vs)

-- The undated block of a descending walk.
pub undated_stays :
    (o : SortOrder) (t u v : Option ℕ) (i j : ℕ)
    → is_topped o t ≡ true
    → before_at o u i v j ≡ true
    → is_none u ≡ true
    → is_none v ≡ true
undated_stays asc t u v i j h k l = ground arith
undated_stays desc none u v i j h k l = ground arith
undated_stays desc (some t) none none i j h k l = refl
undated_stays desc (some t) none (some v) i j h k l = ground arith
undated_stays desc (some t) (some u) v i j h k l = ground arith

pub undated_parts :
    (o : SortOrder) (t u : Option ℕ) (i j : ℕ)
    → is_topped o t ≡ true
    → is_none u ≡ true
    → clause_at o t i u j ≡ false
undated_parts asc t u i j h k = ground arith
undated_parts desc none u i j h k = ground arith
undated_parts desc (some t) none i j h k = refl
undated_parts desc (some t) (some u) i j h k = ground arith
