-- ===== src/Common/Table.antt =====
-- A database table as the list of its rows, and the statements that the program sends, by the
-- predicate of their WHERE clause.
pub mod Laws
pub mod Counts
use localmail.Common.{
  ℕ, suc, Bool, Option, none, some, List, [], ◌∷◌, ◌++◌, ◌+◌, if◌then◌else◌, is_some,
}

module _ {ℓ} {A : Type ℓ} where
  -- SELECT ... WHERE p
  unfoldable pub select : (A → Bool) → List A → List A
  select p [] = []
  select p (r ∷ rows) = if p r then r ∷ select p rows else select p rows

  -- SELECT ... WHERE p, read by fetchone
  unfoldable pub find : (A → Bool) → List A → Option A
  find p [] = none
  find p (r ∷ rows) = if p r then some r else find p rows

  abbrev pub exists : (A → Bool) → List A → Bool
  exists p rows = is_some (find p rows)

  -- DELETE ... WHERE p
  unfoldable pub delete : (A → Bool) → List A → List A
  delete p [] = []
  delete p (r ∷ rows) = if p r then delete p rows else r ∷ delete p rows

  -- UPDATE ... SET f WHERE p
  unfoldable pub update : (A → Bool) → (A → A) → List A → List A
  update p f [] = []
  update p f (r ∷ rows) = (if p r then f r else r) ∷ update p f rows

  -- COUNT(*) ... WHERE p; also the rowcount of an UPDATE or DELETE
  unfoldable pub count : (A → Bool) → List A → ℕ
  count p [] = 0
  count p (r ∷ rows) = if p r then suc (count p rows) else count p rows

  -- INSERT INTO ... VALUES
  abbrev pub insert : A → List A → List A
  insert r rows = rows ++ r ∷ []
