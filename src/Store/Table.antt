-- ===== src/Store/Table.antt =====
-- What the SQL statements do to a table: UPDATE ... WHERE, DELETE ... WHERE, count(*) and
-- ORDER BY ... LIMIT 1, with the lemmas on counted rows that the services share.
use archivon.Prelude.{
  ℕ, ◌+◌, ◌≤◌, ◌≡◌, refl, Bool, true, false, Option, none, some, List, [], ◌∷◌, ltb, if◌then◌else◌,
  count, length, arith,
}

module _ {ℓ} {A : Type ℓ} where
  -- UPDATE: every row that passes the test is changed.
  unfoldable pub update_where : (A → Bool) → (A → A) → List A → List A
  update_where p f [] = []
  update_where p f (x ∷ xs) = (if p x then f x else x) ∷ update_where p f xs

  -- DELETE: every row that passes the test goes.
  unfoldable pub delete_where : (A → Bool) → List A → List A
  delete_where p [] = []
  delete_where p (x ∷ xs) = if p x then delete_where p xs else x ∷ delete_where p xs

  -- SELECT ... WHERE p ORDER BY key LIMIT 1. Rows of one key keep their order of insertion.
  unfoldable pub first_by : (A → ℕ) → (A → Bool) → List A → Option A
  first_by key p [] = none
  first_by key p (x ∷ xs) =
      let rest = first_by key p xs in
      if p x
      then elim rest [ none ↦ some x | some y ↦ (if ltb (key y) (key x) then some y else some x) ]
      else rest

  pub length-update_where :
      (p : A → Bool) (f : A → A) (xs : List A) → length (update_where p f xs) ≡ length xs
  unfolding update_where
  length-update_where p f [] = refl
  length-update_where p f (x ∷ xs) = omega (arith, length-update_where p f xs)

-- How a count moves under UPDATE and DELETE.
module _ {ℓ} {A : Type ℓ} (q p : A → Bool) (f : A → A) where
  pub count-update_where_le :
      (xs : List A) → count q (update_where p f xs) ≤ count q xs + count p xs
  unfolding update_where
  count-update_where_le [] = omega arith
  count-update_where_le (x ∷ xs) = ground (arith, count-update_where_le xs)

  pub count-update_where_keep :
      ((x : A) → q (f x) ≡ q x) → (xs : List A) → count q (update_where p f xs) ≡ count q xs
  unfolding update_where
  count-update_where_keep h [] = refl
  count-update_where_keep h (x ∷ xs) = ground (arith, h x, count-update_where_keep h xs)

  -- The change makes no row pass the test `q` that did not pass it.
  pub count-update_where_mono :
      ((x : A) → p x ≡ true → q (f x) ≡ true → q x ≡ true)
      → (xs : List A) → count q (update_where p f xs) ≤ count q xs
  unfolding update_where
  count-update_where_mono h [] = omega arith
  count-update_where_mono h (x ∷ xs) = ground (arith, h x, count-update_where_mono h xs)

  -- A row that the change takes out of the test `q` is counted no more.
  pub count-update_where_drop :
      ((x : A) → p x ≡ true → q x ≡ true)
      → ((x : A) → p x ≡ true → q (f x) ≡ false)
      → (xs : List A) → count q (update_where p f xs) + count p xs ≡ count q xs
  unfolding update_where
  count-update_where_drop h k [] = omega arith
  count-update_where_drop h k (x ∷ xs) = ground (arith, h x, k x, count-update_where_drop h k xs)

module _ {ℓ} {A : Type ℓ} where
  pub count_mono :
      (q p : A → Bool)
      → ((x : A) → q x ≡ true → p x ≡ true)
      → (xs : List A) → count q xs ≤ count p xs
  count_mono q p h [] = omega arith
  count_mono q p h (x ∷ xs) = ground (arith, h x, count_mono q p h xs)

  pub count-delete_where_le :
      (q p : A → Bool) (xs : List A) → count q (delete_where p xs) ≤ count q xs
  unfolding delete_where
  count-delete_where_le q p [] = omega arith
  count-delete_where_le q p (x ∷ xs) = ground (arith, count-delete_where_le q p xs)

  pub update_where_none :
      (p : A → Bool) (f : A → A) (xs : List A) → count p xs ≡ 0 → update_where p f xs ≡ xs
  unfolding update_where
  update_where_none p f [] h = refl
  update_where_none p f (x ∷ xs) h = ground (arith, update_where_none p f xs)

  -- Two tests that agree on every changed row count alike.
  pub count-update_where_agree :
      (q r p : A → Bool) (f : A → A)
      → ((x : A) → q (if p x then f x else x) ≡ r (if p x then f x else x))
      → (xs : List A) → count q (update_where p f xs) ≡ count r (update_where p f xs)
  unfolding update_where
  count-update_where_agree q r p f h [] = refl
  count-update_where_agree q r p f h (x ∷ xs) =
      ground (arith, h x, count-update_where_agree q r p f h xs)

  -- Two tests that exclude one another count no more rows than a test that covers both.
  pub count_disjoint :
      (q p r : A → Bool)
      → ((x : A) → q x ≡ true → p x ≡ false)
      → ((x : A) → q x ≡ true → r x ≡ true)
      → ((x : A) → p x ≡ true → r x ≡ true)
      → (xs : List A) → count q xs + count p xs ≤ count r xs
  count_disjoint q p r h k l [] = omega arith
  count_disjoint q p r h k l (x ∷ xs) = ground (arith, h x, k x, l x, count_disjoint q p r h k l xs)

  -- A row that passes one test passes one of two others.
  pub count_split :
      (q p r : A → Bool)
      → ((x : A) → q x ≡ true → p x ≡ false → r x ≡ true)
      → (xs : List A) → count q xs ≤ count p xs + count r xs
  count_split q p r h [] = omega arith
  count_split q p r h (x ∷ xs) = ground (arith, h x, count_split q p r h xs)
