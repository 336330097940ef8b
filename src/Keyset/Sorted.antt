-- ===== src/Keyset/Sorted.antt =====
-- The sort of ORDER BY yields the rows in strict order, and commutes with a condition.
use biexce_social_network.Prelude.{
  refl, inr, inl, if◌then◌else◌, arith, Bool-cases, ◌⊎◌, select, ◌∷◌, place, order_by, [], ◌≡◌,
  Bool, true, List,
}

module _ {A : Type 0} (before : A → A → Bool) where
  -- `x` comes before every row.
  abbrev pub Below : A → List A → Type 0
  Below x [] = Unit
  Below x (y ∷ ys) = (before x y ≡ true) × Below x ys

  abbrev pub IsSorted : List A → Type 0
  IsSorted [] = Unit
  IsSorted (x ∷ xs) = Below x xs × IsSorted xs

  -- `x` comes before or after every row.
  abbrev pub Comparable : A → List A → Type 0
  Comparable x [] = Unit
  Comparable x (y ∷ ys) = ((before x y ≡ true) ⊎ (before y x ≡ true)) × Comparable x ys

  abbrev pub IsTotal : List A → Type 0
  IsTotal [] = Unit
  IsTotal (x ∷ xs) = Comparable x xs × IsTotal xs

  Below-place :
      (x y : A) (ys : List A) → before y x ≡ true → Below y ys → Below y (place before x ys)
  unfolding place
  Below-place x y [] h b = (h, tt)
  Below-place x y (z ∷ zs) h b = ground (arith, Below-place x y zs h b.1)

  Comparable-place :
      (x y : A) (ys : List A)
      → (before x y ≡ true) ⊎ (before y x ≡ true)
      → Comparable x ys
      → Comparable x (place before y ys)
  unfolding place
  Comparable-place x y [] h c = (h, tt)
  Comparable-place x y (z ∷ zs) h c = ground (arith, Comparable-place x y zs h c.1)

  pub Comparable-order_by :
      (x : A) (xs : List A) → Comparable x xs → Comparable x (order_by before xs)
  unfolding order_by
  Comparable-order_by x [] c = tt
  Comparable-order_by x (y ∷ ys) c =
      Comparable-place x y (order_by before ys) c.0 (Comparable-order_by x ys c.1)

module _ {A : Type 0} (before : A → A → Bool)
    (trans : (x y z : A) → before x y ≡ true → before y z ≡ true → before x z ≡ true) where
  Below-trans : (x y : A) (ys : List A) → before x y ≡ true → Below before y ys → Below before x ys
  Below-trans x y [] h b = tt
  Below-trans x y (z ∷ zs) h b = (trans x y z h b.0, Below-trans x y zs h b.1)

  place-IsSorted :
      (x : A) (ys : List A)
      → Comparable before x ys
      → IsSorted before ys
      → IsSorted before (place before x ys)
  unfolding place
  place-IsSorted x [] c s = (tt, tt)
  place-IsSorted x (y ∷ ys) c s = elim (Bool-cases (before x y)) [
    | inl e ↦ rw e ((e, Below-trans x y ys e s.0), s)
    | inr e ↦ rw e (Below-place before x y ys (ground arith) s.0, place-IsSorted x ys c.1 s.1)
  ]

  -- Rows that can be compared are put in order.
  pub order_by-IsSorted : (xs : List A) → IsTotal before xs → IsSorted before (order_by before xs)
  unfolding order_by
  order_by-IsSorted [] t = tt
  order_by-IsSorted (x ∷ xs) t =
      place-IsSorted x (order_by before xs) (Comparable-order_by before x xs t.0)
        (order_by-IsSorted xs t.1)

  -- A row before all of a list goes to its front.
  place_front : (x : A) (ys : List A) → Below before x ys → place before x ys ≡ x ∷ ys
  unfolding place
  place_front x [] b = refl
  place_front x (y ∷ ys) b = rw b.0

  Below-select :
      (p : A → Bool) (x : A) (ys : List A) → Below before x ys → Below before x (select p ys)
  unfolding select
  Below-select p x [] b = tt
  Below-select p x (y ∷ ys) b = ground (arith, Below-select p x ys b.1)

  pub select-IsSorted :
      (p : A → Bool) (xs : List A) → IsSorted before xs → IsSorted before (select p xs)
  unfolding select
  select-IsSorted p [] s = tt
  select-IsSorted p (x ∷ xs) s = ground (arith, select-IsSorted p xs s.1, Below-select p x xs s.0)

  select-place :
      (p : A → Bool) (x : A) (ys : List A)
      → IsSorted before ys
      → select p (place before x ys) ≡ (if p x then place before x (select p ys) else select p ys)
  unfolding select place
  select-place p x [] s = refl
  select-place p x (y ∷ ys) s = ground (
    arith,
    select-place p x ys s.1,
    place_front x (select p ys),
    Below-select p x ys,
    Below-trans x y ys,
  )

  -- To sort what a condition leaves is to filter what is sorted.
  pub order_by-select :
      (p : A → Bool) (xs : List A)
      → IsTotal before xs
      → order_by before (select p xs) ≡ select p (order_by before xs)
  unfolding order_by select
  order_by-select p [] t = refl
  order_by-select p (x ∷ xs) t = ground (
    arith,
    order_by-select p xs t.1,
    select-place p x (order_by before xs) (order_by-IsSorted xs t.1),
  )
