-- ===== src/Prelude/Rows.antt =====
-- The SQL that the services use, over a table as the list of its rows in primary-key order.
use Prim.Native.Nat.{ℕ, suc, ◌+◌, ◌≤◌}
use mathlib.Core.Path.{◌≡◌, refl}
use mathlib.Core.Bool.{Bool, true, false, not, ◌&&◌, ◌||◌}
use mathlib.Core.Option.{Option, none, some}
use mathlib.Core.List.{List, [], ◌∷◌, ◌++◌}
use mathlib.Core.Logic.{inl, inr}
use native.Mathlib.Omega.{arith}
use biexce_social_network.Prelude.Tests.{if◌then◌else◌, ltb, Bool-cases}

module _ {ℓ} {A : Type ℓ} where
  -- SELECT … WHERE p
  unfoldable pub select : (A → Bool) → List A → List A
  select p [] = []
  select p (x ∷ xs) = let rest = select p xs in if p x then x ∷ rest else rest

  -- SELECT count(id) … WHERE p
  unfoldable pub count_where : (A → Bool) → List A → ℕ
  count_where p [] = 0
  count_where p (x ∷ xs) = let rest = count_where p xs in if p x then suc rest else rest

  -- A scalar query `is not None`: some row satisfies `p`.
  abbrev pub exists : (A → Bool) → List A → Bool
  exists p xs = ltb 0 (count_where p xs)

  -- `db.get(Model, id)`, and `.scalars().first()` in primary-key order.
  unfoldable pub find_where : (A → Bool) → List A → Option A
  find_where p [] = none
  find_where p (x ∷ xs) = let rest = find_where p xs in if p x then some x else rest

  -- `.order_by(id.desc()).first()`
  unfoldable pub find_last : (A → Bool) → List A → Option A
  find_last p [] = none
  find_last p (x ∷ xs) = elim (find_last p xs) [
    | some y ↦ some y
    | none ↦ if p x then some x else none
  ]

  -- UPDATE … SET f WHERE p
  unfoldable pub update_where : (A → Bool) → (A → A) → List A → List A
  update_where p f [] = []
  update_where p f (x ∷ xs) = (if p x then f x else x) ∷ update_where p f xs

  -- DELETE … WHERE p
  abbrev pub delete_where : (A → Bool) → List A → List A
  delete_where p = select (λ x. not (p x))

  pub count_where-append :
      (p : A → Bool) (xs ys : List A)
      → count_where p (xs ++ ys) ≡ count_where p xs + count_where p ys
  unfolding count_where
  count_where-append p [] ys = omega arith
  count_where-append p (x ∷ xs) ys = ground (arith, count_where-append p xs ys)

  -- One more row at the end of a table.
  pub count_where-insert :
      (p : A → Bool) (xs : List A) (x : A)
      → count_where p (xs ++ x ∷ []) ≡ (if p x then suc (count_where p xs) else count_where p xs)
  unfolding count_where
  count_where-insert p [] x = refl
  count_where-insert p (y ∷ xs) x = ground (arith, count_where-insert p xs x)

  pub count_where-select :
      (p q : A → Bool) (xs : List A)
      → count_where p (select q xs) ≡ count_where (λ x. p x && q x) xs
  unfolding select count_where
  count_where-select p q [] = refl
  count_where-select p q (x ∷ xs) = ground (arith, count_where-select p q xs)

  pub count_where-select_le :
      (p q : A → Bool) (xs : List A) → count_where p (select q xs) ≤ count_where p xs
  unfolding select count_where
  count_where-select_le p q [] = omega arith
  count_where-select_le p q (x ∷ xs) = ground (arith, count_where-select_le p q xs)

  -- A condition that implies another selects no more rows.
  pub count_where_mono :
      (p q : A → Bool)
      → ((x : A) → p x ≡ true → q x ≡ true)
      → (xs : List A) → count_where p xs ≤ count_where q xs
  unfolding count_where
  count_where_mono p q h [] = omega arith
  count_where_mono p q h (x ∷ xs) = ground (arith, h x, count_where_mono p q h xs)

  -- No row satisfies a condition that fails on every row.
  pub count_where_none :
      (p : A → Bool) → ((x : A) → p x ≡ false) → (xs : List A) → count_where p xs ≡ 0
  unfolding count_where
  count_where_none p h [] = refl
  count_where_none p h (x ∷ xs) = ground (arith, h x, count_where_none p h xs)

  -- An update whose result satisfies `p` only where the row did selects no more rows.
  pub count_where-update_where :
      (p q : A → Bool) (f : A → A)
      → ((x : A) → q x ≡ true → p (f x) ≡ true → p x ≡ true)
      → (xs : List A) → count_where p (update_where q f xs) ≤ count_where p xs
  unfolding count_where update_where
  count_where-update_where p q f h [] = omega arith
  count_where-update_where p q f h (x ∷ xs) =
      ground (arith, h x, count_where-update_where p q f h xs)

  -- An update that leaves `p` as it is.
  pub count_where-update_where_eq :
      (p q : A → Bool) (f : A → A)
      → ((x : A) → q x ≡ true → p (f x) ≡ p x)
      → (xs : List A) → count_where p (update_where q f xs) ≡ count_where p xs
  unfolding count_where update_where
  count_where-update_where_eq p q f h [] = refl
  count_where-update_where_eq p q f h (x ∷ xs) =
      ground (arith, h x, count_where-update_where_eq p q f h xs)

  pub count_where_ext :
      (p q : A → Bool) → ((x : A) → p x ≡ q x) → (xs : List A) → count_where p xs ≡ count_where q xs
  unfolding count_where
  count_where_ext p q h [] = refl
  count_where_ext p q h (x ∷ xs) = ground (arith, h x, count_where_ext p q h xs)

  -- Two conditions that agree on the rows that are not excluded.
  pub count_where_ext_guarded :
      (p q bad : A → Bool)
      → ((x : A) → bad x ≡ false → p x ≡ q x)
      → (xs : List A) → exists bad xs ≡ false
      → count_where p xs ≡ count_where q xs
  unfolding count_where
  count_where_ext_guarded p q bad h [] e = refl
  count_where_ext_guarded p q bad h (x ∷ xs) e =
      ground (arith, h x, count_where_ext_guarded p q bad h xs)

  pub exists-or :
      (p q : A → Bool) (xs : List A) → exists (λ x. p x || q x) xs ≡ (exists p xs || exists q xs)
  unfolding count_where
  exists-or p q [] = refl
  exists-or p q (x ∷ xs) = ground (arith, exists-or p q xs)

  -- The row that a unique key finds decides a condition on that key.
  pub exists_of_find :
      (p g : A → Bool) (a : A) (xs : List A)
      → count_where p xs ≤ 1
      → find_where p xs ≡ some a
      → exists (λ x. g x && p x) xs ≡ g a
  unfolding count_where find_where
  exists_of_find p g a [] u h = cc
  exists_of_find p g a (x ∷ xs) u h = ground (
    arith,
    exists_of_find p g a xs,
    count_where_mono (λ y. g y && p y) p (λ y e. ground arith) xs,
  )

  pub find_of_exists :
      (p : A → Bool) (xs : List A)
      → exists p xs ≡ true
      → (a : A) × (find_where p xs ≡ some a) × (p a ≡ true)
  unfolding count_where find_where
  find_of_exists p [] h = absurd (ground arith)
  find_of_exists p (x ∷ xs) h = elim (Bool-cases (p x)) [
    | inl e ↦ (x, ground (arith, e), e)
    | inr e ↦ let r = find_of_exists p xs (ground (arith, e)) in (r.0, ground (arith, e, r.1), r.2)
  ]
