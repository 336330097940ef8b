-- ===== src/Keyset/Walk.antt =====
-- A page of a sorted list, and what is past its last row.
use biexce_social_network.Prelude.{
  false, exists, ◌<◌, ◌==◌, Unique, ◌≤◌, zero, refl, some, ◌&&◌, ◌++◌, count_where, arith, suc, ℕ,
  ◌∷◌, [], select, ◌≡◌, Bool, true, List,
}
use biexce_social_network.Keyset.{some, ◌∷◌, ℕ}
use biexce_social_network.Keyset.Pages.{length, take, last, newer, past}
use biexce_social_network.Keyset.Sorted.{Below, IsSorted, Comparable, IsTotal}

module _ {A : Type 0} where
  abbrev pub drop : ℕ → List A → List A
  drop zero xs = xs
  drop (suc n) [] = []
  drop (suc n) (x ∷ xs) = drop n xs

  pub take-append-drop : (n : ℕ) (xs : List A) → take n xs ++ drop n xs ≡ xs
  take-append-drop zero xs = refl
  take-append-drop (suc n) [] = refl
  take-append-drop (suc n) (x ∷ xs) = rw (take-append-drop n xs)

  pub length-drop_lt :
      (n : ℕ) (xs : List A) → suc n ≤ length xs → length (drop (suc n) xs) < length xs
  length-drop_lt n [] h = absurd (omega arith)
  length-drop_lt zero (x ∷ xs) h = omega arith
  length-drop_lt (suc n) (x ∷ xs) h = omega (arith, length-drop_lt n xs)

  abbrev pub All : (A → Bool) → List A → Type 0
  All q [] = Unit
  All q (x ∷ xs) = (q x ≡ true) × All q xs

  pub select-All : (q : A → Bool) (xs : List A) → All q (select q xs)
  unfolding select
  select-All q [] = tt
  select-All q (x ∷ xs) = ground (arith, select-All q xs)

  -- A row of the list that ends a page satisfies what every row does.
  pub last_of_All :
      (q : A → Bool) (n : ℕ) (xs : List A) (r : A)
      → All q xs
      → last (take (suc n) xs) ≡ some r
      → q r ≡ true
  last_of_All q n [] r a h = cc
  last_of_All q zero (x ∷ xs) r a h = ground (arith)
  last_of_All q (suc n) (x ∷ []) r a h = ground arith
  last_of_All q (suc n) (x ∷ y ∷ ys) r a h = last_of_All q n (y ∷ ys) r a.1 h

  -- The stronger condition selects the same rows from what the weaker one left.
  pub select-select_of_imp :
      (p q : A → Bool)
      → ((z : A) → p z ≡ true → q z ≡ true)
      → (xs : List A) → select p (select q xs) ≡ select p xs
  unfolding select
  select-select_of_imp p q h [] = refl
  select-select_of_imp p q h (x ∷ xs) = ground (arith, h x, select-select_of_imp p q h xs)

  pub select-and :
      (p q : A → Bool) (xs : List A) → select (λ r. p r && q r) xs ≡ select q (select p xs)
  unfolding select
  select-and p q [] = refl
  select-and p q (x ∷ xs) = ground (arith, select-and p q xs)

module _ {A : Type 0} (created_at id : A → ℕ) where
  pub newer_trans :
      (x y z : A)
      → newer created_at id x y ≡ true
      → newer created_at id y z ≡ true
      → newer created_at id x z ≡ true
  newer_trans x y z h k = ground arith

  Comparable-of_fresh :
      (x : A) (xs : List A)
      → exists (λ r. id r == id x) xs ≡ false
      → Comparable (newer created_at id) x xs
  unfolding count_where
  Comparable-of_fresh x [] h = tt
  Comparable-of_fresh x (y ∷ ys) h = (ground arith, Comparable-of_fresh x ys (ground arith))

  -- Rows with different ids can be compared.
  pub IsTotal-of_ids :
      (xs : List A) → Unique (λ (n : ℕ) (r : A). id r == n) xs → IsTotal (newer created_at id) xs
  unfolding count_where
  IsTotal-of_ids [] u = tt
  IsTotal-of_ids (x ∷ xs) u = (
    Comparable-of_fresh x xs (ground (arith, u (id x))),
    IsTotal-of_ids xs (λ n. ground (arith, u n)),
  )

  abbrev pub key : A → ℕ × ℕ
  key r = (created_at r, id r)

  select-Below :
      (x : A) (xs : List A)
      → Below (newer created_at id) x xs
      → select (past created_at id (key x)) xs ≡ xs
  unfolding select
  select-Below x [] b = refl
  select-Below x (y ∷ ys) b = ground (arith, select-Below x ys b.1)

  Below-last :
      (x : A) (n : ℕ) (xs : List A) (r : A)
      → Below (newer created_at id) x xs
      → last (take (suc n) xs) ≡ some r
      → newer created_at id x r ≡ true
  Below-last x n [] r b h = cc
  Below-last x zero (y ∷ ys) r b h = ground arith
  Below-last x (suc n) (y ∷ []) r b h = ground arith
  Below-last x (suc n) (y ∷ z ∷ zs) r b h = Below-last x n (z ∷ zs) r b.1 h

  -- What is past the last row of a page is what the page left.
  pub select-past_page :
      (n : ℕ) (xs : List A) (r : A)
      → IsSorted (newer created_at id) xs
      → last (take (suc n) xs) ≡ some r
      → select (past created_at id (key r)) xs ≡ drop (suc n) xs
  unfolding select
  select-past_page n [] r s h = cc
  select-past_page zero (x ∷ xs) r s h = ground (arith, select-Below x xs s.0)
  select-past_page (suc n) (x ∷ []) r s h = ground arith
  select-past_page (suc n) (x ∷ y ∷ ys) r s h =
      ground (arith, select-past_page n (y ∷ ys) r s.1 h, Below-last x n (y ∷ ys) r s.0 h)
