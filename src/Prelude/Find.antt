-- ===== src/Prelude/Find.antt =====
-- `db.get` and `.first()` after an update or an insert.
use Prim.Native.Nat.{◌≤◌}
use mathlib.Core.Path.{◌≡◌, refl}
use mathlib.Core.Bool.{Bool, true, false}
use mathlib.Core.Option.{Option, none, some}
use mathlib.Core.List.{List, [], ◌∷◌, ◌++◌}
use native.Mathlib.Omega.{arith}
use biexce_social_network.Prelude.Tests.{Bool-cases, if◌then◌else◌, ltb}
use biexce_social_network.Prelude.Exec.{ok, scalar_one_or_none}
use mathlib.Core.Logic.{◌⊎◌, inl, inr}
use biexce_social_network.Prelude.Loaded.{select-append, select_none, count_of_select_none}
use mathlib.Core.Path.{ap}
use biexce_social_network.Prelude.Rows.{select, count_where, exists, find_where, update_where}

module _ {ℓ} {A : Type ℓ} where
  -- The row found, with the update if it applies to it.
  abbrev pub update_found : (A → Bool) → (A → A) → Option A → Option A
  update_found q f none = none
  update_found q f (some x) = some (if q x then f x else x)

  -- An update that keeps the condition of the search.
  pub find_where-update_where :
      (p q : A → Bool) (f : A → A)
      → ((x : A) → q x ≡ true → p (f x) ≡ p x)
      → (xs : List A) → find_where p (update_where q f xs) ≡ update_found q f (find_where p xs)
  unfolding find_where update_where
  find_where-update_where p q f h [] = refl
  find_where-update_where p q f h (x ∷ xs) = ground (arith, h x, find_where-update_where p q f h xs)

  pub find_where-insert_some :
      (p : A → Bool) (xs : List A) (x a : A)
      → find_where p xs ≡ some a
      → find_where p (xs ++ x ∷ []) ≡ some a
  unfolding find_where
  find_where-insert_some p [] x a h = cc
  find_where-insert_some p (y ∷ ys) x a h = ground (arith, find_where-insert_some p ys x a)

  pub find_where-insert_none :
      (p : A → Bool) (xs : List A) (x : A)
      → find_where p xs ≡ none
      → find_where p (xs ++ x ∷ []) ≡ (if p x then some x else none)
  unfolding find_where
  find_where-insert_none p [] x h = refl
  find_where-insert_none p (y ∷ ys) x h = ground (arith, find_where-insert_none p ys x)

  pub find_where-none : (p : A → Bool) (xs : List A) → exists p xs ≡ false → find_where p xs ≡ none
  unfolding find_where count_where
  find_where-none p [] h = refl
  find_where-none p (x ∷ xs) h = ground (arith, find_where-none p xs)

  pub find_where_sat : (p : A → Bool) (xs : List A) (a : A) → find_where p xs ≡ some a → p a ≡ true
  unfolding find_where
  find_where_sat p [] a h = cc
  find_where_sat p (x ∷ xs) a h = ground (arith, find_where_sat p xs a)

-- A query that finds no row.
pub empty_of_scalar : {A : Type 0} (xs : List A) → scalar_one_or_none xs ≡ ok none → xs ≡ []
unfolding scalar_one_or_none
empty_of_scalar [] h = refl
empty_of_scalar (x ∷ []) h = absurd (ground (arith, h))
empty_of_scalar (x ∷ y ∷ ys) h = absurd (ground (arith, h))

pub exists_of_scalar_none :
    {A : Type 0} (p : A → Bool) (rows : List A)
    → scalar_one_or_none (select p rows) ≡ ok none
    → exists p rows ≡ false
exists_of_scalar_none p rows h =
    ap (ltb 0) (count_of_select_none p rows (empty_of_scalar (select p rows) h))

-- The row of an insert is the only one under its key.
pub select_inserted :
    {A : Type 0} (p : A → Bool) (rows : List A) (x : A)
    → exists p rows ≡ false
    → p x ≡ true
    → select p (rows ++ x ∷ []) ≡ x ∷ []
unfolding select
select_inserted p rows x h k =
    rw (select-append p rows (x ∷ []), select_none p rows h) (ground (arith, k))

pub find_inserted :
    {A : Type 0} (p : A → Bool) (rows : List A) (x : A)
    → exists p rows ≡ false
    → p x ≡ true
    → scalar_one_or_none (select p (rows ++ x ∷ [])) ≡ ok (some x)
unfolding scalar_one_or_none
find_inserted p rows x h k = rw (select_inserted p rows x h k) refl

select_zero :
    {A : Type 0} (p : A → Bool) (rows : List A) → count_where p rows ≡ 0 → select p rows ≡ []
unfolding select count_where
select_zero p [] h = refl
select_zero p (x ∷ xs) h = ground (arith, select_zero p xs)

-- The rows of a unique key.
pub select_unique :
    {A : Type 0} (p : A → Bool) (rows : List A)
    → count_where p rows ≤ 1
    → (select p rows ≡ []) ⊎ ((x : A) × (p x ≡ true) × (select p rows ≡ x ∷ []))
unfolding select count_where
select_unique p [] h = inl refl
select_unique p (x ∷ xs) h = elim (Bool-cases (p x)) [
  | inl e ↦ inr (x, e, ground (arith, e, h, select_zero p xs))
  | inr e ↦ elim (select_unique p xs ground (arith, e, h)) [
    | inl k ↦ inl ground (arith, e, k)
    | inr (y, k, l) ↦ inr (y, k, ground (arith, e, l))
  ]
]
