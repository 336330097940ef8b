-- ===== src/Prelude/Loaded.antt =====
-- A row that the session has loaded, and what an update of that row by its id does.
use Prim.Native.Nat.{◌+◌, ◌≤◌}
use mathlib.Core.Path.{◌≡◌, refl}
use mathlib.Core.Bool.{Bool, true, false, not}
use mathlib.Core.List.{List, [], ◌∷◌, ◌++◌}
use native.Mathlib.Omega.{arith}
use biexce_social_network.Prelude.Tests.{if◌then◌else◌}
use biexce_social_network.Prelude.Rows.{select, count_where, update_where, exists}

module _ {ℓ} {A : Type ℓ} where
  pub select_none : (p : A → Bool) (rows : List A) → exists p rows ≡ false → select p rows ≡ []
  unfolding select count_where
  select_none p [] h = ground arith
  select_none p (x ∷ xs) h = ground (arith, select_none p xs)

  pub count_of_select_none :
      (p : A → Bool) (rows : List A) → select p rows ≡ [] → count_where p rows ≡ 0
  unfolding select count_where
  count_of_select_none p [] h = refl
  count_of_select_none p (x ∷ xs) h = ground (arith, count_of_select_none p xs)

  pub select-append :
      (p : A → Bool) (xs ys : List A) → select p (xs ++ ys) ≡ select p xs ++ select p ys
  unfolding select
  select-append p [] ys = refl
  select-append p (x ∷ xs) ys = ground (arith, select-append p xs ys)

  pub update_where_none :
      (q : A → Bool) (f : A → A) (rows : List A) → select q rows ≡ [] → update_where q f rows ≡ rows
  unfolding select update_where
  update_where_none q f [] h = refl
  update_where_none q f (x ∷ xs) h = ground (arith, update_where_none q f xs)

  -- The only row that `q` finds satisfies `p`, so `p` finds a row.
  pub exists_of_select :
      (p q : A → Bool) (x : A) (rows : List A)
      → select q rows ≡ x ∷ []
      → p x ≡ true
      → exists p rows ≡ true
  unfolding select count_where
  exists_of_select p q x [] h e = ground arith
  exists_of_select p q x (y ∷ ys) h e = ground (arith, exists_of_select p q x ys)

  -- An update of one row changes a count by that row alone.
  pub count_where-update_one :
      (p q : A → Bool) (f : A → A) (x : A) (rows : List A)
      → select q rows ≡ x ∷ []
      → count_where p (update_where q f rows) + (if p x then 1 else 0)
        ≡ count_where p rows + (if p (f x) then 1 else 0)
  unfolding select count_where update_where
  count_where-update_one p q f x [] h = ground arith
  count_where-update_one p q f x (y ∷ ys) h =
      ground (arith, count_where-update_one p q f x ys, update_where_none q f ys)

  -- The one row of a unique key, after an update that keeps its key.
  pub select-update_one :
      (p q : A → Bool) (f : A → A) (x : A) (rows : List A)
      → select q rows ≡ x ∷ []
      → count_where p rows ≤ 1
      → p x ≡ true
      → p (f x) ≡ true
      → select p (update_where q f rows) ≡ f x ∷ []
  unfolding select count_where update_where
  select-update_one p q f x [] h u e e' = ground arith
  select-update_one p q f x (y ∷ ys) h u e e' = ground (
    arith,
    select-update_one p q f x ys,
    update_where_none q f ys,
    exists_of_select p q x ys,
    select_none p ys,
  )

  -- A deletion of one row changes a count by that row alone.
  pub count_where-delete_one :
      (p q : A → Bool) (x : A) (rows : List A)
      → select q rows ≡ x ∷ []
      → count_where p (select (λ y. not (q y)) rows) + (if p x then 1 else 0) ≡ count_where p rows
  unfolding select count_where
  count_where-delete_one p q x [] h = ground arith
  count_where-delete_one p q x (y ∷ ys) h =
      ground (arith, count_where-delete_one p q x ys, delete_nothing ys)
    where
      delete_nothing : (zs : List A) → select q zs ≡ [] → select (λ y. not (q y)) zs ≡ zs
      delete_nothing [] h = refl
      delete_nothing (z ∷ zs) h = ground (arith, delete_nothing zs)
