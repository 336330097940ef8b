-- ===== src/Prelude/Keys.antt =====
-- UNIQUE constraints: at most one row for each key.
use Prim.Native.Nat.{◌≤◌}
use mathlib.Core.Path.{◌≡◌}
use mathlib.Core.Bool.{Bool, true, false}
use mathlib.Core.Option.{none, some}
use mathlib.Core.List.{List, [], ◌∷◌, ◌++◌}
use native.Mathlib.Omega.{arith}
use native.Mathlib.Nat.{le_trans}
use biexce_social_network.Prelude.Tests.{Bool-cases}
use mathlib.Core.Logic.{inl, inr}
use biexce_social_network.Prelude.Loaded.{select_none}
use biexce_social_network.Prelude.Exec.{ok, scalar_one_or_none}
use biexce_social_network.Prelude.Rows.{
  select, count_where, update_where, exists, count_where-insert, count_where-select_le,
  count_where-update_where, count_where_mono,
}

module _ {ℓ κ} {A : Type ℓ} {K : Type κ} (test : K → A → Bool) where
  abbrev pub Unique : List A → Type κ
  Unique rows = (k : K) → count_where (test k) rows ≤ 1

  pub Unique-select : (q : A → Bool) (rows : List A) → Unique rows → Unique (select q rows)
  Unique-select q rows u k = le_trans (count_where-select_le (test k) q rows) (u k)

  pub Unique-insert :
      (k : K) (x : A) (rows : List A)
      → exists (test k) rows ≡ false
      → ((j : K) (y : A) → test j x ≡ true → test j y ≡ true → test k y ≡ true)
      → Unique rows
      → Unique (rows ++ x ∷ [])
  Unique-insert k x rows fresh same u j = elim (Bool-cases (test j x)) [
    | inl e ↦ ground (
      arith,
      count_where-insert (test j) rows x,
      e,
      count_where_mono (test j) (test k) (λ y. same j y e) rows,
    )
    | inr e ↦ ground (arith, count_where-insert (test j) rows x, e, u j)
  ]

  pub Unique-update_where :
      (q : A → Bool) (f : A → A)
      → ((k : K) (x : A) → q x ≡ true → test k (f x) ≡ true → test k x ≡ true)
      → (rows : List A) → Unique rows
      → Unique (update_where q f rows)
  Unique-update_where q f h rows u k =
      le_trans (count_where-update_where (test k) q f (h k) rows) (u k)

module _ {ℓ} {A : Type ℓ} (p : A → Bool) where
  -- The query finds no row.
  pub scalar_none :
      (rows : List A) → exists p rows ≡ false → scalar_one_or_none (select p rows) ≡ ok none
  unfolding scalar_one_or_none select count_where
  scalar_none [] h = ground arith
  scalar_none (x ∷ xs) h = ground (arith, scalar_none xs)

  -- The query finds one row where the key is unique and present.
  pub scalar_some :
      (rows : List A)
      → count_where p rows ≤ 1
      → exists p rows ≡ true
      → (x : A) × (scalar_one_or_none (select p rows) ≡ ok (some x)) × (p x ≡ true)
  unfolding scalar_one_or_none select count_where
  scalar_some [] u h = absurd (ground arith)
  scalar_some (x ∷ xs) u h = elim (Bool-cases (p x)) [
    | inl e ↦ (x, ground (arith, e, select_none p xs), e)
    | inr e ↦
        let r = scalar_some xs (ground (arith, e)) (ground (arith, e)) in
        (r.0, ground (arith, e, r.1), r.2)
  ]
