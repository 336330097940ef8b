-- ===== src/Keyset/Listing.antt =====
-- To follow `next_cursor` from the first page lists the whole listing, in order.
use mathlib.Core.Path.{fun_ext}
use biexce_social_network.Keyset.Sorted.{
  select-IsSorted, order_by-select, order_by-IsSorted, IsSorted,
}
use native.Mathlib.Numerals.{add-one}
use biexce_social_network.Prelude.{
  ◌∙◌, Unique-select, inr, inl, Bool-cases, ◌++◌, ◌>>=◌, recursion_error, err, select, none, ◌==◌,
  Result, order_by, Option, ok, Unique, false, ◌≢◌, Bool, true, refl, ap, zero, some, arith, ◌≡◌,
  suc, ◌≤◌, ltb, ◌<◌, List, [], ℕ, ◌∷◌,
}
use biexce_social_network.Keyset.{
  none, decode_cursor, Option, some, List, ℕ, Text, Codec, encode_cursor,
}
use biexce_social_network.Keyset.RoundTrip.{
  IsLawful, decode_cursor-encode_cursor, encode_cursor-ne-nil,
}
use biexce_social_network.Keyset.Pages.{
  length, take, last, newer, past, paginate, from_cursor, query_page,
}
use biexce_social_network.Keyset.Walk.{
  select-past_page, select-select_of_imp, take-append-drop, IsTotal-of_ids, length-drop_lt,
  newer_trans, select-All, last_of_All, select-and, drop,
}

module _ {A : Type 0} where
  take-take-suc : (n : ℕ) (xs : List A) → take n (take (suc n) xs) ≡ take n xs
  take-take-suc zero xs = refl
  take-take-suc (suc n) [] = refl
  take-take-suc (suc n) (x ∷ xs) = ap (λ r. x ∷ r) (take-take-suc n xs)

  length-take-suc : (n : ℕ) (xs : List A) → ltb n (length (take (suc n) xs)) ≡ ltb n (length xs)
  length-take-suc n [] = refl
  length-take-suc zero (x ∷ xs) = ground arith
  length-take-suc (suc n) (x ∷ xs) = ground (arith, length-take-suc n xs)

  take_all : (n : ℕ) (xs : List A) → length xs ≤ n → take n xs ≡ xs
  take_all zero [] h = refl
  take_all zero (x ∷ xs) h = absurd (omega arith)
  take_all (suc n) [] h = refl
  take_all (suc n) (x ∷ xs) h = ap (λ r. x ∷ r) (take_all n xs (omega arith))

  last_exists : (n : ℕ) (xs : List A) → 0 < length xs → (r : A) × (last (take (suc n) xs) ≡ some r)
  last_exists n [] h = absurd (omega arith)
  last_exists zero (x ∷ xs) h = (x, refl)
  last_exists (suc n) (x ∷ []) h = (x, refl)
  last_exists (suc n) (x ∷ y ∷ ys) h = last_exists n (y ∷ ys) (omega arith)

module _ {A : Type 0} (created_at id : A → ℕ) (codec : Codec) where
  -- The last page.
  paginate_last :
      (limit : ℕ) (xs : List A)
      → ltb limit (length xs) ≡ false
      → paginate created_at id codec (take (suc limit) xs) limit ≡ ok (xs, none)
  unfolding paginate
  paginate_last limit xs h =
      ground (arith, length-take-suc limit xs, take-take-suc limit xs, take_all limit xs)

  -- A page with more behind it.
  paginate_more :
      (n : ℕ) (xs : List A) (r : A)
      → ltb (suc n) (length xs) ≡ true
      → last (take (suc n) xs) ≡ some r
      → paginate created_at id codec (take (suc (suc n)) xs) (suc n)
        ≡ ok (take (suc n) xs, some (encode_cursor codec (created_at r) (id r)))
  unfolding paginate
  paginate_more n xs r h e = ground (arith, length-take-suc (suc n) xs, take-take-suc (suc n) xs)

  from_encoded :
      (t : Text) (k : ℕ × ℕ)
      → t ≢ []
      → decode_cursor codec t ≡ some k
      → (z : A) → from_cursor created_at id codec (some t) z ≡ past created_at id k z
  unfolding from_cursor
  from_encoded [] k n h z = absurd (n refl)
  from_encoded (c ∷ cs) k n h z = rw h

  -- The condition that a row's cursor adds: to come after the row.
  pub from_cursor-encode_cursor :
      IsLawful codec
      → (r z : A)
      → from_cursor created_at id codec (some (encode_cursor codec (created_at r) (id r))) z
        ≡ past created_at id (created_at r, id r) z
  from_cursor-encode_cursor lawful r =
      from_encoded _ (created_at r, id r) (encode_cursor-ne-nil codec lawful _ _)
        (decode_cursor-encode_cursor codec lawful _ _)

module _ {A : Type 0} (created_at id : A → ℕ) (codec : Codec) (condition : A → Bool)
    (rows : List A) where
  -- The whole listing: what the condition selects, newest first.
  abbrev pub listing : List A
  listing = order_by (newer created_at id) (select condition rows)

  -- A client that follows `next_cursor`, with at most `fuel` requests.
  unfoldable pub walk : ℕ → ℕ → Option Text → Result (List A)
  walk limit zero cursor = err recursion_error
  walk limit (suc fuel) cursor = query_page created_at id codec condition limit cursor rows >>= λ p.
      elim p.1 [ none ↦ ok p.0 | some c ↦ walk limit fuel (some c) >>= λ more. ok (p.0 ++ more) ]

module _ {A : Type 0} (created_at id : A → ℕ) (codec : Codec) (condition : A → Bool) (rows : List A)
    (unique : Unique (λ (n : ℕ) (r : A). id r == n) rows) where
  query_page_lem :
      (limit : ℕ) (cursor : Option Text)
      → query_page created_at id codec condition limit cursor rows
        ≡ paginate created_at id codec
            (take (suc limit) (
              select
                (from_cursor created_at id codec cursor)
                (listing created_at id codec condition rows)))
            limit
  unfolding query_page
  query_page_lem limit cursor = rw (
    add-one,
    select-and condition (from_cursor created_at id codec cursor) rows,
    order_by-select (newer created_at id) (newer_trans created_at id)
        (from_cursor created_at id codec cursor) (select condition rows)
        (IsTotal-of_ids created_at id (select condition rows)
          (Unique-select (λ n r. id r == n) condition rows unique)),
  )

  listing-IsSorted : IsSorted (newer created_at id) (listing created_at id codec condition rows)
  listing-IsSorted =
      order_by-IsSorted (newer created_at id) (newer_trans created_at id) (select condition rows) (
        IsTotal-of_ids created_at id (select condition rows)
          (Unique-select (λ n r. id r == n) condition rows unique))

  -- What a cursor leaves of the listing.
  abbrev rest_of : Option Text → List A
  rest_of cursor =
      select (from_cursor created_at id codec cursor) (listing created_at id codec condition rows)

  -- A cursor leaves, with a row, every row behind it.
  abbrev IsClosed : Option Text → Type 0
  IsClosed cursor =
      (r z : A)
      → from_cursor created_at id codec cursor r ≡ true
      → newer created_at id r z ≡ true
      → from_cursor created_at id codec cursor z ≡ true

  module _ (lawful : IsLawful codec) where
    abbrev cursor_of : A → Text
    cursor_of r = encode_cursor codec (created_at r) (id r)

    rest_of_page :
        (n : ℕ) (cursor : Option Text) (r : A)
        → IsClosed cursor
        → last (take (suc n) (rest_of cursor)) ≡ some r
        → rest_of (some (cursor_of r)) ≡ drop (suc n) (rest_of cursor)
    rest_of_page n cursor r closed e =
        let inside =
          last_of_All (from_cursor created_at id codec cursor) n (rest_of cursor) r
            (select-All (from_cursor created_at id codec cursor) _) e in
        rw (fun_ext (from_cursor-encode_cursor created_at id codec lawful r)) (
          rw
            (← select-select_of_imp (past created_at id (created_at r, id r))
              (from_cursor created_at id codec cursor) (λ z h. closed r z inside (ground arith))
              (listing created_at id codec condition rows))
            (select-past_page created_at id n (rest_of cursor) r
              (select-IsSorted (newer created_at id) (newer_trans created_at id) _ _
                listing-IsSorted)
              e))

    cursor_of-IsClosed : (r : A) → IsClosed (some (cursor_of r))
    cursor_of-IsClosed r x z h k = ground (
      arith,
      from_cursor-encode_cursor created_at id codec lawful r x,
      from_cursor-encode_cursor created_at id codec lawful r z,
    )

    walk_from :
        (n fuel : ℕ) (cursor : Option Text)
        → IsClosed cursor
        → length (rest_of cursor) < fuel
        → walk created_at id codec condition rows (suc n) fuel cursor ≡ ok (rest_of cursor)
    unfolding walk
    walk_from n zero cursor closed h = absurd (omega arith)
    walk_from n (suc fuel) cursor closed h =
        elim (Bool-cases (ltb (suc n) (length (rest_of cursor)))) [
          | inl e ↦
              let (r, at_end) = last_exists n (rest_of cursor) (ground arith) in
              let left = rest_of_page n cursor r closed at_end in
              rw
                (
                  query_page_lem (suc n) cursor,
                  paginate_more created_at id codec n (rest_of cursor) r e at_end,
                  walk_from n fuel (some (cursor_of r)) (cursor_of-IsClosed r)
                      (rw left (ground (arith, length-drop_lt n (rest_of cursor)))),
                  left,
                )
                (ap ok (take-append-drop (suc n) (rest_of cursor)))
          | inr e ↦ rw (
            query_page_lem (suc n) cursor,
            paginate_last created_at id codec (suc n) (rest_of cursor) e,
          )
        ]

    select_everything : (xs : List A) → select (from_cursor created_at id codec none) xs ≡ xs
    unfolding select from_cursor
    select_everything [] = refl
    select_everything (x ∷ xs) = ap (λ r. x ∷ r) (select_everything xs)

    first_page-IsClosed : IsClosed none
    unfolding from_cursor
    first_page-IsClosed r z h k = refl

    -- Following `next_cursor` from the first page, with a limit of at least 1 and enough requests,
    -- gives the whole listing, in order.
    pub walk_lem :
        (n fuel : ℕ)
        → length (listing created_at id codec condition rows) < fuel
        → walk created_at id codec condition rows (suc n) fuel none
          ≡ ok (listing created_at id codec condition rows)
    walk_lem n fuel h =
        let all = select_everything (listing created_at id codec condition rows) in
        walk_from n fuel none first_page-IsClosed (rw all h) ∙ ap ok all
