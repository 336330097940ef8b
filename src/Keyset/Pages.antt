-- ===== src/Keyset/Pages.antt =====
-- One page of a listing in descending order of (created_at, id): the keyset condition, the ORDER BY
-- and `_paginate`, which the feeds of ting_ting/posts.py and the listing of
-- ting_ting/notifications.py share.
use biexce_social_network.Prelude.{
  ◌>>=◌, if◌then◌else◌, select, ok, index_error, order_by, ◌&&◌, ◌+◌, zero, ◌||◌, err, some, Result,
  ltb, none, ◌∷◌, true, [], ℕ, suc, Bool, Option, List, ◌==◌,
}
use biexce_social_network.Keyset.{some, none, ◌∷◌, [], Text, Codec, encode_cursor, decode_cursor}

module _ {A : Type 0} where
  abbrev pub length : List A → ℕ
  length [] = 0
  length (x ∷ xs) = suc (length xs)

  abbrev pub take : ℕ → List A → List A
  take zero xs = []
  take (suc n) [] = []
  take (suc n) (x ∷ xs) = x ∷ take n xs

  -- `page[-1]`
  abbrev pub last : List A → Option A
  last [] = none
  last (x ∷ []) = some x
  last (x ∷ y ∷ ys) = last (y ∷ ys)

module _ {A : Type 0} (created_at id : A → ℕ) where
  -- `created_at DESC, id DESC`
  abbrev pub newer : A → A → Bool
  newer a b =
      ltb (created_at b) (created_at a) || (created_at a == created_at b && ltb (id b) (id a))

  -- `_keyset_desc_condition`, at a decoded cursor.
  abbrev pub past : ℕ × ℕ → A → Bool
  past c r = ltb (created_at r) c.0 || (created_at r == c.0 && ltb (id r) c.1)

  module _ (codec : Codec) where
    abbrev next_cursor : Option A → Result (Option Text)
    next_cursor none = err index_error
    next_cursor (some r) = ok (some (encode_cursor codec (created_at r) (id r)))

    -- `page[-1]` of an empty page raises `IndexError`, for a limit of 0.
    unfoldable pub paginate : List A → ℕ → Result (List A × Option Text)
    paginate rows limit =
        let page = take limit rows in
        if ltb limit (length rows)
        then (next_cursor (last page) >>= λ c. ok (page, c))
        else ok (page, none)

    -- The extra condition for a cursor. An empty or malformed one adds none.
    abbrev from_decoded : Option (ℕ × ℕ) → A → Bool
    from_decoded none r = true
    from_decoded (some c) r = past c r

    unfoldable pub from_cursor : Option Text → A → Bool
    from_cursor none r = true
    from_cursor (some []) r = true
    from_cursor (some (c ∷ cs)) r = from_decoded (decode_cursor codec (c ∷ cs)) r

    unfoldable pub query_page :
        (A → Bool) → ℕ → Option Text → List A → Result (List A × Option Text)
    unfolding from_cursor
    query_page condition limit cursor rows =
        paginate
          (take (limit + 1)
            (order_by newer (select (λ r. condition r && from_cursor cursor r) rows)))
          limit
