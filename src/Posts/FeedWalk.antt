-- ===== src/Posts/FeedWalk.antt =====
-- A client that follows the cursors of the home feed.
use mathlib.Core.Path.{fun_ext}
use biexce_social_network.Keyset.Pages.{query_page, length}
use biexce_social_network.Models.{Post, Db}
use biexce_social_network.Prelude.{
  count_where_ext, ap, count_where-select, select, true, ◌∙◌, ◌++◌, ◌&&◌, some, ◌>>=◌, ok, none,
  recursion_error, zero, refl, err, suc, arith, ◌≡◌, Result, ◌<◌, List, Option, Unique, Bool, ℕ,
  count_where, order_by, [], place, ◌∷◌, ◌==◌,
}
use biexce_social_network.Keyset.{Text, Codec}
use biexce_social_network.Keyset.RoundTrip.{IsLawful}
use biexce_social_network.Keyset.Listing.{walk, walk_lem, listing}
use biexce_social_network.Posts.Feed.{feed_condition, post_created_at, post_id_of, query_feed}

count_where-place :
    {A : Type 0} (before : A → A → Bool) (p : A → Bool) (x : A) (xs : List A)
    → count_where p (place before x xs) ≡ count_where p (x ∷ xs)
unfolding place count_where
count_where-place before p x [] = refl
count_where-place before p x (y ∷ ys) = ground (arith, count_where-place before p x ys)

count_where-order_by :
    {A : Type 0} (before : A → A → Bool) (p : A → Bool) (xs : List A)
    → count_where p (order_by before xs) ≡ count_where p xs
unfolding order_by count_where
count_where-order_by before p [] = refl
count_where-order_by before p (x ∷ xs) =
    ground
      (arith, count_where-place before p x (order_by before xs), count_where-order_by before p xs)

-- The requests of a client of `query_feed`: each page, then the page of its `next_cursor`.
unfoldable pub read_feed : Codec → Db → ℕ → ℕ → ℕ → Option Text → Result (List Post)
read_feed codec db viewer_id limit zero cursor = err recursion_error
read_feed codec db viewer_id limit (suc requests) cursor =
    query_feed codec db viewer_id limit cursor >>= λ p. elim p.1 [
      | none ↦ ok p.0
      | some c ↦ read_feed codec db viewer_id limit requests (some c) >>= λ more. ok (p.0 ++ more)
    ]

read_feed-walk :
    (codec : Codec) (db : Db) (viewer_id limit requests : ℕ) (cursor : Option Text)
    → read_feed codec db viewer_id limit requests cursor
      ≡ walk post_created_at post_id_of codec
          (feed_condition db viewer_id)
          db.posts.rows
          limit
          requests
          cursor
unfolding read_feed walk query_feed
read_feed-walk codec db viewer_id limit zero cursor = refl
read_feed-walk codec db viewer_id limit (suc requests) cursor =
    ap
      (λ (go : Text → Result (List Post)).
        query_page post_created_at post_id_of codec (feed_condition db viewer_id) limit cursor
          db.posts.rows
        >>= λ p. elim p.1 [ none ↦ ok p.0 | some c ↦ go c >>= λ more. ok (p.0 ++ more) ])
      (fun_ext (λ c. read_feed-walk codec db viewer_id limit requests (some c)))

length-count : {A : Type 0} (xs : List A) → length xs ≡ count_where (λ x. true) xs
unfolding count_where
length-count [] = refl
length-count (x ∷ xs) = ap suc (length-count xs)

length-listing :
    (codec : Codec) (db : Db) (viewer_id : ℕ)
    → length (listing post_created_at post_id_of codec (feed_condition db viewer_id) db.posts.rows)
      ≡ count_where (feed_condition db viewer_id) db.posts.rows
length-listing codec db viewer_id =
    length-count _
    ∙ count_where-order_by _ (λ p. true) (select (feed_condition db viewer_id) db.posts.rows)
    ∙ count_where-select (λ p. true) (feed_condition db viewer_id) db.posts.rows
    ∙ count_where_ext _ _ (λ p. refl) db.posts.rows

-- A client that follows `next_cursor` through the home feed, with a limit of at least 1 and more
-- requests than there are rows, ends with a list that holds each post that meets the feed's condition as
-- often as the table does, and no other. The codec obeys its documented laws, and post ids are unique.
pub read_feed_lem :
    (codec : Codec) (db : Db) (viewer_id n requests : ℕ)
    → IsLawful codec
    → Unique (λ (k : ℕ) (p : Post). p.id == k) db.posts.rows
    → count_where (feed_condition db viewer_id) db.posts.rows < requests
    → (feed : List Post) × (read_feed codec db viewer_id (suc n) requests none ≡ ok feed)
      × ((p : Post → Bool)
          → count_where p feed
            ≡ count_where (λ q. p q && feed_condition db viewer_id q) db.posts.rows)
read_feed_lem codec db viewer_id n requests lawful unique enough =
    let all : List Post =
      listing post_created_at post_id_of codec (feed_condition db viewer_id) db.posts.rows in
    let short = length-listing codec db viewer_id in
    (
      all,
      read_feed-walk codec db viewer_id (suc n) requests none
          ∙ walk_lem post_created_at post_id_of codec (feed_condition db viewer_id) db.posts.rows
              unique lawful n requests (ground (arith, short, enough)),
      λ p.
          count_where-order_by _ p (select (feed_condition db viewer_id) db.posts.rows)
          ∙ count_where-select p (feed_condition db viewer_id) db.posts.rows,
    )
