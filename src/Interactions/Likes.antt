-- ===== src/Interactions/Likes.antt =====
-- ting_ting/interactions.py: what create_like leaves behind.
use biexce_social_network.Social.Mutes.{post_exists}
use biexce_social_network.Social.Queries.{user_exists}
use biexce_social_network.Models.{Db, Like, Rival, Post}
use biexce_social_network.Interactions.{
  ltb, post_exists, true, user_exists, false, ok, like_pair, select, exists, Db, Like, Result,
  new_like, Rival, scalar_one_or_none, Post, like_conflict, create_like, insert_like,
}
use biexce_social_network.Prelude.{
  count_of_select_none, ltb, ap, inr, arith, inl, select_inserted, Unique, exists_of_select,
  select_unique, refl, true, false, ok, exists, ◌≡◌, select, Result, scalar_one_or_none, ℕ, ◌∷◌, [],
}

-- `uq_user_post_like`
pub record HasUniqueLikes (db : Db) : Type 0 where
  pub like_unique : Unique like_pair db.likes.rows

-- The like of a user and a post that a call returned is the one that is stored, and a second call
-- returns it again.
pub record IsLiked (user_id : ℕ) (post : Post) (outcome : Result Like × Db) : Type 0 where
  pub like : Like
  pub returned : outcome.0 ≡ ok like
  pub only : select (like_pair (user_id, post.id)) outcome.1.likes.rows ≡ like ∷ []
  pub again : (rival : Rival) → create_like rival user_id post outcome.1 ≡ (ok like, outcome.1)

found_again :
    (rival : Rival) (user_id : ℕ) (post : Post) (l : Like) (db : Db)
    → select (like_pair (user_id, post.id)) db.likes.rows ≡ l ∷ []
    → create_like rival user_id post db ≡ (ok l, db)
unfolding create_like scalar_one_or_none
found_again rival user_id post l db h = rw h refl

insert_like-made :
    (user_id : ℕ) (post : Post) (db : Db)
    → exists (like_pair (user_id, post.id)) db.likes.rows ≡ false
    → user_exists db user_id ≡ true
    → post_exists db post.id ≡ true
    → IsLiked user_id post (insert_like user_id post.id db)
unfolding insert_like like_conflict new_like
insert_like-made user_id post db h u p =
    let x = new_like user_id post.id db in
    let only = select_inserted (like_pair (user_id, post.id)) db.likes.rows x h (ground arith) in
    rw (h, u, p)
      (record {
        like = x;
        returned = refl;
        only = only;
        again = λ rival. found_again rival user_id post x _ only;
      })

insert_like-raced :
    (user_id : ℕ) (post : Post) (l : Like) (db : Db)
    → select (like_pair (user_id, post.id)) db.likes.rows ≡ l ∷ []
    → like_pair (user_id, post.id) l ≡ true
    → IsLiked user_id post (insert_like user_id post.id db)
unfolding insert_like like_conflict scalar_one_or_none
insert_like-raced user_id post l db h k =
    rw
      (
        exists_of_select (like_pair (user_id, post.id)) (like_pair (user_id, post.id)) l
            db.likes.rows h k,
        h,
      )
      (record {
        like = l;
        returned = refl;
        only = h;
        again = λ rival. found_again rival user_id post l _ h;
      })

insert_like-IsLiked :
    (user_id : ℕ) (post : Post) (db : Db)
    → HasUniqueLikes db
    → user_exists db user_id ≡ true
    → post_exists db post.id ≡ true
    → IsLiked user_id post (insert_like user_id post.id db)
insert_like-IsLiked user_id post db v u p =
    elim (select_unique (like_pair (user_id, post.id)) db.likes.rows
      (v.like_unique (user_id, post.id))) [
        | inl h ↦
            insert_like-made user_id post db
              (ap (ltb 0) (count_of_select_none (like_pair (user_id, post.id)) db.likes.rows h)) u p
        | inr (l, k, h) ↦ insert_like-raced user_id post l db h k
      ]

-- A like of a user and a post returns a like, never the `IntegrityError`: it is the only stored one of
-- the two, and a second call returns it and changes nothing. This holds whatever other requests commit
-- between the check and the insert, the same like included, if they keep one like for each user and
-- post, and the user and the post.
pub create_like-IsLiked :
    (rival : Rival) (user_id : ℕ) (post : Post) (db : Db)
    → HasUniqueLikes db
    → HasUniqueLikes (rival db)
    → user_exists (rival db) user_id ≡ true
    → post_exists (rival db) post.id ≡ true
    → IsLiked user_id post (create_like rival user_id post db)
unfolding create_like scalar_one_or_none
create_like-IsLiked rival user_id post db v w u p =
    elim (select_unique (like_pair (user_id, post.id)) db.likes.rows
      (v.like_unique (user_id, post.id))) [
        | inl h ↦ rw h (insert_like-IsLiked user_id post (rival db) w u p)
        | inr (l, k, h) ↦ rw h (record {
          like = l;
          returned = refl;
          only = h;
          again = λ other. found_again other user_id post l db h;
        })
      ]
