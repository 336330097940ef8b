-- ===== src/Tests/Talk.antt =====
-- Runs of the likes and comments.
use biexce_social_network.Social.Queries.{user_exists}
use biexce_social_network.Social.Mutes.{post_exists}
use biexce_social_network.Interactions.{
  new_like, like_conflict, insert_like, find_comment, new_comment, resolve_parent, create_comment,
  create_like,
}
use biexce_social_network.Models.{Rival, public, Db, Comment, Post}
use biexce_social_network.Prelude.{
  true, ok, find_where, ◌⊎◌, some, none, arith, [], ◌≡◌, ◌∷◌, count_where, refl,
}
use biexce_social_network.Tests.Data.{fresh_db}
use biexce_social_network.Interactions.Likes.{IsLiked, HasUniqueLikes, create_like-IsLiked}
use biexce_social_network.Interactions.Replies.{create_comment_lem}

abbrev a_post : Post
a_post = record {
  id = 1;
  author_id = 2;
  content = "";
  audience = public;
  created_at = 60;
  updated_at = 60;
}

abbrev talk_db : Db
talk_db = record fresh_db { posts = record { rows = a_post ∷ []; next_id = 2 } }

talk_db-HasUniqueLikes : HasUniqueLikes talk_db
unfolding count_where
talk_db-HasUniqueLikes = record { like_unique = λ k. ground arith }

-- The same like, from another request between the check and the insert.
abbrev twin : Rival
twin d = (insert_like 1 1 d).1

raced-HasUniqueLikes : HasUniqueLikes (twin talk_db)
unfolding count_where insert_like like_conflict new_like user_exists post_exists
raced-HasUniqueLikes = record { like_unique = λ k. ground arith }

raced_known : (user_exists (twin talk_db) 1 ≡ true) × (post_exists (twin talk_db) 1 ≡ true)
unfolding count_where insert_like like_conflict new_like user_exists post_exists
raced_known = (refl, refl)

create_like-IsLiked_example : IsLiked 1 a_post (create_like twin 1 a_post talk_db)
create_like-IsLiked_example =
    create_like-IsLiked twin 1 a_post talk_db talk_db-HasUniqueLikes raced-HasUniqueLikes
      raced_known.0 raced_known.1

abbrev first_comment : Comment
first_comment = new_comment a_post 1 "hello" none talk_db

abbrev commented : Db
commented = (create_comment a_post 1 "hello" none talk_db).1

abbrev reply : Comment
reply = new_comment a_post 2 "hi" (some 1) commented

reply_made : (create_comment a_post 2 "hi" (some 1) commented).0 ≡ ok reply
unfolding create_comment resolve_parent new_comment post_exists user_exists count_where find_where
reply_made = refl

create_comment_lem_example :
    (reply.post_id ≡ a_post.id)
    × ((reply.parent_comment_id ≡ none)
        ⊎ ((p : Comment) × (find_comment p.id commented ≡ some p)
            × (reply.parent_comment_id ≡ some p.id)
            × (p.post_id ≡ a_post.id)
            × (p.parent_comment_id ≡ none)))
create_comment_lem_example = create_comment_lem a_post 2 "hi" (some 1) reply commented reply_made
