-- ===== src/Posts/Feed.antt =====
-- ting_ting/posts.py, the feeds: visibility and suppression as SQL conditions on a post.
use biexce_social_network.Prelude.{
  is_value, is_none, ◌||◌, not, false, List, true, ◌==◌, ◌&&◌, exists, Result, ℕ, Bool, Option,
}
use biexce_social_network.Models.{Db, Post, Audience, friends, public, followers}
use biexce_social_network.Social.Queries.{is_accepted, is_active}
use biexce_social_network.UserState.{active_ban_clause}
use biexce_social_network.Keyset.{Text, Codec}
use biexce_social_network.Keyset.Pages.{query_page}

-- Each `…_ids` subquery is the test that an id is among its rows.
unfoldable pub in_blocked_ids : Db → ℕ → ℕ → Bool
in_blocked_ids db viewer_id x =
    exists (λ b. b.blocker_id == viewer_id && b.blocked_id == x) db.blocks.rows
    || exists (λ b. b.blocked_id == viewer_id && b.blocker_id == x) db.blocks.rows

unfoldable pub in_friend_ids : Db → ℕ → ℕ → Bool
in_friend_ids db viewer_id x =
    exists (λ q. (q.sender_id == viewer_id && is_accepted q.state) && q.recipient_id == x)
      db.requests.rows
    || exists (λ q. (q.recipient_id == viewer_id && is_accepted q.state) && q.sender_id == x)
        db.requests.rows

-- `social.active_followed_ids`
unfoldable pub in_active_followed_ids : Db → ℕ → ℕ → Bool
in_active_followed_ids db viewer_id x =
    exists (λ f. (f.follower_id == viewer_id && is_active f.status) && f.followed_id == x)
      db.follows.rows

unfoldable pub in_private_author_ids : Db → ℕ → Bool
in_private_author_ids db x = exists (λ u. u.is_private && u.id == x) db.users

abbrev is_public : Audience → Bool
is_public public = true
is_public _ = false

abbrev is_friends : Audience → Bool
is_friends friends = true
is_friends _ = false

abbrev is_followers : Audience → Bool
is_followers followers = true
is_followers _ = false

unfoldable pub others_visible_condition : Db → ℕ → Post → Bool
others_visible_condition db viewer_id p =
    (is_public p.audience
      && (not (in_private_author_ids db p.author_id)
          && not (in_blocked_ids db viewer_id p.author_id)))
    || ((is_public p.audience
          && (in_private_author_ids db p.author_id
              && ((in_friend_ids db viewer_id p.author_id
                    || in_active_followed_ids db viewer_id p.author_id)
                  && not (in_blocked_ids db viewer_id p.author_id))))
        || ((is_friends p.audience
              && (in_friend_ids db viewer_id p.author_id
                  && not (in_blocked_ids db viewer_id p.author_id)))
            || (is_followers p.audience
                && (in_active_followed_ids db viewer_id p.author_id
                    && not (in_blocked_ids db viewer_id p.author_id)))))

-- `x NOT IN (SELECT column …)`: not true if a selected value is `x`, or is NULL.
abbrev not_in_column : {A : Type 0} → (A → Bool) → (A → Option ℕ) → List A → ℕ → Bool
not_in_column p column rows x =
    not (exists (λ r. p r && (is_none (column r) || is_value (column r) x)) rows)

unfoldable pub not_muted : Db → ℕ → ℕ → Bool
not_muted db viewer_id x =
    not_in_column (λ m. m.muted_by == viewer_id && is_none m.post_id) (λ m. m.target_id)
      db.mutes.rows x

unfoldable pub not_muted_post : Db → ℕ → ℕ → Bool
not_muted_post db viewer_id x =
    not_in_column (λ m. m.muted_by == viewer_id && is_none m.target_id) (λ m. m.post_id)
      db.mutes.rows x

unfoldable pub in_banned_author_ids : Db → ℕ → Bool
in_banned_author_ids db x = exists (λ u. active_ban_clause db.now u && u.id == x) db.users

unfoldable pub in_deactivated_author_ids : Db → ℕ → Bool
in_deactivated_author_ids db x = exists (λ u. not (is_none u.deactivated_at) && u.id == x) db.users

unfoldable pub feed_suppression_conditions : Db → ℕ → Post → Bool
feed_suppression_conditions db viewer_id p =
    (not_muted db viewer_id p.author_id && not (in_banned_author_ids db p.author_id))
    && (not (in_deactivated_author_ids db p.author_id) && not_muted_post db viewer_id p.id)

-- The WHERE of `query_feed`, without the cursor.
unfoldable pub feed_condition : Db → ℕ → Post → Bool
feed_condition db viewer_id p =
    (p.author_id == viewer_id || others_visible_condition db viewer_id p)
    && feed_suppression_conditions db viewer_id p

unfoldable pub in_reposted_ids : Db → ℕ → ℕ → Bool
in_reposted_ids db viewer_id x =
    exists (λ r. in_active_followed_ids db viewer_id r.user_id && r.post_id == x) db.reposts.rows

-- The WHERE of `query_following_feed`, without the cursor.
unfoldable pub following_condition : Db → ℕ → Post → Bool
following_condition db viewer_id p =
    ((in_active_followed_ids db viewer_id p.author_id && others_visible_condition db viewer_id p)
      || (in_reposted_ids db viewer_id p.id && others_visible_condition db viewer_id p))
    && feed_suppression_conditions db viewer_id p

abbrev pub post_created_at : Post → ℕ
post_created_at p = p.created_at

abbrev pub post_id_of : Post → ℕ
post_id_of p = p.id

module _ (codec : Codec) where
  unfoldable pub query_feed : Db → ℕ → ℕ → Option Text → Result (List Post × Option Text)
  query_feed db viewer_id limit cursor =
      query_page post_created_at post_id_of codec (feed_condition db viewer_id) limit cursor
        db.posts.rows

  unfoldable pub query_following_feed : Db → ℕ → ℕ → Option Text → Result (List Post × Option Text)
  query_following_feed db viewer_id limit cursor =
      query_page post_created_at post_id_of codec (following_condition db viewer_id) limit cursor
        db.posts.rows
