-- ===== src/Posts/Agreement.antt =====
-- The SQL of the feeds agrees with the check of a single read.
use biexce_social_network.UserState.{active_ban_clause-eq, active_ban_clause}
use biexce_social_network.Prelude.{
  inr, inl, Bool-cases, find_of_exists, true, exists_of_find, ◌||◌, is_none,
  count_where_ext_guarded, max, count_where_ext, false, ltb, ◌&&◌, exists-or, min, exists, arith,
  some, ap, not, ◌≡◌, ◌==◌, Unique, Bool, ℕ,
}
use biexce_social_network.Models.{Block, Db, User, Post, FriendRequest}
use biexce_social_network.Social.Queries.{
  request_pair, block_pair, blocked_in, canonical_pair, is_blocked, is_active_follower, is_accepted,
}
use biexce_social_network.Posts.Visibility.{
  private_author_gate, audience_allows, is_friend, is_visible_to, find_user,
}
use biexce_social_network.Posts.Feed.{
  in_reposted_ids, in_blocked_ids, in_friend_ids, in_active_followed_ids, in_private_author_ids,
  in_banned_author_ids, in_deactivated_author_ids, others_visible_condition,
  feed_suppression_conditions, feed_condition, following_condition,
}

-- `ck_friend_request_canonical`, and how the one writer fills the two columns.
abbrev misordered : FriendRequest → Bool
misordered q = not (
    q.canonical_left == min q.sender_id q.recipient_id
    && q.canonical_right == max q.sender_id q.recipient_id)

-- The primary key of users, the canonical columns of friend requests.
pub record IsConsistent (db : Db) : Type 0 where
  pub user_unique : Unique (λ (n : ℕ) (u : User). u.id == n) db.users
  pub canonical : exists misordered db.requests.rows ≡ false

in_blocked_ids-eq : (db : Db) (v a : ℕ) → in_blocked_ids db v a ≡ is_blocked db a v
unfolding in_blocked_ids blocked_in
in_blocked_ids-eq db v a = ground (
  arith,
  exists-or (λ (b : Block). b.blocker_id == v && b.blocked_id == a)
      (λ b. b.blocked_id == v && b.blocker_id == a) db.blocks.rows,
  count_where_ext
      (λ (b : Block).
        (b.blocker_id == v && b.blocked_id == a) || (b.blocked_id == v && b.blocker_id == a))
      (λ b. block_pair (a, v) b || block_pair (v, a) b) (λ b. ground arith) db.blocks.rows,
)

in_friend_ids-eq : (db : Db) → IsConsistent db → (v a : ℕ) → in_friend_ids db v a ≡ is_friend db a v
unfolding in_friend_ids is_friend
in_friend_ids-eq db c v a = ground (
  arith,
  exists-or
      (λ (q : FriendRequest). (q.sender_id == v && is_accepted q.state) && q.recipient_id == a)
      (λ q. (q.recipient_id == v && is_accepted q.state) && q.sender_id == a) db.requests.rows,
  count_where_ext_guarded
      (λ (q : FriendRequest).
        ((q.sender_id == v && is_accepted q.state) && q.recipient_id == a)
        || ((q.recipient_id == v && is_accepted q.state) && q.sender_id == a))
      (λ q. request_pair (canonical_pair a v) q && is_accepted q.state) misordered
      (λ q. ground arith) db.requests.rows c.canonical,
)

in_active_followed_ids-eq :
    (db : Db) (v a : ℕ) → in_active_followed_ids db v a ≡ is_active_follower db v a
unfolding in_active_followed_ids is_active_follower
in_active_followed_ids-eq db v a =
    ap (ltb 0) (count_where_ext _ _ (λ f. ground arith) db.follows.rows)

-- What the three user subqueries say of a user who exists.
user_ids-eq :
    (db : Db) (u : User) (x : ℕ)
    → IsConsistent db
    → find_user x db ≡ some u
    → (in_private_author_ids db x ≡ u.is_private)
      × (in_banned_author_ids db x ≡ active_ban_clause db.now u)
      × (in_deactivated_author_ids db x ≡ not (is_none u.deactivated_at))
unfolding in_private_author_ids in_banned_author_ids in_deactivated_author_ids
user_ids-eq db u x c h = (
  exists_of_find (λ w. w.id == x) (λ w. w.is_private) u db.users (c.user_unique x) h,
  exists_of_find (λ w. w.id == x) (λ w. active_ban_clause db.now w) u db.users (c.user_unique x) h,
  exists_of_find (λ w. w.id == x) (λ w. not (is_none w.deactivated_at)) u db.users (c.user_unique x)
      h,
)

abbrev author_exists : Db → ℕ → Bool
author_exists db a = exists (λ u. u.id == a) db.users

-- Another user's post: the SQL condition with the bans and deactivations is the single-read check.
others_visible-is_visible_to :
    (db : Db)
    → IsConsistent db
    → (v : ℕ) (p : Post) → author_exists db p.author_id ≡ true
    → (p.author_id == v) ≡ false
    → (others_visible_condition db v p
        && (not (in_banned_author_ids db p.author_id)
            && not (in_deactivated_author_ids db p.author_id)))
      ≡ is_visible_to db p.author_id v p.audience
unfolding others_visible_condition is_visible_to audience_allows private_author_gate
others_visible-is_visible_to db c v p e ne =
    let u = find_of_exists (λ (u : User). u.id == p.author_id) db.users e in
    let ids = user_ids-eq db u.0 p.author_id c u.1 in
    ground (
      arith,
      u.1,
      u.2,
      ids,
      active_ban_clause-eq db.now u.0,
      in_blocked_ids-eq db v p.author_id,
      in_friend_ids-eq db c v p.author_id,
      in_active_followed_ids-eq db v p.author_id,
    )

own_visible :
    (db : Db) (v : ℕ) (p : Post)
    → (p.author_id == v) ≡ true
    → is_visible_to db p.author_id v p.audience ≡ true
unfolding is_visible_to
own_visible db v p same = ground arith

-- For a post whose author exists, the home feed's condition holds exactly if the single-read check
-- shows the post to the viewer and no suppression (mute, ban, deactivation) applies to it. The
-- viewer's own posts are included. The tables obey the primary key of users and the canonical
-- columns of friend requests.
pub feed_condition-is_visible_to :
    (db : Db)
    → IsConsistent db
    → (v : ℕ) (p : Post) → author_exists db p.author_id ≡ true
    → feed_condition db v p
      ≡ (is_visible_to db p.author_id v p.audience && feed_suppression_conditions db v p)
unfolding feed_condition feed_suppression_conditions
feed_condition-is_visible_to db c v p e = elim (Bool-cases (p.author_id == v)) [
  | inl same ↦ ground (arith, same, own_visible db v p same)
  | inr other ↦ ground (arith, other, others_visible-is_visible_to db c v p e other)
]

-- For another user's post whose author exists, the following feed's condition holds exactly if the
-- viewer follows the author or a user whom the viewer follows reposted the post, the single-read
-- check shows it to the viewer, and no suppression applies. The tables obey the primary key of
-- users and the canonical columns of friend requests.
pub following_condition-is_visible_to :
    (db : Db)
    → IsConsistent db
    → (v : ℕ) (p : Post) → author_exists db p.author_id ≡ true
    → (p.author_id == v) ≡ false
    → following_condition db v p ≡ (
        (is_active_follower db v p.author_id || in_reposted_ids db v p.id)
        && (is_visible_to db p.author_id v p.audience && feed_suppression_conditions db v p))
unfolding following_condition feed_suppression_conditions
following_condition-is_visible_to db c v p e ne =
    ground (
      arith,
      others_visible-is_visible_to db c v p e ne,
      in_active_followed_ids-eq db v p.author_id,
    )
