-- ===== src/Social/Queries.antt =====
-- ting_ting/social.py, the queries that the transitions and the visibility rules share.
use biexce_social_network.Prelude.{
  ℕ, min, max, Bool, true, false, Option, none, some, ◌==◌, ◌&&◌, ◌||◌, Result, ok, ◌>>=◌, exists,
  select, count_where, scalar_one_or_none, if◌then◌else◌,
}
use biexce_social_network.Models.{
  Table, Db, Follow, FollowStatus, FriendRequest, RequestState, pending, accepted, rejected, Block,
}

unfoldable pub canonical_pair : ℕ → ℕ → ℕ × ℕ
canonical_pair id_a id_b = (min id_a id_b, max id_a id_b)

-- Foreign keys: a row of the users table has the id.
unfoldable pub user_exists : Db → ℕ → Bool
user_exists db id = exists (λ u. u.id == id) db.users

abbrev pub block_pair : ℕ × ℕ → Block → Bool
block_pair k b = b.blocker_id == k.0 && b.blocked_id == k.1

unfoldable pub blocked_in : Table Block → ℕ → ℕ → Bool
blocked_in blocks a b = exists (λ r. block_pair (a, b) r || block_pair (b, a) r) blocks.rows

abbrev pub is_blocked : Db → ℕ → ℕ → Bool
is_blocked db a b = blocked_in db.blocks a b

abbrev pub is_active : FollowStatus → Bool
is_active FollowStatus.active = true
is_active FollowStatus.pending = false

abbrev pub is_pending : FollowStatus → Bool
is_pending FollowStatus.active = false
is_pending FollowStatus.pending = true

abbrev pub follow_pair : ℕ × ℕ → Follow → Bool
follow_pair k f = f.follower_id == k.0 && f.followed_id == k.1

unfoldable pub is_active_follower : Db → ℕ → ℕ → Bool
is_active_follower db follower_id followed_id =
    exists (λ f. follow_pair (follower_id, followed_id) f && is_active f.status) db.follows.rows

abbrev pub is_open : RequestState → Bool
is_open pending = true
is_open accepted = true
is_open rejected = false

abbrev pub is_accepted : RequestState → Bool
is_accepted accepted = true
is_accepted _ = false

abbrev pub is_rejected : RequestState → Bool
is_rejected rejected = true
is_rejected _ = false

abbrev pub is_pending_request : RequestState → Bool
is_pending_request pending = true
is_pending_request _ = false

abbrev pub request_pair : ℕ × ℕ → FriendRequest → Bool
request_pair k q = q.canonical_left == k.0 && q.canonical_right == k.1

-- `FriendRequest.state.in_(["pending", "accepted"])` on a canonical pair.
abbrev pub open_pair : ℕ × ℕ → FriendRequest → Bool
open_pair k q = request_pair k q && is_open q.state

pub data Relationship : Type 0 where
  blocked_by_me blocked_by_them friends pending_outgoing pending_incoming no_relationship :
      Relationship

abbrev pub of_request : ℕ → Option FriendRequest → Relationship
of_request viewer_id none = no_relationship
of_request viewer_id (some q) =
    if is_accepted q.state
    then friends
    else if q.sender_id == viewer_id
    then pending_outgoing
    else pending_incoming

-- "none" of the source is `no_relationship`.
unfoldable pub relationship_state : Db → ℕ → ℕ → Result Relationship
unfolding canonical_pair
relationship_state db viewer_id target_id =
    if exists (block_pair (viewer_id, target_id)) db.blocks.rows
    then ok blocked_by_me
    else if exists (block_pair (target_id, viewer_id)) db.blocks.rows
    then ok blocked_by_them
    else scalar_one_or_none
        (select (open_pair (canonical_pair viewer_id target_id)) db.requests.rows)
      >>= λ q. ok (of_request viewer_id q)

-- Follow counts reflect live edges only.
pub record UserCounts : Type 0 where
  pub followers : ℕ
  pub following : ℕ
  pub friend_count : ℕ

unfoldable pub user_counts : Db → ℕ → UserCounts
user_counts db user_id = record {
  followers = count_where (λ f. f.followed_id == user_id && is_active f.status) db.follows.rows;
  following = count_where (λ f. f.follower_id == user_id && is_active f.status) db.follows.rows;
  friend_count =
      count_where
        (λ q. (q.sender_id == user_id || q.recipient_id == user_id) && is_accepted q.state)
        db.requests.rows;
}
