-- ===== src/Api/Social.antt =====
-- ting_ting/api/social.py: friend requests, friendships, blocks and follow requests.
use Prim.Native.String.{String}
use biexce_social_network.Prelude.{
  ℕ, Option, none, some, List, [], ◌∷◌, Error, if◌then◌else◌, ◌==◌, find_where, blocked,
  already_exists, self_request, not_sender, not_recipient, not_participant, self_block,
  already_blocked, not_owner,
}
use biexce_social_network.Models.{Db, User, Follow, FriendRequest, RequestState, Block}
use biexce_social_network.Social.Queries.{Relationship, relationship_state, is_pending}
use biexce_social_network.Social.Follows.{
  approve_follow_request, reject_follow_request, list_follow_requests,
}
use biexce_social_network.Social.Requests.{
  create_friend_request, accept_friend_request, reject_friend_request, cancel_sent_request,
  unfriend, list_requests, list_friends,
}
use biexce_social_network.Social.Blocks.{block_user, unblock_user, list_blocks}
use biexce_social_network.Api.Web.{
  refresh, Env, Web, Failure, http, unhandled, conflict, not_found, forbidden, validation_error,
  pure, refuse, query, require, attempt, execute, reading, commit, ◌>>=◌, ◌>>◌,
}
use biexce_social_network.Api.Responses.{
  UserRef, FriendRequestResponse, FollowRequestResponse, get_user, user_ref,
  friend_request_response, follow_request_response, each,
}

unfoldable pub find_user : ℕ → Web User
find_user target_id = do u ← query (get_user target_id); require u 404 not_found

abbrev pub on_send : Error → Failure
on_send self_request = http 409 conflict
on_send already_exists = http 409 conflict
on_send blocked = http 409 conflict
on_send e = unhandled e

unfoldable pub send_friend_request : Env → User → ℕ → Web FriendRequestResponse
send_friend_request env me target_user_id = do
  target ← find_user target_user_id
  req ← attempt (create_friend_request env.rival me target) on_send
  commit
  row ← refresh env (λ db. find_where (λ q. q.id == req.id) db.requests.rows)
  query (friend_request_response row)

unfoldable pub find_request : ℕ → Web FriendRequest
find_request id = do
  req ← query (λ db. find_where (λ q. q.id == id) db.requests.rows)
  require req 404 not_found

abbrev pub on_cancel : Error → Failure
on_cancel not_sender = http 403 forbidden
on_cancel e = http 409 conflict

unfoldable pub cancel_sent_request_endpoint : User → ℕ → Web (Unit {0})
cancel_sent_request_endpoint me request_id = do
  req ← find_request request_id
  gone ← attempt (cancel_sent_request req me) on_cancel
  commit

unfoldable pub list_my_requests : User → Option RequestState → Web (List FriendRequestResponse)
list_my_requests me state = do
  requests ← query (λ db. list_requests db me.id state)
  commit
  query (each friend_request_response requests)

abbrev pub on_decide : Error → Failure
on_decide not_recipient = http 403 forbidden
on_decide e = http 409 conflict

unfoldable pub accept_request : Env → User → ℕ → Web FriendRequestResponse
accept_request env me request_id = do
  req ← find_request request_id
  accepted ← attempt (accept_friend_request req me) on_decide
  commit
  row ← refresh env (λ db. find_where (λ q. q.id == accepted.id) db.requests.rows)
  query (friend_request_response row)

unfoldable pub reject_request : Env → User → ℕ → Web FriendRequestResponse
reject_request env me request_id = do
  req ← find_request request_id
  rejected ← attempt (reject_friend_request req me) on_decide
  commit
  row ← refresh env (λ db. find_where (λ q. q.id == rejected.id) db.requests.rows)
  query (friend_request_response row)

-- The users that exist among those with the ids.
abbrev known_refs : List ℕ → Db → List UserRef
known_refs [] db = []
known_refs (id ∷ ids) db =
    let rest = known_refs ids db in
    elim (get_user id db) [ some u ↦ user_ref u ∷ rest | none ↦ rest ]

abbrev other_ids : ℕ → List FriendRequest → List ℕ
other_ids me [] = []
other_ids me (q ∷ qs) =
    (if q.sender_id == me then q.recipient_id else q.sender_id) ∷ other_ids me qs

unfoldable pub list_my_friends : User → Web (List UserRef)
list_my_friends me = do
  rows ← query (λ db. list_friends db me.id)
  commit
  query (known_refs (other_ids me.id rows))

abbrev pub on_unfriend : Error → Failure
on_unfriend not_participant = http 403 forbidden
on_unfriend e = http 404 not_found

unfoldable pub unfriend_user : User → ℕ → Web (Unit {0})
unfriend_user me target_user_id = do
  target ← find_user target_user_id
  rows ← attempt (unfriend me.id target.id me) on_unfriend
  commit

unfoldable pub get_relationship : User → ℕ → Web Relationship
get_relationship me target_user_id = do
  target ← find_user target_user_id
  execute (reading (λ db. relationship_state db me.id target_user_id))

abbrev pub on_block : Error → Failure
on_block self_block = http 409 conflict
on_block already_blocked = http 409 conflict
on_block e = unhandled e

-- The reply carries the id of the block.
unfoldable pub block_target : Env → User → ℕ → Web ℕ
block_target env me target_user_id = do
  target ← find_user target_user_id
  blk ← attempt (block_user env.rival me target) on_block
  commit
  pure blk.id

unfoldable pub unblock_target : User → ℕ → Web (Unit {0})
unblock_target me target_user_id = do
  target ← find_user target_user_id
  removed ← execute (unblock_user me target_user_id)
  if removed then commit else refuse 404 not_found

abbrev blocked_ids : List Block → List ℕ
blocked_ids [] = []
blocked_ids (b ∷ bs) = b.blocked_id ∷ blocked_ids bs

unfoldable pub list_my_blocks : User → Web (List UserRef)
list_my_blocks me = do
  rows ← query (λ db. list_blocks db me.id)
  commit
  query (known_refs (blocked_ids rows))

abbrev pub on_list : Error → Failure
on_list e = http 422 validation_error

unfoldable pub list_follow_requests_endpoint : User → String → Web (List FollowRequestResponse)
list_follow_requests_endpoint me direction = do
  rows ← attempt (reading (λ db. list_follow_requests db me.id direction)) on_list
  query (each follow_request_response rows)

unfoldable pub find_pending_follow : ℕ → Web Follow
find_pending_follow request_id = do
  found ← query (λ db. find_where (λ f. f.id == request_id) db.follows.rows)
  follow ← require found 404 not_found
  if is_pending follow.status then pure follow else refuse 409 conflict

abbrev pub on_approve : Error → Failure
on_approve not_owner = http 403 forbidden
on_approve blocked = http 409 conflict
on_approve e = unhandled e

unfoldable pub approve_follow_request_endpoint : Env → User → ℕ → Web FollowRequestResponse
approve_follow_request_endpoint env me request_id = do
  follow ← find_pending_follow request_id
  approved ← attempt (approve_follow_request env.notify follow me) on_approve
  commit
  row ← refresh env (λ db. find_where (λ q. q.id == approved.id) db.follows.rows)
  query (follow_request_response row)

abbrev pub on_reject_follow : Error → Failure
on_reject_follow not_owner = http 403 forbidden
on_reject_follow e = unhandled e

unfoldable pub reject_follow_request_endpoint : User → ℕ → Web (Unit {0})
reject_follow_request_endpoint me request_id = do
  follow ← find_pending_follow request_id
  gone ← attempt (reject_follow_request follow me) on_reject_follow
  commit
