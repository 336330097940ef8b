-- ===== src/Tests/Graph.antt =====
-- Runs of the social graph.
use biexce_social_network.Notifications.Preferences.{is_enabled}
use biexce_social_network.Social.Uniqueness.Requests.{IsLoaded}
use biexce_social_network.Social.Severance.Follows.{serial}
use biexce_social_network.Social.Severance.{IsSevered}
use biexce_social_network.Social.Follows.{
  find_follow, follow_conflict, insert_follow, unsettle_follows_on_block, try_follow,
  request_follow,
}
use biexce_social_network.Social.Blocks.{block_conflict, insert_block, sever_pair, block_user}
use biexce_social_network.Models.{RequestState, FriendRequest, Db}
use biexce_social_network.Social.Uniqueness.{IsValid}
use biexce_social_network.Notifications.Writing.{
  insert_activity, record_activity, unread_of, mark_all_read,
}
use biexce_social_network.Social.Requests.{
  request_conflict, insert_request, accept_friend_request, create_friend_request, new_request,
}
use biexce_social_network.Social.Queries.{
  pending_incoming, pending_outgoing, Relationship, is_blocked, request_pair, canonical_pair,
  user_exists, blocked_in, relationship_state,
}
use biexce_social_network.Prelude.{
  find_where, none, exists, false, recursion_error, err, true, ok, scalar_one_or_none, ◌≡◌, arith,
  refl, select, count_where, [],
}
use biexce_social_network.Tests.Data.{alice, bob, fresh_db}
use biexce_social_network.Social.Machine.{
  Reach-IsValid, Reach-IsSevered, next, here, follow_step, block_step, request_step,
}
use biexce_social_network.Social.Transitions.{create_friend_request_lem, accept_friend_request_lem}
use biexce_social_network.Social.FollowRetry.{
  IsFollowed, request_follow-decides, request_follow-unbounded, delete_target,
}
use biexce_social_network.Notifications.Unread.{mark_all_read_lem}

pub fresh_db-IsValid : IsValid fresh_db
unfolding count_where
fresh_db-IsValid = record {
  follow_unique = λ k. ground arith;
  request_unique = λ k. ground arith;
  block_unique = λ k. ground arith;
  mute_user_unique = λ k. ground arith;
  mute_post_unique = λ k. ground arith;
  unread_unique = λ k. ground arith;
}

fresh_db-IsSevered : IsSevered fresh_db
unfolding count_where
fresh_db-IsSevered = record { no_follow = λ a b h. refl; no_request = λ a b h. refl }

abbrev followed : Db
followed = (request_follow 1 serial serial alice bob fresh_db).1

Reach-IsValid_example : IsValid (block_user serial bob alice followed).1
Reach-IsValid_example =
    Reach-IsValid
      (next (next here (follow_step 1 serial serial alice bob (λ d v. v) (λ d v. v)))
        (block_step serial bob alice (λ d v. v)))
      fresh_db-IsValid

Reach-IsSevered_example : IsSevered (block_user serial bob alice followed).1
Reach-IsSevered_example =
    Reach-IsSevered
      (next (next here (follow_step 1 serial serial alice bob refl refl))
        (block_step serial bob alice refl))
      fresh_db-IsSevered

-- The block removes the edge.
severed_edge : (block_user serial bob alice followed).1.follows.rows ≡ []
unfolding block_user sever_pair unsettle_follows_on_block insert_block block_conflict request_follow
    try_follow insert_follow follow_conflict user_exists blocked_in record_activity is_enabled
    count_where select scalar_one_or_none find_where
severed_edge = refl

abbrev asked : FriendRequest
asked = new_request alice bob fresh_db

asked_made : (create_friend_request serial alice bob fresh_db).0 ≡ ok asked
unfolding create_friend_request insert_request request_conflict user_exists blocked_in count_where
    select scalar_one_or_none find_where
asked_made = refl

create_friend_request_lem_example :
    (relationship_state (create_friend_request serial alice bob fresh_db).1 1 2
      ≡ ok pending_outgoing)
    × (relationship_state (create_friend_request serial alice bob fresh_db).1 2 1
        ≡ ok pending_incoming)
create_friend_request_lem_example = create_friend_request_lem alice bob asked fresh_db asked_made

abbrev asked_db : Db
asked_db = (create_friend_request serial alice bob fresh_db).1

asked_db-IsValid : IsValid asked_db
asked_db-IsValid =
    Reach-IsValid (next here (request_step serial alice bob (λ d v. v))) fresh_db-IsValid

asked-IsLoaded : IsLoaded asked asked_db
unfolding new_request create_friend_request insert_request request_conflict user_exists blocked_in
    count_where select scalar_one_or_none find_where
asked-IsLoaded = refl

asked_canonical : request_pair (canonical_pair asked.sender_id asked.recipient_id) asked ≡ true
unfolding new_request canonical_pair
asked_canonical = refl

accepted_ok :
    (accept_friend_request asked bob asked_db).0
    ≡ ok (record asked { state = RequestState.accepted })
unfolding accept_friend_request new_request create_friend_request insert_request request_conflict
    user_exists blocked_in count_where select scalar_one_or_none find_where
accepted_ok = refl

accept_friend_request_lem_example :
    let after = (accept_friend_request asked bob asked_db).1 in
    (relationship_state after asked.sender_id asked.recipient_id ≡ ok Relationship.friends)
    × (relationship_state after asked.recipient_id asked.sender_id ≡ ok Relationship.friends)
accept_friend_request_lem_example =
    accept_friend_request_lem asked (record asked { state = RequestState.accepted }) bob asked_db
      asked_db-IsValid asked-IsLoaded asked_canonical accepted_ok

known : (user_exists fresh_db alice.id ≡ true) × (user_exists fresh_db bob.id ≡ true)
unfolding user_exists count_where
known = (refl, refl)

free_pair :
    (is_blocked fresh_db alice.id bob.id ≡ false) × (find_follow alice.id bob.id fresh_db ≡ ok none)
unfolding blocked_in count_where select scalar_one_or_none find_where
free_pair = (refl, refl)

request_follow-decides_example :
    IsFollowed alice bob (request_follow 8 serial serial alice bob fresh_db)
unfolding count_where
request_follow-decides_example =
    request_follow-decides 7 alice bob fresh_db known.0 known.1 refl free_pair.0 (λ k. omega arith)

request_follow-unbounded_example :
    (request_follow 1000 (delete_target bob) serial alice bob fresh_db).0 ≡ err recursion_error
request_follow-unbounded_example =
    request_follow-unbounded 1000 serial alice bob fresh_db refl refl free_pair.0 free_pair.1

mark_all_read_lem_example :
    ((mark_all_read bob.id followed).0
      ≡ ok (count_where (unread_of bob.id) followed.activities.rows))
    × (exists (unread_of bob.id) (mark_all_read bob.id followed).1.activities.rows ≡ false)
    × (count_where (unread_of alice.id) (mark_all_read bob.id followed).1.activities.rows
        ≡ count_where (unread_of alice.id) followed.activities.rows)
mark_all_read_lem_example = mark_all_read_lem bob.id alice.id followed refl

-- Bob has the one notification of the follow.
followed_unread : count_where (unread_of bob.id) followed.activities.rows ≡ 1
unfolding request_follow try_follow insert_follow follow_conflict user_exists blocked_in
    record_activity is_enabled count_where select scalar_one_or_none insert_activity find_where
followed_unread = refl
