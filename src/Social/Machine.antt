-- ===== src/Social/Machine.antt =====
-- The operations of ting_ting/social.py as the steps of one machine over the database, and what
-- every run of it keeps.
use biexce_social_network.Social.Severance.Blocks.{unblock_user-IsSevered, block_user-IsSevered}
use biexce_social_network.Social.Severance.Requests.{
  cancel_sent_request-IsSevered, unfriend-IsSevered, reject_friend_request-IsSevered,
  accept_friend_request-IsSevered, create_friend_request-IsSevered,
}
use biexce_social_network.Social.Uniqueness.Mutes.{
  unmute_post-IsValid, mute_post-IsValid, unmute_user-IsValid, mute_user-IsValid,
}
use biexce_social_network.Social.Uniqueness.Blocks.{unblock_user-IsValid, block_user-IsValid}
use biexce_social_network.Social.Uniqueness.Requests.{
  cancel_sent_request-IsValid, unfriend-IsValid, reject_friend_request-IsValid,
  accept_friend_request-IsValid, create_friend_request-IsValid, IsLoaded,
}
use biexce_social_network.Social.Severance.Follows.{
  apply_privacy_change-IsSevered, cancel_follow_request-IsSevered, reject_follow_request-IsSevered,
  approve_follow_request-IsSevered, request_follow-IsSevered, serial,
}
use biexce_social_network.Prelude.{Bool, Option, ◌≡◌, ℕ}
use biexce_social_network.Social.Uniqueness.Follows.{
  apply_privacy_change-IsValid, cancel_follow_request-IsValid, reject_follow_request-IsValid,
  approve_follow_request-IsValid, request_follow-IsValid,
}
use biexce_social_network.Models.{
  After-on_found, After-pair, Mute, After-if, Table, Db, Rival, User, Follow, FriendRequest, After,
}
use biexce_social_network.Social.Follows.{
  request_follow, approve_follow_request, reject_follow_request, cancel_follow_request,
  apply_privacy_change,
}
use biexce_social_network.Social.Requests.{
  create_friend_request, accept_friend_request, reject_friend_request, unfriend,
  cancel_sent_request,
}
use biexce_social_network.Social.Blocks.{block_user, unblock_user}
use biexce_social_network.Social.Mutes.{mute_user, unmute_user, mute_post, unmute_post}
use biexce_social_network.Social.Uniqueness.{IsValid, KeepsValid}
use biexce_social_network.Social.Severance.{IsSevered}

-- One call, returning or raising. `Allowed` says what other transactions may commit during it.
pub data Step (Allowed : Rival → Type 0) (db : Db) : Db → Type 0 where
  follow_step :
      (depth : ℕ) (rival notify : Rival) (follower target : User)
      → Allowed rival
      → Allowed notify
      → Step Allowed db (request_follow depth rival notify follower target db).1
  approve_step :
      (notify : Rival) (f : Follow) (by_user : User)
      → Allowed notify
      → Step Allowed db (approve_follow_request notify f by_user db).1
  reject_follow_step :
      (f : Follow) (by_user : User) → Step Allowed db (reject_follow_request f by_user db).1
  cancel_follow_step :
      (follower : User) (target_id : ℕ)
      → Step Allowed db (cancel_follow_request follower target_id db).1
  privacy_step :
      (notify : Rival) (u : User) (is_private : Option Bool)
      → Allowed notify
      → Step Allowed db (apply_privacy_change notify u is_private db).1
  request_step :
      (rival : Rival) (sender recipient : User)
      → Allowed rival
      → Step Allowed db (create_friend_request rival sender recipient db).1
  accept_step :
      (req : FriendRequest) (by_user : User)
      → IsLoaded req db
      → Step Allowed db (accept_friend_request req by_user db).1
  reject_step :
      (req : FriendRequest) (by_user : User)
      → Step Allowed db (reject_friend_request req by_user db).1
  unfriend_step : (a b : ℕ) (by_user : User) → Step Allowed db (unfriend a b by_user db).1
  cancel_step :
      (req : FriendRequest) (by_user : User)
      → Step Allowed db (cancel_sent_request req by_user db).1
  block_step :
      (rival : Rival) (blocker target : User)
      → Allowed rival
      → Step Allowed db (block_user rival blocker target db).1
  unblock_step :
      (unblocker : User) (target_id : ℕ) → Step Allowed db (unblock_user unblocker target_id db).1
  mute_step :
      (rival : Rival) (muter : User) (target_id : ℕ)
      → Allowed rival
      → Step Allowed db (mute_user rival muter target_id db).1
  unmute_step : (muter : User) (target_id : ℕ) → Step Allowed db (unmute_user muter target_id db).1
  mute_post_step :
      (rival : Rival) (muter : User) (post_id : ℕ)
      → Allowed rival
      → Step Allowed db (mute_post rival muter post_id db).1
  unmute_post_step : (muter : User) (post_id : ℕ) → Step Allowed db (unmute_post muter post_id db).1

-- A run: any number of calls, one after another.
pub data Reach (Allowed : Rival → Type 0) (start : Db) : Db → Type 0 where
  here : Reach Allowed start start
  next : {d e : Db} → Reach Allowed start d → Step Allowed d e → Reach Allowed start e

Step-IsValid : {d e : Db} → Step KeepsValid d e → IsValid d → IsValid e
Step-IsValid (follow_step depth rival notify a b r n) v =
    (request_follow-IsValid depth rival notify a b r n v).state
Step-IsValid (approve_step notify f u n) v = (approve_follow_request-IsValid notify f u n v).state
Step-IsValid (reject_follow_step f u) v = (reject_follow_request-IsValid f u v).state
Step-IsValid (cancel_follow_step u t) v = (cancel_follow_request-IsValid u t v).state
Step-IsValid (privacy_step notify u p n) v = (apply_privacy_change-IsValid notify u p n v).state
Step-IsValid (request_step rival a b r) v = (create_friend_request-IsValid rival a b r v).state
Step-IsValid (accept_step q u l) v = (accept_friend_request-IsValid q u v l).state
Step-IsValid (reject_step q u) v = (reject_friend_request-IsValid q u v).state
Step-IsValid (unfriend_step a b u) v = (unfriend-IsValid a b u v).state
Step-IsValid (cancel_step q u) v = (cancel_sent_request-IsValid q u v).state
Step-IsValid (block_step rival a b r) v = (block_user-IsValid rival a b r v).state
Step-IsValid (unblock_step u t) v = (unblock_user-IsValid u t v).state
Step-IsValid (mute_step rival u t r) v = (mute_user-IsValid rival u t r v).state
Step-IsValid (unmute_step u t) v = (unmute_user-IsValid u t v).state
Step-IsValid (mute_post_step rival u t r) v = (mute_post-IsValid rival u t r v).state
Step-IsValid (unmute_post_step u t) v = (unmute_post-IsValid u t v).state

-- Every run of calls keeps the six uniqueness constraints, whatever other transactions that keep them
-- commit between the checks and the inserts of its calls, and whether the calls return or raise.
pub Reach-IsValid : {s d : Db} → Reach KeepsValid s d → IsValid s → IsValid d
Reach-IsValid here v = v
Reach-IsValid (next r st) v = Step-IsValid st (Reach-IsValid r v)

-- Nothing else commits during a call.
abbrev pub Alone : Rival → Type 0
Alone r = r ≡ serial

mutes-IsSevered : (t : Table Mute) {db : Db} → IsSevered db → IsSevered (record db { mutes = t })
mutes-IsSevered t v = record { no_follow = v.no_follow; no_request = v.no_request }

ruleset mute_rules = (After-if, After-pair, After-on_found, mutes-IsSevered)

mute_user-IsSevered :
    (muter : User) (target_id : ℕ) {db : Db}
    → IsSevered db
    → After IsSevered (mute_user serial muter target_id db)
unfolding mute_user
mute_user-IsSevered muter target_id v = search mute_rules depth 8

mute_post-IsSevered :
    (muter : User) (post_id : ℕ) {db : Db}
    → IsSevered db
    → After IsSevered (mute_post serial muter post_id db)
unfolding mute_post
mute_post-IsSevered muter post_id v = search mute_rules depth 8

unmute_user-IsSevered :
    (muter : User) (target_id : ℕ) {db : Db}
    → IsSevered db
    → After IsSevered (unmute_user muter target_id db)
unfolding unmute_user
unmute_user-IsSevered muter target_id v = search mute_rules depth 8

unmute_post-IsSevered :
    (muter : User) (post_id : ℕ) {db : Db}
    → IsSevered db
    → After IsSevered (unmute_post muter post_id db)
unfolding unmute_post
unmute_post-IsSevered muter post_id v = search mute_rules depth 8

Step-IsSevered : {d e : Db} → Step Alone d e → IsSevered d → IsSevered e
Step-IsSevered (follow_step depth rival notify a b r n) v =
    rw (r, n) (request_follow-IsSevered depth a b v).state
Step-IsSevered (approve_step notify f u n) v = rw n (approve_follow_request-IsSevered f u v).state
Step-IsSevered (reject_follow_step f u) v = (reject_follow_request-IsSevered f u v).state
Step-IsSevered (cancel_follow_step u t) v = (cancel_follow_request-IsSevered u t v).state
Step-IsSevered (privacy_step notify u p n) v = rw n (apply_privacy_change-IsSevered u p v).state
Step-IsSevered (request_step rival a b r) v = rw r (create_friend_request-IsSevered a b v).state
Step-IsSevered (accept_step q u l) v = (accept_friend_request-IsSevered q u v l).state
Step-IsSevered (reject_step q u) v = (reject_friend_request-IsSevered q u v).state
Step-IsSevered (unfriend_step a b u) v = (unfriend-IsSevered a b u v).state
Step-IsSevered (cancel_step q u) v = (cancel_sent_request-IsSevered q u v).state
Step-IsSevered (block_step rival a b r) v = rw r (block_user-IsSevered a b v).state
Step-IsSevered (unblock_step u t) v = (unblock_user-IsSevered u t v).state
Step-IsSevered (mute_step rival u t r) v = rw r (mute_user-IsSevered u t v).state
Step-IsSevered (unmute_step u t) v = (unmute_user-IsSevered u t v).state
Step-IsSevered (mute_post_step rival u t r) v = rw r (mute_post-IsSevered u t v).state
Step-IsSevered (unmute_post_step u t) v = (unmute_post-IsSevered u t v).state

-- In every run of calls one after another from a state where this holds, a standing block leaves no
-- follow edge and no open friend request between its two users.
pub Reach-IsSevered : {s d : Db} → Reach Alone s d → IsSevered s → IsSevered d
Reach-IsSevered here v = v
Reach-IsSevered (next r st) v = Step-IsSevered st (Reach-IsSevered r v)
