-- ===== src/Social/Uniqueness/Follows.antt =====
-- Follow edges keep the constraints.
use biexce_social_network.Prelude.{
  zero, suc, [], ◌∷◌, none, some, true, false, some, ◌∷◌, Bool, arith, Unique-insert, true, suc,
  Unique-select, false, Unique-update_where, Option, List, ℕ, ◌≡◌,
}
use biexce_social_network.Models.{
  Db, Rival, Exec, User, Follow, After, After-if, After-pair, After-on_found, append,
}
use biexce_social_network.Social.Queries.{follow_pair}
use biexce_social_network.Social.Follows.{
  new_follow, follow_conflict, insert_follow, try_follow, request_follow, activate_row,
  delete_follow, activate, approve_follow_request, reject_follow_request, cancel_follow_request,
  activate_all, apply_privacy_change,
}
use biexce_social_network.Social.Uniqueness.Activities.{record_activity-IsValid}
use biexce_social_network.Social.Uniqueness.{IsValid, KeepsValid, follows-IsValid}

same_edge :
    (k j : ℕ × ℕ) (x y : Follow)
    → follow_pair k x ≡ true
    → follow_pair j x ≡ true
    → follow_pair j y ≡ true
    → follow_pair k y ≡ true
same_edge k j x y a b c = ground arith

follow_pair-new_follow :
    (follower target : User) (db : Db)
    → follow_pair (follower.id, target.id) (new_follow follower target db) ≡ true
unfolding new_follow
follow_pair-new_follow follower target db = ground arith

new_follow-IsValid :
    (follower target : User) {db : Db}
    → IsValid db
    → follow_conflict follower.id target.id db ≡ false
    → IsValid (record db { follows = append db.follows (new_follow follower target db) })
unfolding follow_conflict
new_follow-IsValid follower target {db} v fresh =
    let x = new_follow follower target db in
    let k : ℕ × ℕ = (follower.id, target.id) in
    follows-IsValid v (append db.follows x) (
      Unique-insert follow_pair k x db.follows.rows (ground arith)
        (λ j y a b. same_edge k j x y (follow_pair-new_follow follower target db) a b)
        v.follow_unique)

insert_follow-IsValid :
    (notify : Rival) (follower target : User) {db : Db}
    → KeepsValid notify
    → IsValid db
    → follow_conflict follower.id target.id db ≡ false
    → After IsValid (insert_follow notify follower target db)
unfolding insert_follow
insert_follow-IsValid notify follower target n v fresh =
    After-pair _ _
      (record_activity-IsValid notify _ _ _ _ _ n
        (new_follow-IsValid follower target v fresh)).state

try_follow-IsValid :
    (rival notify : Rival) (retry : Exec Follow) (follower target : User) {db : Db}
    → KeepsValid rival
    → KeepsValid notify
    → ((d : Db) → IsValid d → After IsValid (retry d))
    → IsValid db
    → After IsValid (try_follow rival notify retry follower target db)
unfolding try_follow
try_follow-IsValid rival notify retry follower target r n again v =
    search (After-if, After-pair, After-on_found, insert_follow-IsValid) depth 8

-- A follow keeps the constraints at any depth of retries, whatever valid changes other
-- transactions commit in between.
pub request_follow-IsValid :
    (depth : ℕ) (rival notify : Rival) (follower target : User) {db : Db}
    → KeepsValid rival
    → KeepsValid notify
    → IsValid db
    → After IsValid (request_follow depth rival notify follower target db)
unfolding request_follow
request_follow-IsValid zero rival notify follower target r n v = After-pair _ _ v
request_follow-IsValid (suc depth) rival notify follower target r n v =
    let again = λ (t : User) (d : Db) (w : IsValid d).
      request_follow-IsValid depth rival notify follower t r n w in
    search (After-if, After-pair, After-on_found, try_follow-IsValid, again) depth 9

activate_row-IsValid : (id : ℕ) {db : Db} → IsValid db → IsValid (activate_row id db)
activate_row-IsValid id {db} v =
    follows-IsValid v _
      (Unique-update_where follow_pair _ _ (λ k x _ h. h) db.follows.rows v.follow_unique)

activate-IsValid :
    (notify : Rival) (by_id : ℕ) (f : Follow) {db : Db}
    → KeepsValid notify
    → IsValid db
    → IsValid (activate notify by_id f db)
unfolding activate
activate-IsValid notify by_id f n v =
    (record_activity-IsValid notify _ _ _ _ _ n (activate_row-IsValid f.id v)).state

delete_follow-IsValid : (id : ℕ) {db : Db} → IsValid db → IsValid (delete_follow id db)
delete_follow-IsValid id {db} v =
    follows-IsValid v _ (Unique-select follow_pair _ db.follows.rows v.follow_unique)

ruleset rules = (After-if, After-pair, After-on_found, activate-IsValid, delete_follow-IsValid)

pub approve_follow_request-IsValid :
    (notify : Rival) (f : Follow) (by_user : User) {db : Db}
    → KeepsValid notify
    → IsValid db
    → After IsValid (approve_follow_request notify f by_user db)
unfolding approve_follow_request
approve_follow_request-IsValid notify f by_user n v = search rules depth 8

pub reject_follow_request-IsValid :
    (f : Follow) (by_user : User) {db : Db}
    → IsValid db
    → After IsValid (reject_follow_request f by_user db)
unfolding reject_follow_request
reject_follow_request-IsValid f by_user v = search rules depth 8

pub cancel_follow_request-IsValid :
    (follower : User) (target_id : ℕ) {db : Db}
    → IsValid db
    → After IsValid (cancel_follow_request follower target_id db)
unfolding cancel_follow_request
cancel_follow_request-IsValid follower target_id v = search rules depth 8

activate_all-IsValid :
    (notify : Rival) (by_id : ℕ) (fs : List Follow) {db : Db}
    → KeepsValid notify
    → IsValid db
    → IsValid (activate_all notify by_id fs db)
unfolding activate_all
activate_all-IsValid notify by_id [] n v = v
activate_all-IsValid notify by_id (f ∷ fs) n v =
    activate_all-IsValid notify by_id fs n (activate-IsValid notify by_id f n v)

-- The users table carries no constraint of the graph.
users-IsValid : (us : List User) {db : Db} → IsValid db → IsValid (record db { users = us })
users-IsValid us v = record {
  follow_unique = v.follow_unique;
  request_unique = v.request_unique;
  block_unique = v.block_unique;
  mute_user_unique = v.mute_user_unique;
  mute_post_unique = v.mute_post_unique;
  unread_unique = v.unread_unique;
}

pub apply_privacy_change-IsValid :
    (notify : Rival) (u : User) (is_private : Option Bool) {db : Db}
    → KeepsValid notify
    → IsValid db
    → After IsValid (apply_privacy_change notify u is_private db)
unfolding apply_privacy_change
apply_privacy_change-IsValid notify u none n v = After-pair _ _ v
apply_privacy_change-IsValid notify u (some true) n v = After-pair _ _ (users-IsValid _ v)
apply_privacy_change-IsValid notify u (some false) n v =
    After-pair _ _ (activate_all-IsValid notify u.id _ n (users-IsValid _ v))
