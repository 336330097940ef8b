-- ===== src/Social/Severance/Follows.antt =====
-- Follow edges keep blocked pairs severed.
use biexce_social_network.Prelude.{
  true, count_where-select_le, select, none, zero, ◌==◌, some, ◌∷◌, count_where-update_where, Bool,
  [], suc, List, count_where-insert, arith, Option,
}
use biexce_social_network.Models.{
  FollowStatus, with_rows, SourceKey, Kind, Activity, Table, Db, Rival, Exec, User, Follow, After,
  After-if, After-pair, After-on_found, append,
}
use biexce_social_network.Social.Queries.{is_blocked, follow_pair}
use biexce_social_network.Social.Follows.{
  new_follow, insert_follow, try_follow, request_follow, activate_row, activate,
  approve_follow_request, reject_follow_request, cancel_follow_request, activate_all,
  apply_privacy_change,
}
use biexce_social_network.Social.Severance.{false, ◌≡◌, ℕ, IsSevered}
use biexce_social_network.Notifications.Writing.{UnreadKey, record_activity, insert_activity}

-- No other transaction commits in between.
abbrev pub serial : Rival
serial d = d

activities-IsSevered :
    (t : Table Activity) {db : Db} → IsSevered db → IsSevered (record db { activities = t })
activities-IsSevered t v = record { no_follow = v.no_follow; no_request = v.no_request }

insert_activity-IsSevered :
    (k : UnreadKey) (post_id : Option ℕ) {db : Db}
    → IsSevered db
    → After IsSevered (insert_activity k post_id db)
unfolding insert_activity
insert_activity-IsSevered k post_id v = search (After-if, After-pair, activities-IsSevered)

pub record_activity-IsSevered :
    (user_id actor_id : ℕ) (kind : Kind) (post_id : Option ℕ) (source_key : Option SourceKey)
    {db : Db}
    → IsSevered db
    → After IsSevered (record_activity serial user_id actor_id kind post_id source_key db)
unfolding record_activity
record_activity-IsSevered user_id actor_id kind post_id source_key v =
    search (After-if, After-pair, insert_activity-IsSevered)

new_follow-IsSevered :
    (follower target : User) {db : Db}
    → IsSevered db
    → is_blocked db follower.id target.id ≡ false
    → IsSevered (record db { follows = append db.follows (new_follow follower target db) })
unfolding new_follow
new_follow-IsSevered follower target {db} v free = record {
  no_follow = λ a b h. ground (
    arith,
    v.no_follow a b h,
    count_where-insert (follow_pair (a, b)) db.follows.rows (new_follow follower target db),
  );
  no_request = v.no_request;
}

insert_follow-IsSevered :
    (follower target : User) {db : Db}
    → IsSevered db
    → is_blocked db follower.id target.id ≡ false
    → After IsSevered (insert_follow serial follower target db)
unfolding insert_follow
insert_follow-IsSevered follower target v free =
    After-pair _ _
      (record_activity-IsSevered _ _ _ _ _ (new_follow-IsSevered follower target v free)).state

try_follow-IsSevered :
    (retry : Exec Follow) (follower target : User) {db : Db}
    → ((d : Db) → IsSevered d → After IsSevered (retry d))
    → IsSevered db
    → is_blocked db follower.id target.id ≡ false
    → After IsSevered (try_follow serial serial retry follower target db)
unfolding try_follow
try_follow-IsSevered retry follower target again v free =
    search (After-if, After-pair, After-on_found, insert_follow-IsSevered) depth 8

pub request_follow-IsSevered :
    (depth : ℕ) (follower target : User) {db : Db}
    → IsSevered db
    → After IsSevered (request_follow depth serial serial follower target db)
unfolding request_follow
request_follow-IsSevered zero follower target v = After-pair _ _ v
request_follow-IsSevered (suc depth) follower target v =
    let again =
      λ (t : User) (d : Db) (w : IsSevered d). request_follow-IsSevered depth follower t w in
    search (After-if, After-pair, After-on_found, try_follow-IsSevered, again) depth 9

activate_row-IsSevered : (id : ℕ) {db : Db} → IsSevered db → IsSevered (activate_row id db)
activate_row-IsSevered id {db} v = record {
  no_follow = λ a b h. ground (
    arith,
    v.no_follow a b h,
    count_where-update_where (follow_pair (a, b)) (λ f. f.id == id)
        (λ f. record f { status = FollowStatus.active }) (λ x _ k. k) db.follows.rows,
  );
  no_request = v.no_request;
}

activate-IsSevered :
    (by_id : ℕ) (f : Follow) {db : Db} → IsSevered db → IsSevered (activate serial by_id f db)
unfolding activate
activate-IsSevered by_id f v =
    (record_activity-IsSevered _ _ _ _ _ (activate_row-IsSevered f.id v)).state

-- Deleting follow edges.
pub fewer_follows-IsSevered :
    (p : Follow → Bool) {db : Db}
    → IsSevered db
    → IsSevered (record db { follows = with_rows db.follows (select p db.follows.rows) })
fewer_follows-IsSevered p {db} v = record {
  no_follow = λ a b h.
      ground
        (arith, v.no_follow a b h, count_where-select_le (follow_pair (a, b)) p db.follows.rows);
  no_request = v.no_request;
}

ruleset rules = (After-if, After-pair, After-on_found, activate-IsSevered, fewer_follows-IsSevered)

pub approve_follow_request-IsSevered :
    (f : Follow) (by_user : User) {db : Db}
    → IsSevered db
    → After IsSevered (approve_follow_request serial f by_user db)
unfolding approve_follow_request
approve_follow_request-IsSevered f by_user v = search rules depth 8

pub reject_follow_request-IsSevered :
    (f : Follow) (by_user : User) {db : Db}
    → IsSevered db
    → After IsSevered (reject_follow_request f by_user db)
unfolding reject_follow_request
reject_follow_request-IsSevered f by_user v = search rules depth 8

pub cancel_follow_request-IsSevered :
    (follower : User) (target_id : ℕ) {db : Db}
    → IsSevered db
    → After IsSevered (cancel_follow_request follower target_id db)
unfolding cancel_follow_request
cancel_follow_request-IsSevered follower target_id v = search rules depth 8

activate_all-IsSevered :
    (by_id : ℕ) (fs : List Follow) {db : Db}
    → IsSevered db
    → IsSevered (activate_all serial by_id fs db)
unfolding activate_all
activate_all-IsSevered by_id [] v = v
activate_all-IsSevered by_id (f ∷ fs) v =
    activate_all-IsSevered by_id fs (activate-IsSevered by_id f v)

users-IsSevered : (us : List User) {db : Db} → IsSevered db → IsSevered (record db { users = us })
users-IsSevered us v = record { no_follow = v.no_follow; no_request = v.no_request }

pub apply_privacy_change-IsSevered :
    (u : User) (is_private : Option Bool) {db : Db}
    → IsSevered db
    → After IsSevered (apply_privacy_change serial u is_private db)
unfolding apply_privacy_change
apply_privacy_change-IsSevered u none v = After-pair _ _ v
apply_privacy_change-IsSevered u (some true) v = After-pair _ _ (users-IsSevered _ v)
apply_privacy_change-IsSevered u (some false) v =
    After-pair _ _ (activate_all-IsSevered u.id _ (users-IsSevered _ v))
