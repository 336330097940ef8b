-- ===== src/Social/Follows.antt =====
-- ting_ting/social.py, the follow edges.
use Prim.Native.String.{String}
use text.Mathlib.Text.{◌==◌ as str_eq}
use biexce_social_network.Prelude.{
  ℕ, zero, suc, Bool, true, false, not, Option, none, some, List, [], ◌∷◌, ◌==◌, ◌&&◌, ◌||◌, ltb,
  Result, ok, err, self_follow, blocked, not_owner, not_pending, invalid_direction, integrity_error,
  recursion_error, exists, select, find_where, delete_where, update_where, scalar_one_or_none,
  order_by, if◌then◌else◌,
}
use biexce_social_network.Models.{
  on_found, Db, Rival, Exec, User, Follow, FollowStatus, Kind, follow, follow_request, of_follow,
  append, with_rows,
}
use biexce_social_network.Social.Queries.{
  is_blocked, is_active, is_pending, follow_pair, user_exists,
}
use biexce_social_network.Notifications.Writing.{record_activity}

abbrev pub find_follow : ℕ → ℕ → Db → Result (Option Follow)
find_follow follower_id followed_id db =
    scalar_one_or_none (select (follow_pair (follower_id, followed_id)) db.follows.rows)

abbrev status_toward : User → FollowStatus
status_toward target = if target.is_private then FollowStatus.pending else FollowStatus.active

abbrev kind_of : FollowStatus → Kind
kind_of FollowStatus.pending = follow_request
kind_of FollowStatus.active = follow

unfoldable pub new_follow : User → User → Db → Follow
new_follow follower target db = record {
  id = db.follows.next_id;
  follower_id = follower.id;
  followed_id = target.id;
  status = status_toward target;
  created_at = db.now;
}

-- `uq_follow_pair`, and the two foreign keys.
unfoldable pub follow_conflict : ℕ → ℕ → Db → Bool
unfolding user_exists
follow_conflict follower_id followed_id db =
    exists (follow_pair (follower_id, followed_id)) db.follows.rows
    || not (user_exists db follower_id && user_exists db followed_id)

-- The insert and its notification, in one savepoint.
unfoldable pub insert_follow : Rival → User → User → Exec Follow
unfolding new_follow
insert_follow notify follower target db =
    let row = new_follow follower target db in
    (
      ok row,
      (record_activity notify target.id follower.id (kind_of row.status) none
          (some (of_follow row.id)) (record db { follows = append db.follows row })).1,
    )

-- `db.get(User, target.id) or target`
abbrev pub refetch : User → Db → User
refetch target db = elim (find_where (λ u. u.id == target.id) db.users) [
  | none ↦ target
  | some u ↦ u
]

-- After an `IntegrityError`: the row that won, or one more try as for a public target.
abbrev converge : Exec Follow → User → User → Exec Follow
converge retry follower target db =
    on_found (find_follow follower.id target.id db)
      (λ db'. if is_active (status_toward target) then retry db' else (err integrity_error, db'))
      (λ f db'. (ok f, db')) db

-- The attempt once no edge was found. `rival` commits between the query and the insert.
unfoldable pub try_follow : Rival → Rival → Exec Follow → User → User → Exec Follow
unfolding insert_follow follow_conflict
try_follow rival notify retry follower target db =
    let db1 = rival db in
    if follow_conflict follower.id target.id db1
    then converge retry follower target db1
    else insert_follow notify follower target db1

-- `depth` is Python's recursion limit: the source calls itself with no bound of its own.
unfoldable pub request_follow : ℕ → Rival → Rival → User → User → Exec Follow
unfolding try_follow
request_follow zero rival notify follower target db = (err recursion_error, db)
request_follow (suc depth) rival notify follower target db =
    if follower.id == target.id
    then (err self_follow, db)
    else if is_blocked db follower.id target.id
    then (err blocked, db)
    else on_found (find_follow follower.id target.id db)
        (try_follow rival notify
          (λ db'. request_follow depth rival notify follower (refetch target db') db') follower
          target)
        (λ f db'. (ok f, db')) db

-- `follow.status = "active"` on the row with an id.
abbrev pub activate_row : ℕ → Db → Db
activate_row id db = record db {
  follows = with_rows db.follows (
      update_where (λ f. f.id == id) (λ f. record f { status = FollowStatus.active })
        db.follows.rows);
}

abbrev pub delete_follow : ℕ → Db → Db
delete_follow id db = record db {
  follows = with_rows db.follows (delete_where (λ f. f.id == id) db.follows.rows);
}

-- One approval: the flip and the notice to the requester.
unfoldable pub activate : Rival → ℕ → Follow → Db → Db
activate notify by_id f db =
    (record_activity notify f.follower_id by_id follow none (some (of_follow f.id))
      (activate_row f.id db)).1

unfoldable pub approve_follow_request : Rival → Follow → User → Exec Follow
unfolding activate
approve_follow_request notify f by_user db =
    if not (f.followed_id == by_user.id)
    then (err not_owner, db)
    else if not (is_pending f.status)
    then (err not_pending, db)
    else if is_blocked db f.follower_id f.followed_id
    then (err blocked, db)
    else (ok (record f { status = FollowStatus.active }), activate notify by_user.id f db)

unfoldable pub reject_follow_request : Follow → User → Exec Follow
reject_follow_request f by_user db =
    if not (f.followed_id == by_user.id)
    then (err not_owner, db)
    else if not (is_pending f.status)
    then (err not_pending, db)
    else (ok f, delete_follow f.id db)

unfoldable pub cancel_follow_request : User → ℕ → Exec Bool
cancel_follow_request follower target_id db =
    on_found
      (scalar_one_or_none (
        select (λ f. follow_pair (follower.id, target_id) f && is_pending f.status)
          db.follows.rows))
      (λ db'. (ok false, db')) (λ f db'. (ok true, delete_follow f.id db')) db

unfoldable pub unsettle_follows_on_block : ℕ → ℕ → Db → Db
unsettle_follows_on_block a b db = record db {
  follows =
      with_rows db.follows
        (delete_where (λ f. follow_pair (a, b) f || follow_pair (b, a) f) db.follows.rows);
}

abbrev set_private : ℕ → Bool → Db → Db
set_private id private db = record db {
  users = update_where (λ u. u.id == id) (λ u. record u { is_private = private }) db.users;
}

-- The loop over the pending requests.
unfoldable pub activate_all : Rival → ℕ → List Follow → Db → Db
unfolding activate
activate_all notify by_id [] db = db
activate_all notify by_id (f ∷ fs) db = activate_all notify by_id fs (activate notify by_id f db)

abbrev pub pending_toward : ℕ → Follow → Bool
pending_toward id f = f.followed_id == id && is_pending f.status

abbrev pub pending_from : ℕ → Follow → Bool
pending_from id f = f.follower_id == id && is_pending f.status

unfoldable pub apply_privacy_change : Rival → User → Option Bool → Exec User
apply_privacy_change notify u none db = (ok u, db)
apply_privacy_change notify u (some true) db =
    (ok (record u { is_private = true }), set_private u.id true db)
apply_privacy_change notify u (some false) db =
    let db1 = set_private u.id false db in
    (
      ok (record u { is_private = false }),
      activate_all notify u.id (select (pending_toward u.id) db1.follows.rows) db1,
    )

-- `created_at DESC, id DESC`
abbrev newer_follow : Follow → Follow → Bool
newer_follow f g = ltb g.created_at f.created_at || (f.created_at == g.created_at && ltb g.id f.id)

unfoldable pub list_follow_requests : Db → ℕ → String → Result (List Follow)
list_follow_requests db user_id direction =
    if str_eq direction "inbox"
    then ok (order_by newer_follow (select (pending_toward user_id) db.follows.rows))
    else if str_eq direction "outgoing"
    then ok (order_by newer_follow (select (pending_from user_id) db.follows.rows))
    else err invalid_direction
