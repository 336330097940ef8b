-- ===== src/Social/Requests.antt =====
-- ting_ting/social.py, friend requests and friendships.
use biexce_social_network.Prelude.{
  ℕ, Bool, true, false, not, Option, none, some, List, [], ◌∷◌, ◌==◌, ◌&&◌, ◌||◌, ltb, Result, ok,
  err, self_request, already_exists, blocked, not_recipient, not_pending, not_participant,
  not_friends, not_sender, exists, select, delete_where, update_where, scalar_one_or_none, order_by,
  if◌then◌else◌,
}
use biexce_social_network.Models.{
  on_found, Db, Rival, Exec, User, FriendRequest, RequestState, pending, accepted, rejected, append,
  with_rows,
}
use biexce_social_network.Social.Queries.{
  canonical_pair, is_blocked, request_pair, open_pair, is_accepted, is_rejected, is_pending_request,
  user_exists,
}

unfoldable pub new_request : User → User → Db → FriendRequest
unfolding canonical_pair
new_request sender recipient db = record {
  id = db.requests.next_id;
  sender_id = sender.id;
  recipient_id = recipient.id;
  canonical_left = (canonical_pair sender.id recipient.id).0;
  canonical_right = (canonical_pair sender.id recipient.id).1;
  state = pending;
  created_at = db.now;
}

abbrev pub find_open : ℕ → ℕ → Db → Result (Option FriendRequest)
find_open a b db = scalar_one_or_none (select (open_pair (canonical_pair a b)) db.requests.rows)

-- `ix_active_pair`, and the two foreign keys.
unfoldable pub request_conflict : ℕ → ℕ → Db → Bool
unfolding user_exists canonical_pair
request_conflict a b db =
    exists (open_pair (canonical_pair a b)) db.requests.rows
    || not (user_exists db a && user_exists db b)

-- The insert. On an `IntegrityError` the session rolls back to what is committed.
unfoldable pub insert_request : User → User → Exec FriendRequest
unfolding new_request request_conflict
insert_request sender recipient db =
    if request_conflict sender.id recipient.id db then (err already_exists, db) else (
      ok (new_request sender recipient db),
      record db { requests = append db.requests (new_request sender recipient db) },
    )

unfoldable pub create_friend_request : Rival → User → User → Exec FriendRequest
unfolding insert_request
create_friend_request rival sender recipient db =
    if sender.id == recipient.id
    then (err self_request, db)
    else if is_blocked db sender.id recipient.id
    then (err blocked, db)
    else on_found (find_open sender.id recipient.id db)
        (λ db'. insert_request sender recipient (rival db')) (λ q db'. (err already_exists, db')) db

-- `request.state = …` on the row with an id.
abbrev pub set_state : ℕ → RequestState → Db → Db
set_state id st db = record db {
  requests =
      with_rows db.requests
        (update_where (λ q. q.id == id) (λ q. record q { state = st }) db.requests.rows);
}

unfoldable pub accept_friend_request : FriendRequest → User → Exec FriendRequest
accept_friend_request req by_user db =
    if not (req.recipient_id == by_user.id)
    then (err not_recipient, db)
    else if not (is_pending_request req.state)
    then (err not_pending, db)
    else if is_blocked db req.sender_id req.recipient_id
    then (err blocked, db)
    else (ok (record req { state = accepted }), set_state req.id accepted db)

-- The DELETE of the other rejected rows of a pair.
abbrev pub delete_stale : ℕ → ℕ × ℕ → Db → Db
delete_stale id k db = record db {
  requests = with_rows db.requests (
      delete_where (λ q. not (q.id == id) && request_pair k q && is_rejected q.state)
        db.requests.rows);
}

unfoldable pub reject_friend_request : FriendRequest → User → Exec FriendRequest
reject_friend_request req by_user db =
    if not (req.recipient_id == by_user.id)
    then (err not_recipient, db)
    else if not (is_pending_request req.state)
    then (err not_pending, db)
    else (
      ok (record req { state = rejected }),
      set_state req.id rejected (delete_stale req.id (req.canonical_left, req.canonical_right) db),
    )

unfoldable pub unfriend : ℕ → ℕ → User → Exec (List FriendRequest)
unfolding canonical_pair
unfriend a b by_user db =
    if not (by_user.id == a || by_user.id == b)
    then (err not_participant, db)
    else on_found
        (scalar_one_or_none (
          select (λ q. request_pair (canonical_pair a b) q && is_accepted q.state)
            db.requests.rows))
        (λ db'. (err not_friends, db'))
        (λ q db'. (
          ok (record q { state = rejected } ∷ []),
          set_state q.id rejected (delete_stale q.id (canonical_pair a b) db'),
        ))
        db

unfoldable pub cancel_sent_request : FriendRequest → User → Exec FriendRequest
cancel_sent_request req by_user db =
    if not (req.sender_id == by_user.id)
    then (err not_sender, db)
    else if not (is_pending_request req.state)
    then (err not_pending, db)
    else (
      ok req,
      record db {
        requests = with_rows db.requests (delete_where (λ q. q.id == req.id) db.requests.rows);
      },
    )

abbrev takes_part : ℕ → FriendRequest → Bool
takes_part user_id q = q.sender_id == user_id || q.recipient_id == user_id

abbrev same_state : RequestState → RequestState → Bool
same_state pending pending = true
same_state accepted accepted = true
same_state rejected rejected = true
same_state _ _ = false

abbrev passes : Option RequestState → FriendRequest → Bool
passes none q = true
passes (some st) q = same_state q.state st

unfoldable pub list_requests : Db → ℕ → Option RequestState → List FriendRequest
list_requests db user_id state_filter =
    order_by (λ q r. ltb r.created_at q.created_at)
      (select (λ q. takes_part user_id q && passes state_filter q) db.requests.rows)

unfoldable pub list_friends : Db → ℕ → List FriendRequest
list_friends db user_id = select (λ q. takes_part user_id q && is_accepted q.state) db.requests.rows
