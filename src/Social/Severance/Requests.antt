-- ===== src/Social/Severance/Requests.antt =====
-- Friend requests keep blocked pairs severed.
use biexce_social_network.Prelude.{
  count_where_ext, count_where-insert, count_where-update_one, arith, ltb, ◌⊎◌,
  count_where-select_le, ◌≤◌, true, ◌==◌, false, ap, count_where-update_where, ◌≡◌, select,
  count_where, not, Bool, ℕ,
}
use biexce_social_network.Models.{
  Block, Table, Db, User, FriendRequest, After, After-if, After-pair, After-on_found, append,
  with_rows, accepted, rejected,
}
use biexce_social_network.Social.Queries.{
  is_blocked, canonical_pair, open_pair, is_pending_request, blocked_in,
}
use biexce_social_network.Social.Requests.{
  new_request, insert_request, create_friend_request, set_state, accept_friend_request,
  reject_friend_request, unfriend, cancel_sent_request,
}
use biexce_social_network.Social.Severance.{ℕ, IsSevered}
use biexce_social_network.Social.Severance.Follows.{serial}
use biexce_social_network.Social.Uniqueness.Requests.{IsLoaded}

pub blocked_in_comm : (t : Table Block) (a b : ℕ) → blocked_in t a b ≡ blocked_in t b a
unfolding blocked_in
blocked_in_comm t a b = ap (ltb 0) (count_where_ext _ _ (λ r. ground arith) t.rows)

-- An open row of a pair names the two users in one order or the other.
new_request_pair :
    (sender recipient : User) (db : Db) (a b : ℕ)
    → open_pair (canonical_pair a b) (new_request sender recipient db) ≡ true
    → ((a ≡ sender.id) × (b ≡ recipient.id)) ⊎ ((a ≡ recipient.id) × (b ≡ sender.id))
unfolding new_request
new_request_pair sender recipient db a b h = ground arith

new_request-IsSevered :
    (sender recipient : User) {db : Db}
    → IsSevered db
    → is_blocked db sender.id recipient.id ≡ false
    → IsSevered (record db { requests = append db.requests (new_request sender recipient db) })
new_request-IsSevered sender recipient {db} v free = record {
  no_follow = v.no_follow;
  no_request = λ a b h. ground (
    arith,
    v.no_request a b h,
    new_request_pair sender recipient db a b,
    blocked_in_comm db.blocks a b,
    count_where-insert (open_pair (canonical_pair a b)) db.requests.rows
        (new_request sender recipient db),
  );
}

insert_request-IsSevered :
    (sender recipient : User) {db : Db}
    → IsSevered db
    → is_blocked db sender.id recipient.id ≡ false
    → After IsSevered (insert_request sender recipient db)
unfolding insert_request
insert_request-IsSevered sender recipient v free =
    search (After-if, After-pair, new_request-IsSevered)

pub create_friend_request-IsSevered :
    (sender recipient : User) {db : Db}
    → IsSevered db
    → After IsSevered (create_friend_request serial sender recipient db)
unfolding create_friend_request
create_friend_request-IsSevered sender recipient v =
    search (After-if, After-pair, After-on_found, insert_request-IsSevered) depth 8

-- Any change of the requests that opens none.
requests-IsSevered :
    (t : Table FriendRequest) {db : Db}
    → ((k : ℕ × ℕ) → count_where (open_pair k) t.rows ≤ count_where (open_pair k) db.requests.rows)
    → IsSevered db
    → IsSevered (record db { requests = t })
requests-IsSevered t {db} fewer v = record {
  no_follow = v.no_follow;
  no_request = λ a b h. ground (arith, v.no_request a b h, fewer (canonical_pair a b));
}

accepted-IsSevered :
    (req : FriendRequest) {db : Db}
    → IsSevered db
    → IsLoaded req db
    → not (is_pending_request req.state) ≡ false
    → IsSevered (set_state req.id accepted db)
accepted-IsSevered req {db} v loaded waits =
    requests-IsSevered _
      (λ k. ground (
        arith,
        count_where-update_one (open_pair k) (λ q. q.id == req.id)
            (λ q. record q { state = accepted }) req db.requests.rows loaded,
      ))
      v

pub accept_friend_request-IsSevered :
    (req : FriendRequest) (by_user : User) {db : Db}
    → IsSevered db
    → IsLoaded req db
    → After IsSevered (accept_friend_request req by_user db)
unfolding accept_friend_request
accept_friend_request-IsSevered req by_user v loaded =
    search (After-if, After-pair, accepted-IsSevered) depth 8

pub fewer_requests-IsSevered :
    (p : FriendRequest → Bool) {db : Db}
    → IsSevered db
    → IsSevered (record db { requests = with_rows db.requests (select p db.requests.rows) })
fewer_requests-IsSevered p {db} v =
    requests-IsSevered _ (λ k. count_where-select_le (open_pair k) p db.requests.rows) v

rejected-IsSevered : (id : ℕ) {db : Db} → IsSevered db → IsSevered (set_state id rejected db)
rejected-IsSevered id {db} v =
    requests-IsSevered _
      (λ k.
        count_where-update_where (open_pair k) (λ q. q.id == id)
          (λ q. record q { state = rejected }) (λ x _ h. ground arith) db.requests.rows)
      v

ruleset ending =
    (After-if, After-pair, After-on_found, fewer_requests-IsSevered, rejected-IsSevered)

pub reject_friend_request-IsSevered :
    (req : FriendRequest) (by_user : User) {db : Db}
    → IsSevered db
    → After IsSevered (reject_friend_request req by_user db)
unfolding reject_friend_request
reject_friend_request-IsSevered req by_user v = search ending depth 8

pub unfriend-IsSevered :
    (a b : ℕ) (by_user : User) {db : Db} → IsSevered db → After IsSevered (unfriend a b by_user db)
unfolding unfriend
unfriend-IsSevered a b by_user v = search ending depth 8

pub cancel_sent_request-IsSevered :
    (req : FriendRequest) (by_user : User) {db : Db}
    → IsSevered db
    → After IsSevered (cancel_sent_request req by_user db)
unfolding cancel_sent_request
cancel_sent_request-IsSevered req by_user v = search ending depth 8
