-- ===== src/Social/Uniqueness/Requests.antt =====
-- Friend requests keep the constraints.
use biexce_social_network.Prelude.{
  not, [], ◌∷◌, Unique-select, Unique-insert, count_where-update_one, delete_where, ◌==◌, select,
  true, arith, Unique-update_where, false, Bool, ℕ, ◌≡◌,
}
use biexce_social_network.Models.{
  Db, Rival, After, After-if, After-pair, After-on_found, append, with_rows, accepted, rejected,
}
use biexce_social_network.Models.{FriendRequest, User}
use biexce_social_network.Social.Queries.{canonical_pair, open_pair, is_pending_request}
use biexce_social_network.Social.Requests.{
  new_request, insert_request, request_conflict, create_friend_request, set_state,
  accept_friend_request, reject_friend_request, unfriend, cancel_sent_request,
}
use biexce_social_network.Social.Uniqueness.{IsValid, KeepsValid, requests-IsValid}

-- The row that a service function was given is the stored one, and no other has its id.
abbrev pub IsLoaded : FriendRequest → Db → Type 0
IsLoaded req db = select (λ q. q.id == req.id) db.requests.rows ≡ req ∷ []

same_pair :
    (k j : ℕ × ℕ) (x y : FriendRequest)
    → open_pair k x ≡ true
    → open_pair j x ≡ true
    → open_pair j y ≡ true
    → open_pair k y ≡ true
same_pair k j x y a b c = ground arith

open_pair-new_request :
    (sender recipient : User) (db : Db)
    → open_pair (canonical_pair sender.id recipient.id) (new_request sender recipient db) ≡ true
unfolding new_request
open_pair-new_request sender recipient db = ground arith

new_request-IsValid :
    (sender recipient : User) (db : Db)
    → IsValid db
    → request_conflict sender.id recipient.id db ≡ false
    → IsValid (record db { requests = append db.requests (new_request sender recipient db) })
unfolding request_conflict
new_request-IsValid sender recipient db v fresh =
    let x = new_request sender recipient db in
    let k = canonical_pair sender.id recipient.id in
    requests-IsValid v (append db.requests x) (
      Unique-insert open_pair k x db.requests.rows (ground arith)
        (λ j y a b. same_pair k j x y (open_pair-new_request sender recipient db) a b)
        v.request_unique)

insert_request-IsValid :
    (sender recipient : User) {db : Db}
    → IsValid db
    → After IsValid (insert_request sender recipient db)
unfolding insert_request
insert_request-IsValid sender recipient v = search (After-if, After-pair, new_request-IsValid)

-- A new request keeps the constraints, whatever valid changes other transactions commit between
-- its check and its insert.
pub create_friend_request-IsValid :
    (rival : Rival) (sender recipient : User) {db : Db}
    → KeepsValid rival
    → IsValid db
    → After IsValid (create_friend_request rival sender recipient db)
unfolding create_friend_request
create_friend_request-IsValid rival sender recipient r v =
    search (After-if, After-pair, After-on_found, insert_request-IsValid) depth 8

accepted-IsValid :
    (req : FriendRequest) (db : Db)
    → IsValid db
    → IsLoaded req db
    → not (is_pending_request req.state) ≡ false
    → IsValid (set_state req.id accepted db)
accepted-IsValid req db v loaded waits = requests-IsValid v _ λ k. ground (
  arith,
  v.request_unique k,
  count_where-update_one (open_pair k) (λ q. q.id == req.id) (λ q. record q { state = accepted })
      req db.requests.rows loaded,
)

pub accept_friend_request-IsValid :
    (req : FriendRequest) (by_user : User) {db : Db}
    → IsValid db
    → IsLoaded req db
    → After IsValid (accept_friend_request req by_user db)
unfolding accept_friend_request
accept_friend_request-IsValid req by_user v loaded =
    search (After-if, After-pair, accepted-IsValid) depth 8

delete-IsValid :
    (p : FriendRequest → Bool) (db : Db)
    → IsValid db
    → IsValid (record db { requests = with_rows db.requests (delete_where p db.requests.rows) })
delete-IsValid p db v =
    requests-IsValid v _ (Unique-select open_pair _ db.requests.rows v.request_unique)

rejected-IsValid : (id : ℕ) (db : Db) → IsValid db → IsValid (set_state id rejected db)
rejected-IsValid id db v =
    requests-IsValid v _ (
      Unique-update_where open_pair _ _ (λ k x _ h. ground arith) db.requests.rows v.request_unique)

ruleset ending = (After-if, After-pair, After-on_found, delete-IsValid, rejected-IsValid)

pub reject_friend_request-IsValid :
    (req : FriendRequest) (by_user : User) {db : Db}
    → IsValid db
    → After IsValid (reject_friend_request req by_user db)
unfolding reject_friend_request
reject_friend_request-IsValid req by_user v = search ending depth 8

pub unfriend-IsValid :
    (a b : ℕ) (by_user : User) {db : Db} → IsValid db → After IsValid (unfriend a b by_user db)
unfolding unfriend
unfriend-IsValid a b by_user v = search ending depth 8

pub cancel_sent_request-IsValid :
    (req : FriendRequest) (by_user : User) {db : Db}
    → IsValid db
    → After IsValid (cancel_sent_request req by_user db)
unfolding cancel_sent_request
cancel_sent_request-IsValid req by_user v = search ending depth 8
