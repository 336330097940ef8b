-- ===== src/Social/Pair/Requests.antt =====
-- A friend request between the two users of a pair: made, accepted, rejected, cancelled, parted.
use biexce_social_network.Social.Transitions.{new_request_open}
use biexce_social_network.Prelude.{
  find_inserted, already_exists, blocked, Bool, true, false, none, some, ok, err, ◌==◌, ◌≡◌, refl,
  exists, arith, inl, inr, Bool-cases, if◌then◌else◌, ap, ◌∙◌, ==_refl,
}
use biexce_social_network.Models.{Db, User, FriendRequest, append}
use biexce_social_network.Social.Queries.{canonical_pair, open_pair, is_accepted, is_blocked}
use biexce_social_network.Social.Requests.{
  find_open, create_friend_request, insert_request, new_request, request_conflict,
}
use biexce_social_network.Social.Pair.{
  apart, outgoing, incoming, friends, Pair, request, allowed, perform, move_link, pair_of, link_of,
  IsSound, Agrees,
}
use biexce_social_network.Social.Pair.Moves.{
  Agrees-refused, Agrees-made, blocked_of, link_known, relinked, find_open-cases,
}

move_link-none :
    (p : Pair) (a b : Bool)
    → p.link ≡ (if a then friends else if b then outgoing else incoming)
    → move_link p apart outgoing ≡ none
move_link-none p true b h = rw h refl
move_link-none p false true h = rw h refl
move_link-none p false false h = rw h refl

request-made :
    (me other : User) (db : Db)
    → IsSound me other db
    → is_blocked db me.id other.id ≡ false
    → find_open me.id other.id db ≡ ok none
    → exists (open_pair (canonical_pair me.id other.id)) db.requests.rows ≡ false
    → perform request me other db
      ≡ (ok tt, record db { requests = append db.requests (new_request me other db) })
unfolding perform create_friend_request insert_request request_conflict
request-made me other db s free h fresh =
    rw (s.distinct, free, h, fresh, s.me_exists, s.other_exists) refl

new_request-link :
    (me other : User) (db : Db) → link_of me.id (ok (some (new_request me other db))) ≡ outgoing
unfolding new_request
new_request-link me other db = ground (arith, ==_refl me.id)

request-refused :
    (me other : User) (db : Db) (q : FriendRequest)
    → IsSound me other db
    → is_blocked db me.id other.id ≡ false
    → find_open me.id other.id db ≡ ok (some q)
    → perform request me other db ≡ (err already_exists, db)
unfolding perform create_friend_request
request-refused me other db q s free h = rw (s.distinct, free, h) refl

request-blocked :
    (me other : User) (db : Db)
    → IsSound me other db
    → is_blocked db me.id other.id ≡ true
    → perform request me other db ≡ (err blocked, db)
unfolding perform create_friend_request
request-blocked me other db s b = rw (s.distinct, b) refl

pub request-Agrees :
    (me other : User) (db : Db)
    → IsSound me other db
    → Agrees me other db (allowed request (pair_of me other db)) (perform request me other db)
unfolding allowed
request-Agrees me other db s = elim (Bool-cases (is_blocked db me.id other.id)) [
  | inl b ↦
      Agrees-refused me other db _ _ blocked (rw (blocked_of me other db ∙ b) refl)
        (request-blocked me other db s b)
  | inr free ↦ elim (find_open-cases me other db s) [
    | inl (h, fresh) ↦
        Agrees-made me other db _ _ (record (pair_of me other db) { link = outgoing }) _
          (rw (blocked_of me other db ∙ free, link_known me other db (ok none) h) refl)
          (request-made me other db s free h fresh)
          (relinked me other db _ (ok (some (new_request me other db)))
              (find_inserted _ _ _ fresh (new_request_open me other db))
            ∙ ap (λ l. record (pair_of me other db) { link = l }) (new_request-link me other db))
    | inr (q, h, found) ↦
        Agrees-refused me other db _ _ already_exists
          (rw (blocked_of me other db ∙ free) (
            move_link-none (pair_of me other db) (is_accepted q.state) (q.sender_id == me.id)
              (link_known me other db (ok (some q)) h)))
          (request-refused me other db q s free h)
  ]
]
