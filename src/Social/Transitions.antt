-- ===== src/Social/Transitions.antt =====
-- What the two users of a friend request see of each other, before and after each transition.
use biexce_social_network.Social.Severance.Requests.{blocked_in_comm}
use biexce_social_network.Social.Uniqueness.Requests.{IsLoaded}
use biexce_social_network.Social.Uniqueness.{IsValid}
use biexce_social_network.Social.Severance.Follows.{serial}
use biexce_social_network.Models.{accepted, append, FriendRequest, Db, User}
use biexce_social_network.Social.Queries.{
  Relationship, is_pending_request, request_pair, block_pair, of_request, pending_incoming,
  open_pair, pending_outgoing, is_blocked, blocked_in, canonical_pair, relationship_state,
}
use biexce_social_network.Prelude.{
  find_inserted, refl, select-update_one, none, Result-cases, inr, inl, ap, ◌||◌, ◌∙◌, Bool-cases,
  exists-or, some, true, false, exists, ok, arith, Option, ◌≡◌, select, ℕ, scalar_one_or_none, ◌==◌,
}
use biexce_social_network.Social.Requests.{
  set_state, find_open, request_conflict, new_request, insert_request, create_friend_request,
  accept_friend_request,
}

pub canonical_pair_comm : (a b : ℕ) → canonical_pair a b ≡ canonical_pair b a
unfolding canonical_pair
canonical_pair_comm a b = ground arith

-- A pair that is not blocked, and its one open request.
of_open :
    (db : Db) (a b : ℕ) (q : Option FriendRequest)
    → is_blocked db a b ≡ false
    → scalar_one_or_none (select (open_pair (canonical_pair a b)) db.requests.rows) ≡ ok q
    → relationship_state db a b ≡ ok (of_request a q)
unfolding relationship_state blocked_in
of_open db a b q h k =
    ground (arith, h, k, exists-or (block_pair (a, b)) (block_pair (b, a)) db.blocks.rows)

insert_made :
    (sender recipient : User) (q : FriendRequest) (db : Db)
    → (insert_request sender recipient db).0 ≡ ok q
    → (exists (open_pair (canonical_pair sender.id recipient.id)) db.requests.rows ≡ false)
      × ((insert_request sender recipient db).1
          ≡ record db { requests = append db.requests (new_request sender recipient db) })
unfolding insert_request request_conflict
insert_made sender recipient q db h = (ground (arith, h), ground (arith, h))

record IsMade (sender recipient : User) (db : Db) : Type 0 where
  distinct : sender.id == recipient.id ≡ false
  unblocked : is_blocked db sender.id recipient.id ≡ false
  fresh : exists (open_pair (canonical_pair sender.id recipient.id)) db.requests.rows ≡ false
  after :
      (create_friend_request serial sender recipient db).1
      ≡ record db { requests = append db.requests (new_request sender recipient db) }

create-IsMade :
    (sender recipient : User) (q : FriendRequest) (db : Db)
    → (create_friend_request serial sender recipient db).0 ≡ ok q
    → IsMade sender recipient db
unfolding create_friend_request
create-IsMade sender recipient q db h =
    elim (Bool-cases (sender.id == recipient.id || is_blocked db sender.id recipient.id)) [
      | inl e ↦ absurd (ground (arith, e, h))
      | inr e ↦ elim (Result-cases (find_open sender.id recipient.id db)) [
        | inr (x, f) ↦ absurd (ground (arith, e, f, h))
        | inl (some x, f) ↦ absurd (ground (arith, e, f, h))
        | inl (none, f) ↦
            let m = insert_made sender recipient q db (ground (arith, e, f, h)) in
            record {
              distinct = ground (arith, e);
              unblocked = ground (arith, e);
              fresh = m.0;
              after = ground (arith, e, f, m.1);
            }
      ]
    ]

pub new_request_open :
    (sender recipient : User) (db : Db)
    → open_pair (canonical_pair sender.id recipient.id) (new_request sender recipient db) ≡ true
unfolding new_request canonical_pair
new_request_open sender recipient db = ground arith

new_request_seen :
    (sender recipient : User) (db : Db)
    → sender.id == recipient.id ≡ false
    → (of_request sender.id (some (new_request sender recipient db)) ≡ pending_outgoing)
      × (of_request recipient.id (some (new_request sender recipient db)) ≡ pending_incoming)
unfolding new_request
new_request_seen sender recipient db h = ground arith

-- A friend request that is made while nothing else commits: its sender sees the pair as
-- pending_outgoing and its recipient as pending_incoming.
pub create_friend_request_lem :
    (sender recipient : User) (q : FriendRequest) (db : Db)
    → (create_friend_request serial sender recipient db).0 ≡ ok q
    → let after = (create_friend_request serial sender recipient db).1 in
      (relationship_state after sender.id recipient.id ≡ ok pending_outgoing)
      × (relationship_state after recipient.id sender.id ≡ ok pending_incoming)
create_friend_request_lem sender recipient q db h =
    let m = create-IsMade sender recipient q db h in
    let seen = new_request_seen sender recipient db m.distinct in
    let found =
      find_inserted (open_pair (canonical_pair sender.id recipient.id)) db.requests.rows
        (new_request sender recipient db) m.fresh (new_request_open sender recipient db) in
    rw m.after (
      of_open _ sender.id recipient.id (some (new_request sender recipient db)) m.unblocked found
          ∙ ap ok seen.0,
      of_open _ recipient.id sender.id (some (new_request sender recipient db))
            (blocked_in_comm db.blocks recipient.id sender.id ∙ m.unblocked)
            (rw (canonical_pair_comm recipient.id sender.id) found)
          ∙ ap ok seen.1,
    )

accepted_found :
    (req : FriendRequest) (db : Db)
    → IsValid db
    → IsLoaded req db
    → request_pair (canonical_pair req.sender_id req.recipient_id) req ≡ true
    → is_pending_request req.state ≡ true
    → scalar_one_or_none (
        select
          (open_pair (canonical_pair req.sender_id req.recipient_id))
          (set_state req.id accepted db).requests.rows)
      ≡ ok (some (record req { state = accepted }))
unfolding scalar_one_or_none
accepted_found req db v loaded own waits =
    rw
      (select-update_one (open_pair (canonical_pair req.sender_id req.recipient_id))
        (λ q. q.id == req.id) (λ q. record q { state = accepted }) req db.requests.rows loaded
        (v.request_unique (canonical_pair req.sender_id req.recipient_id))
        (ground (arith, own, waits)) (ground (arith, own)))
      refl

accepted_when :
    (req q : FriendRequest) (by_user : User) (db : Db)
    → (accept_friend_request req by_user db).0 ≡ ok q
    → (is_pending_request req.state ≡ true)
      × (is_blocked db req.sender_id req.recipient_id ≡ false)
      × ((accept_friend_request req by_user db).1 ≡ set_state req.id accepted db)
unfolding accept_friend_request
accepted_when req q by_user db h = (ground (arith, h), ground (arith, h), ground (arith, h))

-- Friends: the pair's one open request, once accepted, makes each a friend of the other.
pub accept_friend_request_lem :
    (req q : FriendRequest) (by_user : User) (db : Db)
    → IsValid db
    → IsLoaded req db
    → request_pair (canonical_pair req.sender_id req.recipient_id) req ≡ true
    → (accept_friend_request req by_user db).0 ≡ ok q
    → let after = (accept_friend_request req by_user db).1 in
      (relationship_state after req.sender_id req.recipient_id ≡ ok Relationship.friends)
      × (relationship_state after req.recipient_id req.sender_id ≡ ok Relationship.friends)
accept_friend_request_lem req q by_user db v loaded own h =
    let go = accepted_when req q by_user db h in
    let found = accepted_found req db v loaded own go.0 in
    rw go.2 (
      of_open _ req.sender_id req.recipient_id (some (record req { state = accepted })) go.1 found,
      of_open _ req.recipient_id req.sender_id (some (record req { state = accepted }))
          (blocked_in_comm db.blocks req.recipient_id req.sender_id ∙ go.1)
          (rw (canonical_pair_comm req.recipient_id req.sender_id) found),
    )
