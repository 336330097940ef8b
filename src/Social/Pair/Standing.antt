-- ===== src/Social/Pair/Standing.antt =====
-- How the open request of a pair stands for one of its users, and what the changes of its row do.
use biexce_social_network.Social.Severance.Requests.{blocked_in_comm}
use biexce_social_network.Prelude.{
  delete_where, ==_iff, ℕ, Bool, true, false, not, some, [], ◌∷◌, ok, ◌==◌, ◌&&◌, ◌≡◌, refl, select,
  scalar_one_or_none, arith, inl, inr, Bool-cases, sym, ap, ◌∙◌, select-update_one,
  count_where-update_one, count_where-delete_one, count_where-select_le,
}
use biexce_social_network.Models.{with_rows, Db, User, FriendRequest, accepted, rejected}
use biexce_social_network.Social.Queries.{
  canonical_pair, open_pair, request_pair, is_accepted, is_rejected, is_pending_request, is_blocked,
}
use biexce_social_network.Social.Requests.{set_state, delete_stale}
use biexce_social_network.Social.Pair.{
  apart, outgoing, incoming, friends, pair_of, link_of, IsSound,
}
use biexce_social_network.Social.Pair.Found.{IsFound, ends_of_normal, select_narrow}
use biexce_social_network.Social.Pair.Moves.{relinked, closed}

-- A request that waits for `me`, one that `me` sent, or a friendship.
pub data Stands (me : User) (q : FriendRequest) : Type 0 where
  theirs :
      is_pending_request q.state ≡ true
      → q.recipient_id == me.id ≡ true
      → q.sender_id == me.id ≡ false
      → link_of me.id (ok (some q)) ≡ incoming
      → Stands me q
  mine :
      is_pending_request q.state ≡ true
      → q.recipient_id == me.id ≡ false
      → q.sender_id == me.id ≡ true
      → link_of me.id (ok (some q)) ≡ outgoing
      → Stands me q
  both :
      is_pending_request q.state ≡ false
      → is_accepted q.state ≡ true
      → link_of me.id (ok (some q)) ≡ friends
      → Stands me q

pub found-Stands :
    (me other : User) (q : FriendRequest) (db : Db)
    → IsFound me other q db
    → me.id == other.id ≡ false
    → Stands me q
found-Stands me other q db f d = elim (ends_of_normal me other q f.opened f.normal d) [
  | inl (a, b, c) ↦ elim (Bool-cases (is_pending_request q.state)) [
    | inl w ↦ mine w c a (ground (arith, w, a))
    | inr w ↦ both w (ground (arith, w, f.opened)) (ground (arith, w, f.opened))
  ]
  | inr (a, b, c) ↦ elim (Bool-cases (is_pending_request q.state)) [
    | inl w ↦ theirs w b a (ground (arith, w, a))
    | inr w ↦ both w (ground (arith, w, f.opened)) (ground (arith, w, f.opened))
  ]
]

-- The pair's block, asked of the request's two users.
pub blocked_of_ends :
    (me other : User) (q : FriendRequest) (db : Db)
    → IsFound me other q db
    → me.id == other.id ≡ false
    → is_blocked db q.sender_id q.recipient_id ≡ is_blocked db me.id other.id
blocked_of_ends me other q db f d = elim (ends_of_normal me other q f.opened f.normal d) [
  | inl (a, b, c) ↦
      ap (is_blocked db q.sender_id) ((==_iff _ _).0 b)
      ∙ ap (λ i. is_blocked db i other.id) ((==_iff _ _).0 a)
  | inr (a, b, c) ↦
      ap (is_blocked db q.sender_id) ((==_iff _ _).0 b)
      ∙ ap (λ i. is_blocked db i me.id) ((==_iff _ _).0 c)
      ∙ blocked_in_comm db.blocks other.id me.id
]

pub scalar_of_one : {A : Type 0} (x : A) → scalar_one_or_none (x ∷ []) ≡ ok (some x)
unfolding scalar_one_or_none
scalar_of_one x = refl

-- The request accepted.
pub accepted-pair :
    (me other : User) (q : FriendRequest) (db : Db)
    → IsSound me other db
    → IsFound me other q db
    → is_pending_request q.state ≡ true
    → pair_of me other (set_state q.id accepted db)
      ≡ record (pair_of me other db) { link = friends }
accepted-pair me other q db s f w =
    let k = canonical_pair me.id other.id in
    let q' : FriendRequest = record q { state = accepted } in
    relinked me other db _ (ok (some q')) (
      ap scalar_one_or_none (
        select-update_one (open_pair k) (λ r. r.id == q.id) (λ r. record r { state = accepted }) q
          db.requests.rows f.loaded (s.valid.request_unique k) f.opened (ground (arith, f.opened)))
      ∙ scalar_of_one q')

-- The request rejected, after the other rejected rows of some pair are gone.
pub rejected-pair :
    (me other : User) (q : FriendRequest) (k : ℕ × ℕ) (db : Db)
    → IsSound me other db
    → IsFound me other q db
    → pair_of me other (set_state q.id rejected (delete_stale q.id k db))
      ≡ record (pair_of me other db) { link = apart }
rejected-pair me other q k db s f =
    let p = open_pair (canonical_pair me.id other.id) in
    let kept : FriendRequest → Bool =
      λ x. not (not (x.id == q.id) && request_pair k x && is_rejected x.state) in
    let rows = select kept db.requests.rows in
    closed me other db _ (
      ground (
        arith,
        count_where-update_one p (λ r. r.id == q.id) (λ r. record r { state = rejected }) q rows
            (sym
                (select_narrow kept (λ r. r.id == q.id) (λ x h. ground (arith, h)) db.requests.rows)
              ∙ f.loaded),
        f.opened,
        s.valid.request_unique (canonical_pair me.id other.id),
        count_where-select_le p kept db.requests.rows,
      ))

-- The request deleted.
pub deleted-pair :
    (me other : User) (q : FriendRequest) (db : Db)
    → IsSound me other db
    → IsFound me other q db
    → pair_of me other (record db {
      requests = with_rows db.requests (delete_where (λ r. r.id == q.id) db.requests.rows);
    })
      ≡ record (pair_of me other db) { link = apart }
deleted-pair me other q db s f =
    let k = canonical_pair me.id other.id in
    closed me other db _ (
      ground (
        arith,
        count_where-delete_one (open_pair k) (λ r. r.id == q.id) q db.requests.rows f.loaded,
        f.opened,
        s.valid.request_unique k,
      ))
