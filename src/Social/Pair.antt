-- ===== src/Social/Pair.antt =====
-- What ting_ting/social.py promises two users about friend requests and blocks: an abstract state of
-- the pair as one of the two sees it, its moves, and how the database stands for it.
pub mod Found
pub mod Moves
pub mod Standing
pub mod Requests
pub mod Answers
pub mod Ends
pub mod Blocking
pub mod Refinement
use biexce_social_network.Prelude.{
  Error, ℕ, Bool, true, false, Option, none, some, Result, ok, err, ◌==◌, ◌&&◌, ◌||◌, not, exists,
  select, count_where, scalar_one_or_none, if◌then◌else◌, ◌≡◌, ◌≤◌, not_friends, not_pending,
}
use biexce_social_network.Models.{Db, Exec, User, FriendRequest, on_found}
use biexce_social_network.Social.Queries.{
  canonical_pair, block_pair, open_pair, is_accepted, user_exists,
}
use biexce_social_network.Social.Requests.{
  find_open, create_friend_request, accept_friend_request, reject_friend_request,
  cancel_sent_request, unfriend,
}
use biexce_social_network.Social.Blocks.{block_user, unblock_user}
use biexce_social_network.Social.Uniqueness.{IsValid}
use biexce_social_network.Social.Severance.Follows.{serial}

pub data Link : Type 0 where
  apart outgoing incoming friends : Link

pub record Pair : Type 0 where
  pub i_block : Bool
  pub they_block : Bool
  pub link : Link

pub data Move : Type 0 where
  request accept reject cancel part block unblock : Move

-- The move of a user whose request or friendship must stand as `from` says.
abbrev pub move_link : Pair → Link → Link → Option Pair
move_link p apart to = elim p.link [ apart ↦ some (record p { link = to }) | _ ↦ none ]
move_link p outgoing to = elim p.link [ outgoing ↦ some (record p { link = to }) | _ ↦ none ]
move_link p incoming to = elim p.link [ incoming ↦ some (record p { link = to }) | _ ↦ none ]
move_link p friends to = elim p.link [ friends ↦ some (record p { link = to }) | _ ↦ none ]

-- The state after a move, or `none` for a move that is refused.
unfoldable pub allowed : Move → Pair → Option Pair
allowed request p = if p.i_block || p.they_block then none else move_link p apart outgoing
allowed accept p = if p.i_block || p.they_block then none else move_link p incoming friends
allowed reject p = move_link p incoming apart
allowed cancel p = move_link p outgoing apart
allowed part p = move_link p friends apart
allowed block p = some (record p { i_block = true; link = apart })
allowed unblock p = some (record p { i_block = false })

abbrev pub link_of : ℕ → Result (Option FriendRequest) → Link
link_of me (err e) = apart
link_of me (ok none) = apart
link_of me (ok (some q)) =
    if is_accepted q.state then friends else if q.sender_id == me then outgoing else incoming

-- The pair that the database stands for.
unfoldable pub pair_of : User → User → Db → Pair
pair_of me other db = record {
  i_block = exists (block_pair (me.id, other.id)) db.blocks.rows;
  they_block = exists (block_pair (other.id, me.id)) db.blocks.rows;
  link = link_of me.id (find_open me.id other.id db);
}

-- A call on the open request of the pair.
abbrev pub on_open : User → User → (FriendRequest → Exec FriendRequest) → Exec FriendRequest
on_open me other go db = on_found (find_open me.id other.id db) (λ d. (err not_pending, d)) go db

abbrev pub outcome_of : {A : Type 0} → Result A × Db → Result (Unit {0}) × Db
outcome_of (ok a, db) = (ok tt, db)
outcome_of (err e, db) = (err e, db)

-- The call of a service that makes a move.
unfoldable pub perform : Move → User → User → Exec (Unit {0})
perform request me other db = outcome_of (create_friend_request serial me other db)
perform accept me other db = outcome_of (on_open me other (λ q. accept_friend_request q me) db)
perform reject me other db = outcome_of (on_open me other (λ q. reject_friend_request q me) db)
perform cancel me other db = outcome_of (on_open me other (λ q. cancel_sent_request q me) db)
perform part me other db = outcome_of (unfriend me.id other.id me db)
perform block me other db = outcome_of (block_user serial me other db)
perform unblock me other db = outcome_of (unblock_user me other.id db)

-- The row's pair is that of its two users.
abbrev pub is_normal : FriendRequest → Bool
is_normal q =
    q.canonical_left == (canonical_pair q.sender_id q.recipient_id).0
    && q.canonical_right == (canonical_pair q.sender_id q.recipient_id).1

-- Two users, and a database that meets its constraints.
pub record IsSound (me other : User) (db : Db) : Type 0 where
  pub valid : IsValid db
  pub request_ids : (n : ℕ) → count_where (λ q. q.id == n) db.requests.rows ≤ 1
  pub block_ids : (n : ℕ) → count_where (λ b. b.id == n) db.blocks.rows ≤ 1
  pub normal : exists (λ q. not (is_normal q)) db.requests.rows ≡ false
  pub distinct : me.id == other.id ≡ false
  pub me_exists : user_exists db me.id ≡ true
  pub other_exists : user_exists db other.id ≡ true

-- The outcome of a call is the abstract one: refused, and the pair is as it was, or made.
pub data Agrees (me other : User) (before : Db)
    : Option Pair → Result (Unit {0}) × Db → Type 0 where
  refused :
      {r : Result (Unit {0}) × Db} {e : Error}
      → r.0 ≡ err e
      → pair_of me other r.1 ≡ pair_of me other before
      → Agrees me other before none r
  made :
      {p : Pair} {r : Result (Unit {0}) × Db}
      → r.0 ≡ ok tt
      → pair_of me other r.1 ≡ p
      → Agrees me other before (some p) r
