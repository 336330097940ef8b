-- ===== src/Social/Pair/Moves.antt =====
-- What each call does to the pair: its effect on the rows, read as an effect on the abstract state.
use biexce_social_network.Prelude.{
  ltb, false, Option, none, some, Result, ok, err, Error, ◌||◌, ◌≡◌, refl, exists, select,
  count_where, scalar_one_or_none, inl, inr, Bool-cases, sym, ap, ◌⊎◌, exists-or, scalar_none,
  scalar_some,
}
use biexce_social_network.Models.{Db, User, FriendRequest, Table}
use biexce_social_network.Social.Queries.{
  canonical_pair, open_pair, block_pair, is_blocked, blocked_in,
}
use biexce_social_network.Social.Requests.{find_open}
use biexce_social_network.Social.Pair.{
  apart, Pair, pair_of, link_of, IsSound, Agrees, refused, made,
}
use biexce_social_network.Social.Pair.Found.{IsFound, find_open-IsFound}

pub Agrees-refused :
    (me other : User) (db : Db) (o : Option Pair) (r : Result (Unit {0}) × Db) (e : Error)
    → o ≡ none
    → r ≡ (err e, db)
    → Agrees me other db o r
Agrees-refused me other db o r e h k = rw (h, k) (refused refl refl)

pub Agrees-made :
    (me other : User) (db after : Db) (o : Option Pair) (p : Pair) (r : Result (Unit {0}) × Db)
    → o ≡ some p
    → r ≡ (ok tt, after)
    → pair_of me other after ≡ p
    → Agrees me other db o r
Agrees-made me other db after o p r h k e = rw (h, k) (made refl e)

pub blocked_of :
    (me other : User) (db : Db)
    → ((pair_of me other db).i_block || (pair_of me other db).they_block)
      ≡ is_blocked db me.id other.id
unfolding pair_of blocked_in
blocked_of me other db =
    sym (exists-or (block_pair (me.id, other.id)) (block_pair (other.id, me.id)) db.blocks.rows)

pub link_known :
    (me other : User) (db : Db) (r : Result (Option FriendRequest))
    → find_open me.id other.id db ≡ r
    → (pair_of me other db).link ≡ link_of me.id r
unfolding pair_of
link_known me other db r h = ap (link_of me.id) h

-- A change of the requests alone.
pub relinked :
    (me other : User) (db : Db) (t : Table FriendRequest) (r : Result (Option FriendRequest))
    → scalar_one_or_none (select (open_pair (canonical_pair me.id other.id)) t.rows) ≡ r
    → pair_of me other (record db { requests = t })
      ≡ record (pair_of me other db) { link = link_of me.id r }
unfolding pair_of
relinked me other db t r h = ap (λ s. record (pair_of me other db) { link = link_of me.id s }) h

pub closed :
    (me other : User) (db : Db) (t : Table FriendRequest)
    → count_where (open_pair (canonical_pair me.id other.id)) t.rows ≡ 0
    → pair_of me other (record db { requests = t }) ≡ record (pair_of me other db) { link = apart }
closed me other db t h =
    relinked me other db t (ok none)
      (scalar_none (open_pair (canonical_pair me.id other.id)) t.rows (ap (ltb 0) h))

-- The pair has no open request, or one.
pub find_open-cases :
    (me other : User) (db : Db)
    → IsSound me other db
    → ((find_open me.id other.id db ≡ ok none)
        × (exists (open_pair (canonical_pair me.id other.id)) db.requests.rows ≡ false))
      ⊎ ((q : FriendRequest) × (find_open me.id other.id db ≡ ok (some q)) × IsFound me other q db)
find_open-cases me other db s =
    let k = canonical_pair me.id other.id in
    elim (Bool-cases (exists (open_pair k) db.requests.rows)) [
      | inl e ↦
          let f = scalar_some (open_pair k) db.requests.rows (s.valid.request_unique k) e in
          inr (f.0, f.1, find_open-IsFound me other f.0 db s f.1)
      | inr e ↦ inl (scalar_none (open_pair k) db.requests.rows e, e)
    ]
