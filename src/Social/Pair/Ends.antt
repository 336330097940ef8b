-- ===== src/Social/Pair/Ends.antt =====
-- The moves that need no open request: the end of a friendship, a block and its lifting.
use biexce_social_network.Prelude.{
  select_none, ==_refl, Bool, true, false, none, some, [], ◌∷◌, ok, err, ◌&&◌, ◌≡◌, refl, select,
  scalar_one_or_none, arith, inl, inr, ap, ◌∙◌, not_friends,
}
use biexce_social_network.Models.{Db, User, FriendRequest, rejected}
use biexce_social_network.Social.Queries.{canonical_pair, open_pair, request_pair, is_accepted}
use biexce_social_network.Social.Requests.{unfriend, set_state, delete_stale}
use biexce_social_network.Social.Pair.{apart, part, allowed, perform, pair_of, IsSound, Agrees}
use biexce_social_network.Social.Pair.Found.{select_narrow}
use biexce_social_network.Social.Pair.Moves.{
  Agrees-refused, Agrees-made, link_known, find_open-cases,
}
use biexce_social_network.Social.Pair.Standing.{theirs, mine, both, found-Stands, rejected-pair}

-- The friendship is looked for among the open requests.
friendship_among :
    (me other : User) (db : Db)
    → select
        (λ q. request_pair (canonical_pair me.id other.id) q && is_accepted q.state)
        db.requests.rows
      ≡ select
          (λ q. request_pair (canonical_pair me.id other.id) q && is_accepted q.state)
          (select (open_pair (canonical_pair me.id other.id)) db.requests.rows)
friendship_among me other db =
    select_narrow (open_pair (canonical_pair me.id other.id))
      (λ q. request_pair (canonical_pair me.id other.id) q && is_accepted q.state)
      (λ q h. ground (arith, h)) db.requests.rows

-- The friendship found, or not.
friendship_none :
    (me other : User) (db : Db)
    → select
        (λ q. request_pair (canonical_pair me.id other.id) q && is_accepted q.state)
        db.requests.rows
      ≡ []
    → perform part me other db ≡ (err not_friends, db)
unfolding perform unfriend scalar_one_or_none
friendship_none me other db h = rw (==_refl me.id, h) refl

friendship_found :
    (me other : User) (q : FriendRequest) (db : Db)
    → select
        (λ q. request_pair (canonical_pair me.id other.id) q && is_accepted q.state)
        db.requests.rows
      ≡ q ∷ []
    → perform part me other db
      ≡ (ok tt, set_state q.id rejected (delete_stale q.id (canonical_pair me.id other.id) db))
unfolding perform unfriend scalar_one_or_none
friendship_found me other q db h = rw (==_refl me.id, h) refl

select_none_pending :
    (r : FriendRequest → Bool) (q : FriendRequest) → r q ≡ false → select r (q ∷ []) ≡ []
unfolding select
select_none_pending r q h = rw h refl

select_some_accepted :
    (r : FriendRequest → Bool) (q : FriendRequest) → r q ≡ true → select r (q ∷ []) ≡ q ∷ []
unfolding select
select_some_accepted r q h = rw h refl

select_nil : (r : FriendRequest → Bool) → select r [] ≡ []
unfolding select
select_nil r = refl

pub part-Agrees :
    (me other : User) (db : Db)
    → IsSound me other db
    → Agrees me other db (allowed part (pair_of me other db)) (perform part me other db)
unfolding allowed
part-Agrees me other db s = elim (find_open-cases me other db s) [
  | inl (h, fresh) ↦
      Agrees-refused me other db _ _ not_friends (rw (link_known me other db (ok none) h) refl) (
        friendship_none me other db (
          friendship_among me other db
          ∙ ap (select _) (select_none _ db.requests.rows fresh)
          ∙ select_nil _))
  | inr (q, h, f) ↦
      let among = friendship_among me other db ∙ ap (select _) f.selected in
      elim (found-Stands me other q db f s.distinct) [
        | both w a l ↦
            Agrees-made me other db _ _ (record (pair_of me other db) { link = apart }) _
              (rw (link_known me other db (ok (some q)) h ∙ l) refl)
              (friendship_found me other q db
                (among ∙ select_some_accepted _ q (ground (arith, a, f.opened))))
              (rejected-pair me other q (canonical_pair me.id other.id) db s f)
        | theirs w r t l ↦
            Agrees-refused me other db _ _ not_friends
              (rw (link_known me other db (ok (some q)) h ∙ l) refl)
              (friendship_none me other db (among ∙ select_none_pending _ q (ground (arith, w))))
        | mine w r t l ↦
            Agrees-refused me other db _ _ not_friends
              (rw (link_known me other db (ok (some q)) h ∙ l) refl)
              (friendship_none me other db (among ∙ select_none_pending _ q (ground (arith, w))))
      ]
]
