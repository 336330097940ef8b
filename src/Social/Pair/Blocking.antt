-- ===== src/Social/Pair/Blocking.antt =====
-- A block between the two users of a pair, and its lifting.
use biexce_social_network.Prelude.{
  ℕ, Bool, true, false, not, none, some, ok, ◌==◌, ◌≡◌, refl, select, exists, count_where, arith,
  inl, inr, Bool-cases, ap, ◌∙◌, scalar_none, scalar_some, ==_refl, ltb, count_where-insert,
  count_where-delete_one, count_where-select, count_where_none,
}
use biexce_social_network.Models.{Db, User, append, Block, Table}
use biexce_social_network.Social.Queries.{canonical_pair, open_pair, request_pair, block_pair}
use biexce_social_network.Social.Blocks.{
  block_user, unblock_user, sever_pair, insert_block, find_block, new_block, block_conflict,
  delete_block,
}
use biexce_social_network.Social.Pair.{
  apart, block, unblock, allowed, perform, pair_of, IsSound, Agrees,
}
use biexce_social_network.Social.Pair.Found.{select_of_scalar, select_one, select_by_id}
use biexce_social_network.Social.Pair.Moves.{Agrees-made}

-- The severed pair has no open request, whatever the blocks.
no_open_after :
    (a b : ℕ) (db : Db)
    → count_where (open_pair (canonical_pair a b)) (sever_pair a b db).requests.rows ≡ 0
unfolding sever_pair
no_open_after a b db =
    count_where-select (open_pair (canonical_pair a b))
      (λ q. not (request_pair (canonical_pair a b) q)) db.requests.rows
    ∙ count_where_none _ (λ q. ground arith) db.requests.rows

-- The pair after the severing and a change of the blocks.
severed-pair :
    (me other : User) (db : Db) (t : Table Block) (i they : Bool)
    → exists (block_pair (me.id, other.id)) t.rows ≡ i
    → exists (block_pair (other.id, me.id)) t.rows ≡ they
    → pair_of me other (record (sever_pair me.id other.id db) { blocks = t })
      ≡ record { i_block = i; they_block = they; link = apart }
unfolding pair_of
severed-pair me other db t i they h k =
    rw
      (
        h,
        k,
        scalar_none (open_pair (canonical_pair me.id other.id))
            (sever_pair me.id other.id db).requests.rows
            (ap (ltb 0) (no_open_after me.id other.id db)),
      )
      refl

sever-blocks : (a b : ℕ) (db : Db) → (sever_pair a b db).blocks ≡ db.blocks
unfolding sever_pair
sever-blocks a b db = refl

block-stands :
    (me other : User) (b : Block) (db : Db)
    → me.id == other.id ≡ false
    → find_block me.id other.id db ≡ ok (some b)
    → perform block me other db ≡ (ok tt, sever_pair me.id other.id db)
unfolding perform block_user sever_pair
block-stands me other b db d h = rw (d, h) refl

block-made :
    (me other : User) (db : Db)
    → IsSound me other db
    → find_block me.id other.id db ≡ ok none
    → exists (block_pair (me.id, other.id)) db.blocks.rows ≡ false
    → perform block me other db ≡ (
      ok tt,
      record (sever_pair me.id other.id db) { blocks = append db.blocks (new_block me other db) },
    )
unfolding perform block_user sever_pair insert_block block_conflict new_block
block-made me other db s h e = rw (s.distinct, h, e, s.me_exists, s.other_exists) refl

blocks_after :
    (me other : User) (db : Db)
    → me.id == other.id ≡ false
    → (exists (block_pair (me.id, other.id)) (append db.blocks (new_block me other db)).rows ≡ true)
      × (exists (block_pair (other.id, me.id)) (append db.blocks (new_block me other db)).rows
          ≡ exists (block_pair (other.id, me.id)) db.blocks.rows)
unfolding new_block
blocks_after me other db d =
    let n = new_block me other db in
    (
      ground (
        arith,
        count_where-insert (block_pair (me.id, other.id)) db.blocks.rows n,
        ==_refl me.id,
        ==_refl other.id,
      ),
      ground (arith, count_where-insert (block_pair (other.id, me.id)) db.blocks.rows n, d),
    )

pub block-Agrees :
    (me other : User) (db : Db)
    → IsSound me other db
    → Agrees me other db (allowed block (pair_of me other db)) (perform block me other db)
unfolding allowed pair_of sever_pair
block-Agrees me other db s =
    elim (Bool-cases (exists (block_pair (me.id, other.id)) db.blocks.rows)) [
      | inl e ↦
          let f =
            scalar_some (block_pair (me.id, other.id)) db.blocks.rows
              (s.valid.block_unique (me.id, other.id)) e in
          Agrees-made me other db _ _ _ _ refl (block-stands me other f.0 db s.distinct f.1)
            (severed-pair me other db db.blocks true _ e refl)
      | inr e ↦
          Agrees-made me other db _ _ _ _ refl
            (block-made me other db s (scalar_none (block_pair (me.id, other.id)) db.blocks.rows e)
              e)
            (severed-pair me other db (append db.blocks (new_block me other db)) true _
              (blocks_after me other db s.distinct).0 (blocks_after me other db s.distinct).1)
    ]

unblock-none :
    (me other : User) (db : Db)
    → find_block me.id other.id db ≡ ok none
    → perform unblock me other db ≡ (ok tt, db)
unfolding perform unblock_user
unblock-none me other db h = rw h refl

unblock-some :
    (me other : User) (b : Block) (db : Db)
    → find_block me.id other.id db ≡ ok (some b)
    → perform unblock me other db ≡ (ok tt, delete_block b.id db)
unfolding perform unblock_user
unblock-some me other b db h = rw h refl

deleted_block :
    (me other : User) (b : Block) (db : Db)
    → IsSound me other db
    → find_block me.id other.id db ≡ ok (some b)
    → (exists (block_pair (me.id, other.id)) (delete_block b.id db).blocks.rows ≡ false)
      × (exists (block_pair (other.id, me.id)) (delete_block b.id db).blocks.rows
          ≡ exists (block_pair (other.id, me.id)) db.blocks.rows)
deleted_block me other b db s h =
    let p = block_pair (me.id, other.id) in
    let one = select_of_scalar (select p db.blocks.rows) b h in
    let own = select_one p db.blocks.rows b one in
    let loaded =
      select_by_id p (λ r. r.id == b.id) db.blocks.rows b one (==_refl b.id) (s.block_ids b.id) in
    (
      ground (
        arith,
        count_where-delete_one p (λ r. r.id == b.id) b db.blocks.rows loaded,
        own,
        s.valid.block_unique (me.id, other.id),
      ),
      ground (
        arith,
        count_where-delete_one (block_pair (other.id, me.id)) (λ r. r.id == b.id) b db.blocks.rows
            loaded,
        own,
        s.distinct,
      ),
    )

pub unblock-Agrees :
    (me other : User) (db : Db)
    → IsSound me other db
    → Agrees me other db (allowed unblock (pair_of me other db)) (perform unblock me other db)
unfolding allowed pair_of
unblock-Agrees me other db s =
    elim (Bool-cases (exists (block_pair (me.id, other.id)) db.blocks.rows)) [
      | inr e ↦
          Agrees-made me other db db _ _ _ refl
            (unblock-none me other db (scalar_none (block_pair (me.id, other.id)) db.blocks.rows e))
            (rw e refl)
      | inl e ↦
          let f =
            scalar_some (block_pair (me.id, other.id)) db.blocks.rows
              (s.valid.block_unique (me.id, other.id)) e in
          let d = deleted_block me other f.0 db s f.1 in
          Agrees-made me other db (delete_block f.0.id db) _ _ _ refl
            (unblock-some me other f.0 db f.1) (rw (d.0, d.1) refl)
    ]
