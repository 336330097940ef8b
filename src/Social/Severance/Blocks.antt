-- ===== src/Social/Severance/Blocks.antt =====
-- A block severs its pair, and an unblock joins nobody.
use biexce_social_network.Prelude.{
  ◌==◌, count_where-select_le, count_where_mono, count_where-insert, inr, true, inl, List, ◌&&◌,
  count_where_none, ◌||◌, not, count_where-select, arith, false, exists, ◌⊎◌, ◌≡◌, ℕ,
}
use biexce_social_network.Models.{
  FriendRequest, Table, Db, User, Block, After, After-if, After-pair, After-on_found, append,
}
use biexce_social_network.Social.Queries.{
  block_pair, is_blocked, canonical_pair, open_pair, blocked_in, follow_pair, request_pair,
}
use biexce_social_network.Social.Blocks.{
  sever_pair, new_block, insert_block, block_user, unblock_user, delete_block,
}
use biexce_social_network.Social.Severance.{ℕ, IsSevered}
use biexce_social_network.Social.Severance.Follows.{serial, fewer_follows-IsSevered}
use biexce_social_network.Social.Severance.Requests.{fewer_requests-IsSevered}

sever_pair-IsSevered : (a b : ℕ) {db : Db} → IsSevered db → IsSevered (sever_pair a b db)
unfolding sever_pair
sever_pair-IsSevered a b v = fewer_follows-IsSevered _ (fewer_requests-IsSevered _ v)

-- No edge and no request of the pair is left, in either order.
pub sever_pair_lem :
    (a b c d : ℕ) (db : Db)
    → ((c ≡ a) × (d ≡ b)) ⊎ ((c ≡ b) × (d ≡ a))
    → (exists (follow_pair (c, d)) (sever_pair a b db).follows.rows ≡ false)
      × (exists (request_pair (canonical_pair c d)) (sever_pair a b db).requests.rows ≡ false)
unfolding sever_pair
sever_pair_lem a b c d db h = (
  ground (
    arith,
    count_where-select (follow_pair (c, d))
        (λ f. not (follow_pair (a, b) f || follow_pair (b, a) f)) db.follows.rows,
    count_where_none
        (λ f. follow_pair (c, d) f && not (follow_pair (a, b) f || follow_pair (b, a) f))
        (λ f. ground arith) db.follows.rows,
  ),
  ground (
    arith,
    count_where-select (request_pair (canonical_pair c d))
        (λ q. not (request_pair (canonical_pair a b) q)) db.requests.rows,
    count_where_none
        (λ q. request_pair (canonical_pair c d) q && not (request_pair (canonical_pair a b) q))
        (λ q. ground arith) db.requests.rows,
  ),
)

-- A pair that is blocked after the insert was blocked before it, or is the new row's.
blocked_in-append :
    (t : Table Block) (x : Block) (a b : ℕ)
    → blocked_in (append t x) a b ≡ true
    → (blocked_in t a b ≡ true)
      ⊎ (((a ≡ x.blocker_id) × (b ≡ x.blocked_id)) ⊎ ((a ≡ x.blocked_id) × (b ≡ x.blocker_id)))
unfolding blocked_in
blocked_in-append t x a b h =
    ground (arith, count_where-insert (λ r. block_pair (a, b) r || block_pair (b, a) r) t.rows x)

no_open_pair :
    (k : ℕ × ℕ) (rows : List FriendRequest)
    → exists (request_pair k) rows ≡ false
    → exists (open_pair k) rows ≡ false
no_open_pair k rows h =
    ground (arith, count_where_mono (open_pair k) (request_pair k) (λ x e. ground arith) rows)

-- The severed pair with its new block.
new_block-IsSevered :
    (blocker target : User) (db : Db)
    → IsSevered db
    → let d = sever_pair blocker.id target.id db in
      IsSevered (record d { blocks = append d.blocks (new_block blocker target d) })
unfolding new_block
new_block-IsSevered blocker target db v =
    let w = sever_pair-IsSevered blocker.id target.id v in
    let d = sever_pair blocker.id target.id db in
    let x = new_block blocker target d in
    record {
      no_follow = λ a b h. elim (blocked_in-append d.blocks x a b h) [
        | inl e ↦ w.no_follow a b e
        | inr e ↦ (sever_pair_lem blocker.id target.id a b db e).0
      ];
      no_request = λ a b h. elim (blocked_in-append d.blocks x a b h) [
        | inl e ↦ w.no_request a b e
        | inr e ↦ no_open_pair _ d.requests.rows (sever_pair_lem blocker.id target.id a b db e).1
      ];
    }

insert_block-IsSevered :
    (blocker target : User) {db : Db}
    → IsSevered db
    → After IsSevered (insert_block blocker target db (sever_pair blocker.id target.id db))
unfolding insert_block
insert_block-IsSevered blocker target v = search (After-if, After-pair, new_block-IsSevered)

pub block_user-IsSevered :
    (blocker target : User) {db : Db}
    → IsSevered db
    → After IsSevered (block_user serial blocker target db)
unfolding block_user
block_user-IsSevered blocker target v =
    search (After-if, After-pair, After-on_found, insert_block-IsSevered, sever_pair-IsSevered)
      depth 8

-- Fewer blocks sever fewer pairs.
delete_block-IsSevered : (id : ℕ) {db : Db} → IsSevered db → IsSevered (delete_block id db)
unfolding blocked_in
delete_block-IsSevered id {db} v = record {
  no_follow = λ a b h. v.no_follow a b (still a b h);
  no_request = λ a b h. v.no_request a b (still a b h);
}
  where
    still : (a b : ℕ) → is_blocked (delete_block id db) a b ≡ true → is_blocked db a b ≡ true
    still a b h = ground (
      arith,
      count_where-select_le (λ r. block_pair (a, b) r || block_pair (b, a) r)
          (λ r. not (r.id == id)) db.blocks.rows,
    )

pub unblock_user-IsSevered :
    (unblocker : User) (target_id : ℕ) {db : Db}
    → IsSevered db
    → After IsSevered (unblock_user unblocker target_id db)
unfolding unblock_user
unblock_user-IsSevered unblocker target_id v =
    search (After-pair, After-on_found, delete_block-IsSevered)
