-- ===== src/Social/Uniqueness/Blocks.antt =====
-- Blocks keep the constraints.
use biexce_social_network.Prelude.{Unique-insert, arith, true, false, Unique-select, ℕ, ◌≡◌}
use biexce_social_network.Models.{
  Db, Rival, User, Block, After, After-if, After-pair, After-on_found, append,
}
use biexce_social_network.Social.Queries.{follow_pair, open_pair, block_pair}
use biexce_social_network.Social.Blocks.{
  sever_pair, new_block, block_conflict, insert_block, block_user, unblock_user, delete_block,
}
use biexce_social_network.Social.Uniqueness.{
  IsValid, KeepsValid, requests-IsValid, follows-IsValid, blocks-IsValid,
}

pub sever_pair-IsValid : (a b : ℕ) (db : Db) → IsValid db → IsValid (sever_pair a b db)
unfolding sever_pair
sever_pair-IsValid a b db v =
    follows-IsValid
      (requests-IsValid v _ (Unique-select open_pair _ db.requests.rows v.request_unique)) _
      (Unique-select follow_pair _ db.follows.rows v.follow_unique)

same_block :
    (k j : ℕ × ℕ) (x y : Block)
    → block_pair k x ≡ true
    → block_pair j x ≡ true
    → block_pair j y ≡ true
    → block_pair k y ≡ true
same_block k j x y a b c = ground arith

block_pair-new_block :
    (blocker target : User) (db : Db)
    → block_pair (blocker.id, target.id) (new_block blocker target db) ≡ true
unfolding new_block
block_pair-new_block blocker target db = ground arith

new_block-IsValid :
    (blocker target : User) (db : Db)
    → IsValid db
    → block_conflict blocker.id target.id db ≡ false
    → IsValid (record db { blocks = append db.blocks (new_block blocker target db) })
unfolding block_conflict
new_block-IsValid blocker target db v fresh =
    let x = new_block blocker target db in
    let k : ℕ × ℕ = (blocker.id, target.id) in
    blocks-IsValid v (append db.blocks x) (
      Unique-insert block_pair k x db.blocks.rows (ground arith)
        (λ j y a b. same_block k j x y (block_pair-new_block blocker target db) a b) v.block_unique)

insert_block-IsValid :
    (blocker target : User) {committed db : Db}
    → IsValid committed
    → IsValid db
    → After IsValid (insert_block blocker target committed db)
unfolding insert_block
insert_block-IsValid blocker target c v = search (After-if, After-pair, new_block-IsValid)

-- A block keeps the constraints, also when it loses the race and rolls back.
pub block_user-IsValid :
    (rival : Rival) (blocker target : User) {db : Db}
    → KeepsValid rival
    → IsValid db
    → After IsValid (block_user rival blocker target db)
unfolding block_user
block_user-IsValid rival blocker target r v =
    search (After-if, After-pair, After-on_found, insert_block-IsValid, sever_pair-IsValid) depth 8

delete_block-IsValid : (id : ℕ) (db : Db) → IsValid db → IsValid (delete_block id db)
delete_block-IsValid id db v =
    blocks-IsValid v _ (Unique-select block_pair _ db.blocks.rows v.block_unique)

pub unblock_user-IsValid :
    (unblocker : User) (target_id : ℕ) {db : Db}
    → IsValid db
    → After IsValid (unblock_user unblocker target_id db)
unfolding unblock_user
unblock_user-IsValid unblocker target_id v =
    search (After-pair, After-on_found, delete_block-IsValid)
