-- ===== src/Social/Blocks.antt =====
-- ting_ting/social.py, block_user, unblock_user and list_blocks.
use biexce_social_network.Prelude.{
  ℕ, Bool, true, false, not, Option, List, ◌==◌, ◌&&◌, ◌||◌, Result, ok, err, self_block,
  already_blocked, exists, select, delete_where, scalar_one_or_none, if◌then◌else◌,
}
use biexce_social_network.Models.{on_found, Db, Rival, Exec, User, Block, append, with_rows}
use biexce_social_network.Social.Queries.{canonical_pair, block_pair, request_pair, user_exists}
use biexce_social_network.Social.Follows.{unsettle_follows_on_block}

-- Every request row of the pair goes, and both follow edges.
unfoldable pub sever_pair : ℕ → ℕ → Db → Db
unfolding canonical_pair unsettle_follows_on_block
sever_pair a b db = unsettle_follows_on_block a b (record db {
  requests =
      with_rows db.requests (delete_where (request_pair (canonical_pair a b)) db.requests.rows);
})

unfoldable pub new_block : User → User → Db → Block
new_block blocker target db = record {
  id = db.blocks.next_id;
  blocker_id = blocker.id;
  blocked_id = target.id;
  created_at = db.now;
}

abbrev pub find_block : ℕ → ℕ → Db → Result (Option Block)
find_block a b db = scalar_one_or_none (select (block_pair (a, b)) db.blocks.rows)

-- `uq_block_pair`, and the two foreign keys.
unfoldable pub block_conflict : ℕ → ℕ → Db → Bool
unfolding user_exists
block_conflict a b db =
    exists (block_pair (a, b)) db.blocks.rows || not (user_exists db a && user_exists db b)

-- The insert, or the rollback to what is committed.
unfoldable pub insert_block : User → User → Db → Exec Block
unfolding new_block block_conflict
insert_block blocker target committed db =
    if block_conflict blocker.id target.id db then (err already_blocked, committed) else (
      ok (new_block blocker target db),
      record db { blocks = append db.blocks (new_block blocker target db) },
    )

-- The rows to sever are read and deleted before `rival` commits; the flush of the new row comes
-- after. On an `IntegrityError` the session rolls back, the severing included, to what is
-- committed.
unfoldable pub block_user : Rival → User → User → Exec Block
unfolding sever_pair insert_block
block_user rival blocker target db =
    if blocker.id == target.id
    then (err self_block, db)
    else on_found (find_block blocker.id target.id (sever_pair blocker.id target.id db))
        (λ severed. insert_block blocker target (rival db) (rival severed))
        (λ b severed. (ok b, severed)) (sever_pair blocker.id target.id db)

abbrev pub delete_block : ℕ → Db → Db
delete_block id db = record db {
  blocks = with_rows db.blocks (delete_where (λ r. r.id == id) db.blocks.rows);
}

unfoldable pub unblock_user : User → ℕ → Exec Bool
unblock_user unblocker target_id db =
    on_found (find_block unblocker.id target_id db) (λ db'. (ok false, db'))
      (λ b db'. (ok true, delete_block b.id db')) db

unfoldable pub list_blocks : Db → ℕ → List Block
list_blocks db user_id = select (λ b. b.blocker_id == user_id) db.blocks.rows
