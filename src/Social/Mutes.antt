-- ===== src/Social/Mutes.antt =====
-- ting_ting/social.py, mutes of users and of posts.
use biexce_social_network.Prelude.{
  ℕ, Bool, true, false, not, Option, none, some, ◌==◌, ◌&&◌, ◌||◌, Result, ok, err, self_mute,
  already_muted, exists, select, delete_where, scalar_one_or_none, is_none, is_value, if◌then◌else◌,
}
use biexce_social_network.Models.{on_found, Db, Rival, Exec, User, Mute, append, with_rows}
use biexce_social_network.Social.Queries.{user_exists}

-- The two queries, which are also the conditions of the two partial unique indexes.
abbrev pub mutes_user : ℕ × ℕ → Mute → Bool
mutes_user k m = m.muted_by == k.0 && is_value m.target_id k.1 && is_none m.post_id

abbrev pub mutes_post : ℕ × ℕ → Mute → Bool
mutes_post k m = m.muted_by == k.0 && is_value m.post_id k.1

abbrev pub find_mute : (Mute → Bool) → Db → Result (Option Mute)
find_mute p db = scalar_one_or_none (select p db.mutes.rows)

unfoldable pub new_mute : ℕ → Option ℕ → Option ℕ → Db → Mute
new_mute muted_by target_id post_id db = record {
  id = db.mutes.next_id;
  muted_by = muted_by;
  target_id = target_id;
  post_id = post_id;
  created_at = db.now;
}

-- The insert, or the rollback to what is committed.
abbrev pub insert_mute : Bool → Mute → Exec Mute
insert_mute conflict m db =
    if conflict then (err already_muted, db) else (ok m, record db { mutes = append db.mutes m })

unfoldable pub insert_user_mute : ℕ → ℕ → Exec Mute
unfolding new_mute user_exists
insert_user_mute muted_by target_id db =
    insert_mute
      (exists (mutes_user (muted_by, target_id)) db.mutes.rows
        || not (user_exists db muted_by && user_exists db target_id))
      (new_mute muted_by (some target_id) none db) db

unfoldable pub mute_user : Rival → User → ℕ → Exec Mute
unfolding insert_user_mute
mute_user rival muter target_id db =
    if target_id == muter.id
    then (err self_mute, db)
    else on_found (find_mute (mutes_user (muter.id, target_id)) db)
        (λ db'. insert_user_mute muter.id target_id (rival db')) (λ m db'. (ok m, db')) db

abbrev pub delete_mute : ℕ → Db → Db
delete_mute id db = record db {
  mutes = with_rows db.mutes (delete_where (λ r. r.id == id) db.mutes.rows);
}

abbrev delete_found : Result (Option Mute) → Exec Bool
delete_found r = on_found r (λ db. (ok false, db)) (λ m db. (ok true, delete_mute m.id db))

unfoldable pub unmute_user : User → ℕ → Exec Bool
unmute_user muter target_id db = delete_found (find_mute (mutes_user (muter.id, target_id)) db) db

unfoldable pub post_exists : Db → ℕ → Bool
post_exists db id = exists (λ p. p.id == id) db.posts.rows

unfoldable pub insert_post_mute : ℕ → ℕ → Exec Mute
unfolding new_mute user_exists post_exists
insert_post_mute muted_by post_id db =
    insert_mute
      (exists (mutes_post (muted_by, post_id)) db.mutes.rows
        || not (user_exists db muted_by && post_exists db post_id))
      (new_mute muted_by none (some post_id) db) db

unfoldable pub mute_post : Rival → User → ℕ → Exec Mute
unfolding insert_post_mute
mute_post rival muter post_id db =
    on_found (find_mute (mutes_post (muter.id, post_id)) db)
      (λ db'. insert_post_mute muter.id post_id (rival db')) (λ m db'. (ok m, db')) db

unfoldable pub unmute_post : User → ℕ → Exec Bool
unmute_post muter post_id db = delete_found (find_mute (mutes_post (muter.id, post_id)) db) db

unfoldable pub is_muted_by : Db → ℕ → ℕ → Bool
is_muted_by db viewer_id target_id = exists (mutes_user (viewer_id, target_id)) db.mutes.rows
