-- ===== src/Api/Toggles.antt =====
-- ting_ting/api/extensions.py: saving, reposting and hiding a post.
use biexce_social_network.Prelude.{
  ℕ, Bool, true, false, not, Option, none, some, if◌then◌else◌, ◌==◌, ◌&&◌, ◌||◌, find_where,
  delete_where, exists, is_none, ok, err, integrity_error,
}
use biexce_social_network.Models.{
  Db, Exec, User, Post, Mute, SavedPost, Repost, Kind, of_post, append, with_rows,
}
use biexce_social_network.Notifications.Writing.{record_activity}
use biexce_social_network.Social.Queries.{user_exists}
use biexce_social_network.Social.Mutes.{new_mute, delete_mute, post_exists}
use biexce_social_network.Api.Web.{Env, Web, pure, query, execute, commit, when, ◌>>=◌, ◌>>◌}
use biexce_social_network.Api.Features.{seen_post}

-- The two tables of `_toggle_post_feature`.
pub data Feature : Type 0 where
  saved reposted : Feature

abbrev pub saved_pair : ℕ → ℕ → SavedPost → Bool
saved_pair user_id post_id s = s.user_id == user_id && s.post_id == post_id

abbrev pub repost_pair : ℕ → ℕ → Repost → Bool
repost_pair user_id post_id r = r.user_id == user_id && r.post_id == post_id

abbrev saved_id : Option SavedPost → Option ℕ
saved_id none = none
saved_id (some s) = some s.id

abbrev repost_id : Option Repost → Option ℕ
repost_id none = none
repost_id (some r) = some r.id

-- The id of the row of a user and a post.
unfoldable pub feature_row : Feature → ℕ → ℕ → Db → Option ℕ
feature_row saved user_id post_id db =
    saved_id (find_where (saved_pair user_id post_id) db.saved.rows)
feature_row reposted user_id post_id db =
    repost_id (find_where (repost_pair user_id post_id) db.reposts.rows)

-- `uq_saved_post` or `uq_repost`, and the two foreign keys.
unfoldable pub feature_conflict : Feature → ℕ → ℕ → Db → Bool
unfolding feature_row user_exists post_exists
feature_conflict feature user_id post_id db =
    not (is_none (feature_row feature user_id post_id db))
    || not (user_exists db user_id && post_exists db post_id)

-- The new row; a repost also notifies the author of the post.
unfoldable pub add_feature : Env → Feature → ℕ → Post → Db → Db
add_feature env saved user_id post db = record db {
  saved =
      append db.saved (record {
        id = db.saved.next_id;
        user_id = user_id;
        post_id = post.id;
        created_at = db.now;
      });
}
add_feature env reposted user_id post db =
    (record_activity env.notify post.author_id user_id Kind.repost (some post.id)
      (some (of_post post.id))
      (record db {
        reposts =
            append db.reposts
              (record { id = db.reposts.next_id; user_id = user_id; post_id = post.id });
      })).1

-- Whether the row is new. After an `IntegrityError` the row of the race is there, or it is raised.
unfoldable pub insert_feature : Env → Feature → ℕ → Post → Exec Bool
unfolding feature_conflict add_feature
insert_feature env feature user_id post db =
    let db1 = env.rival db in
    if feature_conflict feature user_id post.id db1
    then (if is_none (feature_row feature user_id post.id db1)
        then (err integrity_error, db1)
        else (ok false, db1))
    else (ok true, add_feature env feature user_id post db1)

unfoldable pub remove_feature : Feature → ℕ → Db → Db
remove_feature saved id db = record db {
  saved = with_rows db.saved (delete_where (λ s. s.id == id) db.saved.rows);
}
remove_feature reposted id db = record db {
  reposts = with_rows db.reposts (delete_where (λ r. r.id == id) db.reposts.rows);
}

unfoldable pub toggle_row : Env → Feature → User → Post → Bool → Option ℕ → Web (Unit {0})
toggle_row env feature me post true none = do
  stored ← execute (insert_feature env feature me.id post)
  when stored commit
toggle_row env feature me post false (some id) = do
  gone ← execute (λ db. (ok tt, remove_feature feature id db))
  commit
toggle_row env feature me post true (some id) = pure tt
toggle_row env feature me post false none = pure tt

-- The reply is the `active` of the request.
unfoldable pub toggle_post_feature : Env → Feature → User → ℕ → Bool → Web Bool
unfolding toggle_row feature_row seen_post
toggle_post_feature env feature me post_id active = do
  post ← seen_post me post_id
  row ← query (feature_row feature me.id post.id)
  toggle_row env feature me post active row
  pure active

-- A hidden post is a mute of the post.
abbrev hides : ℕ → ℕ → Mute → Bool
hides user_id post_id m =
    m.muted_by == user_id
    && (elim m.post_id [ none ↦ false | some id ↦ id == post_id ])
    && is_none m.target_id

-- The partial unique index and the two foreign keys; after an `IntegrityError` as above.
unfoldable pub insert_hidden : Env → ℕ → ℕ → Exec Bool
unfolding new_mute user_exists post_exists
insert_hidden env user_id post_id db =
    let db1 = env.rival db in
    let taken = exists (hides user_id post_id) db1.mutes.rows in
    if taken || not (user_exists db1 user_id && post_exists db1 post_id)
    then (if taken then (ok false, db1) else (err integrity_error, db1))
    else (
      ok true,
      record db1 { mutes = append db1.mutes (new_mute user_id none (some post_id) db1) },
    )

unfoldable pub hide_row : Env → User → Post → Option Mute → Web (Unit {0})
hide_row env me post (some m) = pure tt
hide_row env me post none = do
  stored ← execute (insert_hidden env me.id post.id)
  when stored commit

unfoldable pub hide_post : Env → User → ℕ → Web Bool
unfolding insert_hidden seen_post
hide_post env me post_id = do
  post ← seen_post me post_id
  row ← query (λ db. find_where (hides me.id post.id) db.mutes.rows)
  hide_row env me post row
  pure true

unfoldable pub unhide_row : Option Mute → Web (Unit {0})
unhide_row none = pure tt
unhide_row (some m) = do gone ← execute (λ db. (ok tt, delete_mute m.id db)); commit

unfoldable pub unhide_post : User → ℕ → Web Bool
unfolding seen_post
unhide_post me post_id = do
  post ← seen_post me post_id
  row ← query (λ db. find_where (hides me.id post_id) db.mutes.rows)
  unhide_row row
  pure false
