-- ===== src/Interactions.antt =====
-- ting_ting/interactions.py: likes and comments.
pub mod Replies
pub mod Likes
use biexce_social_network.Keyset.Pages.{take}
use Prim.Native.String.{String}
use biexce_social_network.Prelude.{
  reply_to_reply, is_none, parent_mismatch, update_where, select, parent_not_found, forbidden,
  delete_where, integrity_error, some, scalar_one_or_none, err, not, ◌||◌, order_by, none, ◌>>=◌,
  true, ok, Result, false, count_where, List, if◌then◌else◌, exists, ltb, find_where, ◌&&◌, ℕ, Bool,
  Option, ◌==◌,
}
use biexce_social_network.Models.{Db, Rival, Exec, Post, Like, Comment, append, with_rows, on_found}
use biexce_social_network.Social.Queries.{user_exists}
use biexce_social_network.Social.Mutes.{post_exists}
use biexce_social_network.Moderation.Removal.{delete_comment_row}

abbrev pub like_pair : ℕ × ℕ → Like → Bool
like_pair k l = l.user_id == k.0 && l.post_id == k.1

abbrev pub find_like : ℕ → ℕ → Db → Result (Option Like)
find_like user_id post_id db =
    scalar_one_or_none (select (like_pair (user_id, post_id)) db.likes.rows)

unfoldable pub new_like : ℕ → ℕ → Db → Like
new_like user_id post_id db = record {
  id = db.likes.next_id;
  user_id = user_id;
  post_id = post_id;
  created_at = db.now;
}

-- `uq_user_post_like`, and the two foreign keys.
unfoldable pub like_conflict : ℕ → ℕ → Db → Bool
unfolding user_exists post_exists
like_conflict user_id post_id db =
    exists (like_pair (user_id, post_id)) db.likes.rows
    || not (user_exists db user_id && post_exists db post_id)

-- The insert, or the row that won the race.
unfoldable pub insert_like : ℕ → ℕ → Exec Like
unfolding new_like like_conflict
insert_like user_id post_id db =
    if like_conflict user_id post_id db
    then on_found (find_like user_id post_id db) (λ db'. (err integrity_error, db'))
        (λ l db'. (ok l, db')) db
    else (
      ok (new_like user_id post_id db),
      record db { likes = append db.likes (new_like user_id post_id db) },
    )

unfoldable pub create_like : Rival → ℕ → Post → Exec Like
unfolding insert_like
create_like rival user_id post db =
    on_found (find_like user_id post.id db) (λ db'. insert_like user_id post.id (rival db'))
      (λ l db'. (ok l, db')) db

-- `none` is the `None` of a like that does not exist.
unfoldable pub remove_like : ℕ → Post → Exec (Option Like)
remove_like user_id post db =
    on_found (find_like user_id post.id db) (λ db'. (ok none, db'))
      (λ l db'. (
        ok (some l),
        record db' {
          likes = with_rows db'.likes (delete_where (λ r. r.id == l.id) db'.likes.rows);
        },
      ))
      db

unfoldable pub count_likes : Db → ℕ → ℕ
count_likes db post_id = count_where (λ l. l.post_id == post_id) db.likes.rows

abbrev pub liked_of : Option Like → Bool
liked_of none = false
liked_of (some l) = true

unfoldable pub is_user_liked : Db → ℕ → ℕ → Result Bool
is_user_liked db user_id post_id = find_like user_id post_id db >>= λ l. ok (liked_of l)

abbrev pub find_comment : ℕ → Db → Option Comment
find_comment id db = find_where (λ c. c.id == id) db.comments.rows

-- The id of the parent, or what the guards raise.
abbrev parent_of : Post → Option Comment → Result (Option ℕ)
parent_of post none = err parent_not_found
parent_of post (some parent) =
    if not (parent.post_id == post.id)
    then err parent_mismatch
    else if not (is_none parent.parent_comment_id)
    then err reply_to_reply
    else ok (some parent.id)

unfoldable pub resolve_parent : Post → Option ℕ → Db → Result (Option ℕ)
resolve_parent post none db = ok none
resolve_parent post (some id) db = parent_of post (find_comment id db)

unfoldable pub new_comment : Post → ℕ → String → Option ℕ → Db → Comment
new_comment post author_id content parent_id db = record {
  id = db.comments.next_id;
  post_id = post.id;
  author_id = author_id;
  parent_comment_id = parent_id;
  content = content;
  created_at = db.now;
}

-- The flush: a foreign key refuses a missing post or author.
abbrev insert_comment : Post → ℕ → String → Result (Option ℕ) → Exec Comment
insert_comment post author_id content (err e) db = (err e, db)
insert_comment post author_id content (ok parent_id) db =
    if not (post_exists db post.id && user_exists db author_id)
    then (err integrity_error, db)
    else (
      ok (new_comment post author_id content parent_id db),
      record db { comments = append db.comments (new_comment post author_id content parent_id db) },
    )

unfoldable pub create_comment : Post → ℕ → String → Option ℕ → Exec Comment
unfolding resolve_parent new_comment
create_comment post author_id content parent_comment_id db =
    insert_comment post author_id content (resolve_parent post parent_comment_id db) db

unfoldable pub edit_comment : Comment → ℕ → String → Exec Comment
edit_comment comment by_user_id content db =
    if not (comment.author_id == by_user_id) then (err forbidden, db) else (
      ok (record comment { content = content }),
      record db {
        comments = with_rows db.comments (
            update_where (λ c. c.id == comment.id) (λ c. record c { content = content })
              db.comments.rows);
      },
    )

unfoldable pub delete_comment : Comment → ℕ → Post → Exec Comment
unfolding delete_comment_row
delete_comment comment by_user_id post db =
    if not (by_user_id == comment.author_id) && not (by_user_id == post.author_id)
    then (err forbidden, db)
    else (ok comment, delete_comment_row comment.id db)

-- `created_at ASC, id ASC`
abbrev older_comment : Comment → Comment → Bool
older_comment a b = ltb a.created_at b.created_at || (a.created_at == b.created_at && ltb a.id b.id)

abbrev after_key : Option (ℕ × ℕ) → Comment → Bool
after_key none c = true
after_key (some k) c = ltb k.0 c.created_at || (c.created_at == k.0 && ltb k.1 c.id)

abbrev limited : Option ℕ → List Comment → List Comment
limited none cs = cs
limited (some n) cs = take n cs

unfoldable pub list_comments : Db → ℕ → Option ℕ → Option (ℕ × ℕ) → List Comment
list_comments db post_id limit start = limited limit (
    order_by older_comment
      (select (λ c. c.post_id == post_id && after_key start c) db.comments.rows))

unfoldable pub count_comments : Db → ℕ → ℕ
count_comments db post_id = count_where (λ c. c.post_id == post_id) db.comments.rows

unfoldable pub count_reposts : Db → ℕ → ℕ
count_reposts db post_id = count_where (λ r. r.post_id == post_id) db.reposts.rows
