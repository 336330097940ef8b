-- ===== src/Moderation/Removal.antt =====
-- ting_ting/moderation.py: the removal of posts and comments, and what the deletion of their rows
-- takes along.
use biexce_social_network.Prelude.{
  none, ◌||◌, ◌==◌, ◌&&◌, exists, target_missing, none, err, is_value, find_where, delete_where,
  some, update_where, Option, ℕ, Bool, Result,
}
use Prim.Native.String.{String}
use biexce_social_network.Models.{
  Db, Exec, User, Post, Comment, ActionType, ResourceType, with_rows,
}
use biexce_social_network.Moderation.{
  no_entry, ok, none, some, err, Bool, Result, Option, ℕ, guarded, require_can_enforce,
  clean_reason, record_action,
}

abbrev pub find_author : ℕ → Db → Option User
find_author id db = find_where (λ u. u.id == id) db.users

-- The rows that go with a comment: the comment and its replies, by the cascade of their key.
abbrev pub goes_with_comment : ℕ → Comment → Bool
goes_with_comment id c = c.id == id || is_value c.parent_comment_id id

-- DELETE of a comment row: replies cascade, and a report loses its pin (SET NULL). Replies have no
-- replies, so one level is the whole cascade.
unfoldable pub delete_comment_row : ℕ → Db → Db
delete_comment_row id db = record db {
  comments = with_rows db.comments (delete_where (goes_with_comment id) db.comments.rows);
  reports = with_rows db.reports (
      update_where
        (λ r. exists (λ c. goes_with_comment id c && is_value r.comment_id c.id) db.comments.rows)
        (λ r. record r { comment_id = none }) db.reports.rows);
}

-- DELETE of a post row: what hangs on it cascades, and a report loses its pins.
unfoldable pub delete_post_row : ℕ → Db → Db
delete_post_row id db = record db {
  posts = with_rows db.posts (delete_where (λ p. p.id == id) db.posts.rows);
  comments = with_rows db.comments (delete_where (λ c. c.post_id == id) db.comments.rows);
  likes = with_rows db.likes (delete_where (λ l. l.post_id == id) db.likes.rows);
  reposts = with_rows db.reposts (delete_where (λ r. r.post_id == id) db.reposts.rows);
  saved = with_rows db.saved (delete_where (λ s. s.post_id == id) db.saved.rows);
  activities =
      with_rows db.activities (delete_where (λ a. is_value a.post_id id) db.activities.rows);
  mutes = with_rows db.mutes (delete_where (λ m. is_value m.post_id id) db.mutes.rows);
  reports = with_rows db.reports (
      update_where (λ r. is_value r.post_id id) (λ r. record r { post_id = none })
        (update_where
          (λ r. exists (λ c. c.post_id == id && is_value r.comment_id c.id) db.comments.rows)
          (λ r. record r { comment_id = none }) db.reports.rows));
}

abbrev remove :
    {A : Type 0}
    → User
    → User
    → ActionType
    → ResourceType
    → ℕ
    → (Db → Db)
    → A
    → Result String
    → Exec A
remove moderator target action_type resource_type id delete row (err e) db = (err e, db)
remove moderator target action_type resource_type id delete row (ok reason) db = (
  ok row,
  delete (
      record_action moderator action_type
        (record no_entry {
          target = some target;
          reason = some reason;
          resource_type = some resource_type;
          resource_id = some id;
        })
        db),
)

abbrev on_author : {A : Type 0} → Option User → (User → Exec A) → Exec A
on_author none go db = (err target_missing, db)
on_author (some target) go db = go target db

unfoldable pub delete_post_moderation : (String → String) → User → Post → String → Exec Post
unfolding delete_post_row
delete_post_moderation strip moderator post reason db =
    on_author (find_author post.author_id db)
      (λ target. guarded (require_can_enforce moderator target) (
        remove moderator target ActionType.post_removed ResourceType.post post.id
          (delete_post_row post.id) post (clean_reason strip reason)))
      db

unfoldable pub delete_comment_moderation :
    (String → String) → User → Comment → String → Exec Comment
unfolding delete_comment_row
delete_comment_moderation strip moderator comment reason db =
    on_author (find_author comment.author_id db)
      (λ target. guarded (require_can_enforce moderator target) (
        remove moderator target ActionType.comment_removed ResourceType.comment comment.id
          (delete_comment_row comment.id) comment (clean_reason strip reason)))
      db
