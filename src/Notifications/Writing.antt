-- ===== src/Notifications/Writing.antt =====
-- ting_ting/notifications.py, record, mark_read and mark_all_read.
use biexce_social_network.Social.Queries.{user_exists}
use biexce_social_network.Social.Mutes.{post_exists}
use biexce_social_network.Prelude.{
  ℕ, Bool, true, false, not, Option, none, some, ◌==◌, ◌&&◌, ◌||◌, ok, exists, is_none, find_last,
  count_where, update_where, if◌then◌else◌,
}
use biexce_social_network.Models.{
  Db, Rival, Exec, Activity, Kind, SourceKey, edge, of_post, append, with_rows,
}
use biexce_social_network.Notifications.Preferences.{is_enabled}
use biexce_social_network.Notifications.Columns.{kind_eq, has_source}

-- The columns of `ux_activities_unread_dedup`.
pub record UnreadKey : Type 0 where
  pub user_id : ℕ
  pub actor_id : ℕ
  pub kind : Kind
  pub source_key : SourceKey

-- The condition of both queries of `record`, and of the unique index.
unfoldable pub unread_match : UnreadKey → Activity → Bool
unread_match k a =
    a.user_id == k.user_id
    && a.actor_id == k.actor_id
    && kind_eq a.kind k.kind
    && has_source k.source_key a.source_key
    && is_none a.read_at

abbrev default_source : Option ℕ → SourceKey
default_source none = edge
default_source (some post_id) = of_post post_id

-- "edge" or "post:<id>" where the caller gives no key. No key reaches 96 characters, so the cut
-- `[:96]` changes nothing.
unfoldable pub source_or_default : Option ℕ → Option SourceKey → SourceKey
source_or_default post_id none = default_source post_id
source_or_default post_id (some s) = s

unfoldable pub new_activity : UnreadKey → Option ℕ → Db → Activity
new_activity k post_id db = record {
  id = db.activities.next_id;
  user_id = k.user_id;
  actor_id = k.actor_id;
  kind = k.kind;
  post_id = post_id;
  source_key = some k.source_key;
  created_at = db.now;
  read_at = none;
}

-- `posts.id` of a row that has one.
abbrev pub post_known : Option ℕ → Db → Bool
post_known none db = true
post_known (some id) db = post_exists db id

-- The unique index, and the three foreign keys.
unfoldable pub activity_conflict : UnreadKey → Option ℕ → Db → Bool
unfolding unread_match post_exists user_exists
activity_conflict k post_id db =
    exists (unread_match k) db.activities.rows
    || not (user_exists db k.user_id && user_exists db k.actor_id && post_known post_id db)

-- The insert in its savepoint. After an `IntegrityError` the handler returns the newest unread row
-- with the key, or `none` where a foreign key was the reason.
unfoldable pub insert_activity : UnreadKey → Option ℕ → Exec (Option Activity)
unfolding activity_conflict unread_match new_activity
insert_activity k post_id db =
    if activity_conflict k post_id db
    then (ok (find_last (unread_match k) db.activities.rows), db)
    else (
      ok (some (new_activity k post_id db)),
      record db { activities = append db.activities (new_activity k post_id db) },
    )

abbrev pub key_for : ℕ → ℕ → Kind → Option ℕ → Option SourceKey → UnreadKey
key_for user_id actor_id kind post_id source_key = record {
  user_id = user_id;
  actor_id = actor_id;
  kind = kind;
  source_key = source_or_default post_id source_key;
}

-- `record` of the source, for a kind of `NOTIFICATION_KINDS`.
unfoldable pub record_activity :
    Rival → ℕ → ℕ → Kind → Option ℕ → Option SourceKey → Exec (Option Activity)
unfolding is_enabled source_or_default insert_activity
record_activity rival user_id actor_id kind post_id source_key db =
    if user_id == actor_id || not (is_enabled db user_id kind)
    then (ok none, db)
    else let k = key_for user_id actor_id kind post_id source_key in
      if exists (unread_match k) db.activities.rows
      then (ok (find_last (unread_match k) db.activities.rows), db)
      else insert_activity k post_id (rival db)

abbrev pub unread_of : ℕ → Activity → Bool
unread_of user_id a = a.user_id == user_id && is_none a.read_at

-- Setting `read_at` on the row with an id.
abbrev read_row : ℕ → Db → Db
read_row id db = record db {
  activities =
      with_rows db.activities (
        update_where (λ a. a.id == id) (λ a. record a { read_at = some db.now })
          db.activities.rows);
}

-- `None` is a row that does not exist.
unfoldable pub mark_read : ℕ → Option Activity → Exec Bool
mark_read user_id none db = (ok false, db)
mark_read user_id (some a) db =
    if not (a.user_id == user_id) || not (is_none a.read_at)
    then (ok false, db)
    else (ok true, read_row a.id db)

unfoldable pub mark_all_read : ℕ → Exec ℕ
mark_all_read user_id db = (
  ok (count_where (unread_of user_id) db.activities.rows),
  record db {
    activities = with_rows db.activities (
        update_where (unread_of user_id) (λ a. record a { read_at = some db.now })
          db.activities.rows);
  },
)
