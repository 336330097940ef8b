-- ===== src/Notifications/Preferences.antt =====
-- ting_ting/notifications.py, get_preferences, update_preferences and is_enabled. A missing row
-- means that every kind is enabled.
use biexce_social_network.Prelude.{
  ℕ, Bool, true, Option, none, some, List, [], ◌∷◌, ◌++◌, ◌==◌, ok, exists, find_where,
  update_where, if◌then◌else◌,
}
use biexce_social_network.Models.{
  Db, Rival, Exec, NotificationPreference, Kind, follow, follow_request, like, comment, repost,
  mention,
}

unfoldable pub preference_of : ℕ → NotificationPreference → Bool
preference_of user_id row = row.user_id == user_id

-- `getattr(row, _PREFERENCE_FIELDS[kind])`
unfoldable pub field : Kind → NotificationPreference → Bool
field follow row = row.follow_enabled
field follow_request row = row.follow_request_enabled
field like row = row.like_enabled
field comment row = row.comment_enabled
field repost row = row.repost_enabled
field mention row = row.mention_enabled

-- `setattr(row, _PREFERENCE_FIELDS[kind], enabled)`
unfoldable pub set_field : Kind → Bool → NotificationPreference → NotificationPreference
set_field follow b row = record row { follow_enabled = b }
set_field follow_request b row = record row { follow_request_enabled = b }
set_field like b row = record row { like_enabled = b }
set_field comment b row = record row { comment_enabled = b }
set_field repost b row = record row { repost_enabled = b }
set_field mention b row = record row { mention_enabled = b }

unfoldable pub enabled_in : Kind → Option NotificationPreference → Bool
unfolding field
enabled_in kind none = true
enabled_in kind (some row) = field kind row

unfoldable pub is_enabled : Db → ℕ → Kind → Bool
unfolding enabled_in preference_of
is_enabled db user_id kind = enabled_in kind (find_where (preference_of user_id) db.preferences)

-- The dictionary of `get_preferences`, read at each kind.
unfoldable pub get_preferences : Db → ℕ → Kind → Bool
unfolding enabled_in preference_of
get_preferences db user_id =
    let row = find_where (preference_of user_id) db.preferences in λ kind. enabled_in kind row

-- The loop over `changes.items()`.
unfoldable pub apply_changes : List (Kind × Bool) → NotificationPreference → NotificationPreference
unfolding set_field
apply_changes [] row = row
apply_changes ((kind, on) ∷ changes) row = apply_changes changes (set_field kind on row)

-- A new row has the server defaults.
unfoldable pub default_row : ℕ → ℕ → NotificationPreference
default_row user_id now = record {
  user_id = user_id;
  follow_enabled = true;
  follow_request_enabled = true;
  like_enabled = true;
  comment_enabled = true;
  repost_enabled = true;
  mention_enabled = true;
  updated_at = now;
}

-- The loop, the new `updated_at` and the flush, on the row of `user_id`.
unfoldable pub write_changes : ℕ → List (Kind × Bool) → Exec (Kind → Bool)
unfolding apply_changes get_preferences
write_changes user_id changes db =
    let db' : Db = record db {
      preferences =
          update_where (preference_of user_id)
            (λ row. record (apply_changes changes row) { updated_at = db.now }) db.preferences;
    } in
    (ok (get_preferences db' user_id), db')

-- A missing row is inserted in a savepoint. If another transaction inserted one first, the primary
-- key rejects ours, and the code goes on with theirs.
unfoldable pub update_preferences : Rival → ℕ → List (Kind × Bool) → Exec (Kind → Bool)
unfolding write_changes default_row
update_preferences rival user_id changes db =
    if exists (preference_of user_id) db.preferences
    then write_changes user_id changes db
    else let db1 = rival db in
      if exists (preference_of user_id) db1.preferences
      then write_changes user_id changes db1
      else write_changes user_id changes
          (record db1 { preferences = db1.preferences ++ default_row user_id db1.now ∷ [] })
