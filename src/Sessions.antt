-- ===== src/Sessions.antt =====
-- ting_ting/sessions.py: the registry of sign-ins.
pub mod Refresh
pub mod Replay
pub mod Rotation
pub mod Revocation
use biexce_social_network.Social.Queries.{user_exists}
use biexce_social_network.Prelude.{
  ◌++◌, ok, leb, integrity_error, true, is_value, ◌||◌, err, is_none, exists, not, ◌&&◌, ◌*◌, false,
  if◌then◌else◌, count_where, ◌∷◌, [], ◌==◌, ◌+◌, find_where, update_where, ℕ, Bool, Option, none,
  some, List,
}
use biexce_social_network.Models.{Db, Exec, AuthSession}

-- `timedelta(days=1)` in microseconds.
abbrev day : ℕ
day = 86400000000

-- `id` is a fresh uuid. The primary key refuses one that exists, the foreign key a user who does not.
unfoldable pub create_session : ℕ → ℕ → ℕ → Exec AuthSession
unfolding user_exists
create_session session_expire_days id user_id db =
    let row : AuthSession = record {
      id = id;
      user_id = user_id;
      created_at = db.now;
      expires_at = db.now + session_expire_days * day;
      revoked_at = none;
    } in
    if exists (λ s. s.id == id) db.sessions || not (user_exists db user_id)
    then (err integrity_error, db)
    else (ok row, record db { sessions = db.sessions ++ row ∷ [] })

abbrev pub find_session : ℕ → Db → Option AuthSession
find_session id db = find_where (λ s. s.id == id) db.sessions

abbrev if_active : ℕ → Option AuthSession → Option AuthSession
if_active now none = none
if_active now (some row) =
    if not (is_none row.revoked_at) || leb row.expires_at now then none else some row

unfoldable pub get_active_session : Db → ℕ → Option AuthSession
get_active_session db session_id = if_active db.now (find_session session_id db)

abbrev pub revoke_row : ℕ → Db → Db
revoke_row id db = record db {
  sessions =
      update_where (λ s. s.id == id) (λ s. record s { revoked_at = some db.now }) db.sessions;
}

abbrev revoke_found : Option AuthSession → Db → Bool × Db
revoke_found none db = (false, db)
revoke_found (some row) db =
    if not (is_none row.revoked_at) then (false, db) else (true, revoke_row row.id db)

unfoldable pub revoke_session : ℕ → Db → Bool × Db
revoke_session session_id db = revoke_found (find_session session_id db) db

-- The rows that the loop changes: the live ones of the user, less the one to keep.
abbrev pub to_revoke : ℕ → Option ℕ → AuthSession → Bool
to_revoke user_id keep s =
    (s.user_id == user_id && is_none s.revoked_at) && not (is_value keep s.id)

unfoldable pub revoke_all_sessions : ℕ → Option ℕ → Db → ℕ × Db
revoke_all_sessions user_id keep db = (
  count_where (to_revoke user_id keep) db.sessions,
  record db {
    sessions =
        update_where (to_revoke user_id keep) (λ s. record s { revoked_at = some db.now })
          db.sessions;
  },
)
