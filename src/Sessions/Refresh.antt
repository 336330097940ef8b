-- ===== src/Sessions/Refresh.antt =====
-- ting_ting/refresh.py: opaque refresh tokens that rotate on each use.
use biexce_social_network.Social.Queries.{user_exists}
use biexce_social_network.Prelude.{
  ◌&&◌, ◌||◌, refresh_expired, leb, refresh_replay, not, integrity_error, ok, is_none, exists,
  invalid_refresh, session_expired, find_where, Result, if◌then◌else◌, update_where, err, ◌==◌, ℕ,
  Bool, Option, none, some,
}
use biexce_social_network.Models.{Rival, Db, Exec, AuthSession, RefreshToken, append, with_rows}
use biexce_social_network.Sessions.{user_exists, get_active_session, revoke_session}

-- `secrets.token_urlsafe` gives the tokens, `hashlib.sha256` their digests.
module _ {Token : Type 0} (hash_token : Token → ℕ) where
  unfoldable pub new_token_row : ℕ → ℕ → ℕ → Token → Db → RefreshToken
  new_token_row session_id user_id expires_at token db = record {
    id = db.tokens.next_id;
    session_id = session_id;
    user_id = user_id;
    token_hash = hash_token token;
    created_at = db.now;
    expires_at = expires_at;
    revoked_at = none;
    replaced_by_id = none;
  }

  abbrev pub has_hash : Token → RefreshToken → Bool
  has_hash token r = r.token_hash == hash_token token

  -- `uq_refresh_token_hash`, and the two foreign keys.
  unfoldable pub token_conflict : ℕ → ℕ → Token → Db → Bool
  unfolding user_exists
  token_conflict session_id user_id token db =
      exists (has_hash token) db.tokens.rows
      || not (exists (λ s. s.id == session_id) db.sessions && user_exists db user_id)

  unfoldable pub insert_token : ℕ → ℕ → ℕ → Token → Exec RefreshToken
  unfolding new_token_row token_conflict
  insert_token session_id user_id expires_at token db =
      if token_conflict session_id user_id token db then (err integrity_error, db) else (
        ok (new_token_row session_id user_id expires_at token db),
        record db {
          tokens = append db.tokens (new_token_row session_id user_id expires_at token db);
        },
      )

  -- `token` is the fresh random value.
  unfoldable pub issue_refresh_token : Token → AuthSession → Exec Token
  issue_refresh_token token session db =
      after_insert (insert_token session.id session.user_id session.expires_at token db)
    where
      after_insert : Result RefreshToken × Db → Result Token × Db
      after_insert (ok row, db') = (ok token, db')
      after_insert (err e, db') = (err e, db')

  abbrev pub mark_revoked : ℕ → Db → Db
  mark_revoked id db = record db {
    tokens = with_rows db.tokens (
        update_where (λ r. r.id == id) (λ r. record r { revoked_at = some db.now }) db.tokens.rows);
  }

  abbrev pub mark_replaced : ℕ → ℕ → Db → Db
  mark_replaced id successor_id db = record db {
    tokens = with_rows db.tokens (
        update_where (λ r. r.id == id) (λ r. record r { replaced_by_id = some successor_id })
          db.tokens.rows);
  }

  -- A rotated token kills its session if that is alive; a dead one is unknown.
  abbrev refuse_revoked : RefreshToken → Option AuthSession → Exec (AuthSession × Token)
  refuse_revoked row session db =
      if is_none row.replaced_by_id then (err invalid_refresh, db) else (
        err refresh_replay,
        if is_none session then db else (revoke_session row.session_id db).1,
      )

  -- The link to the successor, once the successor is in. An `IntegrityError` ends the request, which
  -- rolls back.
  abbrev link :
      Db
      → RefreshToken
      → AuthSession
      → Token
      → Result RefreshToken × Db
      → Result (AuthSession × Token) × Db
  link committed row session new_token (err e, db) = (err e, committed)
  link committed row session new_token (ok successor, db) =
      (ok (session, new_token), mark_replaced row.id successor.id db)

  -- `rival` commits between the check of `revoked_at` and the write of it.
  abbrev rotate : Rival → Token → RefreshToken → Option AuthSession → Exec (AuthSession × Token)
  rotate rival new_token row none db = (err session_expired, db)
  rotate rival new_token row (some session) db =
      if leb row.expires_at db.now
      then (err refresh_expired, db)
      else link (rival db) row session new_token (
          insert_token row.session_id row.user_id session.expires_at new_token
            (mark_revoked row.id (rival db)))

  abbrev present_row : Rival → Token → Option RefreshToken → Exec (AuthSession × Token)
  present_row rival new_token none db = (err invalid_refresh, db)
  present_row rival new_token (some row) db =
      if not (is_none row.revoked_at)
      then refuse_revoked row (get_active_session db row.session_id) db
      else rotate rival new_token row (get_active_session db row.session_id) db

  -- `token` is what the client presents, `new_token` the fresh random value.
  unfoldable pub consume_refresh_token : Rival → Token → Token → Exec (AuthSession × Token)
  unfolding insert_token
  consume_refresh_token rival token new_token db =
      present_row rival new_token (find_where (has_hash token) db.tokens.rows) db
