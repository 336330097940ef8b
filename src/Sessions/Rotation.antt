-- ===== src/Sessions/Rotation.antt =====
-- What the rotation of refresh tokens guarantees.
use biexce_social_network.Sessions.Replay.{orphaned, replayed, live_known, alone}
use biexce_social_network.Social.Queries.{user_exists}
use biexce_social_network.Models.{Rival, append, AuthSession, RefreshToken, Db}
use biexce_social_network.Prelude.{
  session_expired, refresh_replay, err, ◌++◌, find_where-insert_none, [], Bool, ◌∷◌, if◌then◌else◌,
  find_where-none, update_where, update_found, find_where-insert_some, refl, ◌==◌,
  count_where-update_where_eq, find_where-update_where, true, false, ltb, is_none, ap, some, ok,
  Option-cases, exists, find_where, arith, none, ◌≡◌, ℕ,
}
use biexce_social_network.Sessions.{user_exists, find_session, ℕ, Db, get_active_session}
use biexce_social_network.Sessions.Refresh.{
  token_conflict, insert_token, mark_revoked, has_hash, mark_replaced, new_token_row,
  consume_refresh_token,
}

module _ {Token : Type 0} (hash_token : Token → ℕ) where
  live_unexpired :
      (db : Db) (id : ℕ) (s : AuthSession)
      → get_active_session db id ≡ some s
      → ltb db.now s.expires_at ≡ true
  unfolding get_active_session
  live_unexpired db id s h = ground (arith, Option-cases (find_session id db))

  -- A token that may be used: known, neither rotated nor expired, of a live session; and the random
  -- value that will replace it is new.
  pub record IsUsable (token new_token : Token) (row : RefreshToken) (session : AuthSession)
      (db : Db) : Type 0 where
    pub known : find_where (has_hash hash_token token) db.tokens.rows ≡ some row
    pub unrevoked : is_none row.revoked_at ≡ true
    pub live : get_active_session db row.session_id ≡ some session
    pub unexpired : ltb db.now row.expires_at ≡ true
    pub owned : user_exists db row.user_id ≡ true
    pub new_hash : exists (has_hash hash_token new_token) db.tokens.rows ≡ false

  module _ {token new_token : Token} {row : RefreshToken} {session : AuthSession} {db : Db}
      (u : IsUsable token new_token row session db) where
    abbrev successor : RefreshToken
    successor = new_token_row hash_token row.session_id row.user_id session.expires_at new_token db

    -- The state after the rotation.
    abbrev rotated : Db
    rotated =
        mark_replaced hash_token row.id db.tokens.next_id
          (record db { tokens = append (mark_revoked hash_token row.id db).tokens successor })

    kept_hash :
        (t : Token)
        → exists (has_hash hash_token t) (mark_revoked hash_token row.id db).tokens.rows
          ≡ exists (has_hash hash_token t) db.tokens.rows
    kept_hash t =
        ap (ltb 0)
          (count_where-update_where_eq (has_hash hash_token t) _ _ (λ r h. refl) db.tokens.rows)

    consume-rotated :
        consume_refresh_token hash_token alone token new_token db
        ≡ (ok (session, new_token), rotated)
    unfolding consume_refresh_token insert_token token_conflict new_token_row
    consume-rotated =
        ground (arith, u, kept_hash new_token, live_known db row.session_id session u.live)

    rotated_row : RefreshToken → RefreshToken
    rotated_row r = record r { revoked_at = some db.now; replaced_by_id = some db.tokens.next_id }

    abbrev linked : RefreshToken → RefreshToken
    linked r = record r { replaced_by_id = some db.tokens.next_id }

    abbrev stopped : RefreshToken → RefreshToken
    stopped r = record r { revoked_at = some db.now }

    abbrev this_row : RefreshToken → Bool
    this_row r = r.id == row.id

    find_rotated :
        (t : Token)
        → find_where (has_hash hash_token t) rotated.tokens.rows
          ≡ update_found this_row linked (
              find_where
                (has_hash hash_token t)
                (update_where this_row stopped db.tokens.rows ++ successor ∷ []))
    find_rotated t = find_where-update_where (has_hash hash_token t) this_row linked (λ r h. refl) _

    find_stopped :
        (t : Token)
        → find_where (has_hash hash_token t) (update_where this_row stopped db.tokens.rows)
          ≡ update_found this_row stopped (find_where (has_hash hash_token t) db.tokens.rows)
    find_stopped t =
        find_where-update_where (has_hash hash_token t) this_row stopped (λ r h. refl) _

    old_found :
        find_where (has_hash hash_token token) rotated.tokens.rows ≡ some (linked (stopped row))
    old_found = ground (
      arith,
      u,
      find_rotated token,
      find_stopped token,
      find_where-insert_some (has_hash hash_token token)
          (update_where this_row stopped db.tokens.rows) successor (stopped row),
    )

    abbrev new_row : RefreshToken
    new_row = if this_row successor then linked successor else successor

    new_found : find_where (has_hash hash_token new_token) rotated.tokens.rows ≡ some new_row
    unfolding new_token_row
    new_found = ground (
      arith,
      u,
      find_rotated new_token,
      find_stopped new_token,
      find_where-none (has_hash hash_token new_token) db.tokens.rows,
      find_where-insert_none (has_hash hash_token new_token)
          (update_where this_row stopped db.tokens.rows) successor,
    )

    new_row_lem :
        (is_none new_row.revoked_at ≡ true)
        × (ltb rotated.now new_row.expires_at ≡ true)
        × (new_row.session_id ≡ row.session_id)
    unfolding new_token_row
    new_row_lem = ground (arith, u, live_unexpired db row.session_id session)

    -- A use whose checks came before the rotation, and whose writes come after it.
    late :
        (rival : Rival) (t : Token)
        → rival db ≡ rotated
        → exists (has_hash hash_token t) rotated.tokens.rows ≡ false
        → (consume_refresh_token hash_token rival token t db).0 ≡ ok (session, t)
    unfolding consume_refresh_token insert_token token_conflict user_exists
    late rival t same h = ground (
      arith,
      u,
      same,
      live_known db row.session_id session u.live,
      ap (ltb 0) (
          count_where-update_where_eq (has_hash hash_token t) this_row
            (λ r. record r { revoked_at = some rotated.now }) (λ r e. refl) rotated.tokens.rows),
      h,
    )

  -- A second use of a token that was rotated, with nothing else committed meanwhile, raises `refresh_replay` and leaves its session dead,
  -- so that the successor, which nobody presented before, raises `session_expired`.
  pub replay_lem :
      {token new_token : Token} {row : RefreshToken} {session : AuthSession} {db : Db}
      → IsUsable token new_token row session db
      → (rival : Rival) (x y : Token)
      → let once = (consume_refresh_token hash_token alone token new_token db).1 in
        let twice = consume_refresh_token hash_token rival token x once in
        (twice.0 ≡ err refresh_replay)
        × (get_active_session twice.1 row.session_id ≡ none)
        × ((consume_refresh_token hash_token rival new_token y twice.1).0 ≡ err session_expired)
  replay_lem {token} {new_token} {row} u rival x y =
      let old =
        replayed hash_token rival token x (linked u (stopped u row)) (rotated u) (old_found u) refl
          refl in
      rw (consume-rotated u) (
        old.0,
        old.1,
        orphaned hash_token rival new_token y (new_row u)
            (consume_refresh_token hash_token rival token x (rotated u)).1 (rw old.2 (new_found u))
            (new_row_lem u).0 (rw (new_row_lem u).2 old.1),
      )

  -- A second request that uses the same token between the check and the write of `revoked_at`: both
  -- get the session and a new token, where each new token has a digest of its own.
  pub consume-raced :
      {token new_token other_token : Token} {row : RefreshToken} {session : AuthSession} {db : Db}
      → IsUsable token other_token row session db
      → let other = λ (d : Db). (consume_refresh_token hash_token alone token other_token d).1 in
        exists (has_hash hash_token new_token) (other db).tokens.rows ≡ false
        → ((consume_refresh_token hash_token alone token other_token db).0
            ≡ ok (session, other_token))
          × ((consume_refresh_token hash_token other token new_token db).0
              ≡ ok (session, new_token))
  consume-raced {token} {new_token} {other_token} {row} {session} {db} u =
      rw (consume-rotated u) (λ h. (refl, late u _ new_token (ap (λ r. r.1) (consume-rotated u)) h))
