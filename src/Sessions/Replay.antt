-- ===== src/Sessions/Replay.antt =====
-- ting_ting/refresh.py: what a rotated token does, and a live one of a dead session.
use biexce_social_network.Models.{Rival, AuthSession, RefreshToken, Db}
use biexce_social_network.Prelude.{
  Bool-cases, session_expired, refresh_replay, err, find_where-none, refl, find_where_sat, ◌==◌,
  find_where-update_where, true, false, is_none, inr, some, inl, Option-cases, exists, find_where,
  arith, none, ◌≡◌, ℕ,
}
use biexce_social_network.Sessions.{find_session, ℕ, Db, get_active_session, revoke_session}
use biexce_social_network.Sessions.Refresh.{has_hash, consume_refresh_token}

revoke_session-get_active_session :
    (db : Db) (id : ℕ) → get_active_session (revoke_session id db).1 id ≡ none
unfolding get_active_session revoke_session
revoke_session-get_active_session db id = elim (Option-cases (find_session id db)) [
  | inl e ↦ ground (arith, e)
  | inr (row, e) ↦ ground (
    arith,
    e,
    find_where-update_where (λ (s : AuthSession). s.id == id) (λ s. s.id == row.id)
        (λ s. record s { revoked_at = some db.now }) (λ s h. refl) db.sessions,
    find_where_sat (λ (s : AuthSession). s.id == id) db.sessions row,
  )
]

revoke_session-tokens : (db : Db) (id : ℕ) → (revoke_session id db).1.tokens ≡ db.tokens
unfolding revoke_session
revoke_session-tokens db id = ground (arith, Option-cases (find_session id db))

-- Nothing else commits during a call.
abbrev pub alone : Rival
alone db = db

pub live_known :
    (db : Db) (id : ℕ) (s : AuthSession)
    → get_active_session db id ≡ some s
    → exists (λ (r : AuthSession). r.id == id) db.sessions ≡ true
unfolding get_active_session
live_known db id s h = elim (Bool-cases (exists (λ (r : AuthSession). r.id == id) db.sessions)) [
  | inl e ↦ e
  | inr e ↦
      absurd (ground (arith, h, find_where-none (λ (r : AuthSession). r.id == id) db.sessions e))
]

module _ {Token : Type 0} (hash_token : Token → ℕ) where
  -- What a rotated token does, in any state.
  pub replayed :
      (rival : Rival) (token x : Token) (r : RefreshToken) (db : Db)
      → find_where (has_hash hash_token token) db.tokens.rows ≡ some r
      → is_none r.revoked_at ≡ false
      → is_none r.replaced_by_id ≡ false
      → ((consume_refresh_token hash_token rival token x db).0 ≡ err refresh_replay)
        × (get_active_session (consume_refresh_token hash_token rival token x db).1 r.session_id
            ≡ none)
        × ((consume_refresh_token hash_token rival token x db).1.tokens ≡ db.tokens)
  unfolding consume_refresh_token
  replayed rival token x r db h k l = elim (Option-cases (get_active_session db r.session_id)) [
    | inl e ↦ ground (arith, h, k, l, e)
    | inr (s, e) ↦ ground (
      arith,
      h,
      k,
      l,
      e,
      revoke_session-get_active_session db r.session_id,
      revoke_session-tokens db r.session_id,
    )
  ]

  -- What a live token does once its session is dead.
  pub orphaned :
      (rival : Rival) (token x : Token) (r : RefreshToken) (db : Db)
      → find_where (has_hash hash_token token) db.tokens.rows ≡ some r
      → is_none r.revoked_at ≡ true
      → get_active_session db r.session_id ≡ none
      → (consume_refresh_token hash_token rival token x db).0 ≡ err session_expired
  unfolding consume_refresh_token
  orphaned rival token x r db h k l = ground (arith, h, k, l)
