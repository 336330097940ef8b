-- ===== src/Sessions/Revocation.antt =====
-- Sessions over time: what revocation and expiry leave of them.
use biexce_social_network.Social.Queries.{user_exists}
use biexce_social_network.Models.{Rival, AuthSession, Db}
use biexce_social_network.Prelude.{
  ◌||◌, sym, ◌∙◌, Bool-cases, Result, inr, inl, find_where-insert_some, exists, ◌⊎◌, [],
  Option-cases, ◌++◌, if_elim, ◌∷◌, find_where_sat, refl, none, is_value, false, ltb, not, ◌&&◌,
  find_where-update_where, is_none, if◌then◌else◌, some, ◌==◌, ◌≡◌, update_where, Bool, arith,
  find_where, ◌≤◌, Option, List, ℕ,
}
use biexce_social_network.Sessions.{
  user_exists, to_revoke, find_session, Db, ℕ, get_active_session, revoke_session,
  revoke_all_sessions, create_session,
}
use biexce_social_network.Sessions.Refresh.{
  has_hash, insert_token, consume_refresh_token, issue_refresh_token,
}

-- A bulk revocation ends exactly the user's sessions other than the one to keep: of a session that
-- exists, it is active afterwards if it was and it belongs to another user or is the one to keep.
pub revoke_all_sessions_lem :
    (user_id : ℕ) (keep : Option ℕ) (id : ℕ) (row : AuthSession) (db : Db)
    → find_session id db ≡ some row
    → get_active_session (revoke_all_sessions user_id keep db).1 id ≡ (
        if row.user_id == user_id && not (is_value keep id) then none else get_active_session db id)
unfolding get_active_session revoke_all_sessions
revoke_all_sessions_lem user_id keep id row db h = ground (
  arith,
  h,
  find_where-update_where (λ (s : AuthSession). s.id == id) (to_revoke user_id keep)
      (λ s. record s { revoked_at = some db.now }) (λ s h. refl) db.sessions,
  find_where_sat (λ (s : AuthSession). s.id == id) db.sessions row,
)

-- The session exists, and is revoked or past its end.
pub record IsDead (id now : ℕ) (sessions : List AuthSession) : Type 0 where
  pub row : AuthSession
  pub found : find_where (λ s. s.id == id) sessions ≡ some row
  pub over : is_none row.revoked_at && ltb now row.expires_at ≡ false

-- What others commit during a use of a token: anything but time and sessions.
abbrev pub KeepsSessions : Rival → Type 0
KeepsSessions rival = (d : Db) → ((rival d).now ≡ d.now) × ((rival d).sessions ≡ d.sessions)

-- One event: time passes, or a call of the sign-in services, by any user and with any token.
pub data Event {Token : Type 0} (hash_token : Token → ℕ) (db : Db) : Db → Type 0 where
  tick : (later : ℕ) → db.now ≤ later → Event hash_token db (record db { now = later })
  create : (days id user_id : ℕ) → Event hash_token db (create_session days id user_id db).1
  revoke : (id : ℕ) → Event hash_token db (revoke_session id db).1
  revoke_all :
      (user_id : ℕ) (keep : Option ℕ) → Event hash_token db (revoke_all_sessions user_id keep db).1
  issue :
      (token : Token) (session : AuthSession)
      → Event hash_token db (issue_refresh_token hash_token token session db).1
  consume :
      (rival : Rival) (token new_token : Token)
      → KeepsSessions rival
      → Event hash_token db (consume_refresh_token hash_token rival token new_token db).1

pub data Events {Token : Type 0} (hash_token : Token → ℕ) (start : Db) : Db → Type 0 where
  here : Events hash_token start start
  next : {d e : Db} → Events hash_token start d → Event hash_token d e → Events hash_token start e

module _ {id : ℕ} (db : Db) (dead : IsDead id db.now db.sessions) where
  revoked_where :
      (q : AuthSession → Bool)
      → IsDead id db.now (update_where q (λ s. record s { revoked_at = some db.now }) db.sessions)
  revoked_where q = record {
    row = if q dead.row then record dead.row { revoked_at = some db.now } else dead.row;
    found = ground (
      arith,
      dead.found,
      find_where-update_where (λ (s : AuthSession). s.id == id) q
          (λ s. record s { revoked_at = some db.now }) (λ s h. refl) db.sessions,
    );
    over = ground (arith, dead.over);
  }

  tick-IsDead : (later : ℕ) → db.now ≤ later → IsDead id later db.sessions
  tick-IsDead later h = record {
    row = dead.row;
    found = dead.found;
    over = ground (arith, dead.over);
  }

  unchanged :
      (now : ℕ) (sessions : List AuthSession)
      → now ≡ db.now
      → sessions ≡ db.sessions
      → IsDead id now sessions
  unchanged now sessions h k = rw (h, k) dead

  created : (s : AuthSession) → IsDead id db.now (db.sessions ++ s ∷ [])
  created s = record {
    row = dead.row;
    found = find_where-insert_some (λ s. s.id == id) db.sessions s dead.row dead.found;
    over = dead.over;
  }

  create-IsDead :
      (days k user_id : ℕ)
      → IsDead id
          (create_session days k user_id db).1.now
          (create_session days k user_id db).1.sessions
  unfolding create_session
  create-IsDead days k user_id =
      if_elim (λ (r : Result AuthSession × Db). IsDead id r.1.now r.1.sessions)
        (exists (λ s. s.id == k) db.sessions || not (user_exists db user_id)) (λ h. dead)
        (λ h. created _)

  revoke-IsDead : (k : ℕ) → IsDead id (revoke_session k db).1.now (revoke_session k db).1.sessions
  unfolding revoke_session
  revoke-IsDead k = elim (Option-cases (find_session k db)) [
    | inl e ↦ unchanged _ _ (ground (arith, e)) (ground (arith, e))
    | inr (row, e) ↦ rw e (
        if_elim (λ (r : Bool × Db). IsDead id r.1.now r.1.sessions) (not (is_none row.revoked_at))
          (λ h. dead) (λ h. revoked_where _))
  ]

-- The services of the tokens change no session, but for the one that a replay revokes.
module _ {Token : Type 0} (hash_token : Token → ℕ) (db : Db) where
  issue-sessions :
      (token : Token) (session : AuthSession)
      → ((issue_refresh_token hash_token token session db).1.now ≡ db.now)
        × ((issue_refresh_token hash_token token session db).1.sessions ≡ db.sessions)
  unfolding issue_refresh_token insert_token
  issue-sessions token session = ground arith

  abbrev Kept : {A : Type 0} → Result A × Db → Type 0
  Kept r =
      (r.1.now ≡ db.now)
      × ((r.1.sessions ≡ db.sessions)
          ⊎ ((k : ℕ) × (r.1.sessions ≡ (revoke_session k db).1.sessions)))

  revoke_session-now : (k : ℕ) → (revoke_session k db).1.now ≡ db.now
  unfolding revoke_session
  revoke_session-now k = ground (arith, Option-cases (find_session k db))

  consume-sessions :
      (rival : Rival) (token new_token : Token)
      → KeepsSessions rival
      → Kept (consume_refresh_token hash_token rival token new_token db)
  unfolding consume_refresh_token insert_token
  consume-sessions rival token new_token keeps =
      elim (Option-cases (find_where (has_hash hash_token token) db.tokens.rows)) [
        | inl e ↦ ground (arith, e)
        | inr (row, e) ↦ elim (Option-cases (get_active_session db row.session_id)) [
          | inl k ↦ (ground (arith, e, k), inl (ground (arith, e, k)))
          | inr (s, k) ↦ (
            ground (arith, e, k, revoke_session-now row.session_id, keeps db),
            elim (Bool-cases (not (is_none row.revoked_at) && not (is_none row.replaced_by_id))) [
              | inl b ↦ inr (row.session_id, ground (arith, e, k, b, keeps db))
              | inr b ↦ inl (ground (arith, e, k, b, keeps db))
            ],
          )
        ]
      ]

  Kept-IsDead :
      {A : Type 0} {id : ℕ} (r : Result A × Db)
      → IsDead id db.now db.sessions
      → Kept r
      → IsDead id r.1.now r.1.sessions
  Kept-IsDead r dead (n, inl h) = unchanged db dead _ _ n h
  Kept-IsDead r dead (n, inr (k, h)) =
      moved (n ∙ sym (revoke_session-now k)) h (revoke-IsDead db dead k)
    where
      moved :
          {id n m : ℕ} {xs ys : List AuthSession}
          → n ≡ m
          → xs ≡ ys
          → IsDead id m ys
          → IsDead id n xs
      moved h k d = rw (h, k) d

  Event-IsDead :
      {id : ℕ} {e : Db}
      → Event hash_token db e
      → IsDead id db.now db.sessions
      → IsDead id e.now e.sessions
  unfolding revoke_all_sessions
  Event-IsDead (tick later h) dead = tick-IsDead db dead later h
  Event-IsDead (create days k user_id) dead = create-IsDead db dead days k user_id
  Event-IsDead (revoke k) dead = revoke-IsDead db dead k
  Event-IsDead (revoke_all user_id keep) dead = revoked_where db dead (to_revoke user_id keep)
  Event-IsDead (issue token session) dead =
      let f = issue-sessions token session in unchanged db dead _ _ f.0 f.1
  Event-IsDead (consume rival token new_token keeps) dead =
      Kept-IsDead (consume_refresh_token hash_token rival token new_token db) dead
        (consume-sessions rival token new_token keeps)

IsDead-inactive :
    (id : ℕ) (db : Db) → IsDead id db.now db.sessions → get_active_session db id ≡ none
unfolding get_active_session
IsDead-inactive id db dead = ground (arith, dead.found, dead.over)

IsDead-of_inactive :
    (id : ℕ) (row : AuthSession) (db : Db)
    → find_session id db ≡ some row
    → get_active_session db id ≡ none
    → IsDead id db.now db.sessions
unfolding get_active_session
IsDead-of_inactive id row db h k = record { row = row; found = h; over = ground (arith, h, k) }

Events-IsDead :
    {Token : Type 0} (hash_token : Token → ℕ) {s d : Db} {id : ℕ}
    → Events hash_token s d
    → IsDead id s.now s.sessions
    → IsDead id d.now d.sessions
Events-IsDead hash_token here dead = dead
Events-IsDead hash_token (next {d} es e) dead =
    Event-IsDead hash_token d e (Events-IsDead hash_token es dead)

-- A session that exists and is not active never becomes active again, whatever calls of the sign-in
-- services follow, by any user and with any tokens, and however much time passes.
pub inactive_forever :
    {Token : Type 0} (hash_token : Token → ℕ) {s d : Db} (id : ℕ) (row : AuthSession)
    → Events hash_token s d
    → find_session id s ≡ some row
    → get_active_session s id ≡ none
    → get_active_session d id ≡ none
inactive_forever hash_token {s} {d} id row es h k =
    IsDead-inactive id d (Events-IsDead hash_token es (IsDead-of_inactive id row s h k))
