-- ===== src/Tests/SignIn.antt =====
-- Runs of the sign-in services. A token is a number, and its own digest.
use biexce_social_network.Sessions.Replay.{alone}
use biexce_social_network.Social.Queries.{user_exists}
use biexce_social_network.Sessions.{find_session, revoke_all_sessions, get_active_session}
use biexce_social_network.Sessions.Refresh.{has_hash, insert_token, consume_refresh_token}
use biexce_social_network.Models.{AuthSession, RefreshToken, Db}
use biexce_social_network.Prelude.{
  false, session_expired, exists, refresh_replay, update_where, err, some, ok, none, count_where,
  ◌≡◌, ℕ, [], ◌∷◌, find_where, refl,
}
use biexce_social_network.Tests.Data.{fresh_db}
use biexce_social_network.Sessions.Rotation.{consume-raced, IsUsable, replay_lem}
use biexce_social_network.Sessions.Revocation.{
  revoke_all_sessions_lem, inactive_forever, here, next, consume,
}

abbrev digest : ℕ → ℕ
digest t = t

abbrev session : AuthSession
session = record { id = 5; user_id = 1; created_at = 90; expires_at = 900; revoked_at = none }

abbrev token_row : RefreshToken
token_row = record {
  id = 1;
  session_id = 5;
  user_id = 1;
  token_hash = 42;
  created_at = 90;
  expires_at = 900;
  revoked_at = none;
  replaced_by_id = none;
}

abbrev signed_in : Db
signed_in = record fresh_db {
  sessions = session ∷ [];
  tokens = record { rows = token_row ∷ []; next_id = 2 };
}

token-IsUsable : IsUsable digest 42 43 token_row session signed_in
unfolding find_where count_where get_active_session user_exists
token-IsUsable = record {
  known = refl;
  unrevoked = refl;
  live = refl;
  unexpired = refl;
  owned = refl;
  new_hash = refl;
}

next_hash :
    exists (has_hash digest 44) (consume_refresh_token digest alone 42 43 signed_in).1.tokens.rows
    ≡ false
unfolding consume_refresh_token insert_token find_where count_where get_active_session update_where
next_hash = refl

replay_lem_example :
    let once = (consume_refresh_token digest alone 42 43 signed_in).1 in
    let twice = consume_refresh_token digest alone 42 45 once in
    (twice.0 ≡ err refresh_replay)
    × (get_active_session twice.1 5 ≡ none)
    × ((consume_refresh_token digest alone 43 46 twice.1).0 ≡ err session_expired)
replay_lem_example = replay_lem digest token-IsUsable alone 45 46

session_found : find_session 5 signed_in ≡ some session
unfolding find_where
session_found = refl

revoke_all_sessions_lem_example :
    get_active_session (revoke_all_sessions 1 (some 6) signed_in).1 5 ≡ none
revoke_all_sessions_lem_example =
    revoke_all_sessions_lem 1 (some 6) 5 session signed_in session_found

abbrev later_db : Db
later_db = record signed_in { now = 1000 }

later_inactive : get_active_session later_db 5 ≡ none
unfolding get_active_session find_where
later_inactive = refl

later_found : find_session 5 later_db ≡ some session
unfolding find_where
later_found = refl

inactive_forever_example :
    get_active_session (consume_refresh_token digest alone 42 43 later_db).1 5 ≡ none
inactive_forever_example =
    inactive_forever digest 5 session (next here (consume alone 42 43 (λ d. (refl, refl))))
      later_found later_inactive

consume-raced_example :
    ((consume_refresh_token digest alone 42 43 signed_in).0 ≡ ok (session, 43))
    × ((consume_refresh_token digest
          (λ d. (consume_refresh_token digest alone 42 43 d).1)
          42
          44
          signed_in).0
        ≡ ok (session, 44))
consume-raced_example = consume-raced digest token-IsUsable next_hash
