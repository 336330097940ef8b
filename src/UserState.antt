-- ===== src/UserState.antt =====
-- ting_ting/user_state.py: roles and active bans, as Python tests and as SQL conditions. A row's
-- datetime has no timezone and is read as UTC, so the normalisation is the identity.
use biexce_social_network.Prelude.{
  none, ltb, leb, ◌&&◌, ◌||◌, some, arith, is_none, not, ◌≡◌, if◌then◌else◌, false, true, ℕ, Bool,
  Option,
}
use biexce_social_network.Models.{User, Role, user, moderator, admin}

unfoldable pub role_rank : Role → ℕ
role_rank user = 0
role_rank moderator = 1
role_rank admin = 2

unfoldable pub is_staff : User → Bool
is_staff u = elim u.role [ user ↦ false | moderator ↦ true | admin ↦ true ]

-- Python: `until > boundary`.
abbrev pub runs_at : ℕ → Option ℕ → Bool
runs_at now none = true
runs_at now (some until) = ltb now until

unfoldable pub is_actively_banned : User → ℕ → Bool
is_actively_banned u now = if is_none u.banned_at then false else runs_at now u.banned_until

-- SQL: a comparison with NULL is not true.
abbrev column_gt : Option ℕ → ℕ → Bool
column_gt none n = false
column_gt (some m) n = ltb n m

abbrev column_le : Option ℕ → ℕ → Bool
column_le none n = false
column_le (some m) n = leb m n

unfoldable pub active_ban_clause : ℕ → User → Bool
active_ban_clause boundary u =
    not (is_none u.banned_at) && (is_none u.banned_until || column_gt u.banned_until boundary)

unfoldable pub not_actively_banned_clause : ℕ → User → Bool
not_actively_banned_clause boundary u =
    is_none u.banned_at || (not (is_none u.banned_until) && column_le u.banned_until boundary)

-- The SQL condition holds of exactly the users that the Python test calls banned.
pub active_ban_clause-eq : (now : ℕ) (u : User) → active_ban_clause now u ≡ is_actively_banned u now
unfolding active_ban_clause is_actively_banned
active_ban_clause-eq now u = ground arith

-- The two SQL conditions are complementary, at every time and for every user.
pub not_actively_banned_clause-eq :
    (now : ℕ) (u : User) → not_actively_banned_clause now u ≡ not (active_ban_clause now u)
unfolding active_ban_clause not_actively_banned_clause
not_actively_banned_clause-eq now u = ground arith
