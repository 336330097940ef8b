-- ===== src/Moderation/Bans.antt =====
-- ting_ting/moderation.py: ban_user and unban_user.
use biexce_social_network.Moderation.Review.{is_pending_report}
use biexce_social_network.UserState.{is_actively_banned}
use biexce_social_network.Prelude.{
  self_action, none, ◌==◌, invalid_expiry, ◌&&◌, leb, ok, ◌||◌, false, is_none, is_value, some,
  self_ban, if◌then◌else◌, Result, Bool, delete_where, update_where, ℕ, [], Error, select, none,
  List, Option, ◌==◌, self_unban, ◌∷◌,
}
use Prim.Native.String.{String}
use biexce_social_network.Models.{
  Db, Exec, User, Report, Follow, FriendRequest, ModerationAction, ReportStatus, ActionType,
  ResourceType, append, with_rows,
}
use biexce_social_network.Moderation.{
  Entry, Guard, ok, err, some, Result, Bool, no_entry, ℕ, none, Option, guarded,
  require_can_enforce, clean_reason, record_action,
}

abbrev pub follow_of : ℕ → Follow → Bool
follow_of id f = f.follower_id == id || f.followed_id == id

abbrev pub request_of : ℕ → FriendRequest → Bool
request_of id q = q.sender_id == id || q.recipient_id == id

unfoldable pub sever_relationships : ℕ → Db → Db
sever_relationships id db = record db {
  follows = with_rows db.follows (delete_where (follow_of id) db.follows.rows);
  requests = with_rows db.requests (delete_where (request_of id) db.requests.rows);
}

-- `except ValueError`: the guard's `self_action` under another name.
abbrev pub renamed : Error → Guard → Guard
renamed name (err self_action) = err name
renamed name r = r

unfoldable pub banned : User → String → Option ℕ → ℕ → User → User
banned moderator reason expires_at now u = record u {
  banned_at = some now;
  banned_until = expires_at;
  ban_reason = some reason;
  banned_by = some moderator.id;
}

-- A datetime with its timezone: the instant in UTC, and what a DateTime column, which has no timezone,
-- keeps of it: with SQLite the time that its own clock shows.
pub record Aware : Type 0 where
  pub utc : ℕ
  pub column : ℕ

-- `astimezone(timezone.utc)`, which the tests of a ban apply first.
abbrev pub instant : Option Aware → Option ℕ
instant none = none
instant (some t) = some t.utc

abbrev pub kept : Option Aware → Option ℕ
kept none = none
kept (some t) = some t.column

abbrev on_user : ℕ → (User → User) → Db → Db
on_user id f db = record db { users = update_where (λ u. u.id == id) f db.users }

abbrev pub ban_entry : User → String → Option String → Entry
ban_entry target reason note = record {
  target = some target;
  reason = some reason;
  note = note;
  resource_type = some ResourceType.user;
  resource_id = none;
  previous_state = some "active";
  new_state = some "banned";
}

-- The ban itself, for a target who is not banned now.
unfoldable pub impose : User → User → String → Option Aware → Option String → Db → Db
unfolding banned sever_relationships
impose moderator target reason expires_at note db =
    record_action moderator ActionType.user_banned (ban_entry target reason note) (
      sever_relationships target.id
        (on_user target.id (banned moderator reason (kept expires_at) db.now) db))

abbrev pub pending_against : ℕ → Report → Bool
pending_against id r = is_value r.target_user_id id && is_pending_report r.status

abbrev pub resolved_by_ban : User → ℕ → Report → Report
resolved_by_ban moderator now r = record r {
  status = ReportStatus.resolved;
  resolved_by = some moderator.id;
  resolved_at = some now;
  resolution_note = some "User banned.";
}

abbrev pub ban_enforcement : User → User → ℕ → ℕ → ℕ → ModerationAction
ban_enforcement moderator target report_id now id = record {
  id = id;
  actor_id = some moderator.id;
  target_user_id = some target.id;
  action_type = ActionType.report_resolved;
  reason = some "ban_enforcement";
  note = some "Resolved by user ban.";
  resource_type = some ResourceType.report;
  resource_id = some report_id;
  previous_state = some "pending";
  new_state = some "resolved";
  created_at = now;
}

-- The bulk insert: one row of the ledger for each report.
unfoldable pub log_all : User → User → List Report → Db → Db
log_all moderator target [] db = db
log_all moderator target (r ∷ rs) db = log_all moderator target rs (record db {
  actions = append db.actions (ban_enforcement moderator target r.id db.now db.actions.next_id);
})

unfoldable pub resolve_pending : User → User → Db → Db
unfolding log_all
resolve_pending moderator target db =
    log_all moderator target (select (pending_against target.id) db.reports.rows) (record db {
      reports = with_rows db.reports (
          update_where (pending_against target.id) (resolved_by_ban moderator db.now)
            db.reports.rows);
    })

abbrev pub expired_already : Option Aware → ℕ → Bool
expired_already none now = false
expired_already (some t) now = leb t.utc now

-- The target as the session holds it until the commit, with the timezone.
abbrev pub ban_result : User → String → Option Aware → ℕ → User → User
ban_result moderator reason expires_at now target =
    if is_actively_banned target now
    then target
    else banned moderator reason (instant expires_at) now target

abbrev enforce_ban : User → User → Option Aware → Option String → Result String → Exec User
enforce_ban moderator target expires_at remark (err e) db = (err e, db)
enforce_ban moderator target expires_at remark (ok reason) db =
    if expired_already expires_at db.now then (err invalid_expiry, db) else (
      ok (ban_result moderator reason expires_at db.now target),
      resolve_pending moderator target (
          if is_actively_banned target db.now
          then db
          else impose moderator target reason expires_at remark db),
    )

unfoldable pub ban_user :
    (String → String) → User → User → String → Option Aware → Option String → Exec User
unfolding impose resolve_pending
ban_user strip moderator target reason expires_at note =
    guarded (renamed self_ban (require_can_enforce moderator target))
      (enforce_ban moderator target expires_at note (clean_reason strip reason))

unfoldable pub unbanned : User → User
unbanned u = record u { banned_at = none; banned_until = none; ban_reason = none; banned_by = none }

unfoldable pub lift : User → User → Db → Db
unfolding unbanned
lift moderator target db =
    record_action moderator ActionType.user_unbanned
      (record no_entry {
        target = some target;
        resource_type = some ResourceType.user;
        previous_state = some "banned";
        new_state = some "active";
      })
      (on_user target.id unbanned db)

unfoldable pub unban_user : User → User → Exec User
unfolding lift
unban_user moderator target =
    guarded (renamed self_unban (require_can_enforce moderator target)) (λ db.
      if is_none target.banned_at
      then (ok target, db)
      else (ok (unbanned target), lift moderator target db))
