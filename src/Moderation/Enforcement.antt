-- ===== src/Moderation/Enforcement.antt =====
-- ting_ting/moderation.py: warnings and roles.
use biexce_social_network.UserState.{is_actively_banned, role_rank}
use biexce_social_network.Prelude.{
  none, banned_target, insufficient_role, self_role_change, ◌==◌, ◌&&◌, invalid_report,
  invalid_role, false, admin_required, none, err, is_value, find_where, not, some, update_where,
  true, Option, if◌then◌else◌, ℕ, Bool, Result,
}
use Prim.Native.String.{String}
use text.Mathlib.Text.{◌==◌ as str_eq}
use biexce_social_network.Models.{
  Db, Exec, User, UserWarning, Role, ActionType, ResourceType, append,
}
use biexce_social_network.Moderation.{
  insufficient_role, report_expired, no_entry, role_rank, ok, none, some, err, Bool, Result, Option,
  if◌then◌else◌, ℕ, guarded, require_can_enforce, clean_reason, record_action,
}

-- The report of a warning exists, is against its target and is not past retention.
abbrev report_accepted : Db → ℕ → Option ℕ → Bool
report_accepted db target_id none = true
report_accepted db target_id (some report_id) =
    elim (find_where (λ r. r.id == report_id) db.reports.rows) [
      | none ↦ false
      | some r ↦ is_value r.target_user_id target_id && not (report_expired r db.now)
    ]

unfoldable pub new_warning : User → User → String → Option String → Option ℕ → Db → UserWarning
new_warning moderator target reason note report_id db = record {
  id = db.warnings.next_id;
  user_id = target.id;
  issued_by = some moderator.id;
  report_id = report_id;
  reason = reason;
  note = note;
  created_at = db.now;
}

abbrev pub issue_warning : User → User → Option String → Option ℕ → Result String → Exec UserWarning
issue_warning moderator target remark report_id (err e) db = (err e, db)
issue_warning moderator target remark report_id (ok reason) db =
    if not (report_accepted db target.id report_id) then (err invalid_report, db) else (
      ok (new_warning moderator target reason remark report_id db),
      record_action moderator ActionType.warning_issued
          (record no_entry {
            target = some target;
            reason = some reason;
            note = remark;
            resource_type = some ResourceType.user;
          })
          (record db {
            warnings = append db.warnings (new_warning moderator target reason remark report_id db);
          }),
    )

unfoldable pub warn_user :
    (String → String) → User → User → String → Option String → Option ℕ → Exec UserWarning
unfolding new_warning
warn_user strip moderator target reason note report_id =
    guarded (require_can_enforce moderator target)
      (issue_warning moderator target note report_id (clean_reason strip reason))

-- `ROLES`
abbrev pub read_role : String → Option Role
read_role s =
    if str_eq s "user"
    then some Role.user
    else if str_eq s "moderator"
    then some Role.moderator
    else if str_eq s "admin"
    then some Role.admin
    else none

abbrev pub role_text : Role → String
role_text Role.user = "user"
role_text Role.moderator = "moderator"
role_text Role.admin = "admin"

abbrev pub is_admin : Role → Bool
is_admin Role.admin = true
is_admin _ = false

abbrev set_role : ℕ → Role → Db → Db
set_role id role db = record db {
  users = update_where (λ u. u.id == id) (λ u. record u { role = role }) db.users;
}

abbrev pub assign_role : User → User → Role → Result String → Exec User
assign_role actor target role (err e) db = (err e, db)
assign_role actor target role (ok reason) db =
    if role_rank target.role == role_rank role then (ok target, db) else (
      ok (record target { role = role }),
      record_action actor ActionType.role_changed
          (record no_entry {
            target = some target;
            reason = some reason;
            resource_type = some ResourceType.user;
            previous_state = some (role_text target.role);
            new_state = some (role_text role);
          })
          (set_role target.id role db),
    )

abbrev with_role : User → User → Option Role → Result String → Exec User
with_role actor target none reason db = (err invalid_role, db)
with_role actor target (some role) reason db = assign_role actor target role reason db

-- `admin` of the source is `actor`.
unfoldable pub change_role : (String → String) → User → User → String → String → Exec User
change_role strip actor target new_role reason db =
    if not (is_admin actor.role)
    then (err admin_required, db)
    else if actor.id == target.id
    then (err self_role_change, db)
    else if is_admin target.role
    then (err insufficient_role, db)
    else if is_actively_banned target db.now
    then (err banned_target, db)
    else with_role actor target (read_role new_role) (clean_reason strip reason) db
