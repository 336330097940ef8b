-- ===== src/Moderation/Review.antt =====
-- ting_ting/moderation.py: list_reports and resolve_report.
use biexce_social_network.Keyset.Walk.{drop}
use biexce_social_network.Keyset.Pages.{take}
use biexce_social_network.Prelude.{
  find_where, ◌==◌, leb, order_by, false, ◌||◌, select, not_pending, invalid_status, ◌&&◌, ok, err,
  not, ltb, update_where, none, List, true, Option, ℕ, if◌then◌else◌, Bool, Result, some,
}
use Prim.Native.String.{String}
use text.Mathlib.Text.{◌==◌ as str_eq}
use biexce_social_network.Models.{
  Db, Exec, User, Report, ReportReason, ReportStatus, ActionType, ResourceType, with_rows,
}
use biexce_social_network.Moderation.{
  Guard, err, ltb, none, ok, Bool, Result, some, Option, ℕ, if◌then◌else◌, guarded, require_staff,
  require_can_enforce, record_action, retention_cutoff,
}

abbrev status_eq : ReportStatus → ReportStatus → Bool
status_eq ReportStatus.pending ReportStatus.pending = true
status_eq ReportStatus.resolved ReportStatus.resolved = true
status_eq ReportStatus.dismissed ReportStatus.dismissed = true
status_eq _ _ = false

abbrev pub is_pending_report : ReportStatus → Bool
is_pending_report ReportStatus.pending = true
is_pending_report _ = false

abbrev read_status : String → Option ReportStatus
read_status s =
    if str_eq s "pending"
    then some ReportStatus.pending
    else if str_eq s "resolved"
    then some ReportStatus.resolved
    else if str_eq s "dismissed"
    then some ReportStatus.dismissed
    else none

abbrev newer_report : Report → Report → Bool
newer_report r q = ltb q.created_at r.created_at || (r.created_at == q.created_at && ltb q.id r.id)

abbrev report_page : Db → (Report → Bool) → ℕ → ℕ → List Report
report_page db condition limit offset = take limit (
    drop offset (
      order_by newer_report
        (select (λ r. leb (retention_cutoff db.now) r.created_at && condition r) db.reports.rows)))

abbrev filtered : Db → Option ReportStatus → ℕ → ℕ → Result (List Report)
filtered db none limit offset = err invalid_status
filtered db (some st) limit offset = ok (report_page db (λ r. status_eq r.status st) limit offset)

unfoldable pub list_reports : Db → Option String → ℕ → ℕ → Result (List Report)
unfolding retention_cutoff
list_reports db none limit offset = ok (report_page db (λ r. true) limit offset)
list_reports db (some s) limit offset = filtered db (read_status s) limit offset

-- `db.get(User, report.target_user_id) if report.target_user_id else None`: an id of 0 is falsy.
abbrev pub report_target : Report → Db → Option User
report_target r db = elim r.target_user_id [
  | none ↦ none
  | some id ↦ if id == 0 then none else find_where (λ u. u.id == id) db.users
]

abbrev target_guard : User → Option User → Guard
target_guard moderator none = ok tt
target_guard moderator (some target) = require_can_enforce moderator target

abbrev outcome : Bool → ReportStatus
outcome dismiss = if dismiss then ReportStatus.dismissed else ReportStatus.resolved

abbrev outcome_text : Bool → String
outcome_text dismiss = if dismiss then "dismissed" else "resolved"

unfoldable pub settled : User → Bool → Option String → ℕ → Report → Report
settled moderator dismiss note now r = record r {
  status = outcome dismiss;
  resolved_by = some moderator.id;
  resolved_at = some now;
  resolution_note = note;
}

abbrev reason_text : ReportReason → String
reason_text ReportReason.spam = "spam"
reason_text ReportReason.harassment = "harassment"
reason_text ReportReason.hate_speech = "hate_speech"
reason_text ReportReason.false_info = "false_info"
reason_text ReportReason.other = "other"

unfoldable pub settle : User → Report → Bool → Option String → Db → Db
unfolding settled
settle moderator report dismiss note db =
    record_action moderator
      (if dismiss then ActionType.report_dismissed else ActionType.report_resolved)
      (record {
        target = report_target report db;
        reason = some (reason_text report.reason);
        note = note;
        resource_type = some ResourceType.report;
        resource_id = some report.id;
        previous_state = some "pending";
        new_state = some (outcome_text dismiss);
      })
      (record db {
        reports = with_rows db.reports (
            update_where (λ r. r.id == report.id) (settled moderator dismiss note db.now)
              db.reports.rows);
      })

unfoldable pub resolve_report : User → Report → Bool → Option String → Exec Report
unfolding settle
resolve_report moderator report dismiss note db =
    guarded (require_staff moderator)
      (guarded (target_guard moderator (report_target report db)) (λ db'.
        if not (is_pending_report report.status) then (err not_pending, db') else (
          ok (settled moderator dismiss note db'.now report),
          settle moderator report dismiss note db',
        )))
      db
