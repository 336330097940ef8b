-- ===== src/Api/Reports.antt =====
-- ting_ting/api/moderation.py: filing, listing and settling a report.
use biexce_social_network.Api.Moderation.{get_moderator_role}
use Prim.Native.String.{String}
use biexce_social_network.Prelude.{
  ℕ, Bool, Option, none, some, List, Error, if◌then◌else◌, ◌==◌, find_where,
}
use biexce_social_network.Models.{Db, User, Post, Report, ReportReason, ReportStatus}
use biexce_social_network.Posts.Visibility.{is_visible_to}
use biexce_social_network.Moderation.{report_expired}
use biexce_social_network.Moderation.Reports.{create_report}
use biexce_social_network.Moderation.Review.{list_reports, resolve_report}
use biexce_social_network.Interactions.{find_comment}
use biexce_social_network.Api.Web.{
  refresh, Env, Web, Failure, Code, http, not_found, conflict, validation, pure, refuse, query,
  require, attempt, execute, reading, commit, ◌>>=◌, ◌>>◌,
}
use biexce_social_network.Api.Responses.{UserRef, ref_of, each}
use biexce_social_network.Api.Interactions.{find_post}
use biexce_social_network.Api.Social.{find_user}

pub record ReportResponse : Type 0 where
  pub id : ℕ
  pub reporter : Option UserRef
  pub target_user : Option UserRef
  pub post_id : Option ℕ
  pub comment_id : Option ℕ
  pub reason : ReportReason
  pub status : ReportStatus
  pub resolution_note : Option String
  pub resolved_by : Option UserRef
  pub created_at : ℕ
  pub resolved_at : Option ℕ

-- `_ref`
abbrev optional_ref : Option ℕ → Db → Option UserRef
optional_ref none db = none
optional_ref (some id) db = some (ref_of id db)

-- `if report.resolved_by`: an id of 0 is falsy.
abbrev nonzero : Option ℕ → Option ℕ
nonzero none = none
nonzero (some id) = if id == 0 then none else some id

unfoldable pub report_response : Report → Db → ReportResponse
report_response r db = record {
  id = r.id;
  reporter = optional_ref r.reporter_id db;
  target_user = optional_ref r.target_user_id db;
  post_id = r.post_id;
  comment_id = r.comment_id;
  reason = r.reason;
  status = r.status;
  resolution_note = r.resolution_note;
  resolved_by = optional_ref (nonzero r.resolved_by) db;
  created_at = r.created_at;
  resolved_at = r.resolved_at;
}

-- The request body of a report.
pub record ReportCreateRequest : Type 0 where
  pub target_user_id : ℕ
  pub reason : String
  pub post_id : Option ℕ
  pub comment_id : Option ℕ

-- The post that a report pins: the comment's own, or the one named.
unfoldable pub pinned_post : ReportCreateRequest → Option ℕ → Web (Option ℕ)
pinned_post body none = pure body.post_id
pinned_post body (some comment_id) = do
  found ← query (find_comment comment_id)
  comment ← require found 404 not_found
  if body.target_user_id == comment.author_id
      then pure (some comment.post_id)
      else refuse 422 validation

-- A report of a post names its author.
abbrev pub check_author : ReportCreateRequest → Post → Option ℕ → Web (Unit {0})
check_author body post (some comment_id) = pure tt
check_author body post none =
    if body.target_user_id == post.author_id then pure tt else refuse 422 validation

-- Content that the reporter cannot see cannot be reported.
unfoldable pub check_pinned : User → ReportCreateRequest → Option ℕ → Web (Unit {0})
check_pinned me body none = pure tt
check_pinned me body (some post_id) = do
  post ← find_post post_id
  visible ← query (λ db. is_visible_to db post.author_id me.id post.audience)
  if visible then check_author body post body.comment_id else refuse 404 not_found

abbrev pub on_report : Error → Failure
on_report e = http 422 validation

unfoldable pub create_report_endpoint : Env → User → ReportCreateRequest → Web ReportResponse
create_report_endpoint env me body = do
  target ← find_user body.target_user_id
  post_id ← pinned_post body body.comment_id
  check_pinned me body post_id
  report ←
      attempt (create_report env.rival me target.id body.reason post_id body.comment_id) on_report
  commit
  row ← refresh env (λ db. find_where (λ q. q.id == report.id) db.reports.rows)
  query (report_response row)

abbrev pub status_text : ReportStatus → String
status_text ReportStatus.pending = "pending"
status_text ReportStatus.resolved = "resolved"
status_text ReportStatus.dismissed = "dismissed"

abbrev pub status_query : Option ReportStatus → Option String
status_query none = none
status_query (some st) = some (status_text st)

-- The pattern of the query admits the three texts of a status.
unfoldable pub list_reports_endpoint :
    User → Option ReportStatus → ℕ → ℕ → Web (List ReportResponse)
list_reports_endpoint me status limit offset = do
  get_moderator_role me
  rows ← execute (reading (λ db. list_reports db (status_query status) limit offset))
  commit
  query (each report_response rows)

abbrev pub on_resolve : Error → Failure
on_resolve Error.insufficient_role = http 403 Code.forbidden
on_resolve e = http 409 conflict

-- `report is None or report_expired(report)`
abbrev live_report : ℕ → Option Report → Option Report
live_report now none = none
live_report now (some r) = if report_expired r now then none else some r

unfoldable pub mod_resolve : Env → User → ℕ → Bool → Option String → Web ReportResponse
mod_resolve env me report_id dismiss note = do
  get_moderator_role me
  found ← query (λ db. live_report db.now (find_where (λ r. r.id == report_id) db.reports.rows))
  report ← require found 404 not_found
  done ← attempt (resolve_report me report dismiss note) on_resolve
  commit
  row ← refresh env (λ db. find_where (λ q. q.id == done.id) db.reports.rows)
  query (report_response row)
