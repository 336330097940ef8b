-- ===== src/Moderation/Reports.antt =====
-- ting_ting/moderation.py: create_report.
use biexce_social_network.Social.Queries.{user_exists}
use biexce_social_network.Prelude.{
  content_requires_post, is_none, self_report, ◌==◌, false, integrity_error, ◌||◌, select, ◌&&◌,
  invalid_reason, scalar_one_or_none, ok, err, not, exists, is_value, none, true, Option, ℕ,
  if◌then◌else◌, Bool, Result, some,
}
use Prim.Native.String.{String}
use text.Mathlib.Text.{◌==◌ as str_eq}
use biexce_social_network.Models.{
  Db, Rival, Exec, User, Report, ReportReason, ReportStatus, append, on_found,
}
use biexce_social_network.Moderation.{
  invalid_reason, err, none, ok, Bool, Result, some, Option, ℕ, if◌then◌else◌,
}

-- `REPORT_REASONS`
abbrev pub read_reason : String → Option ReportReason
read_reason s =
    if str_eq s "spam"
    then some ReportReason.spam
    else if str_eq s "harassment"
    then some ReportReason.harassment
    else if str_eq s "hate_speech"
    then some ReportReason.hate_speech
    else if str_eq s "false_info"
    then some ReportReason.false_info
    else if str_eq s "other"
    then some ReportReason.other
    else none

-- What a report pins: its reporter, its target and the content.
pub record Pin : Type 0 where
  pub reporter_id : ℕ
  pub target_user_id : ℕ
  pub post_id : Option ℕ
  pub comment_id : Option ℕ

-- `column == value`, which SQLAlchemy writes as IS NULL for `None`.
abbrev pub column_eq : Option ℕ → Option ℕ → Bool
column_eq none none = true
column_eq (some m) (some n) = m == n
column_eq _ _ = false

-- The predicate of both queries.
abbrev pub pins : Pin → Report → Bool
pins k r =
    is_value r.reporter_id k.reporter_id
    && is_value r.target_user_id k.target_user_id
    && column_eq r.post_id k.post_id
    && column_eq r.comment_id k.comment_id

abbrev coalesce : Option ℕ → ℕ
coalesce none = 0
coalesce (some n) = n

-- Two non-NULL columns are equal.
abbrev collides : Option ℕ → Option ℕ → Bool
collides (some m) (some n) = m == n
collides _ _ = false

-- `ux_reports_dedup`, where a NULL is unlike any other NULL.
abbrev pub dedup_match : Pin → Report → Bool
dedup_match k r =
    is_value r.reporter_id k.reporter_id
    && is_value r.target_user_id k.target_user_id
    && collides r.post_id k.post_id
    && coalesce r.comment_id == coalesce k.comment_id

abbrev id_exists : Option ℕ → (ℕ → Bool) → Bool
id_exists none known = true
id_exists (some n) known = known n

-- The unique index and the four foreign keys.
unfoldable pub report_conflict : Pin → Db → Bool
unfolding user_exists
report_conflict k db =
    exists (dedup_match k) db.reports.rows
    || not (
        (user_exists db k.reporter_id && user_exists db k.target_user_id)
        && (id_exists k.post_id (λ n. exists (λ p. p.id == n) db.posts.rows)
            && id_exists k.comment_id (λ n. exists (λ c. c.id == n) db.comments.rows)))

unfoldable pub new_report : Pin → ReportReason → Db → Report
new_report k reason db = record {
  id = db.reports.next_id;
  reporter_id = some k.reporter_id;
  target_user_id = some k.target_user_id;
  post_id = k.post_id;
  comment_id = k.comment_id;
  reason = reason;
  status = ReportStatus.pending;
  resolution_note = none;
  resolved_by = none;
  created_at = db.now;
  resolved_at = none;
}

abbrev pub find_report : Pin → Db → Result (Option Report)
find_report k db = scalar_one_or_none (select (pins k) db.reports.rows)

-- The insert, or the row that won the race.
unfoldable pub insert_report : Pin → ReportReason → Exec Report
unfolding report_conflict new_report
insert_report k reason db =
    if report_conflict k db
    then on_found (find_report k db) (λ db'. (err integrity_error, db')) (λ r db'. (ok r, db')) db
    else (
      ok (new_report k reason db),
      record db { reports = append db.reports (new_report k reason db) },
    )

abbrev pub find_or_insert : Rival → Pin → Option ReportReason → Exec Report
find_or_insert rival k none db = (err invalid_reason, db)
find_or_insert rival k (some reason) db =
    if k.reporter_id == k.target_user_id
    then (err self_report, db)
    else if not (is_none k.comment_id) && is_none k.post_id
    then (err content_requires_post, db)
    else on_found (find_report k db) (λ db'. insert_report k reason (rival db'))
        (λ r db'. (ok r, db')) db

unfoldable pub create_report : Rival → User → ℕ → String → Option ℕ → Option ℕ → Exec Report
unfolding insert_report
create_report rival reporter target_user_id reason post_id comment_id db =
    find_or_insert rival
      (record {
        reporter_id = reporter.id;
        target_user_id = target_user_id;
        post_id = post_id;
        comment_id = comment_id;
      })
      (read_reason reason) db
