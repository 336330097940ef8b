-- ===== src/Moderation/Racing.antt =====
-- Two requests that file the same report of an account at the same time.
use biexce_social_network.Social.Queries.{user_exists}
use biexce_social_network.Social.Severance.Follows.{serial}
use biexce_social_network.Models.{append, Db, Report, ReportReason, Rival, User}
use Prim.Native.String.{String}
use biexce_social_network.Prelude.{
  empty_of_scalar, ◌++◌, select-append, Result, ◌∙◌, ◌∷◌, [], select, scalar_one_or_none, arith,
  multiple_results_found, count_where_none, ltb, err, ap, ok, false, some, true, ◌≡◌, exists, none,
  List, ℕ, ◌==◌, refl,
}
use biexce_social_network.Moderation.Reports.{
  pins, new_report, find_report, dedup_match, Pin, report_conflict, insert_report, create_report,
  read_reason,
}

abbrev pub account_pin : User → ℕ → Pin
account_pin reporter target_user_id = record {
  reporter_id = reporter.id;
  target_user_id = target_user_id;
  post_id = none;
  comment_id = none;
}

-- The index never refuses a report of an account, since its post is NULL.
no_dedup :
    (reporter : User) (t : ℕ) (rows : List Report)
    → exists (dedup_match (account_pin reporter t)) rows ≡ false
no_dedup reporter t rows =
    ap (ltb 0) (count_where_none (dedup_match (account_pin reporter t)) (λ r. ground arith) rows)

-- The state with the report.
unfoldable with_report : User → ℕ → ReportReason → Db → Db
with_report reporter t reason db = record db {
  reports = append db.reports (new_report (account_pin reporter t) reason db);
}

insert_account_report :
    (reporter : User) (t : ℕ) (reason : ReportReason) (db : Db)
    → user_exists db reporter.id ≡ true
    → user_exists db t ≡ true
    → insert_report (account_pin reporter t) reason db ≡ (
      ok (new_report (account_pin reporter t) reason db),
      record db { reports = append db.reports (new_report (account_pin reporter t) reason db) },
    )
unfolding insert_report report_conflict with_report
insert_account_report reporter t reason db h k = rw (no_dedup reporter t db.reports.rows, h, k) refl

-- What the other request commits: the same report.
abbrev pub same_report : User → ℕ → String → Rival
same_report reporter t reason d = (create_report serial reporter t reason none none d).1

-- A call that finds no such report comes to the insert; one that finds several raises.
inserts :
    (rival : Rival) (reporter : User) (t : ℕ) (text : String) (reason : ReportReason) (db : Db)
    → read_reason text ≡ some reason
    → (reporter.id == t) ≡ false
    → find_report (account_pin reporter t) db ≡ ok none
    → create_report rival reporter t text none none db
      ≡ insert_report (account_pin reporter t) reason (rival db)
unfolding create_report
inserts rival reporter t text reason db e ne absent = rw (e, ne, absent) refl

raises_several :
    (reporter : User) (t : ℕ) (text : String) (reason : ReportReason) (db : Db)
    → read_reason text ≡ some reason
    → (reporter.id == t) ≡ false
    → find_report (account_pin reporter t) db ≡ err multiple_results_found
    → (create_report serial reporter t text none none db).0 ≡ err multiple_results_found
unfolding create_report
raises_several reporter t text reason db e ne several = rw (e, ne, several) refl

known_still :
    (reporter : User) (t x : ℕ) (reason : ReportReason) (db : Db)
    → user_exists db x ≡ true
    → user_exists (with_report reporter t reason db) x ≡ true
unfolding user_exists with_report
known_still reporter t x reason db h = h

two_found :
    (reporter : User) (t : ℕ) (reason : ReportReason) (db : Db)
    → find_report (account_pin reporter t) db ≡ ok none
    → find_report
        (account_pin reporter t)
        (with_report reporter t reason (with_report reporter t reason db))
      ≡ err multiple_results_found
unfolding scalar_one_or_none select with_report new_report
two_found reporter t reason db absent =
    let p = pins (account_pin reporter t) in
    rw
      (
        select-append p (db.reports.rows ++ new_report (account_pin reporter t) reason db ∷ [])
            (new_report (account_pin reporter t) reason (with_report reporter t reason db) ∷ []),
        select-append p db.reports.rows (new_report (account_pin reporter t) reason db ∷ []),
        empty_of_scalar (select p db.reports.rows) absent,
      )
      (ground arith)

-- If a second request files the same report of an account between the check and the insert, both
-- rows are stored, and filing it once more raises `multiple_results_found`. The users exist and differ,
-- the reason is valid, and the report was not there before.
pub create_report-raced :
    (reporter : User) (t : ℕ) (text : String) (reason : ReportReason) (db : Db)
    → read_reason text ≡ some reason
    → (reporter.id == t) ≡ false
    → user_exists db reporter.id ≡ true
    → user_exists db t ≡ true
    → find_report (account_pin reporter t) db ≡ ok none
    → (create_report serial reporter t text none none
        (create_report (same_report reporter t text) reporter t text none none db).1).0
      ≡ err multiple_results_found
unfolding with_report
create_report-raced reporter t text reason db e ne h k absent =
    let one = with_report reporter t reason db in
    let first =
      inserts serial reporter t text reason db e ne absent
      ∙ insert_account_report reporter t reason db h k in
    let second =
      inserts (same_report reporter t text) reporter t text reason db e ne absent
      ∙ ap (insert_report (account_pin reporter t) reason)
          (ap (λ (r : Result Report × Db). r.1) first)
      ∙ insert_account_report reporter t reason one (known_still reporter t reporter.id reason db h)
          (known_still reporter t t reason db k) in
    raises_several reporter t text reason _ e ne (
      ap (λ (r : Result Report × Db). find_report (account_pin reporter t) r.1) second
      ∙ two_found reporter t reason db absent)
