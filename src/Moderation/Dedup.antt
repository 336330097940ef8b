-- ===== src/Moderation/Dedup.antt =====
-- Filing the same report again.
use biexce_social_network.Social.Severance.Follows.{serial}
use biexce_social_network.Models.{Rival, append, Db, Report, ReportReason, User}
use Prim.Native.String.{String}
use biexce_social_network.Prelude.{
  refl, ◌∙◌, Result-cases, empty_of_scalar, ◌&&◌, select-append, is_none, select, ◌∷◌, not, [], inr,
  inl, Bool-cases, some, false, arith, none, ok, true, ◌≡◌, Option, ℕ, scalar_one_or_none, ◌==◌,
}
use biexce_social_network.Moderation.Reports.{
  find_or_insert, read_reason, report_conflict, pins, find_report, Pin, new_report, insert_report,
  create_report,
}

insert_report_lem :
    (k : Pin) (reason : ReportReason) (r : Report) (db : Db)
    → find_report k db ≡ ok none
    → (insert_report k reason db).0 ≡ ok r
    → (report_conflict k db ≡ false)
      × (insert_report k reason db ≡ (
        ok (new_report k reason db),
        record db { reports = append db.reports (new_report k reason db) },
      ))
unfolding insert_report
insert_report_lem k reason r db h e = elim (Bool-cases (report_conflict k db)) [
  | inl c ↦ absurd (ground (arith, c, h, e))
  | inr c ↦ (c, ground (arith, c))
]

pins-new_report :
    (k : Pin) (reason : ReportReason) (db : Db) → pins k (new_report k reason db) ≡ true
unfolding new_report
pins-new_report k reason db = ground arith

find_inserted :
    (k : Pin) (q : Report) (db : Db)
    → find_report k db ≡ ok none
    → pins k q ≡ true
    → find_report k (record db { reports = append db.reports q }) ≡ ok (some q)
unfolding scalar_one_or_none select
find_inserted k q db h e =
    rw
      (
        select-append (pins k) db.reports.rows (q ∷ []),
        empty_of_scalar (select (pins k) db.reports.rows) h,
      )
      (ground (arith, e))

guards_pass :
    (rival : Rival) (k : Pin) (reason : ReportReason) (r : Report) (db : Db)
    → (find_or_insert rival k (some reason) db).0 ≡ ok r
    → ((k.reporter_id == k.target_user_id) ≡ false)
      × ((not (is_none k.comment_id) && is_none k.post_id) ≡ false)
guards_pass rival k reason r db h = (ground (arith, h), ground (arith, h))

refound :
    (k : Pin) (reason : ReportReason) (r : Report) (db : Db)
    → ((k.reporter_id == k.target_user_id) ≡ false)
      × ((not (is_none k.comment_id) && is_none k.post_id) ≡ false)
    → find_report k db ≡ ok (some r)
    → find_or_insert serial k (some reason) db ≡ (ok r, db)
refound k reason r db g f = rw (g.0, g.1, f) refl

filed :
    (k : Pin) (reason : ReportReason) (r : Report) (db : Db)
    → (find_or_insert serial k (some reason) db).0 ≡ ok r
    → find_report k (find_or_insert serial k (some reason) db).1 ≡ ok (some r)
filed k reason r db h =
    let g = guards_pass serial k reason r db h in
    elim (Result-cases (find_report k db)) [
      | inr (e, f) ↦ absurd (ground (arith, g, f, h))
      | inl (some x, f) ↦ rw (g.0, g.1, f) (ground (arith, g, f, h))
      | inl (none, f) ↦
          let m = insert_report_lem k reason r db f (ground (arith, g, f, h)) in
          rw (g.0, g.1, f, m.1)
            (find_inserted k (new_report k reason db) db f (pins-new_report k reason db)
              ∙ ground (arith, g, f, m, h))
    ]

again :
    (k : Pin) (reason : Option ReportReason) (r : Report) (db : Db)
    → (find_or_insert serial k reason db).0 ≡ ok r
    → find_or_insert serial k reason (find_or_insert serial k reason db).1
      ≡ (ok r, (find_or_insert serial k reason db).1)
again k none r db h = absurd (ground (arith, h))
again k (some reason) r db h =
    refound k reason r (find_or_insert serial k (some reason) db).1
      (guards_pass serial k reason r db h) (filed k reason r db h)

-- Filing a report that was just filed, or found, returns the same row and changes nothing, when
-- nothing else commits between the check and the insert.
pub create_report-again :
    (reporter : User) (target_user_id : ℕ) (reason : String) (post_id comment_id : Option ℕ)
    (r : Report) (db : Db)
    → (create_report serial reporter target_user_id reason post_id comment_id db).0 ≡ ok r
    → let after = (create_report serial reporter target_user_id reason post_id comment_id db).1 in
      create_report serial reporter target_user_id reason post_id comment_id after ≡ (ok r, after)
unfolding create_report
create_report-again reporter target_user_id reason post_id comment_id r db h =
    again
      (record {
        reporter_id = reporter.id;
        target_user_id = target_user_id;
        post_id = post_id;
        comment_id = comment_id;
      })
      (read_reason reason) r db h
