-- ===== src/Tests/Staff.antt =====
-- Runs of the moderation service.
use biexce_social_network.Moderation.Racing.{create_report-raced, account_pin, same_report}
use biexce_social_network.Social.Queries.{user_exists}
use biexce_social_network.Moderation.Enforcement.{warn_user}
use biexce_social_network.Social.Severance.Follows.{serial}
use biexce_social_network.Moderation.Removal.{
  delete_comment_moderation, delete_post_moderation, find_author,
}
use biexce_social_network.UserState.{is_staff, role_rank, is_actively_banned}
use biexce_social_network.Moderation.{clean_reason, require_can_enforce}
use biexce_social_network.Models.{User, ReportReason, public, Comment, Post, Report}
use biexce_social_network.Moderation.Reports.{
  find_report, report_conflict, insert_report, new_report, create_report,
}
use biexce_social_network.Moderation.Bans.{Aware, unban_user, ban_user, banned}
use Prim.Native.String.{String}
use biexce_social_network.Prelude.{
  multiple_results_found, err, true, scalar_one_or_none, ◌<◌, select, count_where, ◌≢◌, ◌↔◌, false,
  ok, some, arith, none, ◌≡◌, ◌≤◌, find_where, refl,
}
use biexce_social_network.Tests.Data.{alice, bob, mia, fresh_db}
use biexce_social_network.Moderation.Authority.{Refused, require_can_enforce_lem, no_authority_lem}
use biexce_social_network.Moderation.BanEffects.{ban_user-lapsed, is_user, HasBan, ban_user_lem}
use biexce_social_network.Moderation.Dedup.{create_report-again}

abbrev same_text : String → String
same_text s = s

require_can_enforce_lem_example :
    (require_can_enforce mia bob ≡ ok tt)
    ↔ ((mia.id ≢ bob.id) × (role_rank bob.role < role_rank mia.role))
require_can_enforce_lem_example = require_can_enforce_lem mia bob

abbrev a_post : Post
a_post = record {
  id = 1;
  author_id = 3;
  content = "";
  audience = public;
  created_at = 60;
  updated_at = 60;
}

abbrev a_comment : Comment
a_comment = record {
  id = 1;
  post_id = 1;
  author_id = 3;
  parent_comment_id = none;
  content = "";
  created_at = 60;
}

mia_known : find_author 3 fresh_db ≡ some mia
unfolding find_where
mia_known = refl

lower_rank : role_rank bob.role ≤ role_rank mia.role
unfolding role_rank
lower_rank = omega arith

no_authority_lem_example :
    Refused fresh_db (ban_user same_text bob mia "spam" none none fresh_db)
    × Refused fresh_db (unban_user bob mia fresh_db)
    × Refused fresh_db (warn_user same_text bob mia "spam" none none fresh_db)
    × Refused fresh_db (delete_post_moderation same_text bob a_post "spam" fresh_db)
    × Refused fresh_db (delete_comment_moderation same_text bob a_comment "spam" fresh_db)
no_authority_lem_example =
    no_authority_lem same_text bob mia fresh_db lower_rank "spam" none none none a_post a_comment
      mia_known mia_known

not_banned : is_actively_banned bob fresh_db.now ≡ false
unfolding is_actively_banned
not_banned = refl

bob_stored : find_where (is_user 2) fresh_db.users ≡ some bob
unfolding find_where
bob_stored = refl

-- A time on a clock ahead of UTC, and the same on one behind it.
abbrev east : Aware
east = record { utc = 150; column = 200 }

abbrev west : Aware
west = record { utc = 150; column = 90 }

ban_returns :
    (ban_user same_text mia bob "spam" (some east) none fresh_db).0
    ≡ ok (banned mia "spam" (some 150) 100 bob)
unfolding ban_user require_can_enforce is_staff role_rank clean_reason is_actively_banned banned
ban_returns = refl

ban_user_lem_example :
    HasBan mia bob
      (some east)
      none
      fresh_db
      (ban_user same_text mia bob "spam" (some east) none fresh_db).1
ban_user_lem_example =
    ban_user_lem same_text mia bob (banned mia "spam" (some 150) 100 bob) "spam" (some east) none
      fresh_db bob_stored not_banned refl ban_returns

west_returns :
    (ban_user same_text mia bob "spam" (some west) none fresh_db).0
    ≡ ok (banned mia "spam" (some 150) 100 bob)
unfolding ban_user require_can_enforce is_staff role_rank clean_reason is_actively_banned banned
west_returns = refl

ban_user-lapsed_example :
    (is_actively_banned (banned mia "spam" (some 150) 100 bob) 100 ≡ true)
    × ((row : User) × (find_where
            (is_user 2)
            (ban_user same_text mia bob "spam" (some west) none fresh_db).1.users
          ≡ some row)
        × (is_actively_banned row 100 ≡ false))
ban_user-lapsed_example =
    ban_user-lapsed same_text mia bob (banned mia "spam" (some 150) 100 bob) "spam" west none
      fresh_db bob_stored not_banned west_returns (omega arith)

abbrev a_report : Report
a_report =
    new_report (record { reporter_id = 1; target_user_id = 2; post_id = none; comment_id = none })
      ReportReason.spam fresh_db

report_filed : (create_report serial alice 2 "spam" none none fresh_db).0 ≡ ok a_report
unfolding create_report insert_report report_conflict user_exists count_where select
    scalar_one_or_none
report_filed = refl

create_report-again_example :
    let after = (create_report serial alice 2 "spam" none none fresh_db).1 in
    create_report serial alice 2 "spam" none none after ≡ (ok a_report, after)
create_report-again_example =
    create_report-again alice 2 "spam" none none a_report fresh_db report_filed

users_known : (user_exists fresh_db 1 ≡ true) × (user_exists fresh_db 2 ≡ true)
unfolding user_exists count_where
users_known = (refl, refl)

unreported : find_report (account_pin alice 2) fresh_db ≡ ok none
unfolding scalar_one_or_none select
unreported = refl

create_report-raced_example :
    (create_report serial alice 2 "spam" none none
      (create_report (same_report alice 2 "spam") alice 2 "spam" none none fresh_db).1).0
    ≡ err multiple_results_found
create_report-raced_example =
    create_report-raced alice 2 "spam" ReportReason.spam fresh_db refl refl users_known.0
      users_known.1 unreported
