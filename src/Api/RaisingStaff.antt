-- ===== src/Api/RaisingStaff.antt =====
-- What the moderation services and the decisions on follows raise, under the checks that their
-- endpoints have made.
use biexce_social_network.UserState.{role_rank, is_staff}
use biexce_social_network.Social.Queries.{is_pending}
use biexce_social_network.Social.Follows.{approve_follow_request, reject_follow_request}
use biexce_social_network.Moderation.Enforcement.{
  role_text, is_admin, assign_role, issue_warning, change_role, read_role, warn_user,
}
use biexce_social_network.Moderation.{require_staff, clean_reason, require_can_enforce}
use Prim.Native.String.{count, String}
use text.Mathlib.Text.{◌==◌ as str_eq}
use biexce_social_network.Prelude.{
  ltb, leb, ◌==◌, inl, inr, insufficient_role, self_action, staff_required, Bool-cases,
  invalid_reason, ℕ, Bool, true, Option, some, Error, ◌≡◌, ◌||◌, refl, ok, err, Result,
}
use biexce_social_network.Models.{Db, User, Follow, Rival, Role}
use biexce_social_network.Api.Web.{is_value_error}
use biexce_social_network.Api.Errors.{Raises, answered, error_rules, Errs, Raises-guarded}
use biexce_social_network.Api.Social.{on_approve, on_reject_follow}
use biexce_social_network.Api.Moderation.{on_warn, on_role}

-- The guard of every enforcement.
require_can_enforce-Errs :
    (P : Error → Bool) (a t : User)
    → P staff_required ≡ true
    → P self_action ≡ true
    → P insufficient_role ≡ true
    → Errs P (require_can_enforce a t)
unfolding require_can_enforce require_staff
require_can_enforce-Errs P a t x y z = elim (Bool-cases (is_staff a)) [
  | inr h ↦ rw h x
  | inl h ↦ elim (Bool-cases (a.id == t.id)) [
    | inl k ↦ rw (h, k) y
    | inr k ↦ elim (Bool-cases (leb (role_rank a.role) (role_rank t.role))) [
      | inl l ↦ rw (h, k, l) z
      | inr l ↦ rw (h, k, l) tt
    ]
  ]
]

clean_reason-Errs :
    (P : Error → Bool) (strip : String → String) (reason : String)
    → P invalid_reason ≡ true
    → Errs P (clean_reason strip reason)
unfolding clean_reason
clean_reason-Errs P strip reason h =
    elim (Bool-cases (str_eq (strip reason) "" || ltb 120 (count (strip reason)))) [
      | inl e ↦ rw e h
      | inr e ↦ rw e tt
    ]

issue_warning-Raises :
    (a t : User) (remark : Option String) (report_id : Option ℕ) (reason : Result String) (db : Db)
    → Errs (answered on_warn) reason
    → Raises (answered on_warn) (issue_warning a t remark report_id reason db)
unfolding is_value_error
issue_warning-Raises a t remark report_id (ok reason) db h = search (error_rules)
issue_warning-Raises a t remark report_id (err e) db h = record { errs = h }

pub warn_user-Raises :
    (strip : String → String) (a t : User) (reason : String) (remark : Option String)
    (report_id : Option ℕ) (db : Db)
    → Raises (answered on_warn) (warn_user strip a t reason remark report_id db)
unfolding warn_user is_value_error
warn_user-Raises strip a t reason remark report_id db =
    Raises-guarded (require_can_enforce a t) _ db
      (require_can_enforce-Errs (answered on_warn) a t refl refl refl)
      (issue_warning-Raises a t remark report_id (clean_reason strip reason) db
        (clean_reason-Errs (answered on_warn) strip reason refl))

assign_role-Raises :
    (a t : User) (role : Role) (reason : Result String) (db : Db)
    → Errs (answered on_role) reason
    → Raises (answered on_role) (assign_role a t role reason db)
assign_role-Raises a t role (ok reason) db h = search (error_rules)
assign_role-Raises a t role (err e) db h = record { errs = h }

read_role_text : (role : Role) → read_role (role_text role) ≡ some role
read_role_text Role.user = refl
read_role_text Role.moderator = refl
read_role_text Role.admin = refl

pub change_role-Raises :
    (strip : String → String) (a t : User) (role : Role) (reason : String) (db : Db)
    → is_admin a.role ≡ true
    → Raises (answered on_role) (change_role strip a t (role_text role) reason db)
unfolding change_role is_value_error
change_role-Raises strip a t role reason db h =
    rw (h, read_role_text role)
      (search (error_rules, assign_role-Raises, clean_reason-Errs) depth 10)

pub approve_follow_request-Raises :
    (notify : Rival) (f : Follow) (u : User) (db : Db)
    → is_pending f.status ≡ true
    → Raises (answered on_approve) (approve_follow_request notify f u db)
unfolding approve_follow_request is_value_error
approve_follow_request-Raises notify f u db h = rw h (search (error_rules))

pub reject_follow_request-Raises :
    (f : Follow) (u : User) (db : Db)
    → is_pending f.status ≡ true
    → Raises (answered on_reject_follow) (reject_follow_request f u db)
unfolding reject_follow_request is_value_error
reject_follow_request-Raises f u db h = rw h (search (error_rules))
