-- ===== src/Api/Moderation.antt =====
-- ting_ting/api/moderation.py: bans, warnings, roles and the removal of content.
-- The paths of the files of a removed post stand in a table that is left out.
use biexce_social_network.Api.Responses.{get_user}
use Prim.Native.String.{String}
use text.Mathlib.Text.{◌==◌ as str_eq}
use biexce_social_network.Prelude.{
  find_where, ℕ, Option, none, some, List, Error, if◌then◌else◌, ◌==◌, select, order_by,
}
use biexce_social_network.Models.{User, Role, UserWarning, ModerationAction}
use biexce_social_network.Keyset.Pages.{take, newer}
use biexce_social_network.Keyset.Walk.{drop}
use biexce_social_network.UserState.{is_staff}
use biexce_social_network.Moderation.Bans.{Aware, ban_user, unban_user}
use biexce_social_network.Moderation.Enforcement.{warn_user, change_role, is_admin, role_text}
use biexce_social_network.Moderation.Removal.{delete_post_moderation, delete_comment_moderation}
use biexce_social_network.Interactions.{find_comment}
use biexce_social_network.Api.Web.{
  reading, refresh, execute, Env, Web, Failure, Code, http, unhandled, not_found, conflict,
  validation, pure, refuse, query, require, attempt, commit, ◌>>=◌, ◌>>◌,
}
use biexce_social_network.Api.Interactions.{find_post}
use biexce_social_network.Api.Social.{find_user}

unfoldable pub get_moderator_role : User → Web (Unit {0})
get_moderator_role me = if is_staff me then pure tt else refuse 403 Code.forbidden

unfoldable pub get_admin_role : User → Web (Unit {0})
get_admin_role me = if is_admin me.role then pure tt else refuse 403 Code.forbidden

pub record BanResponse : Type 0 where
  pub user_id : ℕ
  pub reason : Option String
  pub banned_at : Option ℕ
  pub expires_at : Option ℕ

abbrev pub on_ban : Error → Failure
on_ban Error.staff_required = http 403 Code.forbidden
on_ban Error.insufficient_role = http 403 Code.forbidden
on_ban Error.invalid_reason = http 422 validation
on_ban Error.invalid_expiry = http 422 validation
on_ban e = http 409 conflict

-- The stored reason, or the one of the request.
abbrev reason_or : Option String → String → Option String
reason_or none given = some given
reason_or (some reason) given = some (if str_eq reason "" then given else reason)

unfoldable pub ban_user_endpoint :
    Env → User → ℕ → String → Option Aware → Option String → Web BanResponse
ban_user_endpoint env me user_id reason expires_at note = do
  get_moderator_role me
  target ← find_user user_id
  u ← attempt (ban_user env.strip me target reason expires_at note) on_ban
  commit
  row ← refresh env (get_user u.id)
  pure (record {
    user_id = row.id;
    reason = reason_or row.ban_reason reason;
    banned_at = row.banned_at;
    expires_at = row.banned_until;
  })

abbrev pub on_unban : Error → Failure
on_unban Error.staff_required = http 403 Code.forbidden
on_unban Error.insufficient_role = http 403 Code.forbidden
on_unban e = http 409 conflict

unfoldable pub unban_user_endpoint : User → ℕ → Web (Unit {0})
unban_user_endpoint me user_id = do
  get_moderator_role me
  target ← find_user user_id
  u ← attempt (unban_user me target) on_unban
  commit

abbrev pub on_warn : Error → Failure
on_warn Error.staff_required = http 403 Code.forbidden
on_warn Error.self_action = http 403 Code.forbidden
on_warn Error.insufficient_role = http 403 Code.forbidden
on_warn Error.invalid_report = http 422 validation
on_warn Error.invalid_reason = http 422 validation
on_warn e = unhandled e

unfoldable pub warn_user_endpoint :
    Env → User → ℕ → String → Option String → Option ℕ → Web UserWarning
warn_user_endpoint env me user_id reason note report_id = do
  get_moderator_role me
  target ← find_user user_id
  warning ← attempt (warn_user env.strip me target reason note report_id) on_warn
  commit
  refresh env (λ db. find_where (λ w. w.id == warning.id) db.warnings.rows)

unfoldable pub list_own_warnings : User → Web (List UserWarning)
list_own_warnings me = query (λ db.
    order_by (newer (λ w. w.created_at) (λ w. w.id))
      (select (λ w. w.user_id == me.id) db.warnings.rows))

unfoldable pub list_moderation_actions : User → ℕ → ℕ → Web (List ModerationAction)
list_moderation_actions me limit offset = do
  get_moderator_role me
  query (λ db.
      take limit (drop offset (order_by (newer (λ a. a.created_at) (λ a. a.id)) db.actions.rows)))

abbrev pub on_role : Error → Failure
on_role Error.self_role_change = http 409 conflict
on_role Error.insufficient_role = http 409 conflict
on_role Error.banned_target = http 409 conflict
on_role Error.invalid_reason = http 422 validation
on_role e = unhandled e

pub record RoleUpdateResponse : Type 0 where
  pub user_id : ℕ
  pub role : Role

-- The request schema reads the text of the new role, so it is one of the three.
unfoldable pub update_user_role : Env → User → ℕ → Role → String → Web RoleUpdateResponse
update_user_role env me user_id role reason = do
  get_admin_role me
  target ← find_user user_id
  u ← attempt (change_role env.strip me target (role_text role) reason) on_role
  commit
  row ← refresh env (get_user u.id)
  pure (record { user_id = row.id; role = row.role })

abbrev pub on_removal : Error → Failure
on_removal Error.self_action = http 403 Code.forbidden
on_removal Error.insufficient_role = http 403 Code.forbidden
on_removal e = unhandled e

unfoldable pub mod_delete_post : Env → User → ℕ → Web (Unit {0})
mod_delete_post env me post_id = do
  get_moderator_role me
  post ← find_post post_id
  gone ← attempt (delete_post_moderation env.strip me post "policy_violation") on_removal
  commit
  execute (reading (λ db. env.delete_stored_files post.id))

unfoldable pub mod_delete_comment : Env → User → ℕ → Web (Unit {0})
mod_delete_comment env me comment_id = do
  get_moderator_role me
  found ← query (find_comment comment_id)
  comment ← require found 404 not_found
  gone ← attempt (delete_comment_moderation env.strip me comment "policy_violation") on_removal
  commit
