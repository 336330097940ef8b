-- ===== src/Api/Escapes.antt =====
-- ting_ting/api: the exceptions that an endpoint lets through.
use biexce_social_network.Moderation.Enforcement.{is_admin}
use Prim.Native.String.{String}
use mathlib.Core.Path.{subst}
use biexce_social_network.Api.Toggles.{unhide_post, hide_post, toggle_post_feature}
use biexce_social_network.Api.Features.{
  list_activity, list_followers, list_following, unmute_user_endpoint, mute_user_endpoint,
  unfollow_user, follow_target, follow_user,
}
use biexce_social_network.Api.RaisingReads.{
  list_reports-Raises, post_response-Raises, relationship_state-Raises,
}
use biexce_social_network.Api.Interactions.{
  list_comments_endpoint, delete_comment_endpoint, unlike_post, like_post, edit_comment_endpoint,
  create_comment_endpoint,
}
use biexce_social_network.Social.Queries.{is_pending}
use biexce_social_network.Api.RaisingStaff.{
  change_role-Raises, warn_user-Raises, reject_follow_request-Raises, approve_follow_request-Raises,
}
use biexce_social_network.Api.Errors.{IsCaught-refused, Caught, IsCaught}
use biexce_social_network.Models.{Db, Follow, Role, User}
use biexce_social_network.Api.Raising.{
  request_follow-Raises, unmute_user-Raises, mute_user-Raises, record_activity-Raises,
  remove_like-Raises, create_like-Raises, delete_comment-Raises, edit_comment-Raises,
  unblock_user-Raises, block_user-Raises, create_friend_request-Raises,
}
use biexce_social_network.Api.Web.{
  is_value_error, unhandled, raised, serve, Reply, next, conflict, Conn, refuse, pure, not_found,
  require, query, ◌>>=◌, Web, Env,
}
use biexce_social_network.Prelude.{
  false, Error, none, some, inr, if◌then◌else◌, inl, ◌==◌, find_where, Bool-cases, Option, true,
  ◌≡◌, ℕ,
}
use biexce_social_network.Api.Moderation.{
  list_moderation_actions, list_own_warnings, warn_user_endpoint, unban_user_endpoint,
  ban_user_endpoint, get_admin_role, update_user_role,
}
use biexce_social_network.Api.Reports.{mod_resolve, list_reports_endpoint, create_report_endpoint}
use biexce_social_network.Api.Answers.{answer_rules}
use biexce_social_network.Api.Routes.{Call, remove_any_comment, remove_post, handle}
use biexce_social_network.Api.Social.{
  list_follow_requests_endpoint, list_my_blocks, unblock_target, block_target, get_relationship,
  unfriend_user, list_my_friends, reject_request, accept_request, list_my_requests,
  cancel_sent_request_endpoint, send_friend_request, find_pending_follow,
  reject_follow_request_endpoint, approve_follow_request_endpoint,
}

abbrev checked : Option Follow → Web Follow
checked found = do
  follow ← require found 404 not_found
  if is_pending follow.status then pure follow else refuse 409 conflict

checked-Caught :
    {B : Type 0} (o : Option Follow) (f : Follow → Web B) (c : Conn)
    → ((a : Follow) → is_pending a.status ≡ true → IsCaught (f a))
    → Caught (next f (checked o c)).0
unfolding require ◌>>=◌ pure refuse
checked-Caught none f c h = tt
checked-Caught (some a) f c h = elim (Bool-cases (is_pending a.status)) [
  | inl p ↦ rw p ((h a p).caught c)
  | inr p ↦ rw p tt
]

find_pending_follow-IsCaught :
    {B : Type 0} (id : ℕ) (f : Follow → Web B)
    → ((a : Follow) → is_pending a.status ≡ true → IsCaught (f a))
    → IsCaught (find_pending_follow id >>= f)
unfolding find_pending_follow ◌>>=◌ query
find_pending_follow-IsCaught id f h = record {
  caught = λ c. checked-Caught (find_where (λ q. q.id == id) c.working.follows.rows) f c h;
}

approve-IsCaught :
    (env : Env) (me : User) (id : ℕ) → IsCaught (approve_follow_request_endpoint env me id)
unfolding approve_follow_request_endpoint
approve-IsCaught env me id =
    find_pending_follow-IsCaught id _
      (λ f p. search (answer_rules, approve_follow_request-Raises) depth 8)

reject-IsCaught : (me : User) (id : ℕ) → IsCaught (reject_follow_request_endpoint me id)
unfolding reject_follow_request_endpoint
reject-IsCaught me id =
    find_pending_follow-IsCaught id _
      (λ f p. search (answer_rules, reject_follow_request-Raises) depth 8)

set_role-IsCaught :
    (env : Env) (me : User) (id : ℕ) (role : Role) (reason : String)
    → IsCaught (update_user_role env me id role reason)
unfolding update_user_role get_admin_role
set_role-IsCaught env me id role reason = elim (Bool-cases (is_admin me.role)) [
  | inl h ↦ rw h (search (answer_rules, change_role-Raises) depth 10)
  | inr h ↦ rw h (IsCaught-refused 403 _ _)
]

ruleset escape_rules = (
  answer_rules, create_friend_request-Raises, block_user-Raises, unblock_user-Raises,
  edit_comment-Raises, delete_comment-Raises, create_like-Raises, remove_like-Raises,
  record_activity-Raises, mute_user-Raises, unmute_user-Raises, request_follow-Raises,
  warn_user-Raises, relationship_state-Raises, post_response-Raises, list_reports-Raises,
  approve-IsCaught, reject-IsCaught, set_role-IsCaught,
)

-- The two endpoints that remove content, whose author may be gone.
unfoldable pub NotRemoval : {A : Type 0} → Call A → Type 0
NotRemoval (remove_post id) = ⊥
NotRemoval (remove_any_comment id) = ⊥
NotRemoval call = Unit

handle-IsCaught :
    {A : Type 0} (env : Env) (me : User) (call : Call A)
    → NotRemoval call
    → IsCaught (handle env me call)
unfolding NotRemoval handle send_friend_request cancel_sent_request_endpoint list_my_requests
    accept_request reject_request list_my_friends unfriend_user get_relationship block_target
    unblock_target list_my_blocks list_follow_requests_endpoint create_comment_endpoint
    edit_comment_endpoint like_post unlike_post delete_comment_endpoint list_comments_endpoint
    create_report_endpoint list_reports_endpoint mod_resolve ban_user_endpoint unban_user_endpoint
    warn_user_endpoint list_own_warnings list_moderation_actions follow_user follow_target
    unfollow_user mute_user_endpoint unmute_user_endpoint list_following list_followers
    list_activity toggle_post_feature hide_post unhide_post
handle-IsCaught env me (remove_post id) h = absurd h
handle-IsCaught env me (remove_any_comment id) h = absurd h
handle-IsCaught env me call h = search (escape_rules) depth 14

unescaped :
    {A : Type 0} (r : Reply A) (e : Error)
    → Caught r
    → r ≡ raised (unhandled e)
    → is_value_error e ≡ false
unescaped r e h k = subst (λ x. Caught x) k h

-- No `ValueError` escapes from an endpoint of the social graph, of likes and comments, of moderation
-- other than the removal of content, or of follows, mutes and saved, reposted and hidden posts: an
-- exception that an endpoint lets through is one of the database layer or of Python.
pub serve-answers :
    {A : Type 0} (env : Env) (me : User) (call : Call A) (db : Db)
    → NotRemoval call
    → (e : Error) → (serve (handle env me call) db).0 ≡ raised (unhandled e)
    → is_value_error e ≡ false
unfolding serve
serve-answers env me call db h e =
    unescaped _ e ((handle-IsCaught env me call h).caught (record { committed = db; working = db }))
