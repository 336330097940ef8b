-- ===== src/Api/Routes.antt =====
-- ting_ting/api: the modelled endpoints as one type of calls, each with the type of its reply.
use biexce_social_network.Moderation.Bans.{Aware}
use biexce_social_network.Api.Toggles.{unhide_post, hide_post, toggle_post_feature, Feature}
use biexce_social_network.Api.Features.{
  list_activity, list_followers, list_following, unmute_user_endpoint, mute_user_endpoint,
  unfollow_user, follow_user, ActivityResponse, ToggleResponse,
}
use biexce_social_network.Api.Moderation.{
  mod_delete_comment, mod_delete_post, update_user_role, RoleUpdateResponse, BanResponse,
  list_moderation_actions, list_own_warnings, warn_user_endpoint, unban_user_endpoint,
  ban_user_endpoint,
}
use biexce_social_network.Api.Reports.{
  ReportResponse, ReportCreateRequest, mod_resolve, list_reports_endpoint, create_report_endpoint,
}
use biexce_social_network.Api.Interactions.{
  CommentPage, list_comments_endpoint, delete_comment_endpoint, edit_comment_endpoint,
  create_comment_endpoint, unlike_post, like_post,
}
use biexce_social_network.Api.Social.{
  reject_follow_request_endpoint, approve_follow_request_endpoint, list_follow_requests_endpoint,
  list_my_blocks, unblock_target, block_target, get_relationship, unfriend_user, list_my_friends,
  reject_request, accept_request, list_my_requests, cancel_sent_request_endpoint,
  send_friend_request,
}
use Prim.Native.String.{String}
use biexce_social_network.Prelude.{ℕ, Bool, Option, List}
use biexce_social_network.Models.{
  ReportStatus, User, RequestState, Role, UserWarning, ModerationAction,
}
use biexce_social_network.Keyset.{Text}
use biexce_social_network.Social.Queries.{Relationship}
use biexce_social_network.Api.Web.{Env, Web}
use biexce_social_network.Api.Responses.{
  UserRef, FriendRequestResponse, FollowRequestResponse, PostResponse, CommentResponse,
}

pub data Call : Type 0 → Type 1 where
  -- POST, DELETE and GET /social/requests
  send_request : ℕ → Call FriendRequestResponse
  cancel_request : ℕ → Call (Unit {0})
  my_requests : Option RequestState → Call (List FriendRequestResponse)
  accept reject : ℕ → Call FriendRequestResponse
  my_friends : Call (List UserRef)
  unfriend_call : ℕ → Call (Unit {0})
  relationship : ℕ → Call Relationship
  block : ℕ → Call ℕ
  unblock : ℕ → Call (Unit {0})
  my_blocks : Call (List UserRef)
  follow_requests : String → Call (List FollowRequestResponse)
  approve_follow : ℕ → Call FollowRequestResponse
  reject_follow : ℕ → Call (Unit {0})
  -- /posts/{post_id}/likes and /comments
  like unlike : ℕ → Call PostResponse
  comment : ℕ → String → Option ℕ → Call CommentResponse
  change_comment : ℕ → ℕ → String → Call CommentResponse
  remove_comment : ℕ → ℕ → Call (Unit {0})
  comments : ℕ → ℕ → Option Text → ℕ → Call CommentPage
  -- /reports, /social/bans and /mod
  report : ReportCreateRequest → Call ReportResponse
  reports : Option ReportStatus → ℕ → ℕ → Call (List ReportResponse)
  settle_report : ℕ → Bool → Option String → Call ReportResponse
  ban : ℕ → String → Option Aware → Option String → Call BanResponse
  unban : ℕ → Call (Unit {0})
  warn : ℕ → String → Option String → Option ℕ → Call UserWarning
  own_warnings : Call (List UserWarning)
  actions : ℕ → ℕ → Call (List ModerationAction)
  set_role : ℕ → Role → String → Call RoleUpdateResponse
  remove_post remove_any_comment : ℕ → Call (Unit {0})
  -- /social/follows, /social/mutes, /activity and /posts/{post_id}/saved, /hidden, /repost
  follow unfollow mute unmute : ℕ → Call ToggleResponse
  following followers : Call (List UserRef)
  activity : ℕ → ℕ → Call (List ActivityResponse)
  toggle : Feature → ℕ → Bool → Call Bool
  hide unhide : ℕ → Call Bool

-- The handler of a call, for the signed-in user.
unfoldable pub handle : {A : Type 0} → Env → User → Call A → Web A
handle env me (send_request id) = send_friend_request env me id
handle env me (cancel_request id) = cancel_sent_request_endpoint me id
handle env me (my_requests state) = list_my_requests me state
handle env me (accept id) = accept_request env me id
handle env me (reject id) = reject_request env me id
handle env me my_friends = list_my_friends me
handle env me (unfriend_call id) = unfriend_user me id
handle env me (relationship id) = get_relationship me id
handle env me (block id) = block_target env me id
handle env me (unblock id) = unblock_target me id
handle env me my_blocks = list_my_blocks me
handle env me (follow_requests direction) = list_follow_requests_endpoint me direction
handle env me (approve_follow id) = approve_follow_request_endpoint env me id
handle env me (reject_follow id) = reject_follow_request_endpoint me id
handle env me (like id) = like_post env me id
handle env me (unlike id) = unlike_post env me id
handle env me (comment id content parent) = create_comment_endpoint env me id content parent
handle env me (change_comment id c content) = edit_comment_endpoint env me id c content
handle env me (remove_comment id c) = delete_comment_endpoint me id c
handle env me (comments id limit cursor offset) =
    list_comments_endpoint env me id limit cursor offset
handle env me (report body) = create_report_endpoint env me body
handle env me (reports status limit offset) = list_reports_endpoint me status limit offset
handle env me (settle_report id dismiss remark) = mod_resolve env me id dismiss remark
handle env me (ban id reason until remark) = ban_user_endpoint env me id reason until remark
handle env me (unban id) = unban_user_endpoint me id
handle env me (warn id reason remark r) = warn_user_endpoint env me id reason remark r
handle env me own_warnings = list_own_warnings me
handle env me (actions limit offset) = list_moderation_actions me limit offset
handle env me (set_role id role reason) = update_user_role env me id role reason
handle env me (remove_post id) = mod_delete_post env me id
handle env me (remove_any_comment id) = mod_delete_comment env me id
handle env me (follow id) = follow_user env me id
handle env me (unfollow id) = unfollow_user me id
handle env me (mute id) = mute_user_endpoint env me id
handle env me (unmute id) = unmute_user_endpoint me id
handle env me following = list_following me
handle env me followers = list_followers me
handle env me (activity limit offset) = list_activity me limit offset
handle env me (toggle feature id active) = toggle_post_feature env feature me id active
handle env me (hide id) = hide_post env me id
handle env me (unhide id) = unhide_post me id
