-- ===== src/Api/Atomic.antt =====
-- ting_ting/api: what an endpoint that refuses has committed.
use biexce_social_network.Prelude.{ℕ, Bool, true, false, Option, some, none, ◌≡◌}
use biexce_social_network.Models.{User, Post, Follow, Mute, Db}
use biexce_social_network.Api.Social.{
  send_friend_request, cancel_sent_request_endpoint, list_my_requests, accept_request,
  reject_request, list_my_friends, unfriend_user, get_relationship, block_target, unblock_target,
  list_my_blocks, list_follow_requests_endpoint, approve_follow_request_endpoint,
  reject_follow_request_endpoint,
}
use biexce_social_network.Api.Interactions.{
  unlike_post, like_post, create_comment_endpoint, edit_comment_endpoint, delete_comment_endpoint,
  list_comments_endpoint,
}
use biexce_social_network.Api.Moderation.{
  ban_user_endpoint, unban_user_endpoint, warn_user_endpoint, list_own_warnings,
  list_moderation_actions, update_user_role, mod_delete_post, mod_delete_comment,
}
use biexce_social_network.Api.Reports.{create_report_endpoint, list_reports_endpoint, mod_resolve}
use biexce_social_network.Api.Features.{
  follow_target, follow_user, drop_edge, unfollow_user, list_following, list_followers, commit_some,
  mute_user_endpoint, unmute_user_endpoint, list_activity,
}
use biexce_social_network.Api.Toggles.{
  toggle_row, toggle_post_feature, hide_row, hide_post, unhide_row, unhide_post, Feature,
}
use biexce_social_network.Api.Lookups.{lookup_rules}
use biexce_social_network.Api.Web.{Env, serve}
use biexce_social_network.Api.Rules.{IsAtomic, IsRefusal, atomic_rules}
use biexce_social_network.Api.Routes.{send_request, Call, handle}

drop_edge-IsAtomic : (o : Option Follow) → IsAtomic (drop_edge o)
unfolding drop_edge
drop_edge-IsAtomic none = search (atomic_rules)
drop_edge-IsAtomic (some f) = search (atomic_rules) depth 8

commit_some-IsAtomic : {A : Type 0} (o : Option A) → IsAtomic (commit_some o)
unfolding commit_some
commit_some-IsAtomic none = search (atomic_rules)
commit_some-IsAtomic (some a) = search (atomic_rules)

hide_row-IsAtomic :
    (env : Env) (me : User) (post : Post) (o : Option Mute) → IsAtomic (hide_row env me post o)
unfolding hide_row
hide_row-IsAtomic env me post none = search (atomic_rules) depth 8
hide_row-IsAtomic env me post (some m) = search (atomic_rules)

unhide_row-IsAtomic : (o : Option Mute) → IsAtomic (unhide_row o)
unfolding unhide_row
unhide_row-IsAtomic none = search (atomic_rules)
unhide_row-IsAtomic (some m) = search (atomic_rules) depth 8

toggle_row-IsAtomic :
    (env : Env) (feature : Feature) (me : User) (post : Post) (active : Bool) (o : Option ℕ)
    → IsAtomic (toggle_row env feature me post active o)
unfolding toggle_row
toggle_row-IsAtomic env feature me post true none = search (atomic_rules) depth 8
toggle_row-IsAtomic env feature me post true (some id) = search (atomic_rules)
toggle_row-IsAtomic env feature me post false none = search (atomic_rules)
toggle_row-IsAtomic env feature me post false (some id) = search (atomic_rules) depth 8

ruleset endpoint_rules = (
  lookup_rules, drop_edge-IsAtomic, commit_some-IsAtomic, hide_row-IsAtomic, unhide_row-IsAtomic,
  toggle_row-IsAtomic,
)

handle-IsAtomic :
    {A : Type 0} (env : Env) (me : User) (call : Call A) → IsAtomic (handle env me call)
unfolding handle send_friend_request cancel_sent_request_endpoint list_my_requests accept_request
    reject_request list_my_friends unfriend_user get_relationship block_target unblock_target
    list_my_blocks list_follow_requests_endpoint approve_follow_request_endpoint
    reject_follow_request_endpoint create_comment_endpoint edit_comment_endpoint
    delete_comment_endpoint list_comments_endpoint create_report_endpoint list_reports_endpoint
    mod_resolve ban_user_endpoint unban_user_endpoint warn_user_endpoint list_own_warnings
    list_moderation_actions update_user_role mod_delete_post mod_delete_comment follow_user
    follow_target unfollow_user mute_user_endpoint unmute_user_endpoint list_following
    list_followers list_activity toggle_post_feature hide_post unhide_post like_post unlike_post
handle-IsAtomic env me (send_request id) = search (endpoint_rules) depth 16
handle-IsAtomic env me call = search (endpoint_rules) depth 16

-- An endpoint of the social graph, of likes and comments, of moderation, or of follows, mutes and
-- saved, reposted and hidden posts, that answers with an error status of its own leaves the database
-- as it was. What can fail after a commit (the reload of a row, the reply to a like, the deletion of
-- the files of a removed post) is answered with 500 alone.
pub serve-refused :
    {A : Type 0} (env : Env) (me : User) (call : Call A) (db : Db)
    → IsRefusal (serve (handle env me call) db).0
    → (serve (handle env me call) db).1 ≡ db
unfolding serve
serve-refused env me call db =
    (handle-IsAtomic env me call).atomic (record { committed = db; working = db })
