-- ===== src/Api/Lookups.antt =====
-- ting_ting/api: the look-ups and checks that the endpoints begin with commit nothing.
use biexce_social_network.Prelude.{inr, inl, Option-cases, ℕ, Option, some, none, List, [], ◌∷◌}
use biexce_social_network.Models.{User, Post, Comment}
use biexce_social_network.Keyset.{Text}
use biexce_social_network.Api.Social.{find_user, find_request, find_pending_follow}
use biexce_social_network.Api.Interactions.{
  find_post, require_post_visible, visible_post, notify_comment, find_comment_of, keyset_page,
  offset_page,
}
use biexce_social_network.Api.Moderation.{get_moderator_role, get_admin_role}
use biexce_social_network.Api.Reports.{pinned_post, check_pinned, ReportCreateRequest}
use biexce_social_network.Api.Features.{seen_post}
use biexce_social_network.Api.Web.{Env}
use biexce_social_network.Api.Rules.{
  reading_rules, IsReading, IsUncommitted-attempt, IsUncommitted-bind, IsAtomic, IsUncommitted,
  IsSure, atomic_rules, uncommitted_rules, sure_rules,
}

pub find_user-IsUncommitted : (id : ℕ) → IsUncommitted (find_user id)
unfolding find_user
find_user-IsUncommitted id = search (uncommitted_rules)

pub find_request-IsUncommitted : (id : ℕ) → IsUncommitted (find_request id)
unfolding find_request
find_request-IsUncommitted id = search (uncommitted_rules)

pub find_pending_follow-IsUncommitted : (id : ℕ) → IsUncommitted (find_pending_follow id)
unfolding find_pending_follow
find_pending_follow-IsUncommitted id = search (uncommitted_rules) depth 8

pub visible_post-IsUncommitted : (me : User) (id : ℕ) → IsUncommitted (visible_post me id)
unfolding visible_post find_post require_post_visible
visible_post-IsUncommitted me id = search (uncommitted_rules) depth 10

pub find_comment_of-IsUncommitted : (post_id id : ℕ) → IsUncommitted (find_comment_of post_id id)
unfolding find_comment_of
find_comment_of-IsUncommitted post_id id = search (uncommitted_rules) depth 10

pub notify_comment-IsUncommitted :
    (env : Env) (me : User) (post : Post) (c : Comment) (ids : List ℕ)
    → IsUncommitted (notify_comment env me post c ids)
unfolding notify_comment
notify_comment-IsUncommitted env me post c [] = search (uncommitted_rules)
notify_comment-IsUncommitted env me post c (id ∷ ids) =
    IsUncommitted-bind _ (λ notice. notify_comment env me post c ids) (IsUncommitted-attempt _ _)
      (λ notice. notify_comment-IsUncommitted env me post c ids)

pub get_moderator_role-IsUncommitted : (me : User) → IsUncommitted (get_moderator_role me)
unfolding get_moderator_role
get_moderator_role-IsUncommitted me = search (uncommitted_rules)

pub get_admin_role-IsUncommitted : (me : User) → IsUncommitted (get_admin_role me)
unfolding get_admin_role
get_admin_role-IsUncommitted me = search (uncommitted_rules)

pub pinned_post-IsUncommitted :
    (body : ReportCreateRequest) (o : Option ℕ) → IsUncommitted (pinned_post body o)
unfolding pinned_post
pinned_post-IsUncommitted body none = search (uncommitted_rules)
pinned_post-IsUncommitted body (some id) = search (uncommitted_rules) depth 8

pub find_post-IsUncommitted : (id : ℕ) → IsUncommitted (find_post id)
unfolding find_post
find_post-IsUncommitted id = search (uncommitted_rules) depth 8

pub check_pinned-IsUncommitted :
    (me : User) (body : ReportCreateRequest) (o : Option ℕ) → IsUncommitted (check_pinned me body o)
unfolding check_pinned
check_pinned-IsUncommitted me body none = search (uncommitted_rules)
check_pinned-IsUncommitted me body (some id) = elim (Option-cases body.comment_id) [
  | inl e ↦ rw e (search (uncommitted_rules, find_post-IsUncommitted) depth 10)
  | inr e ↦ rw e.1 (search (uncommitted_rules, find_post-IsUncommitted) depth 10)
]

pub seen_post-IsUncommitted : (me : User) (id : ℕ) → IsUncommitted (seen_post me id)
unfolding seen_post
seen_post-IsUncommitted me id = search (uncommitted_rules) depth 8

pub keyset_page-IsUncommitted :
    (env : Env) (post_id limit : ℕ) (cursor : Option Text)
    → IsUncommitted (keyset_page env post_id limit cursor)
unfolding keyset_page
keyset_page-IsUncommitted env post_id limit cursor = search (uncommitted_rules) depth 8

pub offset_page-IsUncommitted :
    (env : Env) (post_id limit offset : ℕ) → IsUncommitted (offset_page env post_id limit offset)
unfolding offset_page
offset_page-IsUncommitted env post_id limit offset = search (uncommitted_rules) depth 8

pub ruleset lookup_rules = (
  atomic_rules, find_user-IsUncommitted, find_request-IsUncommitted,
  find_pending_follow-IsUncommitted, visible_post-IsUncommitted, find_comment_of-IsUncommitted,
  notify_comment-IsUncommitted, get_moderator_role-IsUncommitted, get_admin_role-IsUncommitted,
  pinned_post-IsUncommitted, find_post-IsUncommitted, check_pinned-IsUncommitted,
  seen_post-IsUncommitted, keyset_page-IsUncommitted, offset_page-IsUncommitted,
)

-- The handler only reads.
pub visible_post-IsReading : (me : User) (id : ℕ) → IsReading (visible_post me id)
unfolding visible_post find_post require_post_visible
visible_post-IsReading me id = search (reading_rules) depth 10
