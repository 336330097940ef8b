-- ===== src/Api/Answers.antt =====
-- ting_ting/api: what a service refuses with a `ValueError`, its endpoint answers with a status.
use biexce_social_network.Api.Raising.{
  record_activity-Raises, insert_feature-Raises, insert_hidden-Raises,
}
use biexce_social_network.Api.RaisingReads.{header_of-Raises}
use biexce_social_network.Security.{Text}
use biexce_social_network.Api.Web.{http, attempt, Code, Env}
use biexce_social_network.Models.{Comment, Mute, Follow, Post, User, Exec}
use biexce_social_network.Api.Errors.{
  IsCaught-attempt, Raises-ok, IsCaught-bind, IsCaught, is_http, IsCaught-handled, caught_rules,
}
use biexce_social_network.Prelude.{
  false, refl, true, none, Bool, some, ◌≡◌, List, Option, ℕ, Error, [], ◌∷◌,
}
use biexce_social_network.Api.Features.{drop_edge, commit_some, seen_post}
use biexce_social_network.Api.Social.{on_cancel, on_decide, on_unfriend, find_user, find_request}
use biexce_social_network.Api.Moderation.{on_unban, on_ban, get_moderator_role}
use biexce_social_network.Api.Reports.{
  check_author, on_resolve, ReportCreateRequest, check_pinned, pinned_post,
}
use biexce_social_network.Api.Toggles.{Feature, unhide_row, hide_row, toggle_row}
use biexce_social_network.Api.Interactions.{
  require_post_visible, visible_post, notify_comment, find_comment_of, keyset_page, find_post,
  offset_page,
}

pub is_http-on_cancel : (e : Error) → is_http (on_cancel e) ≡ true
is_http-on_cancel Error.not_sender = refl
is_http-on_cancel e = refl

pub is_http-on_decide : (e : Error) → is_http (on_decide e) ≡ true
is_http-on_decide Error.not_recipient = refl
is_http-on_decide e = refl

pub is_http-on_unfriend : (e : Error) → is_http (on_unfriend e) ≡ true
is_http-on_unfriend Error.not_participant = refl
is_http-on_unfriend e = refl

pub is_http-on_resolve : (e : Error) → is_http (on_resolve e) ≡ true
is_http-on_resolve Error.insufficient_role = refl
is_http-on_resolve e = refl

pub is_http-on_ban : (e : Error) → is_http (on_ban e) ≡ true
is_http-on_ban Error.staff_required = refl
is_http-on_ban Error.insufficient_role = refl
is_http-on_ban Error.invalid_reason = refl
is_http-on_ban Error.invalid_expiry = refl
is_http-on_ban e = refl

pub is_http-on_unban : (e : Error) → is_http (on_unban e) ≡ true
is_http-on_unban Error.staff_required = refl
is_http-on_unban Error.insufficient_role = refl
is_http-on_unban e = refl

pub IsCaught-http :
    {A : Type 0} (call : Exec A) (status : ℕ) (code : Code)
    → IsCaught (attempt call (λ e. http status code))
IsCaught-http call status code = IsCaught-handled call (λ e. http status code) (λ e. refl)

pub visible_post-IsCaught : (me : User) (id : ℕ) → IsCaught (visible_post me id)
unfolding visible_post find_post require_post_visible
visible_post-IsCaught me id = search (caught_rules) depth 10

pub find_user-IsCaught : (id : ℕ) → IsCaught (find_user id)
unfolding find_user
find_user-IsCaught id = search (caught_rules) depth 8

pub find_request-IsCaught : (id : ℕ) → IsCaught (find_request id)
unfolding find_request
find_request-IsCaught id = search (caught_rules) depth 8

pub find_comment_of-IsCaught : (post_id id : ℕ) → IsCaught (find_comment_of post_id id)
unfolding find_comment_of
find_comment_of-IsCaught post_id id = search (caught_rules) depth 8

pub get_moderator_role-IsCaught : (me : User) → IsCaught (get_moderator_role me)
unfolding get_moderator_role
get_moderator_role-IsCaught me = search (caught_rules) depth 8

pub seen_post-IsCaught : (me : User) (id : ℕ) → IsCaught (seen_post me id)
unfolding seen_post
seen_post-IsCaught me id = search (caught_rules) depth 8

pub find_post-IsCaught : (id : ℕ) → IsCaught (find_post id)
unfolding find_post
find_post-IsCaught id = search (caught_rules) depth 8

pub pinned_post-IsCaught :
    (body : ReportCreateRequest) (o : Option ℕ) → IsCaught (pinned_post body o)
unfolding pinned_post
pinned_post-IsCaught body none = search (caught_rules)
pinned_post-IsCaught body (some id) = search (caught_rules) depth 8

check_author-IsCaught :
    (body : ReportCreateRequest) (post : Post) (o : Option ℕ) → IsCaught (check_author body post o)
check_author-IsCaught body post none = search (caught_rules)
check_author-IsCaught body post (some id) = search (caught_rules)

pub check_pinned-IsCaught :
    (me : User) (body : ReportCreateRequest) (o : Option ℕ) → IsCaught (check_pinned me body o)
unfolding check_pinned
check_pinned-IsCaught me body none = search (caught_rules)
check_pinned-IsCaught me body (some id) =
    search (caught_rules, find_post-IsCaught, check_author-IsCaught) depth 10

pub notify_comment-IsCaught :
    (env : Env) (me : User) (post : Post) (c : Comment) (ids : List ℕ)
    → IsCaught (notify_comment env me post c ids)
unfolding notify_comment
notify_comment-IsCaught env me post c [] = search (caught_rules)
notify_comment-IsCaught env me post c (id ∷ ids) =
    IsCaught-bind _ (λ notice. notify_comment env me post c ids)
      (IsCaught-attempt _ _ (record_activity-Raises env.notify id me.id _ _ _))
      (λ notice. notify_comment-IsCaught env me post c ids)

pub keyset_page-IsCaught :
    (env : Env) (post_id limit : ℕ) (cursor : Option Text)
    → IsCaught (keyset_page env post_id limit cursor)
unfolding keyset_page
keyset_page-IsCaught env post_id limit cursor = search (caught_rules) depth 8

pub offset_page-IsCaught :
    (env : Env) (post_id limit offset : ℕ) → IsCaught (offset_page env post_id limit offset)
unfolding offset_page
offset_page-IsCaught env post_id limit offset = search (caught_rules, header_of-Raises) depth 10

pub drop_edge-IsCaught : (o : Option Follow) → IsCaught (drop_edge o)
unfolding drop_edge
drop_edge-IsCaught none = search (caught_rules)
drop_edge-IsCaught (some f) = search (caught_rules, Raises-ok) depth 8

pub commit_some-IsCaught : {A : Type 0} (o : Option A) → IsCaught (commit_some o)
unfolding commit_some
commit_some-IsCaught none = search (caught_rules)
commit_some-IsCaught (some a) = search (caught_rules)

pub hide_row-IsCaught :
    (env : Env) (me : User) (post : Post) (o : Option Mute) → IsCaught (hide_row env me post o)
unfolding hide_row
hide_row-IsCaught env me post none = search (caught_rules, insert_hidden-Raises) depth 8
hide_row-IsCaught env me post (some m) = search (caught_rules)

pub unhide_row-IsCaught : (o : Option Mute) → IsCaught (unhide_row o)
unfolding unhide_row
unhide_row-IsCaught none = search (caught_rules)
unhide_row-IsCaught (some m) = search (caught_rules, Raises-ok) depth 8

pub toggle_row-IsCaught :
    (env : Env) (feature : Feature) (me : User) (post : Post) (active : Bool) (o : Option ℕ)
    → IsCaught (toggle_row env feature me post active o)
unfolding toggle_row
toggle_row-IsCaught env feature me post true none =
    search (caught_rules, insert_feature-Raises) depth 8
toggle_row-IsCaught env feature me post true (some id) = search (caught_rules)
toggle_row-IsCaught env feature me post false none = search (caught_rules)
toggle_row-IsCaught env feature me post false (some id) = search (caught_rules, Raises-ok) depth 8

pub ruleset answer_rules = (
  caught_rules, IsCaught-http, IsCaught-handled, is_http-on_cancel, is_http-on_decide,
  is_http-on_unfriend, is_http-on_resolve, is_http-on_ban, is_http-on_unban, visible_post-IsCaught,
  find_user-IsCaught, find_request-IsCaught, find_comment_of-IsCaught, get_moderator_role-IsCaught,
  seen_post-IsCaught, pinned_post-IsCaught, check_pinned-IsCaught, notify_comment-IsCaught,
  keyset_page-IsCaught, offset_page-IsCaught, drop_edge-IsCaught, commit_some-IsCaught,
  hide_row-IsCaught, unhide_row-IsCaught, toggle_row-IsCaught,
)
