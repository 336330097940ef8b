-- ===== src/Api/Gates.antt =====
-- ting_ting/api: the checks that stand before every effect of an endpoint.
use biexce_social_network.Api.Moderation.{
  mod_delete_comment, mod_delete_post, update_user_role, list_moderation_actions,
  warn_user_endpoint, unban_user_endpoint, ban_user_endpoint, get_admin_role, get_moderator_role,
}
use biexce_social_network.Api.Reports.{mod_resolve, list_reports_endpoint}
use biexce_social_network.Api.Toggles.{unhide_post, hide_post, toggle_post_feature}
use biexce_social_network.Api.Interactions.{
  list_comments_endpoint, delete_comment_endpoint, edit_comment_endpoint, create_comment_endpoint,
  unlike_post, like_post, require_post_visible, find_post, visible_post,
}
use biexce_social_network.Api.Features.{seen_by, seen_post}
use biexce_social_network.Prelude.{
  sym, ℕ, Bool, false, Option, some, none, ◌≡◌, refl, ◌==◌, ◌∙◌, ap, find_where, Option-cases, inl,
  inr, arith,
}
use biexce_social_network.Models.{User, Post, Db}
use biexce_social_network.UserState.{is_staff}
use biexce_social_network.Posts.Visibility.{is_visible_to}
use biexce_social_network.Moderation.Enforcement.{is_admin}
use biexce_social_network.Api.Web.{
  Env, Web, Conn, raised, http, Code, not_found, serve, next, pure, refuse, require, query, ◌>>=◌,
}
use biexce_social_network.Api.Routes.{
  remove_any_comment, remove_post, set_role, actions, warn, unban, ban, settle_report, reports,
  unhide, hide, toggle, comments, remove_comment, change_comment, comment, Call, handle, like,
  unlike,
}

-- The post of a call under /posts/{post_id}: likes, comments, and the saved, reposted and hidden
-- posts. The removal by a moderator is under /mod/posts and skips the check.
unfoldable pub post_of : {A : Type 0} → Call A → Option ℕ
post_of (like id) = some id
post_of (unlike id) = some id
post_of (comment id content parent) = some id
post_of (change_comment id c content) = some id
post_of (remove_comment id c) = some id
post_of (comments id limit cursor offset) = some id
post_of (toggle feature id active) = some id
post_of (hide id) = some id
post_of (unhide id) = some id
post_of call = none

-- The post exists and is visible to the user.
abbrev visible_of : User → Db → Option Post → Bool
visible_of me db none = false
visible_of me db (some post) = is_visible_to db post.author_id me.id post.audience

unfoldable pub sees : User → ℕ → Db → Bool
sees me id db = visible_of me db (find_where (λ p. p.id == id) db.posts.rows)

-- The handler refuses at a state, and leaves it.
record IsRefused {A : Type 0} (status : ℕ) (code : Code) (c : Conn) (m : Web A) : Type 0 where
  refused : m c ≡ (raised (http status code), c)

-- What follows a refusal does not run.
IsRefused-bind :
    {A B : Type 0} (status : ℕ) (code : Code) (c : Conn) (m : Web A) (f : A → Web B)
    → IsRefused status code c m
    → IsRefused status code c (m >>= f)
unfolding ◌>>=◌
IsRefused-bind status code c m f h = record { refused = ap (next f) h.refused }

serve-IsRefused :
    {A : Type 0} (status : ℕ) (code : Code) (m : Web A) (db : Db)
    → IsRefused status code (record { committed = db; working = db }) m
    → serve m db ≡ (raised (http status code), db)
unfolding serve
serve-IsRefused status code m db h = ap (λ r. (r.0, r.1.committed)) h.refused

-- What the user sees of a post that exists.
sees-some :
    (me : User) (id : ℕ) (db : Db) (p : Post)
    → find_where (λ q. q.id == id) db.posts.rows ≡ some p
    → sees me id db ≡ is_visible_to db p.author_id me.id p.audience
unfolding sees
sees-some me id db p e = ap (visible_of me db) e

visible_post-IsRefused :
    (me : User) (id : ℕ) (c : Conn)
    → sees me id c.working ≡ false
    → IsRefused 404 not_found c (visible_post me id)
unfolding visible_post find_post require_post_visible query require pure refuse ◌>>=◌
visible_post-IsRefused me id c h = record {
  refused = elim (Option-cases (find_where (λ p. p.id == id) c.working.posts.rows)) [
    | inl e ↦ rw e refl
    | inr e ↦ rw (e.1, sym (sees-some me id c.working e.0 e.1) ∙ h) refl
  ];
}

unseen :
    (me : User) (db : Db) (o : Option Post) → visible_of me db o ≡ false → seen_by me.id o db ≡ none
unseen me db none h = refl
unseen me db (some p) h = rw h refl

seen_post-IsRefused :
    (me : User) (id : ℕ) (c : Conn)
    → sees me id c.working ≡ false
    → IsRefused 404 not_found c (seen_post me id)
unfolding seen_post query sees require refuse ◌>>=◌
seen_post-IsRefused me id c h = record {
  refused =
      ap (λ o. require o 404 not_found c)
        (unseen me c.working (find_where (λ p. p.id == id) c.working.posts.rows) h);
}

same_sees :
    (me : User) (i j : ℕ) (db : Db) → some i ≡ some j → sees me j db ≡ false → sees me i db ≡ false
same_sees me i j db e h = cc

ruleset hidden_rules = (IsRefused-bind, visible_post-IsRefused, seen_post-IsRefused)

handle-hidden :
    {A : Type 0} (env : Env) (me : User) (call : Call A) (id : ℕ) (c : Conn)
    → post_of call ≡ some id
    → sees me id c.working ≡ false
    → IsRefused 404 not_found c (handle env me call)
unfolding handle post_of like_post unlike_post create_comment_endpoint edit_comment_endpoint
    delete_comment_endpoint list_comments_endpoint toggle_post_feature hide_post unhide_post
handle-hidden env me (like i) id c e h =
    search (hidden_rules, same_sees me i id c.working e h) depth 8
handle-hidden env me (unlike i) id c e h =
    search (hidden_rules, same_sees me i id c.working e h) depth 8
handle-hidden env me (comment i content parent) id c e h =
    search (hidden_rules, same_sees me i id c.working e h) depth 8
handle-hidden env me (change_comment i k content) id c e h =
    search (hidden_rules, same_sees me i id c.working e h) depth 8
handle-hidden env me (remove_comment i k) id c e h =
    search (hidden_rules, same_sees me i id c.working e h) depth 8
handle-hidden env me (comments i limit cursor offset) id c e h =
    search (hidden_rules, same_sees me i id c.working e h) depth 8
handle-hidden env me (toggle feature i active) id c e h =
    search (hidden_rules, same_sees me i id c.working e h) depth 8
handle-hidden env me (hide i) id c e h =
    search (hidden_rules, same_sees me i id c.working e h) depth 8
handle-hidden env me (unhide i) id c e h =
    search (hidden_rules, same_sees me i id c.working e h) depth 8
handle-hidden env me call id c e h = cc

-- An endpoint under /posts/{post_id} for likes, comments, or the saved, reposted or hidden state, of a
-- post that does not exist or that the signed-in user may not see, answers 404 and changes nothing.
pub serve-hidden :
    {A : Type 0} (env : Env) (me : User) (call : Call A) (id : ℕ) (db : Db)
    → post_of call ≡ some id
    → sees me id db ≡ false
    → serve (handle env me call) db ≡ (raised (http 404 not_found), db)
unfolding handle post_of
serve-hidden env me call id db e h =
    serve-IsRefused 404 not_found (handle env me call) db (handle-hidden env me call id _ e h)

-- The endpoints of moderators.
unfoldable pub IsStaffCall : {A : Type 0} → Call A → Type 0
IsStaffCall (reports status limit offset) = Unit
IsStaffCall (settle_report id dismiss remark) = Unit
IsStaffCall (ban id reason until remark) = Unit
IsStaffCall (unban id) = Unit
IsStaffCall (warn id reason remark r) = Unit
IsStaffCall (actions limit offset) = Unit
IsStaffCall (set_role id role reason) = Unit
IsStaffCall (remove_post id) = Unit
IsStaffCall (remove_any_comment id) = Unit
IsStaffCall call = ⊥

get_moderator_role-IsRefused :
    (me : User) (c : Conn)
    → is_staff me ≡ false
    → IsRefused 403 Code.forbidden c (get_moderator_role me)
unfolding get_moderator_role refuse
get_moderator_role-IsRefused me c h = record { refused = rw h refl }

not_admin : (u : User) → is_staff u ≡ false → is_admin u.role ≡ false
unfolding is_staff
not_admin u h = ground (arith, h)

get_admin_role-IsRefused :
    (me : User) (c : Conn)
    → is_staff me ≡ false
    → IsRefused 403 Code.forbidden c (get_admin_role me)
unfolding get_admin_role refuse
get_admin_role-IsRefused me c h = record { refused = rw (not_admin me h) refl }

ruleset staff_rules = (IsRefused-bind, get_moderator_role-IsRefused, get_admin_role-IsRefused)

handle-staff :
    {A : Type 0} (env : Env) (me : User) (call : Call A) (c : Conn)
    → IsStaffCall call
    → is_staff me ≡ false
    → IsRefused 403 Code.forbidden c (handle env me call)
unfolding handle IsStaffCall list_reports_endpoint mod_resolve ban_user_endpoint unban_user_endpoint
    warn_user_endpoint list_moderation_actions update_user_role mod_delete_post mod_delete_comment
handle-staff env me (reports status limit offset) c s h = search (staff_rules) depth 8
handle-staff env me (settle_report id dismiss remark) c s h = search (staff_rules) depth 8
handle-staff env me (ban id reason until remark) c s h = search (staff_rules) depth 8
handle-staff env me (unban id) c s h = search (staff_rules) depth 8
handle-staff env me (warn id reason remark r) c s h = search (staff_rules) depth 8
handle-staff env me (actions limit offset) c s h = search (staff_rules) depth 8
handle-staff env me (set_role id role reason) c s h = search (staff_rules) depth 8
handle-staff env me (remove_post id) c s h = search (staff_rules) depth 8
handle-staff env me (remove_any_comment id) c s h = search (staff_rules) depth 8
handle-staff env me call c s h = absurd s

-- An endpoint of moderators answers 403 to a signed-in user who is no moderator or admin, and
-- changes nothing.
pub serve-staff :
    {A : Type 0} (env : Env) (me : User) (call : Call A) (db : Db)
    → IsStaffCall call
    → is_staff me ≡ false
    → serve (handle env me call) db ≡ (raised (http 403 Code.forbidden), db)
serve-staff env me call db s h =
    serve-IsRefused 403 Code.forbidden (handle env me call) db (handle-staff env me call _ s h)
