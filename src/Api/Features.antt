-- ===== src/Api/Features.antt =====
-- ting_ting/api/extensions.py: follows, mutes, the activity list, and the saved, hidden and reposted
-- posts. The extended profile and the media are left out, as are their tables.
use biexce_social_network.Prelude.{
  ℕ, Bool, true, false, not, Option, none, some, List, [], ◌∷◌, Error, if◌then◌else◌, ◌==◌, ◌&&◌,
  find_where, select, order_by, ok, err, Result,
}
use biexce_social_network.Models.{Db, User, Post, Follow, FollowStatus, Activity, Kind}
use biexce_social_network.Keyset.Pages.{take, newer}
use biexce_social_network.Keyset.Walk.{drop}
use biexce_social_network.Posts.Visibility.{is_visible_to}
use biexce_social_network.Social.Queries.{is_active, is_blocked, follow_pair}
use biexce_social_network.Social.Follows.{request_follow, delete_follow}
use biexce_social_network.Social.Mutes.{mute_user, unmute_user}
use biexce_social_network.Api.Web.{
  Env, Web, Failure, http, unhandled, not_found, conflict, pure, refuse, query, require, attempt,
  execute, commit, ◌>>=◌, ◌>>◌,
}
use biexce_social_network.Api.Responses.{UserRef, get_user, user_ref}
use biexce_social_network.Api.Social.{find_user}

-- `post is None or not is_visible_to(…)`
abbrev pub seen_by : ℕ → Option Post → Db → Option Post
seen_by viewer_id none db = none
seen_by viewer_id (some post) db =
    if is_visible_to db post.author_id viewer_id post.audience then some post else none

unfoldable pub seen_post : User → ℕ → Web Post
seen_post me post_id = do
  post ← query (λ db. seen_by me.id (find_where (λ p. p.id == post_id) db.posts.rows) db)
  require post 404 not_found

pub record ToggleResponse : Type 0 where
  pub active : Bool
  pub state : Option FollowStatus

abbrev toggled : Bool → ToggleResponse
toggled active = record { active = active; state = none }

abbrev pub on_follow : Error → Failure
on_follow Error.self_follow = http 409 conflict
on_follow Error.blocked = http 409 conflict
on_follow e = unhandled e

unfoldable pub edge_response : Follow → ToggleResponse
edge_response f = record { active = is_active f.status; state = some f.status }

unfoldable pub follow_target : Env → User → User → Web ToggleResponse
follow_target env me target = do
  follow ← attempt (request_follow env.depth env.rival env.notify me target) on_follow
  commit
  pure (edge_response follow)

unfoldable pub follow_user : Env → User → ℕ → Web ToggleResponse
follow_user env me target_user_id = do
  target ← find_user target_user_id
  if target.id == me.id then refuse 409 conflict else follow_target env me target

-- `db.delete(existing)`, if there is an edge, and the commit.
unfoldable pub drop_edge : Option Follow → Web (Unit {0})
drop_edge none = pure tt
drop_edge (some f) = do gone ← execute (λ db. (ok tt, delete_follow f.id db)); commit

unfoldable pub unfollow_user : User → ℕ → Web ToggleResponse
unfollow_user me target_user_id = do
  target ← find_user target_user_id
  existing ← query (λ db. find_where (follow_pair (me.id, target_user_id)) db.follows.rows)
  drop_edge existing
  pure (toggled false)

-- The users at the other ends of the edges, without those of a blocked pair.
abbrev unblocked_refs : ℕ → List ℕ → Db → List UserRef
unblocked_refs me [] db = []
unblocked_refs me (id ∷ ids) db =
    let rest = unblocked_refs me ids db in
    elim (get_user id db) [
      | none ↦ rest
      | some u ↦ if is_blocked db me u.id then rest else user_ref u ∷ rest
    ]

abbrev ends : (Follow → ℕ) → List Follow → List ℕ
ends end [] = []
ends end (f ∷ fs) = end f ∷ ends end fs

abbrev newest_follows : (Follow → Bool) → Db → List Follow
newest_follows p db =
    order_by (newer (λ f. f.created_at) (λ f. f.id))
      (select (λ f. p f && is_active f.status) db.follows.rows)

unfoldable pub list_following : User → Web (List UserRef)
list_following me = query (λ db.
    unblocked_refs me.id
      (ends (λ f. f.followed_id) (newest_follows (λ f. f.follower_id == me.id) db)) db)

unfoldable pub list_followers : User → Web (List UserRef)
list_followers me = query (λ db.
    unblocked_refs me.id
      (ends (λ f. f.follower_id) (newest_follows (λ f. f.followed_id == me.id) db)) db)

abbrev pub on_mute : Error → Failure
on_mute Error.self_mute = http 409 conflict
on_mute e = unhandled e

-- `already_muted`, the lost race, returns as if it had succeeded, and commits nothing.
abbrev pub muted_or : {A : Type 0} → Result A × Db → Result (Option A) × Db
muted_or (ok a, db) = (ok (some a), db)
muted_or (err Error.already_muted, db) = (ok none, db)
muted_or (err e, db) = (err e, db)

unfoldable pub commit_some : {A : Type 0} → Option A → Web (Unit {0})
commit_some none = pure tt
commit_some (some a) = commit

unfoldable pub mute_user_endpoint : Env → User → ℕ → Web ToggleResponse
mute_user_endpoint env me target_user_id = do
  target ← find_user target_user_id
  mute ← attempt (λ db. muted_or (mute_user env.rival me target.id db)) on_mute
  commit_some mute
  pure (toggled true)

unfoldable pub unmute_user_endpoint : User → ℕ → Web ToggleResponse
unmute_user_endpoint me target_user_id = do
  target ← find_user target_user_id
  removed ← execute (unmute_user me target_user_id)
  commit
  pure (toggled (not removed))

pub record ActivityResponse : Type 0 where
  pub id : ℕ
  pub actor : UserRef
  pub kind : Kind
  pub post_id : Option ℕ
  pub created_at : ℕ

abbrev activity_response : Activity → User → ActivityResponse
activity_response a u = record {
  id = a.id;
  actor = user_ref u;
  kind = a.kind;
  post_id = a.post_id;
  created_at = a.created_at;
}

abbrev unblocked_activities : ℕ → List Activity → Db → List ActivityResponse
unblocked_activities me [] db = []
unblocked_activities me (a ∷ rest) db =
    let others = unblocked_activities me rest db in
    elim (get_user a.actor_id db) [
      | none ↦ others
      | some u ↦ if is_blocked db me u.id then others else activity_response a u ∷ others
    ]

unfoldable pub list_activity : User → ℕ → ℕ → Web (List ActivityResponse)
list_activity me limit offset = query (λ db. take limit (
    drop offset (
      unblocked_activities me.id
        (order_by (newer (λ a. a.created_at) (λ a. a.id))
          (select (λ a. a.user_id == me.id) db.activities.rows))
        db)))
