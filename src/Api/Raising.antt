-- ===== src/Api/Raising.antt =====
-- What the services raise, where an endpoint's handler has to answer it.
use biexce_social_network.Api.Interactions.{on_forbidden}
use biexce_social_network.Api.Features.{muted_or, on_mute, on_follow}
use biexce_social_network.Social.Mutes.{insert_user_mute, mute_user, unmute_user}
use biexce_social_network.Interactions.{
  create_like, delete_comment, edit_comment, remove_like, insert_like,
}
use biexce_social_network.Social.Follows.{request_follow, try_follow, insert_follow}
use biexce_social_network.Notifications.Writing.{UnreadKey, insert_activity, record_activity}
use biexce_social_network.Api.Toggles.{Feature, insert_hidden, insert_feature}
use Prim.Native.String.{String}
use biexce_social_network.Prelude.{zero, suc, ℕ, Bool, true, Option, Error, ok, err, Result}
use biexce_social_network.Models.{SourceKey, Kind, Db, Exec, User, Post, Follow, Comment, Rival}
use biexce_social_network.Api.Web.{Env, is_value_error, unhandled}
use biexce_social_network.Api.Errors.{Raises, answered, error_rules}
use biexce_social_network.Api.Social.{on_send, on_block}
use biexce_social_network.Social.Requests.{create_friend_request, insert_request}
use biexce_social_network.Social.Blocks.{block_user, unblock_user, insert_block}

insert_request-Raises : (a b : User) (db : Db) → Raises (answered on_send) (insert_request a b db)
unfolding insert_request is_value_error
insert_request-Raises a b db = search (error_rules)

pub create_friend_request-Raises :
    (rival : Rival) (a b : User) (db : Db)
    → Raises (answered on_send) (create_friend_request rival a b db)
unfolding create_friend_request is_value_error
create_friend_request-Raises rival a b db = search (error_rules, insert_request-Raises) depth 8

insert_block-Raises : (a b : User) (c db : Db) → Raises (answered on_block) (insert_block a b c db)
unfolding insert_block is_value_error
insert_block-Raises a b c db = search (error_rules)

pub block_user-Raises :
    (rival : Rival) (a b : User) (db : Db) → Raises (answered on_block) (block_user rival a b db)
unfolding block_user is_value_error
block_user-Raises rival a b db = search (error_rules, insert_block-Raises) depth 8

pub unblock_user-Raises :
    (a : User) (id : ℕ) (db : Db) → Raises (answered unhandled) (unblock_user a id db)
unfolding unblock_user is_value_error
unblock_user-Raises a id db = search (error_rules) depth 8

pub edit_comment-Raises :
    (c : Comment) (u : ℕ) (s : String) (db : Db)
    → Raises (answered on_forbidden) (edit_comment c u s db)
unfolding edit_comment is_value_error
edit_comment-Raises c u s db = search (error_rules)

pub delete_comment-Raises :
    (c : Comment) (u : ℕ) (p : Post) (db : Db)
    → Raises (answered on_forbidden) (delete_comment c u p db)
unfolding delete_comment is_value_error
delete_comment-Raises c u p db = search (error_rules)

insert_like-Raises : (u p : ℕ) (db : Db) → Raises (answered unhandled) (insert_like u p db)
unfolding insert_like is_value_error
insert_like-Raises u p db = search (error_rules) depth 8

pub create_like-Raises :
    (rival : Rival) (u : ℕ) (p : Post) (db : Db)
    → Raises (answered unhandled) (create_like rival u p db)
unfolding create_like is_value_error
create_like-Raises rival u p db = search (error_rules, insert_like-Raises) depth 8

pub remove_like-Raises :
    (u : ℕ) (p : Post) (db : Db) → Raises (answered unhandled) (remove_like u p db)
unfolding remove_like is_value_error
remove_like-Raises u p db = search (error_rules) depth 8

insert_activity-Raises :
    (k : UnreadKey) (post_id : Option ℕ) (db : Db)
    → Raises (answered unhandled) (insert_activity k post_id db)
unfolding insert_activity
insert_activity-Raises k post_id db = search (error_rules)

pub record_activity-Raises :
    (rival : Rival) (user_id actor_id : ℕ) (kind : Kind) (post_id : Option ℕ)
    (source_key : Option SourceKey) (db : Db)
    → Raises
        (answered unhandled)
        (record_activity rival user_id actor_id kind post_id source_key db)
unfolding record_activity
record_activity-Raises rival user_id actor_id kind post_id source_key db =
    search (error_rules, insert_activity-Raises) depth 8

-- `muted_or` takes the lost race away.
abbrev not_muted : Error → Bool
not_muted Error.already_muted = true
not_muted e = answered on_mute e

muted_or-Raises :
    {A : Type 0} (r : Result A × Db) → Raises not_muted r → Raises (answered on_mute) (muted_or r)
unfolding is_value_error
muted_or-Raises (ok a, db) h = record { errs = tt }
muted_or-Raises (err Error.already_muted, db) h = record { errs = tt }
muted_or-Raises (err e, db) h = record { errs = h.errs }

pub mute_user-Raises :
    (rival : Rival) (u : User) (id : ℕ) (db : Db)
    → Raises (answered on_mute) (muted_or (mute_user rival u id db))
unfolding mute_user insert_user_mute is_value_error
mute_user-Raises rival u id db =
    muted_or-Raises (mute_user rival u id db) (search (error_rules) depth 8)

pub unmute_user-Raises :
    (u : User) (id : ℕ) (db : Db) → Raises (answered unhandled) (unmute_user u id db)
unfolding unmute_user is_value_error
unmute_user-Raises u id db = search (error_rules) depth 8

pub insert_feature-Raises :
    (env : Env) (feature : Feature) (u : ℕ) (p : Post) (db : Db)
    → Raises (answered unhandled) (insert_feature env feature u p db)
unfolding insert_feature is_value_error
insert_feature-Raises env feature u p db = search (error_rules) depth 8

pub insert_hidden-Raises :
    (env : Env) (u p : ℕ) (db : Db) → Raises (answered unhandled) (insert_hidden env u p db)
unfolding insert_hidden is_value_error
insert_hidden-Raises env u p db = search (error_rules) depth 8

insert_follow-Raises :
    (notify : Rival) (a b : User) (db : Db)
    → Raises (answered on_follow) (insert_follow notify a b db)
unfolding insert_follow
insert_follow-Raises notify a b db = search (error_rules)

try_follow-Raises :
    (rival notify : Rival) (retry : Exec Follow) (a b : User) (db : Db)
    → ((d : Db) → Raises (answered on_follow) (retry d))
    → Raises (answered on_follow) (try_follow rival notify retry a b db)
unfolding try_follow is_value_error
try_follow-Raises rival notify retry a b db h = search (error_rules, h) depth 10

pub request_follow-Raises :
    (depth : ℕ) (rival notify : Rival) (a b : User) (db : Db)
    → Raises (answered on_follow) (request_follow depth rival notify a b db)
unfolding request_follow is_value_error
request_follow-Raises zero rival notify a b db = search (error_rules)
request_follow-Raises (suc depth) rival notify a b db =
    search
      (
        error_rules,
        try_follow-Raises,
        λ (c : User) (d : Db). request_follow-Raises depth rival notify a c d,
      )
      depth 10
