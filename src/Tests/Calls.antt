-- ===== src/Tests/Calls.antt =====
-- Runs of the HTTP endpoints.
use biexce_social_network.Api.Escapes.{serve-answers, NotRemoval}
use biexce_social_network.Social.Follows.{request_follow}
use biexce_social_network.Api.Features.{follow_target, follow_user, unmute_user_endpoint}
use biexce_social_network.UserState.{is_staff, is_actively_banned}
use biexce_social_network.Api.Social.{block_target, send_friend_request, find_user}
use biexce_social_network.Posts.Visibility.{is_visible_to, audience_allows}
use biexce_social_network.Social.Queries.{blocked_in}
use biexce_social_network.Social.Blocks.{block_user}
use biexce_social_network.Prelude.{
  ok, false, recursion_error, scalar_one_or_none, select, find_where, count_where, true, none, some,
  [], ◌∷◌, ◌≡◌, refl,
}
use biexce_social_network.Models.{follow, Db, Post, Audience, append}
use biexce_social_network.Tests.Data.{fresh_db, alice, bob}
use biexce_social_network.Keyset.{Codec}
use biexce_social_network.Api.Web.{
  pure, is_value_error, Env, serve, returned, raised, http, Code, not_found, ◌>>=◌, query, require,
  attempt, commit,
}
use biexce_social_network.Api.Routes.{follow, handle, like, ban, block, send_request}
use biexce_social_network.Api.Atomic.{serve-refused}
use biexce_social_network.Api.Gates.{IsStaffCall, post_of, sees, serve-hidden, serve-staff}
use biexce_social_network.Api.Unmute.{unmute_user_endpoint-stale}

abbrev plain_codec : Codec
plain_codec = record {
  urlsafe_b64encode = λ t. t;
  urlsafe_b64decode = λ t. some t;
  isoformat = λ n. n ∷ [];
  fromisoformat = λ t. some 0;
  str = λ n. n ∷ [];
  int = λ t. some 0;
}

abbrev quiet : Env
quiet = record {
  rival = λ db. db;
  notify = λ db. db;
  strip = λ s. s;
  codec = plain_codec;
  depth = 3;
  meanwhile = λ db. db;
  delete_stored_files = λ id. ok tt;
}

-- Bob's post for himself alone.
abbrev diary : Post
diary = record {
  id = 1;
  author_id = 2;
  content = "dear diary";
  audience = Audience.only_me;
  created_at = 90;
  updated_at = 90;
}

abbrev diary_db : Db
diary_db = record fresh_db { posts = append fresh_db.posts diary }

serve-refused_example : (serve (handle quiet alice (send_request 9)) diary_db).1 ≡ diary_db
unfolding serve handle send_friend_request ◌>>=◌ find_user query require find_where
serve-refused_example = serve-refused quiet alice (send_request 9) diary_db tt

-- At Python's recursion limit.
abbrev shallow : Env
shallow = record quiet { depth = 0 }

serve-answers_example : is_value_error recursion_error ≡ false
unfolding serve handle follow_user follow_target ◌>>=◌ find_user query require find_where attempt
    request_follow is_value_error NotRemoval pure
serve-answers_example = serve-answers shallow alice (follow 2) fresh_db tt recursion_error refl

serve-hidden_example :
    serve (handle quiet alice (like 1)) diary_db ≡ (raised (http 404 not_found), diary_db)
unfolding sees post_of find_where is_visible_to is_actively_banned blocked_in count_where
    audience_allows
serve-hidden_example = serve-hidden quiet alice (like 1) 1 diary_db refl refl

serve-staff_example :
    serve (handle quiet alice (ban 2 "spam" none none)) fresh_db
    ≡ (raised (http 403 Code.forbidden), fresh_db)
unfolding is_staff IsStaffCall
serve-staff_example = serve-staff quiet alice (ban 2 "spam" none none) fresh_db tt refl

unmute_user_endpoint-stale_example :
    serve (unmute_user_endpoint alice 2) fresh_db
    ≡ (returned (record { active = true; state = none }), fresh_db)
unfolding find_where select scalar_one_or_none
unmute_user_endpoint-stale_example = unmute_user_endpoint-stale alice bob 2 fresh_db refl refl

-- A block through the API, and what the blocker then sees.
blocked_after : (serve (handle quiet alice (block 2)) fresh_db).0 ≡ returned 1
unfolding serve handle block_target ◌>>=◌ find_user query require find_where attempt block_user
    scalar_one_or_none select count_where commit
blocked_after = refl
