-- ===== src/Api/Unmute.antt =====
-- ting_ting/api/extensions.py, unmute_user_endpoint: what it answers to a repeated call.
use biexce_social_network.Prelude.{ℕ, true, some, none, ◌≡◌, refl, ok}
use biexce_social_network.Models.{User, Db}
use biexce_social_network.Social.Mutes.{unmute_user, find_mute, mutes_user}
use biexce_social_network.Api.Web.{returned, serve, query, require, attempt, commit, pure, ◌>>=◌}
use biexce_social_network.Api.Responses.{get_user}
use biexce_social_network.Api.Social.{find_user}
use biexce_social_network.Api.Features.{unmute_user_endpoint}

-- Unmuting a user who is not muted changes nothing, and yet the reply says that the mute is active,
-- when the user exists.
pub unmute_user_endpoint-stale :
    (me target : User) (id : ℕ) (db : Db)
    → get_user id db ≡ some target
    → find_mute (mutes_user (me.id, id)) db ≡ ok none
    → serve (unmute_user_endpoint me id) db
      ≡ (returned (record { active = true; state = none }), db)
unfolding serve unmute_user_endpoint find_user unmute_user query require attempt commit pure ◌>>=◌
unmute_user_endpoint-stale me target id db known free = rw (known, free) refl
