-- ===== src/Tests/Pairs.antt =====
-- Moves between two users.
use biexce_social_network.Tests.Graph.{fresh_db-IsValid}
use biexce_social_network.Social.Requests.{
  new_request, request_conflict, insert_request, create_friend_request,
}
use biexce_social_network.Social.Queries.{blocked_in, canonical_pair, user_exists}
use biexce_social_network.Prelude.{select, scalar_one_or_none, false, ◌≡◌, refl, arith, count_where}
use biexce_social_network.Models.{Db}
use biexce_social_network.Tests.Data.{fresh_db, alice, bob}
use biexce_social_network.Social.Pair.{
  request, incoming, allowed, perform, pair_of, IsSound, Agrees,
}
use biexce_social_network.Social.Pair.Refinement.{perform-Agrees}

fresh_db-IsSound : IsSound alice bob fresh_db
unfolding count_where user_exists
fresh_db-IsSound = record {
  valid = fresh_db-IsValid;
  request_ids = λ n. omega arith;
  block_ids = λ n. omega arith;
  normal = refl;
  distinct = refl;
  me_exists = refl;
  other_exists = refl;
}

perform-Agrees_example :
    Agrees alice bob fresh_db
      (allowed request (pair_of alice bob fresh_db))
      (perform request alice bob fresh_db)
perform-Agrees_example = perform-Agrees request alice bob fresh_db fresh_db-IsSound

asked : Db
asked = (perform request alice bob fresh_db).1

-- Alice asks, and Bob sees her request.
asked-incoming :
    pair_of bob alice asked ≡ record { i_block = false; they_block = false; link = incoming }
unfolding asked pair_of perform create_friend_request scalar_one_or_none select count_where
    insert_request request_conflict user_exists canonical_pair blocked_in new_request
asked-incoming = refl
