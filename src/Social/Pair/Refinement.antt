-- ===== src/Social/Pair/Refinement.antt =====
-- The services of ting_ting/social.py implement the abstract pair.
use biexce_social_network.Models.{Db, User}
use biexce_social_network.Social.Pair.{
  Move, request, accept, reject, cancel, part, block, unblock, allowed, perform, pair_of, IsSound,
  Agrees,
}
use biexce_social_network.Social.Pair.Requests.{request-Agrees}
use biexce_social_network.Social.Pair.Answers.{accept-Agrees, reject-Agrees, cancel-Agrees}
use biexce_social_network.Social.Pair.Ends.{part-Agrees}
use biexce_social_network.Social.Pair.Blocking.{block-Agrees, unblock-Agrees}

-- Every move of a user towards another agrees with the abstract pair: a move that the pair refuses
-- raises and leaves the pair, any other returns and takes the pair to the abstract next state, when
-- the database meets its constraints, both users exist and nothing else commits meanwhile.
pub perform-Agrees :
    (move : Move) (me other : User) (db : Db)
    → IsSound me other db
    → Agrees me other db (allowed move (pair_of me other db)) (perform move me other db)
perform-Agrees request = request-Agrees
perform-Agrees accept = accept-Agrees
perform-Agrees reject = reject-Agrees
perform-Agrees cancel = cancel-Agrees
perform-Agrees part = part-Agrees
perform-Agrees block = block-Agrees
perform-Agrees unblock = unblock-Agrees
