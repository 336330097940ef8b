-- ===== src/Social/Severance.antt =====
-- A block severs the pair: while it stands, no follow edge and no open friend request joins the two,
-- when transactions run one after another.
pub mod Follows
pub mod Requests
pub mod Blocks
use biexce_social_network.Prelude.{ℕ, ◌≡◌, true, false, exists}
use biexce_social_network.Models.{Db}
use biexce_social_network.Social.Queries.{is_blocked, follow_pair, open_pair, canonical_pair}

pub record IsSevered (db : Db) : Type 0 where
  pub no_follow :
      (a b : ℕ) → is_blocked db a b ≡ true → exists (follow_pair (a, b)) db.follows.rows ≡ false
  pub no_request :
      (a b : ℕ)
      → is_blocked db a b ≡ true
      → exists (open_pair (canonical_pair a b)) db.requests.rows ≡ false
