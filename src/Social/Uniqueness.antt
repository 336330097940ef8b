-- ===== src/Social/Uniqueness.antt =====
-- The UNIQUE constraints and partial unique indexes of ting_ting/models.py over the tables of the
-- social graph, as one invariant.
pub mod Activities
pub mod Follows
pub mod Requests
pub mod Blocks
pub mod Mutes
use biexce_social_network.Prelude.{Unique}
use biexce_social_network.Models.{Db, Rival, Follow, Table, FriendRequest, Block, Mute, Activity}
use biexce_social_network.Social.Queries.{follow_pair, open_pair, block_pair}
use biexce_social_network.Social.Mutes.{mutes_user, mutes_post}
use biexce_social_network.Notifications.Writing.{unread_match}

pub record IsValid (db : Db) : Type 0 where
  -- `uq_follow_pair`
  pub follow_unique : Unique follow_pair db.follows.rows
  -- `ix_active_pair`
  pub request_unique : Unique open_pair db.requests.rows
  -- `uq_block_pair`
  pub block_unique : Unique block_pair db.blocks.rows
  -- `uq_mute_user`
  pub mute_user_unique : Unique mutes_user db.mutes.rows
  -- `uq_mute_post`
  pub mute_post_unique : Unique mutes_post db.mutes.rows
  -- `ux_activities_unread_dedup`
  pub unread_unique : Unique unread_match db.activities.rows

-- Other transactions keep the constraints too: the database enforces them.
abbrev pub KeepsValid : Rival → Type 0
KeepsValid rival = (d : Db) → IsValid d → IsValid (rival d)

module _ {db : Db} (v : IsValid db) where
  pub follows-IsValid :
      (t : Table Follow) → Unique follow_pair t.rows → IsValid (record db { follows = t })
  follows-IsValid t u = record {
    follow_unique = u;
    request_unique = v.request_unique;
    block_unique = v.block_unique;
    mute_user_unique = v.mute_user_unique;
    mute_post_unique = v.mute_post_unique;
    unread_unique = v.unread_unique;
  }

  pub requests-IsValid :
      (t : Table FriendRequest) → Unique open_pair t.rows → IsValid (record db { requests = t })
  requests-IsValid t u = record {
    follow_unique = v.follow_unique;
    request_unique = u;
    block_unique = v.block_unique;
    mute_user_unique = v.mute_user_unique;
    mute_post_unique = v.mute_post_unique;
    unread_unique = v.unread_unique;
  }

  pub blocks-IsValid :
      (t : Table Block) → Unique block_pair t.rows → IsValid (record db { blocks = t })
  blocks-IsValid t u = record {
    follow_unique = v.follow_unique;
    request_unique = v.request_unique;
    block_unique = u;
    mute_user_unique = v.mute_user_unique;
    mute_post_unique = v.mute_post_unique;
    unread_unique = v.unread_unique;
  }

  pub mutes-IsValid :
      (t : Table Mute)
      → Unique mutes_user t.rows
      → Unique mutes_post t.rows
      → IsValid (record db { mutes = t })
  mutes-IsValid t u w = record {
    follow_unique = v.follow_unique;
    request_unique = v.request_unique;
    block_unique = v.block_unique;
    mute_user_unique = u;
    mute_post_unique = w;
    unread_unique = v.unread_unique;
  }

  pub activities-IsValid :
      (t : Table Activity) → Unique unread_match t.rows → IsValid (record db { activities = t })
  activities-IsValid t u = record {
    follow_unique = v.follow_unique;
    request_unique = v.request_unique;
    block_unique = v.block_unique;
    mute_user_unique = v.mute_user_unique;
    mute_post_unique = v.mute_post_unique;
    unread_unique = u;
  }
