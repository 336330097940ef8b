-- ===== src/Social.antt =====
-- ting_ting/social.py: the social graph.
pub mod Queries
pub mod Follows
pub mod Requests
pub mod Blocks
pub mod Mutes
pub mod Uniqueness
pub mod Severance
pub mod Machine
pub mod Transitions
pub mod FollowRetry
pub mod Pair
