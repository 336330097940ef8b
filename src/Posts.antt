-- ===== src/Posts.antt =====
-- ting_ting/posts.py: who may read a post, and the feeds.
pub mod Visibility
pub mod Feed
pub mod Agreement
pub mod FeedWalk
