-- ===== src/Notifications.antt =====
-- ting_ting/notifications.py: the single writer and reader of the activities table.
pub mod Columns
pub mod Preferences
pub mod Writing
pub mod Unread
