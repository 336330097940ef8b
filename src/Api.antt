-- ===== src/Api.antt =====
-- ting_ting/api: the HTTP endpoints over the services.
pub mod Web
pub mod Responses
pub mod Social
pub mod Interactions
pub mod Moderation
pub mod Reports
pub mod Features
pub mod Toggles
pub mod Routes
pub mod Rules
pub mod Lookups
pub mod Atomic
pub mod Gates
pub mod Unmute
pub mod Errors
pub mod Raising
pub mod RaisingStaff
pub mod RaisingReads
pub mod Answers
pub mod Escapes
