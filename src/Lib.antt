-- ===== src/Lib.antt =====
-- ting_ting is a small social network: a FastAPI application over SQLAlchemy. The HTTP API and the
-- web pages call service functions, which read and change the database in the request's
-- transaction and raise a ValueError, with a code, to refuse. This library models the services, the
-- endpoints over them, and the request controls before them.
--
-- Models, Models/Evidence, Models/Sessions: ting_ting/models.py. A table is the list of its rows in
--   primary-key order with the next key, `Db` is what a session sees of the database with the clock.
-- Prelude: the SQL that the services use, over lists of rows (Rows, Order), a query that expects at
--   most one row and the errors (Exec), UNIQUE constraints (Keys), and lemmas on loaded rows.
-- Social: ting_ting/social.py. Follows, Requests, Blocks and Mutes hold one function for each
--   operation, Queries the queries that they share. Machine makes the operations the steps of one
--   machine; Uniqueness and Severance are its two invariants; Transitions and FollowRetry are about
--   single operations. Pair is an abstract state of two users with its moves, Pair/Refinement that the
--   operations implement it.
-- Notifications: ting_ting/notifications.py, preferences and the writing of rows.
-- UserState: ting_ting/user_state.py. Keyset: ting_ting/keyset.py, with the page of a listing that the
--   feeds share (Pages) and a client that follows the cursors (Walk, Listing).
-- Posts: ting_ting/posts.py, the check of a single read (Visibility), the conditions of the two feeds
--   (Feed), that they agree (Agreement), and a client of the home feed (FeedWalk).
-- Sessions: ting_ting/sessions.py, and Sessions/Refresh for ting_ting/refresh.py.
-- Moderation: ting_ting/moderation.py, the guards and the ledger, with Reports, Review, Bans,
--   Enforcement and Removal for its operations.
-- Interactions: ting_ting/interactions.py, likes and comments.
-- Security: ting_ting/security.py, with the limiter (Limiter, Deques, Calls) and what it lets through
--   (Window, Reference); Controls is the middleware of ting_ting/main.py, Alias what it guarantees.
-- Api: ting_ting/api. Web is a handler, a function on the committed database and the session's copy;
--   Responses the bodies; Social, Interactions and Moderation, with Reports, hold the endpoints of
--   the files of these names, Features and Toggles those of extensions.py. Routes makes the endpoints
--   one type of calls.
--   Rules has one rule for each way to build a handler, Lookups and Atomic apply them,
--   Gates is about the checks that come first. Errors has one rule for each way to build a service,
--   Raising, RaisingStaff, RaisingReads and Answers apply them, Escapes is about what gets through.
-- Tests: runs at concrete inputs.
--
-- A service function is a function from `Db` to its result and the next `Db`; it keeps the order of
-- the source's guards, and errors are values. Between a check and the insert that it guards other
-- transactions may commit: a `Rival`, any function on `Db`, is a parameter of every such operation,
-- and the constraints of the tables are tested on the state that it leaves. `serial` is the rival
-- that does nothing. An IntegrityError takes the path of the source's handler. A handler's commit
-- copies the session's database to the committed one, and closing the session drops the rest; what
-- rivals commit during a request that does not commit is not shown in its final database. A refresh
-- of a row after the commit sees what others have committed meanwhile, and raises if the row is gone.
-- Authentication gives the signed-in user.
--
-- Numbers are natural: ids, and datetimes in microseconds (naive UTC, but for the end of a ban,
-- which has a timezone until it is stored). request_follow calls itself
-- with no bound, so its model takes Python's recursion limit; read_feed takes the number of requests
-- that the client makes, and more requests than the feed has rows are enough.
--
-- Parameters: base64, ISO datetimes and decimal numbers (`Codec`, with the laws `IsLawful`), SHA-256
-- and the random tokens, str.strip, hmac.compare_digest (`Compare`), what a column keeps of a datetime
-- with a timezone, and the deletion of the files of a post. Not modelled: the other
-- endpoints and the pages, the services of accounts and of writing posts; and, as I/O or library
-- code, bcrypt and JWT, media files, migrations, full-text search, metrics and logs.
pub mod Prelude
pub mod Models
pub mod Notifications
pub mod Social
pub mod Keyset
pub mod UserState
pub mod Posts
pub mod Sessions
pub mod Moderation
pub mod Interactions
pub mod Security
pub mod Api
pub mod Tests
