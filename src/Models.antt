-- ===== src/Models.antt =====
-- ting_ting/models.py: the tables that the services read and write. A table is the list of its rows
-- in primary-key order with the next key; a column that may be NULL is an `Option`; a text column
-- with a CHECK on its values is a data type of those values; a datetime is a number of
-- microseconds. Columns that no modelled code reads are left out.
mod Evidence
mod Sessions
pub use Evidence.*
pub use Sessions.*
use Prim.Native.String.{String}
use biexce_social_network.Prelude.{
  some, none, err, ok, refl, if◌then◌else◌, ◌≡◌, ℕ, ◌+◌, ◌<◌, Bool, true, false, Option, List, [],
  ◌∷◌, ◌++◌, ◌==◌, ◌&&◌, Result,
}

pub data Role : Type 0 where
  user moderator admin : Role

pub data FollowStatus : Type 0 where
  pending active : FollowStatus

pub data RequestState : Type 0 where
  pending accepted rejected : RequestState

-- `unknown` stands for every text that the CHECK refuses, which the visibility code still tests.
pub data Audience : Type 0 where
  only_me friends public followers unknown : Audience

pub data Kind : Type 0 where
  follow follow_request like comment repost mention : Kind

-- The texts "edge", "follow:<id>", "post:<id>" and "comment:<id>".
pub data SourceKey : Type 0 where
  edge : SourceKey
  of_follow of_post of_comment : ℕ → SourceKey

pub record User : Type 0 where
  pub id : ℕ
  pub username : String
  pub password_hash : String
  pub role : Role
  pub banned_at : Option ℕ
  pub banned_until : Option ℕ
  pub ban_reason : Option String
  pub banned_by : Option ℕ
  pub is_private : Bool
  pub deactivated_at : Option ℕ

pub record Follow : Type 0 where
  pub id : ℕ
  pub follower_id : ℕ
  pub followed_id : ℕ
  pub status : FollowStatus
  pub created_at : ℕ

pub record Activity : Type 0 where
  pub id : ℕ
  pub user_id : ℕ
  pub actor_id : ℕ
  pub kind : Kind
  pub post_id : Option ℕ
  pub source_key : Option SourceKey
  pub created_at : ℕ
  pub read_at : Option ℕ

pub record NotificationPreference : Type 0 where
  pub user_id : ℕ
  pub follow_enabled : Bool
  pub follow_request_enabled : Bool
  pub like_enabled : Bool
  pub comment_enabled : Bool
  pub repost_enabled : Bool
  pub mention_enabled : Bool
  pub updated_at : ℕ

pub record Repost : Type 0 where
  pub id : ℕ
  pub user_id : ℕ
  pub post_id : ℕ

pub record FriendRequest : Type 0 where
  pub id : ℕ
  pub sender_id : ℕ
  pub recipient_id : ℕ
  pub canonical_left : ℕ
  pub canonical_right : ℕ
  pub state : RequestState
  pub created_at : ℕ

pub record Block : Type 0 where
  pub id : ℕ
  pub blocker_id : ℕ
  pub blocked_id : ℕ
  pub created_at : ℕ

pub record Post : Type 0 where
  pub id : ℕ
  pub author_id : ℕ
  pub content : String
  pub audience : Audience
  pub created_at : ℕ
  pub updated_at : ℕ

pub record Like : Type 0 where
  pub id : ℕ
  pub user_id : ℕ
  pub post_id : ℕ
  pub created_at : ℕ

-- Exactly one of `target_id` and `post_id` is set.
pub record Mute : Type 0 where
  pub id : ℕ
  pub muted_by : ℕ
  pub target_id : Option ℕ
  pub post_id : Option ℕ
  pub created_at : ℕ

pub record Comment : Type 0 where
  pub id : ℕ
  pub post_id : ℕ
  pub author_id : ℕ
  pub parent_comment_id : Option ℕ
  pub content : String
  pub created_at : ℕ

pub record SavedPost : Type 0 where
  pub id : ℕ
  pub user_id : ℕ
  pub post_id : ℕ
  pub created_at : ℕ

-- The rows in the order of their ids, and the id that the next insert takes.
pub record Table (Row : Type 0) : Type 0 where
  pub rows : List Row
  pub next_id : ℕ

-- INSERT, once the constraints are met.
abbrev pub append : {Row : Type 0} → Table Row → Row → Table Row
append t r = record { rows = t.rows ++ r ∷ []; next_id = t.next_id + 1 }

abbrev pub with_rows : {Row : Type 0} → Table Row → List Row → Table Row
with_rows t rs = record t { rows = rs }

-- What a session sees of the database, and the clock.
pub record Db : Type 0 where
  pub now : ℕ
  pub users : List User
  pub follows : Table Follow
  pub activities : Table Activity
  pub preferences : List NotificationPreference
  pub reposts : Table Repost
  pub requests : Table FriendRequest
  pub blocks : Table Block
  pub posts : Table Post
  pub likes : Table Like
  pub mutes : Table Mute
  pub comments : Table Comment
  pub reports : Table Report
  pub actions : Table ModerationAction
  pub warnings : Table UserWarning
  pub saved : Table SavedPost
  pub sessions : List AuthSession
  pub tokens : Table RefreshToken

-- What other transactions commit while a function runs: between its check and its insert.
abbrev pub Rival : Type 0
Rival = Db → Db

-- A service function reads and changes the database, and returns or raises.
abbrev pub Exec : Type 0 → Type 0
Exec A = Db → Result A × Db

-- To go on from the outcome of a `.scalar_one_or_none()`.
abbrev pub on_found : {A B : Type 0} → Result (Option A) → Exec B → (A → Exec B) → Exec B
on_found (err e) absent present db = (err e, db)
on_found (ok none) absent present db = absent db
on_found (ok (some a)) absent present db = present a db

-- A property of the state after a call, whether it returns or raises.
pub record After {A : Type 0} (P : Db → Type 0) (r : Result A × Db) : Type 0 where
  pub state : P r.1

module _ {A : Type 0} {P : Db → Type 0} where
  pub After-pair : (r : Result A) (db : Db) → P db → After P (r, db)
  After-pair r db p = record { state = p }

  pub After-if :
      (b : Bool) (x y : Result A × Db)
      → (b ≡ true → After P x)
      → (b ≡ false → After P y)
      → After P (if b then x else y)
  After-if true x y h k = h refl
  After-if false x y h k = k refl

  pub After-on_found :
      {B : Type 0} (r : Result (Option B)) (absent : Exec A) (present : B → Exec A) (db : Db)
      → P db
      → (r ≡ ok none → After P (absent db))
      → ((b : B) → r ≡ ok (some b) → After P (present b db))
      → After P (on_found r absent present db)
  After-on_found (err e) absent present db p h k = After-pair (err e) db p
  After-on_found (ok none) absent present db p h k = h refl
  After-on_found (ok (some b)) absent present db p h k = k b refl
