-- ===== src/Api/Responses.antt =====
-- ting_ting/schemas.py, the response bodies, and the helpers of ting_ting/api that build them. The
-- display name, the mentions and the hashtags are left out, as are their tables.
use Prim.Native.String.{String}
use biexce_social_network.Prelude.{
  ℕ, Bool, false, Option, none, some, List, [], ◌∷◌, Result, ok, find_where, if◌then◌else◌, ◌==◌,
}
use biexce_social_network.Prelude.{◌>>=◌}
use biexce_social_network.Models.{
  Db, User, Follow, FollowStatus, FriendRequest, RequestState, Post, Comment, Audience,
}
use biexce_social_network.Interactions.{count_likes, count_comments, is_user_liked}

pub record UserRef : Type 0 where
  pub id : ℕ
  pub username : String

abbrev pub get_user : ℕ → Db → Option User
get_user id db = find_where (λ u. u.id == id) db.users

abbrev pub user_ref : User → UserRef
user_ref u = record { id = u.id; username = u.username }

-- `_user_ref(u) if u else UserRef(id=id, username="unknown")`
abbrev pub ref_of : ℕ → Db → UserRef
ref_of id db = elim (get_user id db) [
  | some u ↦ user_ref u
  | none ↦ record { id = id; username = "unknown" }
]

pub record FriendRequestResponse : Type 0 where
  pub id : ℕ
  pub sender : UserRef
  pub recipient : UserRef
  pub state : RequestState
  pub created_at : ℕ

unfoldable pub friend_request_response : FriendRequest → Db → FriendRequestResponse
friend_request_response req db = record {
  id = req.id;
  sender = ref_of req.sender_id db;
  recipient = ref_of req.recipient_id db;
  state = req.state;
  created_at = req.created_at;
}

pub record FollowRequestResponse : Type 0 where
  pub id : ℕ
  pub requester : UserRef
  pub owner : UserRef
  pub status : FollowStatus
  pub created_at : ℕ

unfoldable pub follow_request_response : Follow → Db → FollowRequestResponse
follow_request_response f db = record {
  id = f.id;
  requester = ref_of f.follower_id db;
  owner = ref_of f.followed_id db;
  status = f.status;
  created_at = f.created_at;
}

pub record CommentResponse : Type 0 where
  pub id : ℕ
  pub author : UserRef
  pub content : String
  pub created_at : ℕ
  pub parent_id : Option ℕ

unfoldable pub comment_response : Comment → Db → CommentResponse
comment_response c db = record {
  id = c.id;
  author = ref_of c.author_id db;
  content = c.content;
  created_at = c.created_at;
  parent_id = c.parent_comment_id;
}

pub record PostResponse : Type 0 where
  pub id : ℕ
  pub author : UserRef
  pub content : String
  pub audience : Audience
  pub created_at : ℕ
  pub updated_at : ℕ
  pub like_count : ℕ
  pub comment_count : ℕ
  pub liked_by_viewer : Bool

unfoldable pub post_response : Post → ℕ → Db → Result PostResponse
post_response post viewer_id db =
    (if viewer_id == 0 then ok false else is_user_liked db viewer_id post.id) >>= λ liked.
    ok (record {
      id = post.id;
      author = ref_of post.author_id db;
      content = post.content;
      audience = post.audience;
      created_at = post.created_at;
      updated_at = post.updated_at;
      like_count = count_likes db post.id;
      comment_count = count_comments db post.id;
      liked_by_viewer = liked;
    })

-- The loops that build one response for each row.
abbrev pub each : {A B : Type 0} → (A → Db → B) → List A → Db → List B
each f [] db = []
each f (a ∷ xs) db = f a db ∷ each f xs db
