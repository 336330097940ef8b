-- ===== src/Api/Interactions.antt =====
-- ting_ting/api/interactions.py: likes and comments on a post.
use Prim.Native.String.{String}
use biexce_social_network.Prelude.{
  ℕ, Bool, true, false, Option, none, some, List, [], ◌∷◌, Error, if◌then◌else◌, ◌==◌, ◌||◌, ◌+◌,
  ltb, find_where, ok, err, index_error, Result,
}
use biexce_social_network.Models.{Db, User, Post, Comment, Kind, of_post, of_comment}
use biexce_social_network.Keyset.{Text, Codec, encode_cursor, decode_cursor}
use biexce_social_network.Keyset.Pages.{take, last, length}
use biexce_social_network.Keyset.Walk.{drop}
use biexce_social_network.Posts.Visibility.{is_visible_to}
use biexce_social_network.Notifications.Writing.{record_activity}
use biexce_social_network.Interactions.{
  create_like, remove_like, create_comment, edit_comment, delete_comment, find_comment,
  list_comments,
}
use biexce_social_network.Api.Web.{
  refresh, Env, Web, Failure, Code, http, unhandled, not_found, validation, pure, refuse, query,
  require, attempt, execute, reading, commit, ◌>>=◌, ◌>>◌,
}
use biexce_social_network.Api.Responses.{
  PostResponse, CommentResponse, post_response, comment_response, each,
}

unfoldable pub find_post : ℕ → Web Post
find_post post_id = do
  post ← query (λ db. find_where (λ p. p.id == post_id) db.posts.rows)
  require post 404 not_found

unfoldable pub require_post_visible : Post → ℕ → Web (Unit {0})
require_post_visible post viewer_id = do
  visible ← query (λ db. is_visible_to db post.author_id viewer_id post.audience)
  if visible then pure tt else refuse 404 not_found

-- The two checks that every endpoint begins with.
unfoldable pub visible_post : User → ℕ → Web Post
visible_post me post_id = do post ← find_post post_id; require_post_visible post me.id; pure post

unfoldable pub like_post : Env → User → ℕ → Web PostResponse
like_post env me post_id = do
  post ← visible_post me post_id
  like ← execute (create_like env.rival me.id post)
  notice ← execute (
      record_activity env.notify post.author_id me.id Kind.like (some post.id)
        (some (of_post post.id)))
  commit
  row ← refresh env (λ db. find_where (λ q. q.id == post.id) db.posts.rows)
  execute (reading (post_response row me.id))

unfoldable pub unlike_post : Env → User → ℕ → Web PostResponse
unlike_post env me post_id = do
  post ← visible_post me post_id
  like ← execute (remove_like me.id post)
  commit
  row ← refresh env (λ db. find_where (λ q. q.id == post.id) db.posts.rows)
  execute (reading (post_response row me.id))

abbrev pub on_comment : Error → Failure
on_comment e = http 422 validation

-- The author of the post, and the parent's author if that is another user.
abbrev with_parent : ℕ → Option Comment → List ℕ
with_parent author_id none = author_id ∷ []
with_parent author_id (some parent) =
    if parent.author_id == author_id then author_id ∷ [] else author_id ∷ parent.author_id ∷ []

abbrev recipients_from : ℕ → Option ℕ → Db → List ℕ
recipients_from author_id none db = author_id ∷ []
recipients_from author_id (some parent_id) db = with_parent author_id (find_comment parent_id db)

unfoldable pub recipient_ids : Post → Comment → Db → List ℕ
recipient_ids post comment = recipients_from post.author_id comment.parent_comment_id

-- The loop over the recipients.
unfoldable pub notify_comment : Env → User → Post → Comment → List ℕ → Web (Unit {0})
notify_comment env me post comment [] = pure tt
notify_comment env me post comment (id ∷ ids) = do
  notice ← execute (
      record_activity env.notify id me.id Kind.comment (some post.id)
        (some (of_comment comment.id)))
  notify_comment env me post comment ids

unfoldable pub create_comment_endpoint : Env → User → ℕ → String → Option ℕ → Web CommentResponse
create_comment_endpoint env me post_id content parent_comment_id = do
  post ← visible_post me post_id
  comment ← attempt (create_comment post me.id content parent_comment_id) on_comment
  ids ← query (recipient_ids post comment)
  notify_comment env me post comment ids
  commit
  row ← refresh env (find_comment comment.id)
  query (comment_response row)

-- `comment is None or comment.post_id != post_id`
abbrev comment_of : ℕ → Option Comment → Option Comment
comment_of post_id none = none
comment_of post_id (some c) = if c.post_id == post_id then some c else none

unfoldable pub find_comment_of : ℕ → ℕ → Web Comment
find_comment_of post_id comment_id = do
  comment ← query (find_comment comment_id)
  require (comment_of post_id comment) 404 not_found

abbrev pub on_forbidden : Error → Failure
on_forbidden Error.forbidden = http 403 Code.forbidden
on_forbidden e = unhandled e

unfoldable pub edit_comment_endpoint : Env → User → ℕ → ℕ → String → Web CommentResponse
edit_comment_endpoint env me post_id comment_id content = do
  post ← visible_post me post_id
  comment ← find_comment_of post_id comment_id
  edited ← attempt (edit_comment comment me.id content) on_forbidden
  commit
  row ← refresh env (find_comment edited.id)
  query (comment_response row)

unfoldable pub delete_comment_endpoint : User → ℕ → ℕ → Web (Unit {0})
delete_comment_endpoint me post_id comment_id = do
  post ← visible_post me post_id
  comment ← find_comment_of post_id comment_id
  gone ← attempt (delete_comment comment me.id post) on_forbidden
  commit

-- An empty or malformed cursor starts over.
abbrev start_of : Codec → Option Text → Option (ℕ × ℕ)
start_of codec none = none
start_of codec (some []) = none
start_of codec (some (c ∷ cs)) = decode_cursor codec (c ∷ cs)

abbrev has_cursor : Option Text → Bool
has_cursor none = false
has_cursor (some []) = false
has_cursor (some (c ∷ cs)) = true

-- `encode_cursor(page[-1])`, where the last row of an empty page raises `IndexError`.
abbrev pub header_of : Codec → Option Comment → Result (Option Text)
header_of codec none = err index_error
header_of codec (some c) = ok (some (encode_cursor codec c.created_at c.id))

abbrev next_header : Codec → List Comment → Option Text
next_header codec page = elim (last page) [
  | none ↦ none
  | some c ↦ some (encode_cursor codec c.created_at c.id)
]

-- The page, and the X-Next-Cursor header.
abbrev pub CommentPage : Type 0
CommentPage = List CommentResponse × Option Text

unfoldable pub keyset_page : Env → ℕ → ℕ → Option Text → Web CommentPage
keyset_page env post_id limit cursor = do
  rows ← query (λ db. list_comments db post_id (some (limit + 1)) (start_of env.codec cursor))
  let page = take limit rows
  items ← query (each comment_response page)
  pure (items, if ltb limit (length rows) then next_header env.codec page else none)

unfoldable pub offset_page : Env → ℕ → ℕ → ℕ → Web CommentPage
offset_page env post_id limit offset = do
  rows ← query (λ db. drop offset (list_comments db post_id none none))
  let page = take limit rows
  header ←
      execute (
        reading
          (λ db. if ltb limit (length rows) then header_of env.codec (last page) else ok none))
  items ← query (each comment_response page)
  pure (items, header)

unfoldable pub list_comments_endpoint : Env → User → ℕ → ℕ → Option Text → ℕ → Web CommentPage
list_comments_endpoint env me post_id limit cursor offset = do
  post ← visible_post me post_id
  if has_cursor cursor || offset == 0
      then keyset_page env post_id limit cursor
      else offset_page env post_id limit offset
