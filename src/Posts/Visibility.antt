-- ===== src/Posts/Visibility.antt =====
-- ting_ting/posts.py, the audience rules of a single read.
use biexce_social_network.Prelude.{
  none, is_none, not, some, ◌==◌, ◌&&◌, true, if◌then◌else◌, exists, false, ◌||◌, find_where, ℕ,
  Bool, Option,
}
use biexce_social_network.Models.{Db, User, Audience, only_me, friends, public, followers, unknown}
use biexce_social_network.Social.Queries.{
  canonical_pair, is_blocked, is_active_follower, request_pair, is_accepted,
}
use biexce_social_network.UserState.{is_actively_banned}

-- `_is_friend`
unfoldable pub is_friend : Db → ℕ → ℕ → Bool
unfolding canonical_pair
is_friend db a b =
    exists (λ q. request_pair (canonical_pair a b) q && is_accepted q.state) db.requests.rows

-- `_private_author_gate`
unfoldable pub private_author_gate : Db → User → ℕ → Bool
private_author_gate db author viewer_id =
    is_friend db author.id viewer_id || is_active_follower db viewer_id author.id

abbrev pub find_user : ℕ → Db → Option User
find_user id db = find_where (λ u. u.id == id) db.users

-- The rules for a viewer who is not the author and not in a blocked pair.
unfoldable pub audience_allows : Db → User → ℕ → ℕ → Audience → Bool
audience_allows db author author_id viewer_id only_me = false
audience_allows db author author_id viewer_id friends = is_friend db author_id viewer_id
audience_allows db author author_id viewer_id followers = is_active_follower db viewer_id author_id
audience_allows db author author_id viewer_id public =
    if author.is_private then private_author_gate db author viewer_id else true
audience_allows db author author_id viewer_id unknown = false

abbrev visible_from : Db → ℕ → ℕ → Audience → Option User → Bool
visible_from db author_id viewer_id audience none = false
visible_from db author_id viewer_id audience (some author) =
    if is_actively_banned author db.now || not (is_none author.deactivated_at)
    then false
    else if is_blocked db author_id viewer_id
    then false
    else audience_allows db author author_id viewer_id audience

unfoldable pub is_visible_to : Db → ℕ → ℕ → Audience → Bool
is_visible_to db author_id viewer_id audience =
    if viewer_id == author_id
    then true
    else visible_from db author_id viewer_id audience (find_user author_id db)
