-- ===== src/Tests/Feeds.antt =====
-- Runs of the feeds and of their cursors.
use biexce_social_network.Posts.FeedWalk.{read_feed_lem, read_feed}
use biexce_social_network.Social.Queries.{is_active_follower}
use biexce_social_network.Posts.Visibility.{is_visible_to}
use biexce_social_network.Keyset.Pages.{length}
use biexce_social_network.Posts.Feed.{
  in_deactivated_author_ids, in_banned_author_ids, not_muted_post, not_muted, in_private_author_ids,
  in_active_followed_ids, in_friend_ids, in_blocked_ids, others_visible_condition,
  feed_suppression_conditions, in_reposted_ids, feed_condition, following_condition,
}
use biexce_social_network.Models.{User, public, Audience, Post, Db}
use biexce_social_network.Prelude.{
  ◌<◌, Bool, ok, none, ◌||◌, ◌&&◌, true, ◌+◌, zero, not, ◌≡◌, arith, exists, Unique, suc, ℕ, ap,
  count_where, [], ◌∷◌, List, some, ◌==◌, refl,
}
use biexce_social_network.Tests.Data.{bob, fresh_db}
use biexce_social_network.Keyset.{
  encode_pair, encode_cursor, decode_cursor, decode_pair, Text, Codec,
}
use biexce_social_network.Keyset.RoundTrip.{
  NoBar, IsLawful, decode_cursor-encode_cursor, decode_pair-encode_pair,
}
use biexce_social_network.Posts.Agreement.{
  IsConsistent, feed_condition-is_visible_to, following_condition-is_visible_to,
}
use biexce_social_network.UserState.{
  is_actively_banned, not_actively_banned_clause, active_ban_clause, active_ban_clause-eq,
  not_actively_banned_clause-eq,
}

-- A codec of unary numerals.
abbrev unary : ℕ → Text
unary zero = []
unary (suc n) = b'1' ∷ unary n

abbrev plain : Codec
plain = record {
  urlsafe_b64encode = λ t. t;
  urlsafe_b64decode = λ t. some t;
  isoformat = unary;
  fromisoformat = λ t. some (length t);
  str = unary;
  int = λ t. some (length t);
}

length-unary : (n : ℕ) → length (unary n) ≡ n
length-unary zero = refl
length-unary (suc n) = ap suc (length-unary n)

unary-NoBar : (n : ℕ) → NoBar (unary n)
unary-NoBar zero = tt
unary-NoBar (suc n) = (ground arith, unary-NoBar n)

plain-IsLawful : IsLawful plain
plain-IsLawful = record {
  decode-encode = λ t. refl;
  encode-ne-nil = λ t h. h;
  fromisoformat-isoformat = λ n. ap some (length-unary n);
  int-str = λ n. ap some (length-unary n);
  isoformat-NoBar = unary-NoBar;
  str-NoBar = unary-NoBar;
}

decode_cursor-encode_cursor_example : decode_cursor plain (encode_cursor plain 7 3) ≡ some (7, 3)
decode_cursor-encode_cursor_example = decode_cursor-encode_cursor plain plain-IsLawful 7 3

decode_pair-encode_pair_example :
    decode_pair plain (encode_pair plain (b'a' ∷ b'|' ∷ []) 3) ≡ some (b'a' ∷ b'|' ∷ [], 3)
decode_pair-encode_pair_example = decode_pair-encode_pair plain plain-IsLawful (b'a' ∷ b'|' ∷ []) 3

abbrev post_at : ℕ → ℕ → Audience → Post
post_at id author_id audience = record {
  id = id;
  author_id = author_id;
  content = "";
  audience = audience;
  created_at = 50 + id;
  updated_at = 50 + id;
}

abbrev three_posts : List Post
three_posts = post_at 1 2 public ∷ post_at 2 2 Audience.friends ∷ post_at 3 2 public ∷ []

-- The feed's rows and keys.
abbrev posts_db : Db
posts_db = record fresh_db { posts = record { rows = three_posts; next_id = 4 } }

fresh_ids : Unique (λ (n : ℕ) (p : Post). p.id == n) three_posts
unfolding count_where
fresh_ids n = ground arith

fresh_db-IsConsistent : IsConsistent posts_db
unfolding count_where
fresh_db-IsConsistent = record { user_unique = λ n. ground arith; canonical = refl }

author_known : exists (λ (u : User). u.id == 2) posts_db.users ≡ true
unfolding count_where
author_known = refl

feed_condition-is_visible_to_example : feed_condition posts_db 1 (post_at 1 2 public) ≡ (
    is_visible_to posts_db 2 1 public
    && feed_suppression_conditions posts_db 1 (post_at 1 2 public))
feed_condition-is_visible_to_example =
    feed_condition-is_visible_to posts_db fresh_db-IsConsistent 1 (post_at 1 2 public) author_known

following_condition-is_visible_to_example : following_condition posts_db 1 (post_at 1 2 public) ≡ (
    (is_active_follower posts_db 1 2 || in_reposted_ids posts_db 1 1)
    && (is_visible_to posts_db 2 1 public
        && feed_suppression_conditions posts_db 1 (post_at 1 2 public)))
following_condition-is_visible_to_example =
    following_condition-is_visible_to posts_db fresh_db-IsConsistent 1 (post_at 1 2 public)
      author_known refl

active_ban_clause-eq_example : active_ban_clause 100 bob ≡ is_actively_banned bob 100
active_ban_clause-eq_example = active_ban_clause-eq 100 bob

not_actively_banned_clause-eq_example :
    not_actively_banned_clause 100 bob ≡ not (active_ban_clause 100 bob)
not_actively_banned_clause-eq_example = not_actively_banned_clause-eq 100 bob

few_posts : count_where (feed_condition posts_db 1) posts_db.posts.rows < 4
unfolding count_where feed_condition feed_suppression_conditions others_visible_condition
    in_blocked_ids in_friend_ids in_active_followed_ids in_private_author_ids not_muted
    not_muted_post in_banned_author_ids in_deactivated_author_ids active_ban_clause
few_posts = omega arith

read_feed_lem_example :
    (feed : List Post) × (read_feed plain posts_db 1 1 4 none ≡ ok feed)
    × ((p : Post → Bool)
        → count_where p feed
          ≡ count_where (λ q. p q && feed_condition posts_db 1 q) posts_db.posts.rows)
read_feed_lem_example = read_feed_lem plain posts_db 1 0 4 plain-IsLawful fresh_ids few_posts
