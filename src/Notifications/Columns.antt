-- ===== src/Notifications/Columns.antt =====
-- Equality on the text columns `kind` and `source_key` of the activities table.
use biexce_social_network.Prelude.{ℕ, ◌≡◌, ◌↔◌, Bool, true, false, Option, none, some, ◌==◌, arith}
use biexce_social_network.Models.{
  Kind, follow, follow_request, like, comment, repost, mention, SourceKey, edge, of_follow, of_post,
  of_comment,
}

abbrev kind_code : Kind → ℕ
kind_code follow = 0
kind_code follow_request = 1
kind_code like = 2
kind_code comment = 3
kind_code repost = 4
kind_code mention = 5

unfoldable pub kind_eq : Kind → Kind → Bool
kind_eq a b = kind_code a == kind_code b

abbrev pub source_eq : SourceKey → SourceKey → Bool
source_eq edge edge = true
source_eq (of_follow a) (of_follow b) = a == b
source_eq (of_post a) (of_post b) = a == b
source_eq (of_comment a) (of_comment b) = a == b
source_eq _ _ = false

unfoldable pub has_source : SourceKey → Option SourceKey → Bool
has_source s none = false
has_source s (some t) = source_eq t s

pub kind_eq_iff : (a b : Kind) → (kind_eq a b ≡ true) ↔ (a ≡ b)
unfolding kind_eq
kind_eq_iff a b = ground arith

pub has_source_iff : (s : SourceKey) (o : Option SourceKey) → (has_source s o ≡ true) ↔ (o ≡ some s)
unfolding has_source
has_source_iff s none = ground arith
has_source_iff s (some t) = ground arith
