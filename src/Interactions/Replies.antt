-- ===== src/Interactions/Replies.antt =====
-- Replies are one level deep.
use biexce_social_network.Models.{Db, Comment, Post}
use Prim.Native.String.{String}
use biexce_social_network.Prelude.{
  ◌∙◌, ap, find_where_sat, inr, Option-cases, inl, arith, true, some, ◌⊎◌, none, ok, ◌≡◌, Option, ℕ,
  ◌==◌,
}
use biexce_social_network.Interactions.{
  true, some, none, ok, Db, Comment, Option, ℕ, Post, new_comment, resolve_parent, create_comment,
  find_comment,
}

id_of : (p : Comment) (id : ℕ) → p.id == id ≡ true → p.id ≡ id
id_of p id h = ground arith

-- A comment that is made is a top-level comment of its post, or its parent is one.
pub create_comment_lem :
    (post : Post) (author_id : ℕ) (content : String) (parent : Option ℕ) (c : Comment) (db : Db)
    → (create_comment post author_id content parent db).0 ≡ ok c
    → (c.post_id ≡ post.id)
      × ((c.parent_comment_id ≡ none)
          ⊎ ((p : Comment) × (find_comment p.id db ≡ some p)
              × (c.parent_comment_id ≡ some p.id)
              × (p.post_id ≡ post.id)
              × (p.parent_comment_id ≡ none)))
unfolding create_comment resolve_parent new_comment
create_comment_lem post author_id content none c db h = (ground (arith, h), inl (ground (arith, h)))
create_comment_lem post author_id content (some id) c db h =
    elim (Option-cases (find_comment id db)) [
      | inl e ↦ absurd (ground (arith, e, h))
      | inr (p, e) ↦
          let same = find_where_sat (λ (x : Comment). x.id == id) db.comments.rows p e in
          (
            ground (arith, e, h),
            inr (
              p,
              ap (λ n. find_comment n db) (id_of p id same) ∙ e,
              ground (arith, e, h),
              ground (arith, e, h),
              ground (arith, e, h),
            ),
          )
    ]
