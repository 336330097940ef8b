-- ===== src/Api/RaisingReads.antt =====
-- What the queries raise that an endpoint makes with no handler.
use biexce_social_network.Api.Interactions.{header_of}
use biexce_social_network.Api.Reports.{status_query}
use biexce_social_network.Api.Errors.{answered, Errs, Raises}
use biexce_social_network.Keyset.{Codec}
use biexce_social_network.Social.Queries.{
  of_request, canonical_pair, open_pair, block_pair, relationship_state,
}
use biexce_social_network.Api.Responses.{post_response}
use biexce_social_network.Models.{Comment, ReportStatus, Post, Db}
use biexce_social_network.Interactions.{liked_of, like_pair, is_user_liked}
use biexce_social_network.Api.Web.{unhandled, is_value_error}
use biexce_social_network.Moderation.Review.{list_reports}
use biexce_social_network.Prelude.{
  ◌>>=◌, ◌==◌, select, inr, refl, inl, false, none, some, exists, if◌then◌else◌, true, Bool-cases,
  ◌≡◌, ok, multiple_results_found, Result, List, err, Bool, Option, ℕ, Error, [],
  scalar_one_or_none, ◌∷◌,
}

module _ {A B : Type 0} where
  -- A query for one row, of which something is then made.
  one-Errs :
      (P : Error → Bool) (xs : List A) (g : Option A → B)
      → P multiple_results_found ≡ true
      → Errs P (scalar_one_or_none xs >>= λ x. ok (g x))
  unfolding scalar_one_or_none
  one-Errs P [] g h = tt
  one-Errs P (x ∷ []) g h = tt
  one-Errs P (x ∷ y ∷ ys) g h = h

  bind-Errs :
      (P : Error → Bool) (r : Result A) (g : A → B) → Errs P r → Errs P (r >>= λ x. ok (g x))
  bind-Errs P (ok a) g h = tt
  bind-Errs P (err e) g h = h

reading-Raises :
    {A : Type 0} (P : Error → Bool) (r : Result A) (db : Db) → Errs P r → Raises P (r, db)
reading-Raises P r db h = record { errs = h }

relationship_state-Errs :
    (db : Db) (a b : ℕ) → Errs (answered unhandled) (relationship_state db a b)
unfolding relationship_state is_value_error
relationship_state-Errs db a b = elim (Bool-cases (exists (block_pair (a, b)) db.blocks.rows)) [
  | inl h ↦ rw h tt
  | inr h ↦ elim (Bool-cases (exists (block_pair (b, a)) db.blocks.rows)) [
    | inl k ↦ rw (h, k) tt
    | inr k ↦
        rw (h, k)
          (one-Errs (answered unhandled) (select (open_pair (canonical_pair a b)) db.requests.rows)
            (of_request a) refl)
  ]
]

pub relationship_state-Raises :
    (db : Db) (a b : ℕ) → Raises (answered unhandled) (relationship_state db a b, db)
relationship_state-Raises db a b = reading-Raises _ _ db (relationship_state-Errs db a b)

liked-Errs :
    (user_id post_id : ℕ) (db : Db)
    → Errs
        (answered unhandled)
        (if user_id == 0 then ok false else is_user_liked db user_id post_id)
unfolding is_user_liked is_value_error
liked-Errs user_id post_id db = elim (Bool-cases (user_id == 0)) [
  | inl h ↦ rw h tt
  | inr h ↦ rw h (
      one-Errs (answered unhandled) (select (like_pair (user_id, post_id)) db.likes.rows) liked_of
        refl)
]

pub post_response-Raises :
    (post : Post) (user_id : ℕ) (db : Db)
    → Raises (answered unhandled) (post_response post user_id db, db)
unfolding post_response
post_response-Raises post user_id db =
    reading-Raises _ _ db (bind-Errs (answered unhandled) _ _ (liked-Errs user_id post.id db))

pub header_of-Raises :
    (codec : Codec) (b : Bool) (o : Option Comment) (db : Db)
    → Raises (answered unhandled) (if b then header_of codec o else ok none, db)
unfolding is_value_error
header_of-Raises codec false o db = record { errs = tt }
header_of-Raises codec true none db = record { errs = refl }
header_of-Raises codec true (some c) db = record { errs = tt }

pub list_reports-Raises :
    (status : Option ReportStatus) (limit offset : ℕ) (db : Db)
    → Raises (answered unhandled) (list_reports db (status_query status) limit offset, db)
unfolding list_reports
list_reports-Raises none limit offset db = record { errs = tt }
list_reports-Raises (some ReportStatus.pending) limit offset db = record { errs = tt }
list_reports-Raises (some ReportStatus.resolved) limit offset db = record { errs = tt }
list_reports-Raises (some ReportStatus.dismissed) limit offset db = record { errs = tt }
