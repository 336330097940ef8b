-- ===== src/Social/FollowRetry.antt =====
-- ting_ting/social.py: the retry of request_follow.
use biexce_social_network.Notifications.Writing.{insert_activity, record_activity}
use biexce_social_network.Social.Severance.Follows.{serial}
use biexce_social_network.Social.Queries.{follow_pair, is_blocked, user_exists}
use biexce_social_network.Models.{SourceKey, Table, Kind, Follow, Exec, Rival, Db, User}
use biexce_social_network.Prelude.{
  find_inserted, ◌∙◌, select, Option, select_unique, ap, Unique, scalar_one_or_none, Result,
  exists_of_scalar_none, ◌&&◌, inl, some, count_where_none, not, inr, find_where-none,
  count_where-select, refl, zero, arith, recursion_error, err, none, suc, ok, true, false,
  delete_where, ◌≡◌, ℕ, ◌==◌,
}
use biexce_social_network.Social.Follows.{
  new_follow, insert_follow, try_follow, refetch, follow_conflict, find_follow, request_follow,
}

try_settled :
    (notify : Rival) (retry : Exec Follow) (follower target : User) (db : Db)
    → follow_conflict follower.id target.id db ≡ false
    → try_follow serial notify retry follower target db ≡ insert_follow notify follower target db
unfolding try_follow
try_settled notify retry follower target db h = rw h refl

no_conflict :
    (follower target : User) (db : Db)
    → user_exists db follower.id ≡ true
    → user_exists db target.id ≡ true
    → find_follow follower.id target.id db ≡ ok none
    → follow_conflict follower.id target.id db ≡ false
unfolding follow_conflict
no_conflict follower target db h k e =
    ground
      (arith, h, k, exists_of_scalar_none (follow_pair (follower.id, target.id)) db.follows.rows e)

-- A call that returned an edge, which is the one stored for the two users.
pub record IsFollowed (follower target : User) (outcome : Result Follow × Db) : Type 0 where
  pub edge : Follow
  pub returned : outcome.0 ≡ ok edge
  pub stored : find_follow follower.id target.id outcome.1 ≡ ok (some edge)

-- A notification leaves the edges.
record_activity-follows :
    (user_id actor_id : ℕ) (kind : Kind) (post_id : Option ℕ) (source : Option SourceKey) (db : Db)
    → (record_activity serial user_id actor_id kind post_id source db).1.follows ≡ db.follows
unfolding record_activity insert_activity
record_activity-follows user_id actor_id kind post_id source db = ground arith

insert_follow-IsFollowed :
    (follower target : User) (db : Db)
    → find_follow follower.id target.id db ≡ ok none
    → IsFollowed follower target (insert_follow serial follower target db)
unfolding insert_follow new_follow
insert_follow-IsFollowed follower target db h = record {
  edge = new_follow follower target db;
  returned = refl;
  stored =
      ap
        (λ (t : Table Follow).
          scalar_one_or_none (select (follow_pair (follower.id, target.id)) t.rows))
        (record_activity-follows target.id follower.id _ _ _ _)
      ∙ find_inserted (follow_pair (follower.id, target.id)) db.follows.rows
          (new_follow follower target db) (exists_of_scalar_none _ _ h) (ground arith);
}

-- Where both users exist, are not the same and not blocked, the constraint on follows holds and
-- nothing else commits meanwhile, a call returns an edge, and it is the one stored for the two: it
-- never comes to a retry, so every recursion limit from 1 on is enough.
pub request_follow-decides :
    (depth : ℕ) (follower target : User) (db : Db)
    → user_exists db follower.id ≡ true
    → user_exists db target.id ≡ true
    → follower.id == target.id ≡ false
    → is_blocked db follower.id target.id ≡ false
    → Unique follow_pair db.follows.rows
    → IsFollowed follower target (request_follow (suc depth) serial serial follower target db)
unfolding request_follow scalar_one_or_none
request_follow-decides depth follower target db h k ne free u =
    elim (select_unique (follow_pair (follower.id, target.id)) db.follows.rows
      (u (follower.id, target.id))) [
        | inr (f, e, l) ↦
            rw (ne, free, l)
              (record { edge = f; returned = refl; stored = ap scalar_one_or_none l })
        | inl l ↦
            rw
              (
                ne,
                free,
                l,
                try_settled serial
                    (λ db'. request_follow depth serial serial follower (refetch target db') db')
                    follower target db
                    (no_conflict follower target db h k (ap scalar_one_or_none l)),
              )
              (insert_follow-IsFollowed follower target db (ap scalar_one_or_none l))
      ]

-- What another transaction does when it deletes the target's account.
abbrev pub delete_target : User → Rival
delete_target target d = record d { users = delete_where (λ u. u.id == target.id) d.users }

target_deleted : (target : User) (db : Db) → user_exists (delete_target target db) target.id ≡ false
unfolding user_exists
target_deleted target db = ground (
  arith,
  count_where-select (λ (u : User). u.id == target.id) (λ u. not (u.id == target.id)) db.users,
  count_where_none (λ (u : User). u.id == target.id && not (u.id == target.id)) (λ u. ground arith)
      db.users,
)

refetch_deleted : (target : User) (db : Db) → refetch target (delete_target target db) ≡ target
unfolding user_exists
refetch_deleted target db = ground (
  arith,
  find_where-none (λ (u : User). u.id == target.id) (delete_target target db).users
      (target_deleted target db),
)

delete_conflict :
    (follower target : User) (db : Db)
    → follow_conflict follower.id target.id (delete_target target db) ≡ true
unfolding follow_conflict
delete_conflict follower target db = ground (arith, target_deleted target db)

try_retries :
    (notify : Rival) (retry : Exec Follow) (follower target : User) (db : Db)
    → target.is_private ≡ false
    → find_follow follower.id target.id db ≡ ok none
    → try_follow (delete_target target) notify retry follower target db
      ≡ retry (delete_target target db)
unfolding try_follow
try_retries notify retry follower target db public absent =
    rw (delete_conflict follower target db, absent, public) refl

-- If the target of a public follow is deleted between the check and the insert, the call retries for
-- ever: it ends in `recursion_error` at every recursion limit.
pub request_follow-unbounded :
    (depth : ℕ) (notify : Rival) (follower target : User) (db : Db)
    → (follower.id == target.id) ≡ false
    → target.is_private ≡ false
    → is_blocked db follower.id target.id ≡ false
    → find_follow follower.id target.id db ≡ ok none
    → (request_follow depth (delete_target target) notify follower target db).0
      ≡ err recursion_error
unfolding request_follow
request_follow-unbounded zero notify follower target db ne public free absent = refl
request_follow-unbounded (suc depth) notify follower target db ne public free absent =
    rw
      (
        ne,
        free,
        absent,
        try_retries notify _ follower target db public absent,
        refetch_deleted target db,
      )
      (request_follow-unbounded depth notify follower target (delete_target target db) ne public
        free absent)
