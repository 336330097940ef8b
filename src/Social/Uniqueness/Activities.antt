-- ===== src/Social/Uniqueness/Activities.antt =====
-- Notifications keep the constraints.
use biexce_social_network.Prelude.{
  update_where, ℕ, ◌≡◌, Bool, true, false, Option, none, some, arith, Unique-insert,
  Unique-update_where,
}
use biexce_social_network.Models.{
  with_rows, After-if, After-pair, After, Db, Rival, Activity, Kind, SourceKey, append,
}
use biexce_social_network.Notifications.Writing.{
  activity_conflict, UnreadKey, unread_match, new_activity, insert_activity, record_activity,
  mark_read, mark_all_read,
}
use biexce_social_network.Notifications.Columns.{kind_eq_iff, has_source_iff}
use biexce_social_network.Social.Uniqueness.{IsValid, KeepsValid, activities-IsValid}

fields_of_match :
    (k : UnreadKey) (x : Activity)
    → unread_match k x ≡ true
    → (x.user_id ≡ k.user_id)
      × (x.actor_id ≡ k.actor_id)
      × (x.kind ≡ k.kind)
      × (x.source_key ≡ some k.source_key)
unfolding unread_match
fields_of_match k x h =
    ground (arith, kind_eq_iff x.kind k.kind, has_source_iff k.source_key x.source_key)

-- A row has at most one key.
key_of_match :
    (k j : UnreadKey) (x : Activity) → unread_match j x ≡ true → unread_match k x ≡ true → j ≡ k
key_of_match k j x a b =
    let (u, v, w, z) = fields_of_match j x a in
    let (u', v', w', z') = fields_of_match k x b in ground arith

-- The inserted row has its key.
pub unread_match-new_activity :
    (k : UnreadKey) (post_id : Option ℕ) (db : Db)
    → unread_match k (new_activity k post_id db) ≡ true
unfolding unread_match new_activity
unread_match-new_activity k post_id db =
    ground (arith, kind_eq_iff k.kind k.kind, has_source_iff k.source_key (some k.source_key))

new_activity-IsValid :
    (k : UnreadKey) (post_id : Option ℕ) (db : Db)
    → IsValid db
    → activity_conflict k post_id db ≡ false
    → IsValid (record db { activities = append db.activities (new_activity k post_id db) })
unfolding activity_conflict
new_activity-IsValid k post_id db v fresh =
    let x = new_activity k post_id db in
    activities-IsValid v (append db.activities x) (
      Unique-insert unread_match k x db.activities.rows (ground (arith, fresh))
        (λ j y a b. rw (← key_of_match k j x a (unread_match-new_activity k post_id db)) b)
        v.unread_unique)

-- The insert keeps the constraints, whether or not the index rejects it.
pub insert_activity-IsValid :
    (k : UnreadKey) (post_id : Option ℕ) {db : Db}
    → IsValid db
    → After IsValid (insert_activity k post_id db)
unfolding insert_activity
insert_activity-IsValid k post_id {db} v = search (After-if, After-pair, new_activity-IsValid)

-- `record` changes nothing, or runs the other transactions and then the insert.
pub record_activity-cases :
    (P : Db → Type 0) (rival : Rival) (user_id actor_id : ℕ) (kind : Kind) (post_id : Option ℕ)
    (source_key : Option SourceKey) (db : Db)
    → P db
    → ((k : UnreadKey) → After P (insert_activity k post_id (rival db)))
    → After P (record_activity rival user_id actor_id kind post_id source_key db)
unfolding record_activity
record_activity-cases P rival user_id actor_id kind post_id source_key db p q =
    search (After-if, After-pair)

-- Recording a notification keeps the constraints, also against other transactions that do.
pub record_activity-IsValid :
    (rival : Rival) (user_id actor_id : ℕ) (kind : Kind) (post_id : Option ℕ)
    (source_key : Option SourceKey) {db : Db}
    → KeepsValid rival
    → IsValid db
    → After IsValid (record_activity rival user_id actor_id kind post_id source_key db)
record_activity-IsValid rival user_id actor_id kind post_id source_key {db} r v =
    record_activity-cases IsValid rival user_id actor_id kind post_id source_key db v
      (λ k. insert_activity-IsValid k post_id (r db v))

-- A row that is read has no key.
unmarked :
    (k : UnreadKey) (x : Activity) (n : ℕ)
    → unread_match k (record x { read_at = some n }) ≡ true
    → unread_match k x ≡ true
unfolding unread_match
unmarked k x n h = ground arith

read_where-IsValid :
    (p : Activity → Bool) (n : ℕ) {db : Db}
    → IsValid db
    → IsValid (record db {
      activities =
          with_rows db.activities
            (update_where p (λ a. record a { read_at = some n }) db.activities.rows);
    })
read_where-IsValid p n v =
    activities-IsValid v _
      (Unique-update_where unread_match p _ (λ k x _ h. unmarked k x n h) _ v.unread_unique)

-- A mark of one notification, or of all, keeps the constraints.
pub mark_read-IsValid :
    (user_id : ℕ) (a : Option Activity) {db : Db}
    → IsValid db
    → After IsValid (mark_read user_id a db)
unfolding mark_read
mark_read-IsValid user_id none v = search After-pair
mark_read-IsValid user_id (some a) v = search (After-if, After-pair, read_where-IsValid)

pub mark_all_read-IsValid :
    (user_id : ℕ) {db : Db} → IsValid db → After IsValid (mark_all_read user_id db)
unfolding mark_all_read
mark_all_read-IsValid user_id v = After-pair _ _ (read_where-IsValid _ _ v)
