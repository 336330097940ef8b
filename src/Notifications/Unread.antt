-- ===== src/Notifications/Unread.antt =====
-- Unread notifications: the feed of a user, before and after reading.
use biexce_social_network.Models.{Activity, Db}
use biexce_social_network.Prelude.{
  refl, arith, count_where-update_where_eq, some, exists, ok, false, List, ◌≡◌, update_where, ℕ,
  count_where, ◌∷◌, [], ◌==◌,
}
use biexce_social_network.Notifications.Writing.{mark_all_read, unread_of}

unread_none :
    (user_id now : ℕ) (rows : List Activity)
    → exists
        (unread_of user_id)
        (update_where (unread_of user_id) (λ a. record a { read_at = some now }) rows)
      ≡ false
unfolding count_where update_where
unread_none user_id now [] = refl
unread_none user_id now (a ∷ rows) = ground (arith, unread_none user_id now rows)

-- Marking all read leaves the user no unread row, returns how many there were, and leaves the unread
-- rows of every other user.
pub mark_all_read_lem :
    (user_id other : ℕ) (db : Db)
    → (other == user_id) ≡ false
    → ((mark_all_read user_id db).0 ≡ ok (count_where (unread_of user_id) db.activities.rows))
      × (exists (unread_of user_id) (mark_all_read user_id db).1.activities.rows ≡ false)
      × (count_where (unread_of other) (mark_all_read user_id db).1.activities.rows
          ≡ count_where (unread_of other) db.activities.rows)
unfolding mark_all_read
mark_all_read_lem user_id other db h = (
  refl,
  unread_none user_id db.now db.activities.rows,
  count_where-update_where_eq (unread_of other) (unread_of user_id) _ (λ a e. ground (arith, e, h))
      db.activities.rows,
)
