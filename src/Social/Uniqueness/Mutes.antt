-- ===== src/Social/Uniqueness/Mutes.antt =====
-- Mutes keep the constraints. A user mute has no post and a post mute no target, so each new row
-- concerns one of the two partial indexes.
use biexce_social_network.Prelude.{
  count_where-insert, [], ◌∷◌, ◌++◌, Unique-insert, none, Unique, some, ◌||◌, false, List, arith,
  exists, Bool, true, Unique-select, ℕ, ◌≡◌,
}
use biexce_social_network.Models.{
  Db, Rival, User, Mute, After, After-if, After-pair, After-on_found, append,
}
use biexce_social_network.Social.Mutes.{
  mutes_user, mutes_post, new_mute, insert_user_mute, insert_post_mute, mute_user, unmute_user,
  mute_post, unmute_post, delete_mute,
}
use biexce_social_network.Social.Uniqueness.{IsValid, KeepsValid, mutes-IsValid}

same_user_mute :
    (k j : ℕ × ℕ) (x y : Mute)
    → mutes_user k x ≡ true
    → mutes_user j x ≡ true
    → mutes_user j y ≡ true
    → mutes_user k y ≡ true
same_user_mute k j x y a b c = ground arith

same_post_mute :
    (k j : ℕ × ℕ) (x y : Mute)
    → mutes_post k x ≡ true
    → mutes_post j x ≡ true
    → mutes_post j y ≡ true
    → mutes_post k y ≡ true
same_post_mute k j x y a b c = ground arith

-- A row outside an index leaves it as it is.
Unique-unindexed {κ} :
    {K : Type κ} (test : K → Mute → Bool) (x : Mute) (rows : List Mute)
    → ((k : K) → test k x ≡ false)
    → Unique test rows
    → Unique test (rows ++ x ∷ [])
Unique-unindexed test x rows out u k =
    ground (arith, count_where-insert (test k) rows x, out k, u k)

user_mute-IsValid :
    (a b : ℕ) (c : Bool) (db : Db)
    → IsValid db
    → exists (mutes_user (a, b)) db.mutes.rows || c ≡ false
    → IsValid (record db { mutes = append db.mutes (new_mute a (some b) none db) })
unfolding new_mute
user_mute-IsValid a b c db v fresh =
    let x = new_mute a (some b) none db in
    mutes-IsValid v (append db.mutes x)
      (Unique-insert mutes_user (a, b) x db.mutes.rows (ground arith)
        (λ j y p q. same_user_mute (a, b) j x y (ground arith) p q) v.mute_user_unique)
      (Unique-unindexed mutes_post x db.mutes.rows (λ k. ground arith) v.mute_post_unique)

post_mute-IsValid :
    (a b : ℕ) (c : Bool) (db : Db)
    → IsValid db
    → exists (mutes_post (a, b)) db.mutes.rows || c ≡ false
    → IsValid (record db { mutes = append db.mutes (new_mute a none (some b) db) })
unfolding new_mute
post_mute-IsValid a b c db v fresh =
    let x = new_mute a none (some b) db in
    mutes-IsValid v (append db.mutes x)
      (Unique-unindexed mutes_user x db.mutes.rows (λ k. ground arith) v.mute_user_unique)
      (Unique-insert mutes_post (a, b) x db.mutes.rows (ground arith)
        (λ j y p q. same_post_mute (a, b) j x y (ground arith) p q) v.mute_post_unique)

delete_mute-IsValid : (id : ℕ) (db : Db) → IsValid db → IsValid (delete_mute id db)
delete_mute-IsValid id db v =
    mutes-IsValid v _ (Unique-select mutes_user _ db.mutes.rows v.mute_user_unique)
      (Unique-select mutes_post _ db.mutes.rows v.mute_post_unique)

ruleset rules = (After-if, After-pair, After-on_found)

insert_user_mute-IsValid :
    (a b : ℕ) {db : Db} → IsValid db → After IsValid (insert_user_mute a b db)
unfolding insert_user_mute
insert_user_mute-IsValid a b v = search (rules, user_mute-IsValid)

insert_post_mute-IsValid :
    (a b : ℕ) {db : Db} → IsValid db → After IsValid (insert_post_mute a b db)
unfolding insert_post_mute
insert_post_mute-IsValid a b v = search (rules, post_mute-IsValid)

pub mute_user-IsValid :
    (rival : Rival) (muter : User) (target_id : ℕ) {db : Db}
    → KeepsValid rival
    → IsValid db
    → After IsValid (mute_user rival muter target_id db)
unfolding mute_user
mute_user-IsValid rival muter target_id r v = search (rules, insert_user_mute-IsValid) depth 8

pub mute_post-IsValid :
    (rival : Rival) (muter : User) (post_id : ℕ) {db : Db}
    → KeepsValid rival
    → IsValid db
    → After IsValid (mute_post rival muter post_id db)
unfolding mute_post
mute_post-IsValid rival muter post_id r v = search (rules, insert_post_mute-IsValid) depth 8

pub unmute_user-IsValid :
    (muter : User) (target_id : ℕ) {db : Db}
    → IsValid db
    → After IsValid (unmute_user muter target_id db)
unfolding unmute_user
unmute_user-IsValid muter target_id v = search (rules, delete_mute-IsValid)

pub unmute_post-IsValid :
    (muter : User) (post_id : ℕ) {db : Db}
    → IsValid db
    → After IsValid (unmute_post muter post_id db)
unfolding unmute_post
unmute_post-IsValid muter post_id v = search (rules, delete_mute-IsValid)
