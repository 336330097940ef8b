-- ===== src/Social/Pair/Found.antt =====
-- The open request of a pair, as the queries find it.
use biexce_social_network.Social.Pair.{IsSound, is_normal}
use biexce_social_network.Prelude.{
  exists_of_select, ◌⊎◌, ==_refl, select_none, Bool, true, false, not, some, List, [], ◌∷◌, ok,
  ◌==◌, ◌≡◌, ◌≤◌, refl, select, count_where, scalar_one_or_none, arith,
}
use biexce_social_network.Models.{Db, User, FriendRequest}
use biexce_social_network.Social.Queries.{canonical_pair, open_pair}
use biexce_social_network.Social.Requests.{find_open}

module _ {A : Type 0} where
  -- The only row that a query finds.
  pub select_of_scalar : (xs : List A) (x : A) → scalar_one_or_none xs ≡ ok (some x) → xs ≡ x ∷ []
  unfolding scalar_one_or_none
  select_of_scalar [] x h = absurd (ground (arith, h))
  select_of_scalar (y ∷ []) x h = ground (arith, h)
  select_of_scalar (y ∷ z ∷ ys) x h = absurd (ground (arith, h))

  -- A narrower query runs over what a wider one finds.
  pub select_narrow :
      (p r : A → Bool)
      → ((x : A) → r x ≡ true → p x ≡ true)
      → (xs : List A) → select r xs ≡ select r (select p xs)
  unfolding select
  select_narrow p r h [] = refl
  select_narrow p r h (x ∷ xs) = ground (arith, h x, select_narrow p r h xs)

  -- Where the wider query finds at most one row.
  pub select_one : (p : A → Bool) (xs : List A) (x : A) → select p xs ≡ x ∷ [] → p x ≡ true
  unfolding select
  select_one p [] x h = absurd (ground (arith, h))
  select_one p (y ∷ ys) x h = ground (arith, select_one p ys x)

  -- The row of a unique id.
  pub select_by_id :
      (p q : A → Bool) (xs : List A) (x : A)
      → select p xs ≡ x ∷ []
      → q x ≡ true
      → count_where q xs ≤ 1
      → select q xs ≡ x ∷ []
  unfolding select count_where
  select_by_id p q [] x h e u = absurd (ground (arith, h))
  select_by_id p q (y ∷ ys) x h e u =
      ground (arith, select_none q ys, exists_of_select q p x ys, select_by_id p q ys x)

-- The open request of the pair, as each operation finds it again.
pub record IsFound (me other : User) (q : FriendRequest) (db : Db) : Type 0 where
  pub selected : select (open_pair (canonical_pair me.id other.id)) db.requests.rows ≡ q ∷ []
  pub opened : open_pair (canonical_pair me.id other.id) q ≡ true
  pub loaded : select (λ r. r.id == q.id) db.requests.rows ≡ q ∷ []
  pub normal : is_normal q ≡ true

pub find_open-IsFound :
    (me other : User) (q : FriendRequest) (db : Db)
    → IsSound me other db
    → find_open me.id other.id db ≡ ok (some q)
    → IsFound me other q db
find_open-IsFound me other q db s h =
    let k = canonical_pair me.id other.id in
    let one = select_of_scalar (select (open_pair k) db.requests.rows) q h in
    let own = select_one (open_pair k) db.requests.rows q one in
    record {
      selected = one;
      opened = own;
      loaded =
          select_by_id (open_pair k) (λ r. r.id == q.id) db.requests.rows q one (==_refl q.id)
            (s.request_ids q.id);
      normal = ground (
        arith,
        s.normal,
        exists_of_select (λ r. not (is_normal r)) (open_pair k) q db.requests.rows one,
      );
    }

-- Its two users are those of the pair.
pub ends_of_normal :
    (me other : User) (q : FriendRequest)
    → open_pair (canonical_pair me.id other.id) q ≡ true
    → is_normal q ≡ true
    → me.id == other.id ≡ false
    → ((q.sender_id == me.id ≡ true)
        × (q.recipient_id == other.id ≡ true)
        × (q.recipient_id == me.id ≡ false))
      ⊎ ((q.sender_id == me.id ≡ false)
          × (q.recipient_id == me.id ≡ true)
          × (q.sender_id == other.id ≡ true))
unfolding canonical_pair
ends_of_normal me other q h n d = ground arith
