-- ===== src/Moderation/BanReports.antt =====
-- ting_ting/moderation.py: what the resolution of the reports against a user leaves.
use biexce_social_network.Models.{ModerationAction, with_rows, Db, Report, User}
use biexce_social_network.Prelude.{
  sym, ap, ◌++◌, select, ◌&&◌, count_where_none, not, ◌||◌, exists, count_where-select,
  update_where, Bool, false, ◌∙◌, ℕ, count_where, arith, refl, ◌+◌, ◌≡◌, List, ◌∷◌, [],
}
use biexce_social_network.Moderation.Bans.{
  ban_enforcement, resolve_pending, request_of, resolved_by_ban, pending_against, follow_of,
  sever_relationships, log_all,
}

-- The bulk insert changes the ledger alone.
log_all-frame :
    (moderator target : User) (rs : List Report) (db : Db)
    → log_all moderator target rs db
      ≡ record db { actions = (log_all moderator target rs db).actions }
unfolding log_all
log_all-frame moderator target [] db = refl
log_all-frame moderator target (r ∷ rs) db = log_all-frame moderator target rs _

append_nil : {A : Type 0} (xs : List A) → xs ++ [] ≡ xs
append_nil [] = refl
append_nil (x ∷ xs) = ap (λ l. x ∷ l) (append_nil xs)

-- The rows of the ledger for the reports that a ban resolves, from an id on.
pub enforcements : User → User → List Report → ℕ → ℕ → List ModerationAction
enforcements moderator target [] now id = []
enforcements moderator target (r ∷ rs) now id =
    ban_enforcement moderator target r.id now id ∷ enforcements moderator target rs now (id + 1)

insert-append : {A : Type 0} (xs ys : List A) (x : A) → (xs ++ x ∷ []) ++ ys ≡ xs ++ x ∷ ys
insert-append [] ys x = refl
insert-append (z ∷ zs) ys x = ap (λ l. z ∷ l) (insert-append zs ys x)

log_all-actions :
    (moderator target : User) (rs : List Report) (db : Db)
    → (log_all moderator target rs db).actions.rows
      ≡ db.actions.rows ++ enforcements moderator target rs db.now db.actions.next_id
unfolding log_all enforcements
log_all-actions moderator target [] db = sym (append_nil db.actions.rows)
log_all-actions moderator target (r ∷ rs) db =
    log_all-actions moderator target rs _
    ∙ insert-append db.actions.rows
        (enforcements moderator target rs db.now (db.actions.next_id + 1))
        (ban_enforcement moderator target r.id db.now db.actions.next_id)

-- No pending report against the target is left.
pending_against-resolved :
    (moderator : User) (id now : ℕ) (rows : List Report)
    → exists
        (pending_against id)
        (update_where (pending_against id) (resolved_by_ban moderator now) rows)
      ≡ false
unfolding count_where update_where
pending_against-resolved moderator id now [] = refl
pending_against-resolved moderator id now (r ∷ rs) =
    ground (arith, pending_against-resolved moderator id now rs)

abbrev pub is_related : ℕ → Db → Bool
is_related id db = exists (follow_of id) db.follows.rows || exists (request_of id) db.requests.rows

pub severed : (id : ℕ) (db : Db) → is_related id (sever_relationships id db) ≡ false
unfolding sever_relationships
severed id db = ground (
  arith,
  count_where-select (follow_of id) (λ f. not (follow_of id f)) db.follows.rows,
  count_where_none (λ f. follow_of id f && not (follow_of id f)) (λ f. ground arith)
      db.follows.rows,
  count_where-select (request_of id) (λ f. not (request_of id f)) db.requests.rows,
  count_where_none (λ f. request_of id f && not (request_of id f)) (λ f. ground arith)
      db.requests.rows,
)

-- What the resolution of the reports leaves and what it changes.
pub record IsResolved (moderator target : User) (before after : Db) : Type 0 where
  pub clock : after.now ≡ before.now
  pub users : after.users ≡ before.users
  pub related : is_related target.id after ≡ is_related target.id before
  pub none_pending : exists (pending_against target.id) after.reports.rows ≡ false
  pub logged :
      after.actions.rows
      ≡ before.actions.rows
        ++ enforcements moderator target
            (select (pending_against target.id) before.reports.rows)
            before.now
            before.actions.next_id

pub resolve_pending-IsResolved :
    (moderator target : User) (db : Db)
    → IsResolved moderator target db (resolve_pending moderator target db)
unfolding resolve_pending
resolve_pending-IsResolved moderator target db =
    let rs = select (pending_against target.id) db.reports.rows in
    let resolved : Db = record db {
      reports = with_rows db.reports (
          update_where (pending_against target.id) (resolved_by_ban moderator db.now)
            db.reports.rows);
    } in
    let f = log_all-frame moderator target rs resolved in
    record {
      clock = ap (λ (d : Db). d.now) f;
      users = ap (λ (d : Db). d.users) f;
      related = ap (is_related target.id) f;
      none_pending =
          ap (λ (d : Db). exists (pending_against target.id) d.reports.rows) f
          ∙ pending_against-resolved moderator target.id db.now db.reports.rows;
      logged = log_all-actions moderator target rs resolved;
    }
