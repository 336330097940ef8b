-- ===== src/Moderation/BanEffects.antt =====
-- ting_ting/moderation.py: what ban_user leaves behind.
use biexce_social_network.Moderation.BanReports.{
  severed, enforcements, is_related, resolve_pending-IsResolved,
}
use biexce_social_network.Moderation.{
  leb, new_action, some, record_action, clean_reason, require_can_enforce,
}
use biexce_social_network.UserState.{is_actively_banned}
use Prim.Native.String.{String}
use biexce_social_network.Models.{ActionType, Db, User}
use biexce_social_network.Prelude.{
  leb, none, find_where-update_where, ◌≤◌, some, find_where, ◌==◌, ap, inl, inr, self_ban,
  Result-cases, true, ok, ◌++◌, Option, select, exists, Bool, false, ◌∙◌, ℕ, arith, refl, ◌+◌, ◌≡◌,
  ◌∷◌, [],
}
use biexce_social_network.Moderation.Bans.{
  ban_entry, kept, instant, Aware, renamed, impose, banned, expired_already, resolve_pending,
  pending_against, ban_user,
}

abbrev pub is_user : ℕ → User → Bool
is_user id u = u.id == id

-- The call of a ban that returns, on a user who is not banned.
record Imposed (strip : String → String) (moderator target u : User) (reason : String)
    (until : Option Aware) (remark : Option String) (db : Db) : Type 0 where
  text : String
  unexpired : expired_already until db.now ≡ false
  result : u ≡ banned moderator text (instant until) db.now target
  after :
      (ban_user strip moderator target reason until remark db).1
      ≡ resolve_pending moderator target (impose moderator target text until remark db)

ban_user-Imposed :
    (strip : String → String) (moderator target u : User) (reason : String) (until : Option Aware)
    (remark : Option String) (db : Db)
    → is_actively_banned target db.now ≡ false
    → (ban_user strip moderator target reason until remark db).0 ≡ ok u
    → Imposed strip moderator target u reason until remark db
unfolding ban_user
ban_user-Imposed strip moderator target u reason until remark db h k =
    elim (Result-cases (renamed self_ban (require_can_enforce moderator target))) [
      | inr (e, g) ↦ absurd (ground (arith, g, k))
      | inl (t, g) ↦ elim (Result-cases (clean_reason strip reason)) [
        | inr (e, c) ↦ absurd (ground (arith, g, c, k))
        | inl (text, c) ↦ record {
          text = text;
          unexpired = ground (arith, g, c, k);
          result = ground (arith, g, c, k, h);
          after = ground (arith, g, c, k, h);
        }
      ]
    ]

imposed_row :
    (moderator target : User) (reason : String) (until : Option Aware) (remark : Option String)
    (db : Db)
    → find_where (is_user target.id) db.users ≡ some target
    → find_where (is_user target.id) (impose moderator target reason until remark db).users
      ≡ some (banned moderator reason (kept until) db.now target)
unfolding impose record_action banned
imposed_row moderator target reason until remark db h =
    find_where-update_where (is_user target.id) (is_user target.id)
      (banned moderator reason (kept until) db.now) (λ u e. refl) db.users
    ∙ ground (arith, h)

-- What a ban of `target` does to the database: the target's row has the ban, no follow edge and no
-- friend request has the target on either side, no report against the target is pending, and the
-- ledger keeps its rows and takes one for the ban and one for each report that was pending.
pub record IsRecorded (text : String) (moderator target : User) (until : Option Aware)
    (remark : Option String) (before after : Db) : Type 0 where
  pub stored :
      find_where (is_user target.id) after.users
      ≡ some (banned moderator text (kept until) before.now target)
  pub unrelated : is_related target.id after ≡ false
  pub no_pending : exists (pending_against target.id) after.reports.rows ≡ false
  pub logged :
      after.actions.rows
      ≡ (before.actions.rows
          ++ new_action moderator ActionType.user_banned (ban_entry target text remark) before ∷ [])
        ++ enforcements moderator target
            (select (pending_against target.id) before.reports.rows)
            before.now
            (before.actions.next_id + 1)

IsRecorded-impose :
    (moderator target : User) (reason : String) (until : Option Aware) (remark : Option String)
    (db : Db)
    → find_where (is_user target.id) db.users ≡ some target
    → IsRecorded reason moderator target until remark db
        (resolve_pending moderator target (impose moderator target reason until remark db))
unfolding impose record_action
IsRecorded-impose moderator target reason until remark db h =
    let r =
      resolve_pending-IsResolved moderator target
        (impose moderator target reason until remark db) in
    record {
      stored =
          ap (find_where (is_user target.id)) r.users
          ∙ imposed_row moderator target reason until remark db h;
      unrelated =
          r.related
          ∙ severed target.id
              (record db { users = (impose moderator target reason until remark db).users });
      no_pending = r.none_pending;
      logged = r.logged;
    }

-- What the column keeps of the end of the ban, if it has one, is not before the end.
abbrev pub is_ahead : Option Aware → Bool
is_ahead none = true
is_ahead (some t) = leb t.utc t.column

in_force_lem :
    (moderator target : User) (reason : String) (until : Option Aware) (now : ℕ)
    → expired_already until now ≡ false
    → is_ahead until ≡ true
    → is_actively_banned (banned moderator reason (kept until) now target) now ≡ true
unfolding banned is_actively_banned
in_force_lem moderator target reason none now h k = refl
in_force_lem moderator target reason (some t) now h k = ground arith

-- The stored target is banned, with what `IsRecorded` says.
pub record HasBan (moderator target : User) (until : Option Aware) (remark : Option String)
    (before after : Db) : Type 0 where
  pub text : String
  pub recorded : IsRecorded text moderator target until remark before after
  pub row : User
  pub row_stored : find_where (is_user target.id) after.users ≡ some row
  pub in_force : is_actively_banned row before.now ≡ true

-- A ban that returns, of a stored user who was not banned, for ever or until a time of which the
-- column keeps no earlier one: the stored user is banned, follow edges and friend requests of the
-- target are gone, no report against the target is pending, and the ledger keeps its rows and takes
-- one for the ban and one for each report that was pending.
pub ban_user_lem :
    (strip : String → String) (moderator target u : User) (reason : String) (until : Option Aware)
    (remark : Option String) (db : Db)
    → find_where (is_user target.id) db.users ≡ some target
    → is_actively_banned target db.now ≡ false
    → is_ahead until ≡ true
    → (ban_user strip moderator target reason until remark db).0 ≡ ok u
    → HasBan moderator target until remark db
        (ban_user strip moderator target reason until remark db).1
ban_user_lem strip moderator target u reason until remark db f h a k =
    let i = ban_user-Imposed strip moderator target u reason until remark db h k in
    let recorded = IsRecorded-impose moderator target i.text until remark db f in
    rw i.after (record {
      text = i.text;
      recorded = recorded;
      row = banned moderator i.text (kept until) db.now target;
      row_stored = recorded.stored;
      in_force = in_force_lem moderator target i.text until db.now i.unexpired a;
    })

-- A ban that returns, of a stored user who was not banned, until a time of which the column keeps one
-- that has passed (a clock behind UTC): the returned user is banned, the stored user is not.
pub ban_user-lapsed :
    (strip : String → String) (moderator target u : User) (reason : String) (until : Aware)
    (remark : Option String) (db : Db)
    → find_where (is_user target.id) db.users ≡ some target
    → is_actively_banned target db.now ≡ false
    → (ban_user strip moderator target reason (some until) remark db).0 ≡ ok u
    → until.column ≤ db.now
    → (is_actively_banned u db.now ≡ true)
      × ((row : User) × (find_where
              (is_user target.id)
              (ban_user strip moderator target reason (some until) remark db).1.users
            ≡ some row)
          × (is_actively_banned row db.now ≡ false))
unfolding is_actively_banned banned
ban_user-lapsed strip moderator target u reason until remark db f h k l =
    let i = ban_user-Imposed strip moderator target u reason (some until) remark db h k in
    let b = IsRecorded-impose moderator target i.text (some until) remark db f in
    (
      rw i.result (ground (arith, i.unexpired)),
      (
        banned moderator i.text (some until.column) db.now target,
        rw i.after b.stored,
        ground (arith, l),
      ),
    )
