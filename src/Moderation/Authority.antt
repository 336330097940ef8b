-- ===== src/Moderation/Authority.antt =====
-- Who may enforce against whom, and that a refused call changes nothing.
use biexce_social_network.UserState.{role_rank, is_staff}
use biexce_social_network.Models.{Exec, Comment, Post, User, Db}
use biexce_social_network.Prelude.{
  insufficient_role, ap, self_unban, self_action, self_ban, staff_required, some, refl, arith, inr,
  ◌<◌, ℕ, inl, ◌≢◌, ◌↔◌, err, ◌⊎◌, Option, Error, ◌≤◌, ok, ◌≡◌, Result,
}
use biexce_social_network.Moderation.{
  insufficient_role, guarded, self_action, staff_required, some, ℕ, Option, err, ok, role_rank,
  Result, is_staff, Guard, String, Db, require_can_enforce,
}
use biexce_social_network.Moderation.Bans.{Aware, renamed, ban_user, unban_user}
use biexce_social_network.Moderation.Enforcement.{warn_user}
use biexce_social_network.Moderation.Removal.{
  find_author, delete_post_moderation, delete_comment_moderation,
}

-- The guard passes exactly if the two users differ and the actor's role is strictly higher, in the
-- order user, moderator, admin: staff rank is implied.
pub require_can_enforce_lem :
    (actor target : User)
    → (require_can_enforce actor target ≡ ok tt)
      ↔ ((actor.id ≢ target.id) × (role_rank target.role < role_rank actor.role))
unfolding require_can_enforce is_staff role_rank
require_can_enforce_lem actor target =
    (λ h. (ground (arith, h), ground (arith, h)), λ h. ground (arith, h))

-- The guard raises `Error` and the state is left as it is.
abbrev pub Refused : {A : Type 0} → Db → Result A × Db → Type 0
Refused {A} db r = ((e : Error) × (r.0 ≡ err e)) × (r.1 ≡ db)

guarded-Refused :
    {A : Type 0} (g : Guard) (go : Exec A) (db : Db)
    → ((e : Error) × (g ≡ err e))
    → Refused db (guarded g go db)
guarded-Refused g go db (e, h) = rw h ((e, refl), refl)

outranked :
    (moderator target : User)
    → role_rank moderator.role ≤ role_rank target.role
    → (require_can_enforce moderator target ≡ err staff_required)
      ⊎ ((require_can_enforce moderator target ≡ err self_action)
          ⊎ (require_can_enforce moderator target ≡ err insufficient_role))
unfolding require_can_enforce is_staff role_rank
outranked moderator target h = ground arith

raises :
    (moderator target : User)
    → role_rank moderator.role ≤ role_rank target.role
    → (e : Error) × (require_can_enforce moderator target ≡ err e)
raises moderator target h = elim (outranked moderator target h) [
  | inl e ↦ (staff_required, e)
  | inr (inl e) ↦ (self_action, e)
  | inr (inr e) ↦ (insufficient_role, e)
]

raises_renamed :
    (name : Error) (moderator target : User)
    → role_rank moderator.role ≤ role_rank target.role
    → (e : Error) × (renamed name (require_can_enforce moderator target) ≡ err e)
raises_renamed name moderator target h = elim (outranked moderator target h) [
  | inl e ↦ (staff_required, ap (renamed name) e)
  | inr (inl e) ↦ (name, ap (renamed name) e)
  | inr (inr e) ↦ (insufficient_role, ap (renamed name) e)
]

-- A moderator who does not outrank a user can neither ban, unban nor warn the user, nor remove the
-- user's posts and comments: each call raises and leaves the database as it was.
pub no_authority_lem :
    (strip : String → String) (moderator target : User) (db : Db)
    → role_rank moderator.role ≤ role_rank target.role
    → (reason : String) (until : Option Aware) (remark : Option String) (report_id : Option ℕ)
      (p : Post) (c : Comment)
    → find_author p.author_id db ≡ some target
    → find_author c.author_id db ≡ some target
    → Refused db (ban_user strip moderator target reason until remark db)
      × Refused db (unban_user moderator target db)
      × Refused db (warn_user strip moderator target reason remark report_id db)
      × Refused db (delete_post_moderation strip moderator p reason db)
      × Refused db (delete_comment_moderation strip moderator c reason db)
unfolding ban_user unban_user warn_user delete_post_moderation delete_comment_moderation
no_authority_lem strip moderator target db h reason until remark report_id p c hp hc =
    let plain = raises moderator target h in
    (
      guarded-Refused _ _ db (raises_renamed self_ban moderator target h),
      guarded-Refused _ _ db (raises_renamed self_unban moderator target h),
      guarded-Refused _ _ db plain,
      rw hp (guarded-Refused _ _ db plain),
      rw hc (guarded-Refused _ _ db plain),
    )
