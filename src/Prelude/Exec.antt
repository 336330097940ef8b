-- ===== src/Prelude/Exec.antt =====
-- What a service function returns: a value, or the error that it raises.
use mathlib.Core.Path.{◌≡◌, refl}
use mathlib.Core.Logic.{◌⊎◌, inl, inr}
use mathlib.Core.Option.{Option, none, some}
use mathlib.Core.List.{List, [], ◌∷◌}

-- The code of a `ValueError`, or an exception of the database layer.
pub data Error : Type 0 where
  self_follow blocked not_owner not_pending invalid_direction : Error
  self_request already_exists not_recipient not_participant not_friends not_sender : Error
  self_block already_blocked self_mute already_muted : Error
  forbidden parent_not_found parent_mismatch reply_to_reply : Error
  staff_required self_action insufficient_role self_ban self_unban invalid_reason : Error
  invalid_expiry self_report content_requires_post invalid_status invalid_report : Error
  admin_required self_role_change banned_target target_missing invalid_password : Error
  invalid_refresh refresh_expired session_expired refresh_replay invalid_role : Error
  multiple_results_found integrity_error recursion_error index_error : Error
  invalid_request_error os_error : Error

pub data Result {ℓ} (A : Type ℓ) : Type ℓ where
  ok : A → Result A
  err : Error → Result A

infixl 10 ◌>>=◌
abbrev pub ◌>>=◌ {ℓ κ} : {A : Type ℓ} {B : Type κ} → Result A → (A → Result B) → Result B
ok a >>= f = f a
err e >>= f = err e

module _ {ℓ} {A : Type ℓ} where
  pub Result-cases : (r : Result A) → ((a : A) × (r ≡ ok a)) ⊎ ((e : Error) × (r ≡ err e))
  Result-cases (ok a) = inl (a, refl)
  Result-cases (err e) = inr (e, refl)

  -- `.scalar_one_or_none()`: more than one row raises `MultipleResultsFound`.
  unfoldable pub scalar_one_or_none : List A → Result (Option A)
  scalar_one_or_none [] = ok none
  scalar_one_or_none (x ∷ []) = ok (some x)
  scalar_one_or_none (x ∷ y ∷ ys) = err multiple_results_found
