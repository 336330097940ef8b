-- ===== src/Moderation.antt =====
-- ting_ting/moderation.py: the guards that its operations share, and the ledger.
pub mod Reports
pub mod Review
pub mod Bans
pub mod Enforcement
pub mod Removal
pub mod Authority
pub mod BanReports
pub mod BanEffects
pub mod Dedup
pub mod Racing
use biexce_social_network.Prelude.{
  insufficient_role, leb, self_action, ◌==◌, staff_required, invalid_reason, ◌||◌, ltb, ok, ◌>>=◌,
  Bool, if◌then◌else◌, ◌-◌, err, none, some, ℕ, Option, Result,
}
use Prim.Native.String.{same, String, count}
use text.Mathlib.Text.{◌==◌ as str_eq}
use biexce_social_network.Models.{
  Db, Exec, User, Report, ModerationAction, ActionType, ResourceType, append,
}
use biexce_social_network.UserState.{role_rank, is_staff}

-- `strip` is Python's `str.strip`.
unfoldable pub clean_reason : (String → String) → String → Result String
clean_reason strip reason =
    let value = strip reason in
    if str_eq value "" || ltb 120 (count value) then err invalid_reason else ok value

-- What a guard returns: nothing, or what it raises.
abbrev pub Guard : Type 0
Guard = Result (Unit {0})

unfoldable pub require_staff : User → Guard
require_staff actor = if is_staff actor then ok tt else err staff_required

unfoldable pub require_can_enforce : User → User → Guard
unfolding require_staff
require_can_enforce actor target = require_staff actor >>= λ _.
    if actor.id == target.id
    then err self_action
    else if leb (role_rank actor.role) (role_rank target.role)
    then err insufficient_role
    else ok tt

-- To go on if a guard passes.
abbrev pub guarded : {A : Type 0} → Guard → Exec A → Exec A
guarded (err e) go db = (err e, db)
guarded (ok u) go db = go db

-- The keyword arguments of `_record_action`.
pub record Entry : Type 0 where
  pub target : Option User
  pub reason : Option String
  pub note : Option String
  pub resource_type : Option ResourceType
  pub resource_id : Option ℕ
  pub previous_state : Option String
  pub new_state : Option String

abbrev pub no_entry : Entry
no_entry = record {
  target = none;
  reason = none;
  note = none;
  resource_type = none;
  resource_id = none;
  previous_state = none;
  new_state = none;
}

unfoldable pub new_action : User → ActionType → Entry → Db → ModerationAction
new_action actor action_type e db = record {
  id = db.actions.next_id;
  actor_id = some actor.id;
  target_user_id = elim e.target [ none ↦ none | some u ↦ some u.id ];
  action_type = action_type;
  reason = e.reason;
  note = e.note;
  resource_type = e.resource_type;
  resource_id = e.resource_id;
  previous_state = e.previous_state;
  new_state = e.new_state;
  created_at = db.now;
}

unfoldable pub record_action : User → ActionType → Entry → Db → Db
unfolding new_action
record_action actor action_type e db = record db {
  actions = append db.actions (new_action actor action_type e db);
}

-- `timedelta(days=30)` in microseconds.
abbrev evidence_retention : ℕ
evidence_retention = 2592000000000

-- No datetime of a row is before the origin, where the subtraction stops.
unfoldable pub retention_cutoff : ℕ → ℕ
retention_cutoff now = now - evidence_retention

unfoldable pub report_expired : Report → ℕ → Bool
unfolding retention_cutoff
report_expired r now = ltb r.created_at (retention_cutoff now)
