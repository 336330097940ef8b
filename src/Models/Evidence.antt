-- ===== src/Models/Evidence.antt =====
-- ting_ting/models.py: the tables of the moderation service.
use Prim.Native.String.{String}
use biexce_social_network.Prelude.{ℕ, Option}

pub data ReportReason : Type 0 where
  spam harassment hate_speech false_info other : ReportReason

pub data ReportStatus : Type 0 where
  pending resolved dismissed : ReportStatus

pub data ActionType : Type 0 where
  warning_issued user_banned user_unbanned report_resolved : ActionType
  report_dismissed post_removed comment_removed role_changed : ActionType

pub data ResourceType : Type 0 where
  user report post comment : ResourceType

pub record Report : Type 0 where
  pub id : ℕ
  pub reporter_id : Option ℕ
  pub target_user_id : Option ℕ
  pub post_id : Option ℕ
  pub comment_id : Option ℕ
  pub reason : ReportReason
  pub status : ReportStatus
  pub resolution_note : Option String
  pub resolved_by : Option ℕ
  pub created_at : ℕ
  pub resolved_at : Option ℕ

pub record UserWarning : Type 0 where
  pub id : ℕ
  pub user_id : ℕ
  pub issued_by : Option ℕ
  pub report_id : Option ℕ
  pub reason : String
  pub note : Option String
  pub created_at : ℕ

pub record ModerationAction : Type 0 where
  pub id : ℕ
  pub actor_id : Option ℕ
  pub target_user_id : Option ℕ
  pub action_type : ActionType
  pub reason : Option String
  pub note : Option String
  pub resource_type : Option ResourceType
  pub resource_id : Option ℕ
  pub previous_state : Option String
  pub new_state : Option String
  pub created_at : ℕ
