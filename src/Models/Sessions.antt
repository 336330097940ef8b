-- ===== src/Models/Sessions.antt =====
-- ting_ting/models.py: the tables of the sign-in services. A session id (the text of a uuid) and a
-- SHA-256 digest (64 hexadecimal digits) are the numbers that they write.
use biexce_social_network.Prelude.{ℕ, Option}

pub record AuthSession : Type 0 where
  pub id : ℕ
  pub user_id : ℕ
  pub created_at : ℕ
  pub expires_at : ℕ
  pub revoked_at : Option ℕ

pub record RefreshToken : Type 0 where
  pub id : ℕ
  pub session_id : ℕ
  pub user_id : ℕ
  pub token_hash : ℕ
  pub created_at : ℕ
  pub expires_at : ℕ
  pub revoked_at : Option ℕ
  pub replaced_by_id : Option ℕ
