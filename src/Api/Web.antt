-- ===== src/Api/Web.antt =====
-- A request handler: ting_ting/database.py, get_db, and ting_ting/errors.py. A handler works in a
-- session over the committed database; what it has not committed is gone when the session closes.
use Prim.Native.String.{String}
use biexce_social_network.Prelude.{
  os_error, invalid_request_error, ℕ, Bool, true, false, Option, none, some, Result, ok, err, Error,
  if◌then◌else◌, multiple_results_found, integrity_error, recursion_error, index_error,
}
use biexce_social_network.Models.{Db, Exec, Rival}
use biexce_social_network.Keyset.{Codec}

-- The "code" of the error envelope.
pub data Code : Type 0 where
  not_found conflict forbidden validation validation_error unauthenticated invalid_token
        session_expired banned :
      Code

-- An HTTPException with its status, or an exception that nothing catches: a 500.
pub data Failure : Type 0 where
  http : ℕ → Code → Failure
  unhandled : Error → Failure

pub data Reply {ℓ} (A : Type ℓ) : Type ℓ where
  returned : A → Reply A
  raised : Failure → Reply A

-- The database as committed, and as the session sees it.
pub record Conn : Type 0 where
  pub committed : Db
  pub working : Db

abbrev pub Web : Type 0 → Type 0
Web A = Conn → Reply A × Conn

-- What the handlers are given: what other requests commit between a check and its insert (`rival`,
-- `notify`) and between the commit and a reload (`meanwhile`), str.strip, the libraries behind a
-- cursor, Python's recursion limit, and the deletion of the stored files of a post.
pub record Env : Type 0 where
  pub rival : Rival
  pub notify : Rival
  pub strip : String → String
  pub codec : Codec
  pub depth : ℕ
  pub meanwhile : Rival
  pub delete_stored_files : ℕ → Result (Unit {0})

module _ {A : Type 0} where
  unfoldable pub pure : A → Web A
  pure a c = (returned a, c)

  unfoldable pub refuse : ℕ → Code → Web A
  refuse status code c = (raised (http status code), c)

  -- A read of the database.
  unfoldable pub query : (Db → A) → Web A
  query f c = (returned (f c.working), c)

  -- `if x is None: raise HTTPException(…)`
  unfoldable pub require : Option A → ℕ → Code → Web A
  unfolding pure refuse
  require none status code = refuse status code
  require (some a) status code = pure a

-- The exceptions of the database layer and of Python are no `ValueError`.
unfoldable pub is_value_error : Error → Bool
is_value_error multiple_results_found = false
is_value_error integrity_error = false
is_value_error recursion_error = false
is_value_error index_error = false
is_value_error invalid_request_error = false
is_value_error os_error = false
is_value_error _ = true

module _ {A : Type 0} where
  abbrev pub settle : (Error → Failure) → Result A × Db → Conn → Reply A × Conn
  settle catch (ok a, db) c = (returned a, record c { working = db })
  settle catch (err e, db) c =
      (raised (if is_value_error e then catch e else unhandled e), record c { working = db })

  -- A call of a service in `try: … except ValueError`; the handler that raises again is `unhandled`.
  unfoldable pub attempt : Exec A → (Error → Failure) → Web A
  attempt call catch c = settle catch (call c.working) c

  -- A call with no handler.
  abbrev pub execute : Exec A → Web A
  execute call = attempt call unhandled

-- A query that may raise.
abbrev pub reading : {A : Type 0} → (Db → Result A) → Exec A
reading f db = (f db, db)

unfoldable pub commit : Web (Unit {0})
commit c = (returned tt, record c { committed = c.working })

module _ {A : Type 0} where
  abbrev pub reloaded : Db → Option A → Reply A × Conn
  reloaded db none =
      (raised (unhandled invalid_request_error), record { committed = db; working = db })
  reloaded db (some a) = (returned a, record { committed = db; working = db })

  -- `db.refresh(row)` after the commit, in a new transaction, which sees what others have committed.
  -- A row that is gone raises `InvalidRequestError`.
  unfoldable pub refresh : Env → (Db → Option A) → Web A
  refresh env find c = let db = env.meanwhile c.committed in reloaded db (find db)

module _ {A B : Type 0} where
  abbrev pub next : (A → Web B) → Reply A × Conn → Reply B × Conn
  next f (returned a, c) = f a c
  next f (raised x, c) = (raised x, c)

  infixl 10 ◌>>=◌
  unfoldable pub ◌>>=◌ : Web A → (A → Web B) → Web B
  (m >>= f) c = next f (m c)

infixl 10 ◌>>◌
abbrev pub ◌>>◌ : {B : Type 0} → Web (Unit {0}) → Web B → Web B
m >> k = m >>= λ u. k

abbrev pub when : Bool → Web (Unit {0}) → Web (Unit {0})
when b m = if b then m else pure tt

-- A request from an open session to its close: the reply, and the database afterwards.
unfoldable pub serve : {A : Type 0} → Web A → Db → Reply A × Db
serve m db = let r = m (record { committed = db; working = db }) in (r.0, r.1.committed)
