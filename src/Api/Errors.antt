-- ===== src/Api/Errors.antt =====
-- The errors that a service raises, one rule for each way to build a service.
use biexce_social_network.Prelude.{
  ℕ, Bool, true, false, not, Option, none, some, List, [], ◌∷◌, Error, if◌then◌else◌, ◌≡◌, ◌||◌,
  refl, ok, err, Result, scalar_one_or_none, multiple_results_found,
}
use biexce_social_network.Models.{Db, Exec, on_found}
use biexce_social_network.Moderation.{Guard, guarded}
use biexce_social_network.Api.Web.{
  Env, reloaded, refresh, Web, Conn, Reply, returned, raised, Failure, http, unhandled, Code,
  is_value_error, pure, refuse, query, require, attempt, settle, commit, next, ◌>>=◌,
}

-- An outcome whose error, if it is one, is among those of `P`.
abbrev pub Errs : {A : Type 0} → (Error → Bool) → Result A → Type 0
Errs P (ok a) = Unit
Errs P (err e) = P e ≡ true

pub record Raises {A : Type 0} (P : Error → Bool) (r : Result A × Db) : Type 0 where
  pub errs : Errs P r.0

module _ {A : Type 0} {P : Error → Bool} where
  pub Raises-ok : (a : A) (db : Db) → Raises P (ok a, db)
  Raises-ok a db = record { errs = tt }

  pub Raises-err : (e : Error) (db : Db) → P e ≡ true → Raises {A = A} P (err e, db)
  Raises-err e db h = record { errs = h }

  pub Raises-if :
      (b : Bool) (x y : Result A × Db)
      → (b ≡ true → Raises P x)
      → (b ≡ false → Raises P y)
      → Raises P (if b then x else y)
  Raises-if true x y h k = h refl
  Raises-if false x y h k = k refl

  -- Whatever is raised.
  pub Raises-all : (r : Result A × Db) → ((e : Error) → P e ≡ true) → Raises P r
  Raises-all (ok a, db) h = record { errs = tt }
  Raises-all (err e, db) h = record { errs = h e }

  -- A query for one row raises `MultipleResultsFound` alone.
  pub Raises-found :
      {B : Type 0} (xs : List B) (absent : Exec A) (present : B → Exec A) (db : Db)
      → P multiple_results_found ≡ true
      → Raises P (absent db)
      → ((b : B) → Raises P (present b db))
      → Raises P (on_found (scalar_one_or_none xs) absent present db)
  unfolding scalar_one_or_none
  Raises-found [] absent present db m h k = h
  Raises-found (x ∷ []) absent present db m h k = k x
  Raises-found (x ∷ y ∷ ys) absent present db m h k = record { errs = m }

  pub Raises-guarded :
      (g : Guard) (go : Exec A) (db : Db) → Errs P g → Raises P (go db) → Raises P (guarded g go db)
  Raises-guarded (ok u) go db h k = k
  Raises-guarded (err e) go db h k = record { errs = h }

pub ruleset error_rules = (Raises-ok, Raises-err, Raises-if, Raises-found)

abbrev pub is_http : Failure → Bool
is_http (http status code) = true
is_http (unhandled e) = false

-- The errors that a handler answers, or that are no `ValueError`.
abbrev pub answered : (Error → Failure) → Error → Bool
answered catch e = not (is_value_error e) || is_http (catch e)

-- No `ValueError` escapes to the reply.
abbrev pub Answered : Failure → Type 0
Answered (http status code) = Unit
Answered (unhandled e) = is_value_error e ≡ false

abbrev pub Caught : {A : Type 0} → Reply A → Type 0
Caught (returned a) = Unit
Caught (raised x) = Answered x

http-Answered : (x : Failure) → is_http x ≡ true → Answered x
http-Answered (http status code) h = tt
http-Answered (unhandled e) h = cc

chosen-Answered :
    (b : Bool) (x : Failure) (e : Error)
    → is_value_error e ≡ b
    → (not b || is_http x) ≡ true
    → Answered (if b then x else unhandled e)
chosen-Answered true x e v h = http-Answered x h
chosen-Answered false x e v h = v

pub record IsCaught {A : Type 0} (m : Web A) : Type 0 where
  pub caught : (c : Conn) → Caught (m c).0

module _ {A : Type 0} where
  pub IsCaught-pure : (a : A) → IsCaught (pure a)
  unfolding pure
  IsCaught-pure a = record { caught = λ c. tt }

  pub IsCaught-refuse : (status : ℕ) (code : Code) → IsCaught (refuse {A = A} status code)
  unfolding refuse
  IsCaught-refuse status code = record { caught = λ c. tt }

  pub IsCaught-query : (f : Db → A) → IsCaught (query f)
  unfolding query
  IsCaught-query f = record { caught = λ c. tt }

  pub IsCaught-require :
      (o : Option A) (status : ℕ) (code : Code) → IsCaught (require o status code)
  unfolding require
  IsCaught-require none status code = IsCaught-refuse status code
  IsCaught-require (some a) status code = IsCaught-pure a

  pub IsCaught-if :
      (b : Bool) (m n : Web A) → IsCaught m → IsCaught n → IsCaught (if b then m else n)
  IsCaught-if true m n h k = h
  IsCaught-if false m n h k = k

  settle-Caught :
      (catch : Error → Failure) (r : Result A × Db) (c : Conn)
      → Errs (answered catch) r.0
      → Caught (settle catch r c).0
  settle-Caught catch (ok a, db) c h = tt
  settle-Caught catch (err e, db) c h = chosen-Answered (is_value_error e) (catch e) e refl h

  pub IsCaught-attempt :
      (call : Exec A) (catch : Error → Failure)
      → ((db : Db) → Raises (answered catch) (call db))
      → IsCaught (attempt call catch)
  unfolding attempt
  IsCaught-attempt call catch h = record {
    caught = λ c. settle-Caught catch (call c.working) c (h c.working).errs;
  }

or_http : (b : Bool) (x : Failure) → is_http x ≡ true → (b || is_http x) ≡ true
or_http true x h = refl
or_http false x h = h

-- A handler that answers every error.
pub IsCaught-handled :
    {A : Type 0} (call : Exec A) (catch : Error → Failure)
    → ((e : Error) → is_http (catch e) ≡ true)
    → IsCaught (attempt call catch)
IsCaught-handled call catch h =
    IsCaught-attempt call catch
      (λ db. Raises-all (call db) (λ e. or_http (not (is_value_error e)) (catch e) (h e)))

reloaded-Caught : {A : Type 0} (db : Db) (o : Option A) → Caught (reloaded db o).0
unfolding is_value_error
reloaded-Caught db none = refl
reloaded-Caught db (some a) = tt

pub IsCaught-refresh : {A : Type 0} (env : Env) (find : Db → Option A) → IsCaught (refresh env find)
unfolding refresh
IsCaught-refresh env find = record {
  caught = λ c. let db = env.meanwhile c.committed in reloaded-Caught db (find db);
}

pub IsCaught-commit : IsCaught commit
unfolding commit
IsCaught-commit = record { caught = λ c. tt }

module _ {A B : Type 0} where
  next-Caught :
      (f : A → Web B)
      → ((a : A) → IsCaught (f a))
      → (r : Reply A × Conn) → Caught r.0
      → Caught (next f r).0
  next-Caught f h (returned a, c) k = (h a).caught c
  next-Caught f h (raised x, c) k = k

  pub IsCaught-bind :
      (m : Web A) (f : A → Web B) → IsCaught m → ((a : A) → IsCaught (f a)) → IsCaught (m >>= f)
  unfolding ◌>>=◌
  IsCaught-bind m f h k = record { caught = λ c. next-Caught f k (m c) (h.caught c) }

-- What follows a refusal does not run.
pub IsCaught-refused :
    {A B : Type 0} (status : ℕ) (code : Code) (f : A → Web B) → IsCaught (refuse status code >>= f)
unfolding ◌>>=◌ refuse
IsCaught-refused status code f = record { caught = λ c. tt }

pub ruleset caught_rules = (
  IsCaught-pure, IsCaught-refuse, IsCaught-query, IsCaught-require, IsCaught-if, IsCaught-attempt,
  IsCaught-commit, IsCaught-refresh, IsCaught-bind,
)
