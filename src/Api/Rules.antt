-- ===== src/Api/Rules.antt =====
-- What a handler does to the committed database, one rule for each way to build a handler.
use biexce_social_network.Prelude.{
  ℕ, Bool, true, false, Option, none, some, Error, if◌then◌else◌, ◌≡◌, refl, ◌∙◌, ok, err, Result,
}
use biexce_social_network.Models.{Db, Exec}
use biexce_social_network.Api.Web.{
  is_value_error, Env, http, reloaded, unhandled, refresh, Web, Conn, Reply, returned, raised,
  Failure, Code, pure, refuse, query, require, attempt, settle, commit, next, ◌>>=◌,
}

-- The reply is an error with a status of its own, not a 500.
abbrev pub IsRefusal : {A : Type 0} → Reply A → Type 0
IsRefusal (returned a) = ⊥
IsRefusal (raised (http status code)) = Unit
IsRefusal (raised (unhandled e)) = ⊥

-- Nothing is committed.
pub record IsUncommitted {A : Type 0} (m : Web A) : Type 0 where
  pub kept : (c : Conn) → (m c).1.committed ≡ c.committed

-- Nothing is refused.
pub record IsSure {A : Type 0} (m : Web A) : Type 0 where
  pub sure : (c : Conn) → IsRefusal (m c).0 → ⊥

-- Nothing is committed if the handler refuses.
pub record IsAtomic {A : Type 0} (m : Web A) : Type 0 where
  pub atomic : (c : Conn) → IsRefusal (m c).0 → (m c).1.committed ≡ c.committed

module _ {A : Type 0} where
  pub IsUncommitted-pure : (a : A) → IsUncommitted (pure a)
  unfolding pure
  IsUncommitted-pure a = record { kept = λ c. refl }

  pub IsUncommitted-refuse : (status : ℕ) (code : Code) → IsUncommitted (refuse {A = A} status code)
  unfolding refuse
  IsUncommitted-refuse status code = record { kept = λ c. refl }

  pub IsUncommitted-query : (f : Db → A) → IsUncommitted (query f)
  unfolding query
  IsUncommitted-query f = record { kept = λ c. refl }

  pub IsUncommitted-require :
      (o : Option A) (status : ℕ) (code : Code) → IsUncommitted (require o status code)
  unfolding require
  IsUncommitted-require none status code = IsUncommitted-refuse status code
  IsUncommitted-require (some a) status code = IsUncommitted-pure a

  settle-kept :
      (catch : Error → Failure) (r : Result A × Db) (c : Conn)
      → (settle catch r c).1.committed ≡ c.committed
  settle-kept catch (ok a, db) c = refl
  settle-kept catch (err e, db) c = refl

  pub IsUncommitted-attempt :
      (call : Exec A) (catch : Error → Failure) → IsUncommitted (attempt call catch)
  unfolding attempt
  IsUncommitted-attempt call catch = record { kept = λ c. settle-kept catch (call c.working) c }

  pub IsUncommitted-if :
      (b : Bool) (m n : Web A)
      → IsUncommitted m
      → IsUncommitted n
      → IsUncommitted (if b then m else n)
  IsUncommitted-if true m n h k = h
  IsUncommitted-if false m n h k = k

  pub IsSure-pure : (a : A) → IsSure (pure a)
  unfolding pure
  IsSure-pure a = record { sure = λ c h. h }

  pub IsSure-query : (f : Db → A) → IsSure (query f)
  unfolding query
  IsSure-query f = record { sure = λ c h. h }

  pub IsSure-if : (b : Bool) (m n : Web A) → IsSure m → IsSure n → IsSure (if b then m else n)
  IsSure-if true m n h k = h
  IsSure-if false m n h k = k

  pub IsAtomic-if :
      (b : Bool) (m n : Web A) → IsAtomic m → IsAtomic n → IsAtomic (if b then m else n)
  IsAtomic-if true m n h k = h
  IsAtomic-if false m n h k = k

  pub IsAtomic-of_uncommitted : (m : Web A) → IsUncommitted m → IsAtomic m
  IsAtomic-of_uncommitted m h = record { atomic = λ c r. h.kept c }

  pub IsAtomic-of_sure : (m : Web A) → IsSure m → IsAtomic m
  IsAtomic-of_sure m h = record { atomic = λ c r. absurd (h.sure c r) }

unhandled_sure :
    (B : Type 0) (b : Bool) (e : Error)
    → IsRefusal {A = B} (raised (if b then unhandled e else unhandled e))
    → ⊥
unhandled_sure B true e h = h
unhandled_sure B false e h = h

module _ {A : Type 0} where
  settle_sure : (r : Result A × Db) (c : Conn) → IsRefusal (settle unhandled r c).0 → ⊥
  settle_sure (ok a, db) c h = h
  settle_sure (err e, db) c h = unhandled_sure A (is_value_error e) e h

  pub IsSure-attempt : (call : Exec A) → IsSure (attempt call unhandled)
  unfolding attempt
  IsSure-attempt call = record { sure = λ c. settle_sure (call c.working) c }

  reloaded_sure : (db : Db) (o : Option A) → IsRefusal (reloaded db o).0 → ⊥
  reloaded_sure db none h = h
  reloaded_sure db (some a) h = h

  pub IsSure-refresh : (env : Env) (find : Db → Option A) → IsSure (refresh env find)
  unfolding refresh
  IsSure-refresh env find = record {
    sure = λ c. let db = env.meanwhile c.committed in reloaded_sure db (find db);
  }

pub IsSure-commit : IsSure commit
unfolding commit
IsSure-commit = record { sure = λ c h. h }

module _ {A B : Type 0} where
  next-kept :
      (f : A → Web B)
      → ((a : A) → IsUncommitted (f a))
      → (r : Reply A × Conn) → (next f r).1.committed ≡ r.1.committed
  next-kept f h (returned a, c) = (h a).kept c
  next-kept f h (raised x, c) = refl

  pub IsUncommitted-bind :
      (m : Web A) (f : A → Web B)
      → IsUncommitted m
      → ((a : A) → IsUncommitted (f a))
      → IsUncommitted (m >>= f)
  unfolding ◌>>=◌
  IsUncommitted-bind m f h k = record { kept = λ c. next-kept f k (m c) ∙ h.kept c }

  next-sure :
      (f : A → Web B)
      → ((a : A) → IsSure (f a))
      → (r : Reply A × Conn) → (IsRefusal r.0 → ⊥)
      → IsRefusal (next f r).0
      → ⊥
  next-sure f h (returned a, c) s k = (h a).sure c k
  next-sure f h (raised (http status code), c) s k = s k
  next-sure f h (raised (unhandled e), c) s k = k

  pub IsSure-bind :
      (m : Web A) (f : A → Web B) → IsSure m → ((a : A) → IsSure (f a)) → IsSure (m >>= f)
  unfolding ◌>>=◌
  IsSure-bind m f h k = record { sure = λ c. next-sure f k (m c) (h.sure c) }

  next-atomic :
      (f : A → Web B)
      → ((a : A) → IsAtomic (f a))
      → (r : Reply A × Conn) → IsRefusal (next f r).0
      → (next f r).1.committed ≡ r.1.committed
  next-atomic f h (returned a, c) k = (h a).atomic c k
  next-atomic f h (raised x, c) k = refl

  pub IsAtomic-bind :
      (m : Web A) (f : A → Web B)
      → IsUncommitted m
      → ((a : A) → IsAtomic (f a))
      → IsAtomic (m >>= f)
  unfolding ◌>>=◌
  IsAtomic-bind m f h k = record { atomic = λ c r. next-atomic f k (m c) r ∙ h.kept c }

  next-last :
      (f : A → Web B)
      → ((a : A) → IsSure (f a))
      → (r : Reply A × Conn) → IsRefusal (next f r).0
      → IsRefusal r.0 × ((next f r).1.committed ≡ r.1.committed)
  next-last f h (returned a, c) k = absurd ((h a).sure c k)
  next-last f h (raised (http status code), c) k = (k, refl)
  next-last f h (raised (unhandled e), c) k = (k, refl)

  -- What follows a commit has to be sure.
  pub IsAtomic-bind_sure :
      (m : Web A) (f : A → Web B) → IsAtomic m → ((a : A) → IsSure (f a)) → IsAtomic (m >>= f)
  unfolding ◌>>=◌
  IsAtomic-bind_sure m f h k = record {
    atomic = λ c r. let l = next-last f k (m c) r in l.1 ∙ h.atomic c l.0;
  }

-- The handler only reads.
pub record IsReading {A : Type 0} (m : Web A) : Type 0 where
  pub same : (c : Conn) → (m c).1 ≡ c

module _ {A : Type 0} where
  pub IsReading-pure : (a : A) → IsReading (pure a)
  unfolding pure
  IsReading-pure a = record { same = λ c. refl }

  pub IsReading-refuse : (status : ℕ) (code : Code) → IsReading (refuse {A = A} status code)
  unfolding refuse
  IsReading-refuse status code = record { same = λ c. refl }

  pub IsReading-query : (f : Db → A) → IsReading (query f)
  unfolding query
  IsReading-query f = record { same = λ c. refl }

  pub IsReading-require :
      (o : Option A) (status : ℕ) (code : Code) → IsReading (require o status code)
  unfolding require
  IsReading-require none status code = IsReading-refuse status code
  IsReading-require (some a) status code = IsReading-pure a

  pub IsReading-if :
      (b : Bool) (m n : Web A) → IsReading m → IsReading n → IsReading (if b then m else n)
  IsReading-if true m n h k = h
  IsReading-if false m n h k = k

module _ {A B : Type 0} where
  next-same :
      (f : A → Web B) → ((a : A) → IsReading (f a)) → (r : Reply A × Conn) → (next f r).1 ≡ r.1
  next-same f h (returned a, c) = (h a).same c
  next-same f h (raised x, c) = refl

  pub IsReading-bind :
      (m : Web A) (f : A → Web B) → IsReading m → ((a : A) → IsReading (f a)) → IsReading (m >>= f)
  unfolding ◌>>=◌
  IsReading-bind m f h k = record { same = λ c. next-same f k (m c) ∙ h.same c }

pub ruleset reading_rules = (
  IsReading-pure, IsReading-refuse, IsReading-query, IsReading-require, IsReading-if,
  IsReading-bind,
)

pub ruleset uncommitted_rules = (
  IsUncommitted-pure, IsUncommitted-refuse, IsUncommitted-query, IsUncommitted-require,
  IsUncommitted-attempt, IsUncommitted-if, IsUncommitted-bind,
)

pub ruleset sure_rules = (
  IsSure-attempt, IsSure-refresh, IsSure-pure, IsSure-query, IsSure-if, IsSure-commit, IsSure-bind,
)

-- A handler is read step by step up to its commit; what follows is sure.
pub ruleset atomic_rules = (
  uncommitted_rules, sure_rules, IsAtomic-if, IsAtomic-of_uncommitted, IsAtomic-of_sure,
  IsAtomic-bind, IsAtomic-bind_sure,
)
