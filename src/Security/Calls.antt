-- ===== src/Security/Calls.antt =====
-- ting_ting/security.py, RateLimiter: a sequence of calls, and what it is for one key.
use biexce_social_network.Prelude.{
  ℕ, List, [], ◌∷◌, ◌&&◌, ◌≡◌, ◌≤◌, refl, if◌then◌else◌, arith, Bool-cases, inl, inr, ap, ◌∙◌,
}
use biexce_social_network.Security.{Text, text_eq}
use biexce_social_network.Security.Limiter.{Events, Limiter, events_of, store, admit, allow}
use biexce_social_network.Security.Deques.{
  text_eq_sound, events_of-store_self, events_of-store_other,
}

-- One call of `allow`: its key and its time.
pub record Call : Type 0 where
  pub key : Text
  pub time : ℕ

-- The calls come in the order of the clock, none before `start`.
pub data InOrder : ℕ → List Call → Type 0 where
  done : {start : ℕ} → InOrder start []
  later :
      {start : ℕ} {c : Call} {cs : List Call}
      → start ≤ c.time
      → InOrder c.time cs
      → InOrder start (c ∷ cs)

module _ (w : ℕ) where
  -- The calls on one key, decided on its deque alone.
  unfoldable pub admitted : Text → ℕ → Events → List Call → Events
  admitted k limit es [] = []
  admitted k limit es (c ∷ cs) =
      let r = admit limit w c.time es in
      let mine = admitted k limit r.1 cs in
      let other = admitted k limit es cs in
      if text_eq c.key k then (if r.0 then c.time ∷ mine else mine) else other

  -- The deque of one key after the calls.
  unfoldable pub deque_after : Text → ℕ → Events → List Call → Events
  deque_after k limit es [] = es
  deque_after k limit es (c ∷ cs) =
      let mine = deque_after k limit (admit limit w c.time es).1 cs in
      let other = deque_after k limit es cs in if text_eq c.key k then mine else other

module _ (limit_of : Text → ℕ) (w : ℕ) where
  -- The times at which the calls on a key are let through.
  unfoldable pub granted : Text → List Call → Limiter → Events
  granted k [] m = []
  granted k (c ∷ cs) m =
      let r = allow c.key (limit_of c.key) w c.time m in
      let rest = granted k cs r.1 in if r.0 && text_eq c.key k then c.time ∷ rest else rest

  -- The limiter after the calls.
  unfoldable pub run : List Call → Limiter → Limiter
  run [] m = m
  run (c ∷ cs) m = run cs (allow c.key (limit_of c.key) w c.time m).1

  -- Keys do not interfere.
  pub granted-eq-admitted :
      (k : Text) (cs : List Call) (m : Limiter)
      → granted k cs m ≡ admitted w k (limit_of k) (events_of k m) cs
  unfolding granted admitted allow
  granted-eq-admitted k [] m = refl
  granted-eq-admitted k (c ∷ cs) m = elim (Bool-cases (text_eq c.key k)) [
    | inl e ↦
        let r = admit (limit_of k) w c.time (events_of k m) in
        rw (e, text_eq_sound c.key k e)
          (ground (
            arith,
            granted-eq-admitted k cs (store k r.1 m)
                ∙ ap (λ es. admitted w k (limit_of k) es cs) (events_of-store_self k r.1 m),
          ))
    | inr e ↦
        let r = admit (limit_of c.key) w c.time (events_of c.key m) in
        rw e (
          ground (
            arith,
            granted-eq-admitted k cs (store c.key r.1 m)
                ∙ ap (λ es. admitted w k (limit_of k) es cs)
                    (events_of-store_other c.key k r.1 m e),
          ))
  ]

  pub events_of-run :
      (k : Text) (cs : List Call) (m : Limiter)
      → events_of k (run cs m) ≡ deque_after w k (limit_of k) (events_of k m) cs
  unfolding run deque_after allow
  events_of-run k [] m = refl
  events_of-run k (c ∷ cs) m = elim (Bool-cases (text_eq c.key k)) [
    | inl e ↦
        let r = admit (limit_of k) w c.time (events_of k m) in
        rw (e, text_eq_sound c.key k e)
          (events_of-run k cs (store k r.1 m)
            ∙ ap (λ es. deque_after w k (limit_of k) es cs) (events_of-store_self k r.1 m))
    | inr e ↦
        let r = admit (limit_of c.key) w c.time (events_of c.key m) in
        rw e (
          events_of-run k cs (store c.key r.1 m)
          ∙ ap (λ es. deque_after w k (limit_of k) es cs) (events_of-store_other c.key k r.1 m e))
  ]
