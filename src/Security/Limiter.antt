-- ===== src/Security/Limiter.antt =====
-- ting_ting/security.py, RateLimiter: for each key the times of the requests that were let through,
-- oldest first. A time is a number of clock ticks; the lock makes each call one step.
use biexce_social_network.Prelude.{
  ℕ, suc, Bool, true, false, List, [], ◌∷◌, ◌++◌, ◌+◌, leb, if◌then◌else◌,
}
use biexce_social_network.Security.{Text, text_eq}

abbrev pub Events : Type 0
Events = List ℕ

-- The dictionary of deques.
abbrev pub Limiter : Type 0
Limiter = List (Text × Events)

abbrev pub length : Events → ℕ
length [] = 0
length (e ∷ es) = suc (length es)

-- `self._events[key]`: an absent key reads as an empty deque.
unfoldable pub events_of : Text → Limiter → Events
events_of key [] = []
events_of key ((k, es) ∷ m) = if text_eq k key then es else events_of key m

unfoldable pub store : Text → Events → Limiter → Limiter
store key es [] = (key, es) ∷ []
store key es ((k, old) ∷ m) = if text_eq k key then (k, es) ∷ m else (k, old) ∷ store key es m

-- `while events and events[0] <= current - window: events.popleft()`
unfoldable pub drop_expired : ℕ → ℕ → Events → Events
drop_expired window current [] = []
drop_expired window current (e ∷ es) =
    let rest = drop_expired window current es in if leb (e + window) current then rest else e ∷ es

-- The decision on one deque, and the deque afterwards.
unfoldable pub admit : ℕ → ℕ → ℕ → Events → Bool × Events
unfolding drop_expired
admit limit window current events =
    let kept = drop_expired window current events in
    if leb limit (length kept) then (false, kept) else (true, kept ++ current ∷ [])

unfoldable pub allow : Text → ℕ → ℕ → ℕ → Limiter → Bool × Limiter
allow key limit window current m =
    let r = admit limit window current (events_of key m) in (r.0, store key r.1 m)
