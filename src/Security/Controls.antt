-- ===== src/Security/Controls.antt =====
-- ting_ting/main.py, _security_controls: the checks that run before a request is handled.
use biexce_social_network.Prelude.{ℕ, Bool, true, false, Option, none, some, ◌++◌, if◌then◌else◌}
use biexce_social_network.Security.{
  Text, codes, Request, Compare, api_cookie_csrf_violation, request_rate_limit, normalize_api_path,
}
use biexce_social_network.Security.Limiter.{Limiter, allow}

-- What becomes of a request; `server_error` is an exception that nothing handles.
pub data Outcome : Type 0 where
  csrf_refused rate_limited handled server_error : Outcome

abbrev pub client_of : Request → Text
client_of r = elim r.client [ some host ↦ host | none ↦ codes "unknown" ]

-- f"{client}:{request.method}:{norm_path}"
unfoldable pub bucket : Request → Text
bucket r = client_of r ++ codes ":" ++ r.method ++ codes ":" ++ normalize_api_path r.path

unfoldable pub limited : Option ℕ → Text → ℕ → ℕ → Limiter → Outcome × Limiter
limited none key ticks now m = (handled, m)
limited (some limit) key ticks now m =
    let r = allow key limit ticks now m in ((if r.0 then handled else rate_limited), r.1)

-- The response to the CSRF decision, whose `none` is the TypeError, then the rate limit.
unfoldable pub decided : Option Bool → Option ℕ → Text → ℕ → ℕ → Limiter → Outcome × Limiter
unfolding limited
decided none limit key ticks now m = (server_error, m)
decided (some true) limit key ticks now m = (csrf_refused, m)
decided (some false) limit key ticks now m = limited limit key ticks now m

-- `enabled` is settings.rate_limit_enabled, and `minute` the ticks of the clock in 60 seconds.
unfoldable pub security_controls : Compare → Bool → ℕ → Request → ℕ → Limiter → Outcome × Limiter
security_controls compare_digest enabled minute r now m =
    decided (api_cookie_csrf_violation compare_digest r)
      (if enabled then request_rate_limit r else none) (bucket r) minute now m
