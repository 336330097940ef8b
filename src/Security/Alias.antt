-- ===== src/Security/Alias.antt =====
-- ting_ting/security.py and main.py: what the request controls guarantee.
use biexce_social_network.Prelude.{
  ◌||◌, ℕ, Bool, true, false, not, Option, none, some, [], ◌∷◌, ◌++◌, ◌≡◌, refl, if◌then◌else◌,
  arith, inl, inr, sym, ap, ◌∙◌, Option-cases,
}
use biexce_social_network.Security.{
  limit_for, one_of, Text, codes, text_eq, starts_with, strip_prefix, Request, Compare,
  api_cookie_csrf_violation, request_rate_limit, normalize_api_path, token_missing, is_safe_method,
  is_api_path, given,
}
use biexce_social_network.Security.Limiter.{Limiter}
use biexce_social_network.Security.Controls.{decided, client_of, security_controls, bucket, handled}

-- The versioned path of an operation, and its alias.
abbrev pub versioned : Text → Text
versioned rest = codes "/api/v1/" ++ rest

abbrev pub alias : Text → Text
alias rest = codes "/api/" ++ rest

abbrev pub at_path : Text → Request → Request
at_path p r = record r { path = p }

-- The operation's own name does not start with a version.
abbrev pub is_versioned : Text → Bool
is_versioned rest = text_eq rest (codes "v1") || starts_with rest (codes "v1/")

normalize-versioned : (rest : Text) → normalize_api_path (versioned rest) ≡ alias rest
unfolding normalize_api_path
normalize-versioned rest = refl

normalize_plain :
    (path : Text)
    → text_eq path (codes "/api/v1") ≡ false
    → strip_prefix (codes "/api/v1/") path ≡ none
    → normalize_api_path path ≡ path
unfolding normalize_api_path
normalize_plain path h k = rw (h, k) refl

normalize-alias :
    (rest : Text) → is_versioned rest ≡ false → normalize_api_path (alias rest) ≡ alias rest
unfolding normalize_api_path
normalize-alias rest h = elim (Option-cases (strip_prefix (codes "v1/") rest)) [
  | inl e ↦ normalize_plain (alias rest) (ground (arith, h)) e
  | inr e ↦ ground (arith, h, e.1)
]

security_controls_ext :
    (compare_digest : Compare) (enabled : Bool) (minute : ℕ) (r s : Request) (now : ℕ) (m : Limiter)
    → api_cookie_csrf_violation compare_digest r ≡ api_cookie_csrf_violation compare_digest s
    → request_rate_limit r ≡ request_rate_limit s
    → bucket r ≡ bucket s
    → security_controls compare_digest enabled minute r now m
      ≡ security_controls compare_digest enabled minute s now m
unfolding security_controls
security_controls_ext compare_digest enabled minute r s now m a b c =
    ap (λ v. decided v (if enabled then request_rate_limit r else none) (bucket r) minute now m) a
    ∙ ap
        (λ l.
          decided (api_cookie_csrf_violation compare_digest s) (if enabled then l else none)
            (bucket r) minute now m)
        b
    ∙ ap
        (λ k.
          decided (api_cookie_csrf_violation compare_digest s)
            (if enabled then request_rate_limit s else none) k minute now m)
        c

-- An operation reached by its versioned path and by its alias, by otherwise equal requests, meets the
-- same decision and leaves the same limiter: they share one quota. Its name does not itself start
-- with a version.
pub security_controls-alias :
    (compare_digest : Compare) (enabled : Bool) (minute : ℕ) (r : Request) (rest : Text) (now : ℕ)
    (m : Limiter)
    → is_versioned rest ≡ false
    → security_controls compare_digest enabled minute (at_path (versioned rest) r) now m
      ≡ security_controls compare_digest enabled minute (at_path (alias rest) r) now m
unfolding request_rate_limit bucket api_cookie_csrf_violation
security_controls-alias compare_digest enabled minute r rest now m h =
    let same = normalize-versioned rest ∙ sym (normalize-alias rest h) in
    security_controls_ext compare_digest enabled minute (at_path (versioned rest) r)
      (at_path (alias rest) r) now m refl
      (ap
        (λ p.
          if not
            (one_of r.method (codes "POST" ∷ codes "PUT" ∷ codes "PATCH" ∷ codes "DELETE" ∷ []))
          then none
          else limit_for p)
        same)
      (ap (λ p. client_of r ++ codes ":" ++ r.method ++ codes ":" ++ p) same)

-- What a request that the browser's cookie authenticates has to carry: a token equal to the cookie's.
pub record CarriesToken (r : Request) : Type 0 where
  pub token : Text
  pub in_header : r.csrf_header ≡ some token
  pub in_cookie : r.csrf_cookie ≡ some token
  pub nonempty : given (some token) ≡ true

TokenMatches : Option Text → Option Text → Type 0
TokenMatches e s = (t : Text) × (s ≡ some t) × (e ≡ some t) × (given (some t) ≡ true)

token_missing-false :
    (compare_digest : Compare) (e s : Option Text)
    → ((a b : Text) → compare_digest a b ≡ some true → a ≡ b)
    → token_missing compare_digest e s ≡ some false
    → TokenMatches e s
unfolding token_missing TokenMatches
token_missing-false compare_digest (some (e ∷ es)) (some (s ∷ ss)) eq h =
    elim (Option-cases (compare_digest (e ∷ es) (s ∷ ss))) [
      | inl a ↦ ground (arith, a, h)
      | inr a ↦ (s ∷ ss, refl, ap some (eq (e ∷ es) (s ∷ ss) (ground (arith, a, h))), refl)
    ]
token_missing-false compare_digest none s eq h = cc
token_missing-false compare_digest (some []) s eq h = cc
token_missing-false compare_digest (some (e ∷ es)) none eq h = cc
token_missing-false compare_digest (some (e ∷ es)) (some []) eq h = cc

violation-token :
    (compare_digest : Compare) (r : Request)
    → is_safe_method r.method ≡ false
    → is_api_path r.path ≡ true
    → given r.authorization ≡ false
    → given r.auth_cookie ≡ true
    → api_cookie_csrf_violation compare_digest r
      ≡ token_missing compare_digest r.csrf_cookie r.csrf_header
unfolding api_cookie_csrf_violation
violation-token compare_digest r a b c d = rw (a, b, c, d) refl

-- A request with an unsafe method on the API, with the auth cookie and without an Authorization
-- header, is handled only if it carries the CSRF token of its cookie, when compare_digest answers
-- true on equal texts only.
pub handled-CarriesToken :
    (compare_digest : Compare) (enabled : Bool) (minute : ℕ) (r : Request) (now : ℕ) (m : Limiter)
    → ((a b : Text) → compare_digest a b ≡ some true → a ≡ b)
    → is_safe_method r.method ≡ false
    → is_api_path r.path ≡ true
    → given r.authorization ≡ false
    → given r.auth_cookie ≡ true
    → (security_controls compare_digest enabled minute r now m).0 ≡ handled
    → CarriesToken r
unfolding security_controls decided TokenMatches
handled-CarriesToken compare_digest enabled minute r now m eq unsafe api bare cookie h =
    let t =
      token_missing-false compare_digest r.csrf_cookie r.csrf_header eq
        (ground (arith, violation-token compare_digest r unsafe api bare cookie)) in
    record { token = t.0; in_header = t.1; in_cookie = t.2; nonempty = t.3 }
