-- ===== src/Tests/Gate.antt =====
-- Runs of the request controls.
use biexce_social_network.Security.Deques.{text_eq_sound}
use biexce_social_network.Prelude.{ℕ, true, none, some, List, [], ◌∷◌, ◌≡◌, ◌≤◌, refl, arith, ltb}
use biexce_social_network.Security.{
  normalize_api_path, request_rate_limit, token_missing, api_cookie_csrf_violation, Text, codes,
  text_eq, Request, Compare,
}
use biexce_social_network.Security.Limiter.{store, events_of, drop_expired, admit, allow}
use biexce_social_network.Security.Calls.{Call, done, later, granted, run}
use biexce_social_network.Security.Window.{granted-le-limit, in_window}
use biexce_social_network.Security.Reference.{allow-eq-reference, allow-recovers, still, AllOver}
use biexce_social_network.Security.Controls.{bucket, limited, decided, security_controls}
use biexce_social_network.Security.Alias.{
  security_controls-alias, handled-CarriesToken, CarriesToken, at_path, versioned, alias,
}

abbrev login : Text
login = codes "1.2.3.4:POST:/api/auth/login"

abbrev two_each : Text → ℕ
two_each key = 2

abbrev at_time : ℕ → Call
at_time t = record { key = login; time = t }

-- The third call within the minute is refused; the fourth is late enough.
abbrev four_calls : List Call
four_calls = at_time 100 ∷ at_time 110 ∷ at_time 120 ∷ at_time 165 ∷ []

four_calls-granted : granted two_each 60 login four_calls [] ≡ 100 ∷ 110 ∷ 165 ∷ []
unfolding granted run allow admit drop_expired events_of store
four_calls-granted = refl

granted-le-limit_example : in_window two_each 60 150 (granted two_each 60 login four_calls []) ≤ 2
granted-le-limit_example =
    granted-le-limit two_each 60 0 four_calls
      (later (omega arith) (later (omega arith) (later (omega arith) (later (omega arith) done))))
      login 150

abbrev three_calls : List Call
three_calls = at_time 100 ∷ at_time 110 ∷ at_time 120 ∷ []

allow-eq-reference_example :
    (allow login 2 60 165 (run two_each 60 three_calls [])).0
    ≡ ltb (still 60 165 (granted two_each 60 login three_calls [])) 2
allow-eq-reference_example =
    allow-eq-reference two_each 60 0 three_calls (at_time 165)
      (later (omega arith) (later (omega arith) (later (omega arith) (later (omega arith) done))))

allow-recovers_example : (allow login 2 60 180 (run two_each 60 three_calls [])).0 ≡ true
unfolding AllOver
allow-recovers_example =
    allow-recovers two_each 60 0 three_calls (at_time 180)
      (later (omega arith) (later (omega arith) (later (omega arith) (later (omega arith) done))))
      (omega arith, (omega arith, (omega arith, tt))) (omega arith)

-- A POST by a browser with its session cookie and its CSRF token.
abbrev browser_post : Request
browser_post = record {
  method = codes "POST";
  path = codes "/api/auth/logout";
  client = some (codes "1.2.3.4");
  authorization = none;
  auth_cookie = some (codes "jwt");
  csrf_cookie = some (codes "t0ken");
  csrf_header = some (codes "t0ken");
}

abbrev compare_texts : Compare
compare_texts a b = some (text_eq a b)

security_controls-alias_example :
    security_controls compare_texts true 60
      (at_path (versioned (codes "auth/login")) browser_post)
      100
      []
    ≡ security_controls compare_texts true 60
        (at_path (alias (codes "auth/login")) browser_post)
        100
        []
security_controls-alias_example =
    security_controls-alias compare_texts true 60 browser_post (codes "auth/login") 100 [] refl

compare_texts_sound : (a b : Text) → compare_texts a b ≡ some true → a ≡ b
compare_texts_sound a b h = text_eq_sound a b (ground (arith, h))

handled-CarriesToken_example : CarriesToken browser_post
unfolding security_controls decided api_cookie_csrf_violation token_missing request_rate_limit
    limited normalize_api_path bucket allow admit events_of drop_expired
handled-CarriesToken_example =
    handled-CarriesToken compare_texts true 60 browser_post 100 [] compare_texts_sound refl refl
      refl refl refl
