-- ===== src/Security.antt =====
-- ting_ting/security.py: the identity of a path, the CSRF decision and the request limits. A text is
-- the list of its code points. What hmac.compare_digest does is a parameter.
pub mod Limiter
pub mod Deques
pub mod Calls
pub mod Window
pub mod Reference
pub mod Controls
pub mod Alias
use Prim.Native.String
use Prim.Native.String.{String}
use Prim.Native.Char.{Char, code}
use biexce_social_network.Prelude.{
  ℕ, Bool, true, false, not, Option, none, some, List, [], ◌∷◌, ◌++◌, ◌==◌, ◌&&◌, ◌||◌,
  if◌then◌else◌,
}

abbrev pub Text : Type 0
Text = List ℕ

abbrev pub codes : String → Text
codes String.[] = []
codes (String.◌∷◌ c s) = code c ∷ codes s

abbrev pub text_eq : Text → Text → Bool
text_eq [] [] = true
text_eq [] (b ∷ t) = false
text_eq (a ∷ s) [] = false
text_eq (a ∷ s) (b ∷ t) = a == b && text_eq s t

-- `path in {…}`
abbrev pub one_of : Text → List Text → Bool
one_of s [] = false
one_of s (t ∷ ts) = text_eq s t || one_of s ts

-- What follows a prefix, if the text starts with it.
abbrev pub strip_prefix : Text → Text → Option Text
strip_prefix [] s = some s
strip_prefix (p ∷ ps) [] = none
strip_prefix (p ∷ ps) (c ∷ s) = let rest = strip_prefix ps s in if p == c then rest else none

abbrev pub starts_with : Text → Text → Bool
starts_with s p = elim (strip_prefix p s) [ some rest ↦ true | none ↦ false ]

unfoldable pub normalize_api_path : Text → Text
normalize_api_path path =
    if text_eq path (codes "/api/v1")
    then codes "/api"
    else elim (strip_prefix (codes "/api/v1/") path) [
      | some rest ↦ codes "/api/" ++ rest
      | none ↦ path
    ]

-- What the controls read of a request; a header or cookie that is absent is `none`.
pub record Request : Type 0 where
  pub method : Text
  pub path : Text
  pub client : Option Text
  pub authorization : Option Text
  pub auth_cookie : Option Text
  pub csrf_cookie : Option Text
  pub csrf_header : Option Text

abbrev pub is_safe_method : Text → Bool
is_safe_method m = one_of m (codes "GET" ∷ codes "HEAD" ∷ codes "OPTIONS" ∷ codes "TRACE" ∷ [])

abbrev pub is_api_path : Text → Bool
is_api_path p = text_eq p (codes "/api") || starts_with p (codes "/api/")

-- The truth value of an optional text: absent and empty are false.
abbrev pub given : Option Text → Bool
given none = false
given (some []) = false
given (some (c ∷ s)) = true

-- hmac.compare_digest, which raises TypeError (`none`) on a text that is not ASCII.
abbrev pub Compare : Type 0
Compare = Text → Text → Option Bool

-- `not expected or not supplied or not hmac.compare_digest(expected, supplied)`
unfoldable pub token_missing : Compare → Option Text → Option Text → Option Bool
token_missing compare_digest (some (e ∷ es)) (some (s ∷ ss)) =
    elim (compare_digest (e ∷ es) (s ∷ ss)) [ some same ↦ some (not same) | none ↦ none ]
token_missing compare_digest _ _ = some true

-- `none` is the TypeError.
unfoldable pub api_cookie_csrf_violation : Compare → Request → Option Bool
unfolding token_missing
api_cookie_csrf_violation compare_digest r =
    if is_safe_method r.method
    then some false
    else if not (is_api_path r.path)
    then some false
    else if given r.authorization
    then some false
    else if not (given r.auth_cookie)
    then some false
    else token_missing compare_digest r.csrf_cookie r.csrf_header

-- The limit per minute.
abbrev pub limit_for : Text → Option ℕ
limit_for path =
    if one_of path (codes "/api/auth/register" ∷ codes "/web/register" ∷ [])
    then some 10
    else if one_of path (codes "/api/auth/login" ∷ codes "/web/login" ∷ [])
    then some 20
    else if one_of path (codes "/web/profile/password" ∷ codes "/api/auth/change-password" ∷ [])
    then some 10
    else if one_of path
        (codes "/web/posts/create" ∷ codes "/web/profile/update" ∷ codes "/web/avatar/upload" ∷ [])
    then some 30
    else if starts_with path (codes "/api/") || starts_with path (codes "/web/")
    then some 120
    else none

unfoldable pub request_rate_limit : Request → Option ℕ
unfolding normalize_api_path
request_rate_limit r =
    if not (one_of r.method (codes "POST" ∷ codes "PUT" ∷ codes "PATCH" ∷ codes "DELETE" ∷ []))
    then none
    else limit_for (normalize_api_path r.path)
