-- ===== src/Middleware.antt =====
-- app/src/middleware.ts: onRequest, which runs in front of every page. A page is a parameter: a function
-- from the preferences to its response and the preferences after it. Header names are in lower case, as
-- Headers keeps them; `encode_uri_component` and `to_lower` are the JavaScript functions, the times
-- the Date.now() of the check and of the refresh.
pub mod Cookie
pub mod OtherCookies
pub mod Access
pub mod Headers
pub mod Refresh
pub mod Return
mod Tests
use web_gui.Base.{
  ℕ, Bool, true, false, not, ◌&&◌, ◌||◌, List, [], ◌∷◌, ◌++◌, Option, none, some, ◌==◌, any,
  is_some, if◌then◌else◌,
}
use web_gui.Text.{Text, codes, text_eq, starts_with, contains, is_nonempty}
use web_gui.JsMap.{Map, get, set}
use web_gui.Csrf.{is_forbidden_cross_site_request}
use web_gui.Csrf as Csrf
use web_gui.Auth.Session.{
  TokenCrypto, verify_session_token, generate_session_token, make_session_cookie_header,
}
use Cookie.{session_token}

abbrev pub public_paths : List Text
public_paths =
    codes "/login" ∷ codes "/api/passkey/auth-options" ∷ codes "/api/passkey/auth-verify" ∷ []

abbrev pub public_prefixes : List Text
public_prefixes = codes "/_astro/" ∷ codes "/favicon" ∷ codes "/_image" ∷ []

unfoldable pub is_public : Text → Bool
is_public pathname =
    any (λ p. text_eq p pathname) public_paths || any (λ p. starts_with pathname p) public_prefixes

abbrev pub security_headers : Map Text
security_headers =
    (codes "x-content-type-options", codes "nosniff")
    ∷ (codes "x-frame-options", codes "DENY")
    ∷ (codes "referrer-policy", codes "strict-origin-when-cross-origin")
    ∷ (codes "permissions-policy", codes "camera=(), microphone=(), geolocation=()")
    ∷ []

pub record Response : Type 0 where
  pub status : ℕ
  pub headers : Map Text

-- The preferences that the middleware reads, none where getPref gives null.
pub record Prefs : Type 0 where
  pub password_hash : Option Text
  pub totp_secret : Option Text
  pub session_version : Option ℕ

abbrev pub Page : Type 0
Page = Prefs → Response × Prefs

-- What a request comes to: a response, none where an exception ends it, and whether the page ran.
pub record Handled : Type 0 where
  pub response : Option Response
  pub prefs : Prefs
  pub ran : Bool

pub record Request : Type 0 where
  pub csrf : Csrf.Request
  pub pathname : Text
  pub cookie : Option Text

unfoldable pub put_missing : Text → Text → Map Text → Map Text
put_missing name value headers =
    if is_some (get name headers) then headers else set name value headers

unfoldable pub put_all : Map Text → Map Text → Map Text
put_all [] headers = headers
put_all ((name, value) ∷ rest) headers = put_all rest (put_missing name value headers)

unfoldable pub apply_security_headers : Text → Response → Response
apply_security_headers csp_policy r = record r {
  headers =
      put_missing (codes "content-security-policy-report-only") csp_policy
        (put_all security_headers r.headers);
}

-- `Boolean(v)` of a text, and `?? 0`
abbrev pub is_set : Option Text → Bool
is_set none = false
is_set (some t) = is_nonempty t

abbrev pub version_of : Prefs → ℕ
version_of prefs = elim prefs.session_version [ some version ↦ version | none ↦ 0 ]

abbrev pub or_blank : Option Text → Text
or_blank none = []
or_blank (some t) = t

unfoldable pub is_auth_configured : Prefs → Bool
is_auth_configured prefs = is_set prefs.password_hash && is_set prefs.totp_secret

abbrev pub is_event_stream : Response → Bool
is_event_stream r =
    contains (or_blank (get (codes "content-type") r.headers)) (codes "text/event-stream")

module _ (csp_policy : Text) where
  unfoldable pub serve_open : Page → Prefs → Handled
  serve_open page prefs =
      let (r, prefs') = page prefs in
      record { response = some (apply_security_headers csp_policy r); prefs = prefs'; ran = true }

  abbrev pub refuse : Response → Prefs → Handled
  refuse r prefs = record { response = some r; prefs = prefs; ran = false }

  unfoldable pub forbidden : Response
  forbidden = apply_security_headers csp_policy (record { status = 403; headers = [] })

-- Without a valid session.
unfoldable pub no_session : (Text → Text) → Text → Response
no_session encode_uri_component pathname =
    if starts_with pathname (codes "/api/")
    then record { status = 401; headers = (codes "content-type", codes "application/json") ∷ [] }
    else record {
      status = 302;
      headers =
          (
            codes "location",
            codes "/login"
                ++ (if text_eq pathname (codes "/")
                    then []
                    else codes "?next=" ++ encode_uri_component pathname),
          )
          ∷ [];
    }

module _ (crypto : TokenCrypto) (secret : Option Text) where
  -- The rolling refresh; none where the token cannot be made.
  unfoldable pub refreshed : (version : ℕ) → (later : ℕ) → Response → Prefs → Option Response
  refreshed version later r prefs' =
      if (version_of prefs' == version)
        && (not (is_event_stream r) && not (is_some (get (codes "set-cookie") r.headers)))
      then elim (generate_session_token crypto secret later version) [
        | some token ↦ some (record r {
          headers = set (codes "set-cookie") (make_session_cookie_header token) r.headers;
        })
        | none ↦ none
      ]
      else some r

  abbrev pub finished : Text → Bool → Option Response → Option Response
  finished csp_policy stream none = none
  finished csp_policy stream (some r) =
      some (if stream then r else apply_security_headers csp_policy r)

  unfoldable pub serve_session : Text → (version : ℕ) → (later : ℕ) → Page → Prefs → Handled
  serve_session csp_policy version later page prefs =
      let (r, prefs') = page prefs in
      record {
        response = finished csp_policy (is_event_stream r) (refreshed version later r prefs');
        prefs = prefs';
        ran = true;
      }

  abbrev pub with_verdict :
      (Text → Text) → Text → Option Bool → (later : ℕ) → Page → Text → Prefs → Handled
  with_verdict encode_uri_component csp_policy none later page pathname prefs = record {
    response = none;
    prefs = prefs;
    ran = false;
  }
  with_verdict encode_uri_component csp_policy (some false) later page pathname prefs =
      refuse csp_policy (no_session encode_uri_component pathname) prefs
  with_verdict encode_uri_component csp_policy (some true) later page pathname prefs =
      serve_session csp_policy (version_of prefs) later page prefs

  unfoldable pub verdict : Request → ℕ → Prefs → Option Bool
  verdict request now prefs =
      verify_session_token crypto secret (session_token (or_blank request.cookie))
        (version_of prefs) now

module _ (crypto : TokenCrypto) (secret : Option Text) (to_lower encode_uri_component : Text → Text)
    (trust_proxy : Bool) (csp_policy : Text) where
  abbrev pub is_bootstrap : Request → Prefs → Bool
  is_bootstrap request prefs =
      text_eq request.pathname (codes "/setup") && not (is_auth_configured prefs)

  unfoldable pub on_request : Request → (now : ℕ) → (later : ℕ) → Page → Prefs → Handled
  on_request request now later page prefs =
      if is_forbidden_cross_site_request to_lower trust_proxy request.csrf
      then refuse csp_policy (forbidden csp_policy) prefs
      else if is_public request.pathname
      then serve_open csp_policy page prefs
      else if is_bootstrap request prefs
      then serve_open csp_policy page prefs
      else with_verdict crypto secret encode_uri_component csp_policy
          (verdict crypto secret request now prefs) later page request.pathname prefs
