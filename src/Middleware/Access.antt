-- ===== src/Middleware/Access.antt =====
-- Which requests reach a page through app/src/middleware.ts, and what the others get.
use web_gui.Base.{
  ℕ, ◌⊎◌, ◌≤◌, length, ◌≡◌, refl, inl, inr, Bool, true, false, Option, none, some, arith,
  Bool-cases,
}
use web_gui.Text.{Text, codes, eq_of_text_eq}
use web_gui.Csrf.{is_forbidden_cross_site_request}
use web_gui.Auth.Session.{TokenCrypto}
use web_gui.Auth.Session.Laws.{IsSigned, verify_session_token_sound}
use web_gui.Middleware.Cookie.{session_token}
use web_gui.Middleware.{
  version_of, or_blank, is_set, is_auth_configured, Handled, Page, Prefs, Request, Response,
  is_public, is_bootstrap, verdict, with_verdict, serve_open, serve_session, forbidden, no_session,
  on_request,
}

-- Why a page may run: its path is public, it sets up a wallet without a password or without a second
-- factor, or the cookie has a token that is signed with a long enough key for the session version, and
-- is not too old.
pub data IsAdmitted (crypto : TokenCrypto) (secret : Option Text) (request : Request)
    (prefs : Prefs) (now : ℕ) : Type 0 where
  unguarded : is_public request.pathname ≡ true → IsAdmitted crypto secret request prefs now
  setup :
      request.pathname ≡ codes "/setup"
      → (is_set prefs.password_hash ≡ false) ⊎ (is_set prefs.totp_secret ≡ false)
      → IsAdmitted crypto secret request prefs now
  in_session :
      (key : Text)
      → secret ≡ some key
      → 32 ≤ length key
      → IsSigned crypto key (session_token (or_blank request.cookie)) (version_of prefs) now
      → IsAdmitted crypto secret request prefs now

-- What a request gets that reaches no page: 403, 401 or a redirect, or an exception of the check.
pub data IsRefusal (csp_policy pathname : Text) (encode : Text → Text)
    : Option Response → Type 0 where
  cross_site : IsRefusal csp_policy pathname encode (some (forbidden csp_policy))
  unauthenticated : IsRefusal csp_policy pathname encode (some (no_session encode pathname))
  failing : IsRefusal csp_policy pathname encode none

module _ (crypto : TokenCrypto) (secret : Option Text) (to_lower encode_uri_component : Text → Text)
    (trust_proxy : Bool) (csp_policy : Text) (request : Request) (now later : ℕ) (page : Page)
    (prefs : Prefs) where
  abbrev handled : Handled
  handled =
      on_request crypto secret to_lower encode_uri_component trust_proxy csp_policy request now
        later page prefs

  abbrev is_setup : Bool
  is_setup =
      is_bootstrap crypto secret to_lower encode_uri_component trust_proxy csp_policy request prefs

  with_verdict-ran :
      (session : Option Bool)
      → (with_verdict crypto secret encode_uri_component csp_policy session later page
          request.pathname prefs).ran
        ≡ true
      → session ≡ some true
  with_verdict-ran none h = absurd (ground arith)
  with_verdict-ran (some false) h = absurd (ground arith)
  with_verdict-ran (some true) h = refl

  is_setup-cases :
      is_setup ≡ true
      → (request.pathname ≡ codes "/setup")
        × ((is_set prefs.password_hash ≡ false) ⊎ (is_set prefs.totp_secret ≡ false))
  unfolding is_auth_configured
  is_setup-cases h = (eq_of_text_eq request.pathname (codes "/setup") (ground arith), ground arith)

  IsAdmitted-session :
      verdict crypto secret request now prefs ≡ some true
      → IsAdmitted crypto secret request prefs now
  unfolding verdict
  IsAdmitted-session h =
      let (key, (is_key, (long, signed))) =
        verify_session_token_sound crypto secret (session_token (or_blank request.cookie))
          (version_of prefs) now h in
      in_session key is_key long signed

  -- A page runs only if the request is no cross-site form, and the path is public, or it is /setup
  -- while no password or no second factor is set, or the request carries a session token that
  -- is signed with the configured key of at least 32 units for the session version of the preferences
  -- and is at most 30 minutes old.
  pub on_request-IsAdmitted :
      (on_request crypto secret to_lower encode_uri_component trust_proxy csp_policy request now
          later page prefs).ran
        ≡ true
      → (is_forbidden_cross_site_request to_lower trust_proxy request.csrf ≡ false)
        × IsAdmitted crypto secret request prefs now
  unfolding on_request
  on_request-IsAdmitted h =
      elim (Bool-cases (is_forbidden_cross_site_request to_lower trust_proxy request.csrf)) [
        | inl foreign ↦ absurd (ground arith)
        | inr home ↦ elim (Bool-cases (is_public request.pathname)) [
          | inl public ↦ (home, unguarded public)
          | inr private ↦ elim (Bool-cases is_setup) [
            | inl first ↦ let (path, unset) = is_setup-cases first in (home, setup path unset)
            | inr later_run ↦ (
              home,
              IsAdmitted-session
                  (with_verdict-ran _ (rw (on_request, home, private, later_run) at h)),
            )
          ]
        ]
      ]

  with_verdict-IsRefusal :
      (session : Option Bool)
      → (with_verdict crypto secret encode_uri_component csp_policy session later page
          request.pathname prefs).ran
        ≡ false
      → IsRefusal csp_policy request.pathname encode_uri_component
          (with_verdict crypto secret encode_uri_component csp_policy session later page
            request.pathname prefs).response
        × ((with_verdict crypto secret encode_uri_component csp_policy session later page
              request.pathname prefs).prefs
            ≡ prefs)
  unfolding serve_session
  with_verdict-IsRefusal none h = (failing, refl)
  with_verdict-IsRefusal (some false) h = (unauthenticated, refl)
  with_verdict-IsRefusal (some true) h = absurd (ground arith)

  -- A request that reaches no page leaves the preferences as they were and gets the 403 of a
  -- cross-site form, the 401 or the redirect to the login page of a missing session, or an exception.
  pub on_request-IsRefusal :
      (on_request crypto secret to_lower encode_uri_component trust_proxy csp_policy request now
          later page prefs).ran
        ≡ false
      → IsRefusal csp_policy request.pathname encode_uri_component
          (on_request crypto secret to_lower encode_uri_component trust_proxy csp_policy request now
            later page prefs).response
        × ((on_request crypto secret to_lower encode_uri_component trust_proxy csp_policy request
              now later page prefs).prefs
            ≡ prefs)
  unfolding on_request serve_open
  on_request-IsRefusal h =
      elim (Bool-cases (is_forbidden_cross_site_request to_lower trust_proxy request.csrf)) [
        | inl foreign ↦ rw (on_request, foreign) (cross_site, refl)
        | inr home ↦ elim (Bool-cases (is_public request.pathname)) [
          | inl public ↦ absurd (ground arith)
          | inr private ↦ elim (Bool-cases is_setup) [
            | inl first ↦ absurd (ground arith)
            | inr later_run ↦
                rw (on_request, home, private, later_run)
                  (with_verdict-IsRefusal _ (rw (on_request, home, private, later_run) at h))
          ]
        ]
      ]
