-- ===== src/Middleware/Refresh.antt =====
-- The session cookie that app/src/middleware.ts sets again with every response, and its way back.
use web_gui.Base.{
  ℕ, ◌≡◌, ◌≢◌, refl, sym, ap, ◌∙◌, inl, inr, Bool, true, false, not, ◌&&◌, ◌==◌, [], Option, none,
  some, arith, Bool-cases, Option-cases, is_some,
}
use web_gui.Text.{Text, codes, text_eq, text_eq_refl}
use web_gui.JsMap.{get, set, get-set}
use web_gui.Csrf.{is_forbidden_cross_site_request}
use web_gui.Auth.Session.{TokenCrypto, generate_session_token, make_session_cookie_header}
use web_gui.Middleware.{
  Handled, Page, Prefs, Request, Response, is_public, is_bootstrap, verdict, with_verdict,
  serve_open, serve_session, refreshed, finished, is_event_stream, version_of, forbidden,
  no_session, on_request, apply_security_headers,
}
use web_gui.Middleware.Headers.{apply_security_headers-cookie}

abbrev cookie : Response → Option Text
cookie r = get (codes "set-cookie") r.headers

forbidden-cookie : (csp_policy : Text) → cookie (forbidden csp_policy) ≡ none
unfolding forbidden get
forbidden-cookie csp_policy =
    apply_security_headers-cookie csp_policy (record { status = 403; headers = [] })

no_session-cookie :
    (encode : Text → Text) (pathname : Text) → cookie (no_session encode pathname) ≡ none
unfolding no_session get text_eq
no_session-cookie encode pathname = ground arith

-- A cookie that was made afresh for an unchanged session version.
pub record IsRefresh (crypto : TokenCrypto) (secret : Option Text) (later before after : ℕ)
    (c : Text) : Type 0 where
  pub unchanged : after ≡ before
  pub token : Text
  pub made : generate_session_token crypto secret later before ≡ some token
  pub header : c ≡ make_session_cookie_header token

module _ (crypto : TokenCrypto) (secret : Option Text) where
  finished-cookie :
      (csp_policy : Text) (stream : Bool) (o : Option Response) {r : Response} {c : Text}
      → finished crypto secret csp_policy stream o ≡ some r
      → cookie r ≡ some c
      → (r' : Response) × ((o ≡ some r') × (cookie r' ≡ some c))
  finished-cookie csp_policy stream none h e = absurd (ground arith)
  finished-cookie csp_policy true (some r') {r} {c} h e =
      let same : r' ≡ r = ground arith in (r', (refl, ap cookie same ∙ e))
  finished-cookie csp_policy false (some r') {r} {c} h e =
      let same : apply_security_headers csp_policy r' ≡ r = ground arith in
      (r', (refl, sym (apply_security_headers-cookie csp_policy r') ∙ ap cookie same ∙ e))

  refreshed-IsRefresh :
      (version later : ℕ) (own : Response) (prefs' : Prefs) {r : Response} {c : Text}
      → cookie own ≡ none
      → refreshed crypto secret version later own prefs' ≡ some r
      → cookie r ≡ some c
      → IsRefresh crypto secret later version (version_of prefs') c
  unfolding refreshed
  refreshed-IsRefresh version later own prefs' {r} {c} bare h e =
      elim (Bool-cases (
        (version_of prefs' == version)
        && (not (is_event_stream own) && not (is_some (cookie own))))) [
          | inr kept ↦
              let opened : some own ≡ some r = rw (refreshed, kept) at h in
              let same : own ≡ r = ground arith in absurd (ground (arith, ap cookie same))
          | inl renewed ↦ elim (Option-cases (generate_session_token crypto secret later version)) [
            | inl unmade ↦
                let opened : none ≡ some r = rw (refreshed, renewed, unmade) at h in
                absurd (ground arith)
            | inr (token, made) ↦
                let header = make_session_cookie_header token in
                let opened : some
                      (record own { headers = set (codes "set-cookie") header own.headers })
                    ≡ some r =
                  rw (refreshed, renewed, made) at h in
                let same : record own { headers = set (codes "set-cookie") header own.headers }
                    ≡ r =
                  ground arith in
                let put : get (codes "set-cookie") (set (codes "set-cookie") header own.headers)
                    ≡ some header =
                  get-set (codes "set-cookie") (codes "set-cookie") header own.headers
                  ∙ rw (text_eq_refl (codes "set-cookie")) refl in
                let shown : some header ≡ some c = sym put ∙ ap cookie same ∙ e in
                record {
                  unchanged = ground arith;
                  token = token;
                  made = made;
                  header = ground arith;
                }
          ]
        ]

module _ (crypto : TokenCrypto) (secret : Option Text) (to_lower encode_uri_component : Text → Text)
    (trust_proxy : Bool) (csp_policy : Text) (request : Request) (now later : ℕ) (page : Page)
    (prefs : Prefs) where
  -- A response whose page set no cookie of its own.
  abbrev IsRefreshedBy : Handled → Text → Type 0
  IsRefreshedBy handled c =
      IsRefresh crypto secret later (version_of prefs) (version_of handled.prefs) c

  serve_open-cookie :
      {r : Response} {c : Text}
      → cookie (page prefs).0 ≡ none
      → (serve_open csp_policy page prefs).response ≡ some r
      → cookie r ≢ some c
  unfolding serve_open
  serve_open-cookie {r} {c} bare h e =
      let same : apply_security_headers csp_policy (page prefs).0 ≡ r = ground arith in
      absurd
        (ground (arith, ap cookie same, apply_security_headers-cookie csp_policy (page prefs).0))

  with_verdict-IsRefresh :
      (session : Option Bool) {r : Response} {c : Text}
      → cookie (page prefs).0 ≡ none
      → (with_verdict crypto secret encode_uri_component csp_policy session later page
          request.pathname prefs).response
        ≡ some r
      → cookie r ≡ some c
      → (session ≡ some true)
        × IsRefreshedBy
            (with_verdict crypto secret encode_uri_component csp_policy session later page
              request.pathname prefs)
            c
  unfolding serve_session
  with_verdict-IsRefresh none bare h e = absurd (ground arith)
  with_verdict-IsRefresh (some false) {r} bare h e =
      let same : no_session encode_uri_component request.pathname ≡ r = ground arith in
      absurd
        (ground (arith, ap cookie same, no_session-cookie encode_uri_component request.pathname))
  with_verdict-IsRefresh (some true) bare h e =
      let (r', (finished_from, shown)) =
        finished-cookie crypto secret csp_policy (is_event_stream (page prefs).0) _ h e in
      (
        refl,
        refreshed-IsRefresh crypto secret (version_of prefs) later (page prefs).0 (page prefs).1
            bare finished_from shown,
      )

  -- If the page sets no cookie and the response has one, then the request carried a token that
  -- verifies, the page left the session version as it was, and the cookie is a new token of that
  -- version: a page that ends all sessions never hands out a cookie for the new or the old version.
  pub on_request-IsRefresh :
      {r : Response} {c : Text}
      → get (codes "set-cookie") (page prefs).0.headers ≡ none
      → (on_request crypto secret to_lower encode_uri_component trust_proxy csp_policy request now
          later page prefs).response
        ≡ some r
      → get (codes "set-cookie") r.headers ≡ some c
      → (verdict crypto secret request now prefs ≡ some true)
        × IsRefresh crypto secret later
            (version_of prefs)
            (version_of
              (on_request crypto secret to_lower encode_uri_component trust_proxy csp_policy request
                now later page prefs).prefs)
            c
  unfolding on_request
  on_request-IsRefresh {r} {c} bare h e =
      elim (Bool-cases (is_forbidden_cross_site_request to_lower trust_proxy request.csrf)) [
        | inl foreign ↦
            let opened : some (forbidden csp_policy) ≡ some r = rw (on_request, foreign) at h in
            let same : forbidden csp_policy ≡ r = ground arith in
            absurd (ground (arith, ap cookie same, forbidden-cookie csp_policy))
        | inr home ↦ elim (Bool-cases (is_public request.pathname)) [
          | inl public ↦ absurd (serve_open-cookie bare (rw (on_request, home, public) at h) e)
          | inr private ↦
              elim (Bool-cases (
                is_bootstrap crypto secret to_lower encode_uri_component trust_proxy csp_policy
                  request prefs)) [
                    | inl first ↦
                        absurd
                          (serve_open-cookie bare (rw (on_request, home, private, first) at h) e)
                    | inr after ↦
                        rw (on_request, home, private, after)
                          (with_verdict-IsRefresh _ bare
                            (rw (on_request, home, private, after) at h) e)
                  ]
        ]
      ]
