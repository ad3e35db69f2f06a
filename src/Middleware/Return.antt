-- ===== src/Middleware/Return.antt =====
-- A browser that comes back to app/src/middleware.ts with the cookie that it was given.
use web_gui.Base.{
  ℕ, ◌+◌, ◌≡◌, ◌≤◌, refl, subst, inl, inr, Bool, true, false, not, ◌&&◌, ◌==◌, List, ◌∷◌, [], ◌++◌,
  Option, some, arith, All, Bool-cases, Option-cases, is_some,
}
use web_gui.Text.{Text, codes}
use web_gui.Text.Digits.{show, show-IsDigit}
use web_gui.Text.Split.{Lacks}
use web_gui.JsMap.{get}
use web_gui.Csrf.{is_forbidden_cross_site_request}
use web_gui.Auth.Session.{
  TokenCrypto, IsHexUnit, session_max_age_ms, verify_session_token, generate_session_token,
  get_session_secret, payload_of,
}
use web_gui.Auth.Session.Laws.{IsDigit-Lacks, verify-generate_session_token}
use web_gui.Middleware.{
  Page, Prefs, Request, verdict, serve_open, serve_session, refreshed, is_event_stream, is_public,
  is_bootstrap, version_of, on_request,
}
use web_gui.Middleware.Cookie.{session_token}
use web_gui.Middleware.OtherCookies.{IsOther, IsTail, cookie_header, session_token-cookie_header}

IsHexUnit-Lacks_semicolon : (s : Text) → All IsHexUnit s → Lacks b';' s
IsHexUnit-Lacks_semicolon [] h = tt
IsHexUnit-Lacks_semicolon (c ∷ s) (p, h) = (ground arith, IsHexUnit-Lacks_semicolon s h)

Lacks-append : (c : ℕ) (s t : Text) → Lacks c s → Lacks c t → Lacks c (s ++ t)
Lacks-append c [] t _ k = k
Lacks-append c (d ∷ s) t (p, h) k = (p, Lacks-append c s t h k)

module _ (crypto : TokenCrypto) (secret : Option Text) where
  generate_session_token-Lacks :
      (now version : ℕ) {token : Text}
      → generate_session_token crypto secret now version ≡ some token
      → Lacks b';' token
  unfolding generate_session_token
  generate_session_token-Lacks now version {token} h =
      elim (Option-cases (get_session_secret secret)) [
        | inl missing ↦ absurd (ground arith)
        | inr (key, e) ↦
            let payload = payload_of crypto (show now) (show version) in
            let made : payload ++ b'.' ∷ crypto.hmac_hex key payload ≡ token = ground arith in
            subst (Lacks b';') made (
              Lacks-append b';' payload (b'.' ∷ crypto.hmac_hex key payload)
                (Lacks-append b';' (show now) (b'.' ∷ show version)
                  (IsDigit-Lacks b';' (show now) (inr (omega arith)) (show-IsDigit now))
                  (
                    omega arith,
                    IsDigit-Lacks b';' (show version) (inr (omega arith)) (show-IsDigit version),
                  ))
                (omega arith, IsHexUnit-Lacks_semicolon _ (crypto.hmac_hex_units key payload)))
      ]

  verify_session_token-blank :
      (version now : ℕ) → verify_session_token crypto secret [] version now ≡ some false
  unfolding verify_session_token
  verify_session_token-blank version now = refl

  verify-session_token :
      (made version now : ℕ) (token : Text) (others : List (Text × Text)) (tail : Text)
      → generate_session_token crypto secret made version ≡ some token
      → now ≤ made + session_max_age_ms
      → All IsOther others
      → IsTail tail
      → verify_session_token crypto secret
          (session_token (cookie_header others token tail))
          version
          now
        ≡ some true
  verify-session_token made version now [] others tail h fresh os ends = absurd (
      ground (
        arith,
        verify-generate_session_token crypto secret made version version now [] h,
        verify_session_token-blank version now,
      ))
  verify-session_token made version now (c ∷ token) others tail h fresh os ends =
      rw
        (session_token-cookie_header c token tail (generate_session_token-Lacks made version h) ends
          others os)
        (ground (
          arith,
          verify-generate_session_token crypto secret made version version now (c ∷ token) h,
        ))

  generate_session_token-again :
      (made version later version' : ℕ) {token : Text}
      → generate_session_token crypto secret made version ≡ some token
      → is_some (generate_session_token crypto secret later version') ≡ true
  unfolding generate_session_token
  generate_session_token-again made version later version' h =
      elim (Option-cases (get_session_secret secret)) [
        | inl missing ↦ absurd (ground arith)
        | inr (key, e) ↦ rw (generate_session_token, e) refl
      ]

  serve_session-answers :
      (csp_policy : Text) (version later : ℕ) (page : Page) (prefs : Prefs)
      → is_some (generate_session_token crypto secret later version) ≡ true
      → is_some (serve_session crypto secret csp_policy version later page prefs).response ≡ true
  unfolding serve_session refreshed
  serve_session-answers csp_policy version later page prefs h =
      elim (Bool-cases (
        (version_of (page prefs).1 == version)
        && (not (is_event_stream (page prefs).0)
            && not (is_some (get (codes "set-cookie") (page prefs).0.headers))))) [
              | inr kept ↦ rw (serve_session, refreshed, kept) refl
              | inl renewed ↦
                  elim (Option-cases (generate_session_token crypto secret later version)) [
                    | inl unmade ↦ absurd (ground arith)
                    | inr (token, made) ↦ rw (serve_session, refreshed, renewed, made) refl
                  ]
            ]

module _ (crypto : TokenCrypto) (secret : Option Text) (to_lower encode_uri_component : Text → Text)
    (trust_proxy : Bool) (csp_policy : Text) where
  -- A request that is no cross-site form, carries the session cookie of a token made at most 30 minutes
  -- ago, wherever it stands among other well-formed cookies, and finds the session version unchanged
  -- runs the page, whatever its path, and gets a response.
  pub on_request_returning :
      (request : Request) (made now later : ℕ) (page : Page) (prefs : Prefs) (token : Text)
      (others : List (Text × Text)) (tail : Text)
      → generate_session_token crypto secret made (version_of prefs) ≡ some token
      → now ≤ made + session_max_age_ms
      → is_forbidden_cross_site_request to_lower trust_proxy request.csrf ≡ false
      → All IsOther others
      → IsTail tail
      → request.cookie ≡ some (cookie_header others token tail)
      → ((on_request crypto secret to_lower encode_uri_component trust_proxy csp_policy request now
            later page prefs).ran
          ≡ true)
        × (is_some
              (on_request crypto secret to_lower encode_uri_component trust_proxy csp_policy request
                now later page prefs).response
            ≡ true)
  unfolding on_request serve_open serve_session verdict
  on_request_returning request made now later page prefs token others tail h fresh home os ends
        back =
      elim (Bool-cases (is_public request.pathname)) [
        | inl public ↦ rw (on_request, home, public) (refl, refl)
        | inr private ↦
            elim (Bool-cases (
              is_bootstrap crypto secret to_lower encode_uri_component trust_proxy csp_policy
                request prefs)) [
                  | inl first ↦ rw (on_request, home, private, first) (refl, refl)
                  | inr after ↦
                      let verified : verdict crypto secret request now prefs ≡ some true =
                        rw (verdict, back)
                          (verify-session_token crypto secret made (version_of prefs) now token
                            others tail h fresh os ends) in
                      rw (on_request, home, private, after, verified)
                        (
                          refl,
                          serve_session-answers crypto secret csp_policy (version_of prefs) later
                              page prefs
                              (generate_session_token-again crypto secret made (version_of prefs)
                                later (version_of prefs) h),
                        )
                ]
      ]
