-- ===== src/Middleware/Tests.antt =====
-- Runs of app/src/middleware.ts on concrete requests.
use web_gui.Base.{
  ℕ, ◌≡◌, refl, true, false, List, All, [], ◌∷◌, ◌++◌, Option, none, some, replicate,
  length-replicate, All-replicate, arith, is_some,
}
use web_gui.Text.{
  Text, codes, text_eq, starts_with, contains, strip_colon, trim_start, is_space, truthy,
  lower_unit,
}
use web_gui.JsMap.{get, set}
use web_gui.Csrf.{is_forbidden_cross_site_request, expected_origin}
use web_gui.Auth.Session.{
  TokenCrypto, IsHexUnit, session_cookie_name, session_max_age_ms, generate_session_token,
  verify_session_token, make_session_cookie_header,
}
use web_gui.Middleware.{
  Page, Prefs, Request, Response, Handled, is_public, is_auth_configured, verdict, version_of,
  on_request, serve_open, serve_session, refreshed, apply_security_headers, put_missing, put_all,
  no_session,
}
use web_gui.Middleware.Cookie.{session_token, match_at, match_after, strip_prefix, up_to_semicolon}
use web_gui.Middleware.OtherCookies.{IsOther, IsTail, more_cookies, cookie_header}
use web_gui.Middleware.Access.{IsAdmitted, on_request-IsAdmitted}
use web_gui.Middleware.Refresh.{IsRefresh, on_request-IsRefresh}
use web_gui.Middleware.Return.{on_request_returning}

abbrev crypto : TokenCrypto
crypto = record {
  hmac_hex = λ secret payload. replicate 64 b'0';
  utf8 = λ s. s;
  hmac_length = λ secret payload. length-replicate {A = ℕ} 64 b'0';
  hmac_hex_units = λ secret payload. All-replicate IsHexUnit 64 b'0' refl;
  utf8_ascii = λ s t h. (λ e. e, λ e. e);
}

abbrev key : Option Text
key = some (codes "0123456789abcdef0123456789abcdef")

abbrev token : Text
token = codes "5000.2.0000000000000000000000000000000000000000000000000000000000000000"

abbrev new_token : Text
new_token = codes "5002.2.0000000000000000000000000000000000000000000000000000000000000000"

abbrev to_lower : Text → Text
to_lower [] = []
to_lower (c ∷ t) = lower_unit c ∷ to_lower t

abbrev encode : Text → Text
encode t = t

abbrev csp : Text
csp = codes "default-src 'self'"

abbrev request : Request
request = record {
  csrf = record {
    method = codes "GET";
    url_protocol = codes "http:";
    url_host = codes "web-gui:4321";
    origin = none;
    content_type = none;
    host = none;
    forwarded_proto = none;
    forwarded_host = none;
  };
  pathname = codes "/send";
  cookie = some (session_cookie_name ++ b'=' ∷ token);
}

abbrev prefs : Prefs
prefs = record {
  password_hash = some (codes "h");
  totp_secret = some (codes "t");
  session_version = some 2;
}

abbrev page : Page
page p = (record { status = 200; headers = (codes "content-type", codes "text/html") ∷ [] }, p)

run : Unit {0}
unfolding text_eq starts_with contains strip_colon trim_start is_space get set
    is_forbidden_cross_site_request expected_origin is_public is_auth_configured verdict on_request
    serve_open serve_session refreshed apply_security_headers put_missing put_all no_session
    session_token match_at match_after strip_prefix up_to_semicolon generate_session_token
    verify_session_token web_gui.Auth.Session.get_session_secret web_gui.Auth.Session.is_fresh
    web_gui.Auth.Session.is_stale web_gui.Auth.Session.is_version
    web_gui.Auth.Session.same_signature web_gui.Auth.Session.verify_parts web_gui.Text.Digits.show
    web_gui.Text.Split.split_on web_gui.Text.ParseInt.parse_int web_gui.Text.ParseInt.parse_signed
    web_gui.Text.ParseInt.to_int web_gui.Text.ParseInt.digits_value
    web_gui.Text.ParseInt.digit_prefix web_gui.Text.Digits.value_from
run = tt

abbrev served : Handled
served = on_request crypto key to_lower encode false csp request 5001 5002 page prefs

ran : served.ran ≡ true
unfolding run
ran = refl

on_request-IsAdmitted_example :
    (is_forbidden_cross_site_request to_lower false request.csrf ≡ false)
    × IsAdmitted crypto key request prefs 5001
on_request-IsAdmitted_example =
    on_request-IsAdmitted crypto key to_lower encode false csp request 5001 5002 page prefs ran

-- The same request after the session version was raised.
abbrev raised : Prefs
raised = record prefs { session_version = some 3 }

abbrev stopped : Handled
stopped = on_request crypto key to_lower encode false csp request 5001 5002 page raised

not_ran : stopped.ran ≡ false
unfolding run
not_ran = refl

abbrev header : Text
header = make_session_cookie_header new_token

abbrev answer : Response
answer = apply_security_headers csp (record {
  status = 200;
  headers = (codes "content-type", codes "text/html") ∷ (codes "set-cookie", header) ∷ [];
})

answered : served.response ≡ some answer
unfolding run
answered = refl

cookie_of : get (codes "set-cookie") answer.headers ≡ some header
unfolding run
cookie_of = refl

plain : get (codes "set-cookie") (page prefs).0.headers ≡ none
unfolding run
plain = refl

on_request-IsRefresh_example :
    (verdict crypto key request 5001 prefs ≡ some true)
    × IsRefresh crypto key 5002 (version_of prefs) (version_of served.prefs) header
on_request-IsRefresh_example =
    on_request-IsRefresh crypto key to_lower encode false csp request 5001 5002 page prefs plain
      answered cookie_of

made : generate_session_token crypto key 5000 2 ≡ some token
unfolding run
made = refl

allowed : is_forbidden_cross_site_request to_lower false request.csrf ≡ false
unfolding run
allowed = refl

-- The token between a pending passkey challenge and a setting.
abbrev others : List (Text × Text)
others = (codes "pk_chal", codes "abc") ∷ []

abbrev tail : Text
tail = codes "; theme=dark"

others-IsOther : All IsOther others
unfolding is_space
others-IsOther = (
  record {
    named = λ e. absurd (ground arith);
    no_equals = ground arith;
    no_semicolon = ground arith;
    no_space = (refl, (refl, (refl, (refl, (refl, (refl, (refl, tt)))))));
    value_ends = ground arith;
  },
  tt,
)

tail-IsTail : IsTail tail
tail-IsTail = more_cookies (codes " theme=dark")

abbrev back : Request
back = record request { cookie = some (cookie_header others token tail) }

abbrev served_back : Handled
served_back = on_request crypto key to_lower encode false csp back 5001 5002 page prefs

on_request_returning_example : (served_back.ran ≡ true) × (is_some served_back.response ≡ true)
on_request_returning_example =
    on_request_returning crypto key to_lower encode false csp back 5000 5001 5002 page prefs token
      others tail made (omega arith) allowed others-IsOther tail-IsTail refl
