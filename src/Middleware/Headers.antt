-- ===== src/Middleware/Headers.antt =====
-- What putting in the security headers of app/src/middleware.ts does to the other headers.
use web_gui.Base.{◌≡◌, refl, ◌∙◌, inl, inr, true, false, ◌∷◌, [], arith, All, Bool-cases, is_some}
use web_gui.Text.{Text, codes, text_eq, text_eq_refl}
use web_gui.JsMap.{Map, get, get-set}
use web_gui.Middleware.{Response, put_missing, put_all, security_headers, apply_security_headers}

put_missing-other :
    (name value other : Text) (headers : Map Text)
    → text_eq name other ≡ false
    → get other (put_missing name value headers) ≡ get other headers
unfolding put_missing
put_missing-other name value other headers h = elim (Bool-cases (is_some (get name headers))) [
  | inl there ↦ rw (put_missing, there) refl
  | inr missing ↦ rw (put_missing, missing) (get-set name other value headers ∙ rw h refl)
]

put_all-other :
    (new : Map Text) (other : Text) (headers : Map Text)
    → All (λ entry. text_eq entry.0 other ≡ false) new
    → get other (put_all new headers) ≡ get other headers
unfolding put_all
put_all-other [] other headers h = refl
put_all-other ((name, value) ∷ new) other headers (p, h) =
    put_all-other new other (put_missing name value headers) h
    ∙ put_missing-other name value other headers p

-- Security headers never set a cookie.
pub apply_security_headers-cookie :
    (csp_policy : Text) (r : Response)
    → get (codes "set-cookie") (apply_security_headers csp_policy r).headers
      ≡ get (codes "set-cookie") r.headers
unfolding apply_security_headers text_eq
apply_security_headers-cookie csp_policy r =
    put_missing-other (codes "content-security-policy-report-only") csp_policy (codes "set-cookie")
      (put_all security_headers r.headers) refl
    ∙ put_all-other security_headers (codes "set-cookie") r.headers
        (refl, (refl, (refl, (refl, tt))))

put_missing-there :
    (name value other : Text) (headers : Map Text)
    → is_some (get other headers) ≡ true
    → is_some (get other (put_missing name value headers)) ≡ true
unfolding put_missing
put_missing-there name value other headers h = elim (Bool-cases (is_some (get name headers))) [
  | inl there ↦ rw (put_missing, there) h
  | inr missing ↦ ground (arith, get-set name other value headers)
]

put_missing-put :
    (name value : Text) (headers : Map Text)
    → is_some (get name (put_missing name value headers)) ≡ true
unfolding put_missing
put_missing-put name value headers = elim (Bool-cases (is_some (get name headers))) [
  | inl there ↦ rw (put_missing, there) there
  | inr missing ↦ ground (arith, get-set name name value headers, text_eq_refl name)
]

put_all-there :
    (new : Map Text) (other : Text) (headers : Map Text)
    → is_some (get other headers) ≡ true
    → is_some (get other (put_all new headers)) ≡ true
unfolding put_all
put_all-there [] other headers h = h
put_all-there ((name, value) ∷ new) other headers h =
    put_all-there new other (put_missing name value headers)
      (put_missing-there name value other headers h)

put_all-put :
    (new : Map Text) (headers : Map Text)
    → All (λ entry. is_some (get entry.0 (put_all new headers)) ≡ true) new
unfolding put_all
put_all-put [] headers = tt
put_all-put ((name, value) ∷ new) headers = (
  put_all-there new name (put_missing name value headers) (put_missing-put name value headers),
  put_all-put new (put_missing name value headers),
)

-- A response with the policy and every security header.
pub record IsHardened (r : Response) : Type 0 where
  pub policy : is_some (get (codes "content-security-policy-report-only") r.headers) ≡ true
  pub others : All (λ entry. is_some (get entry.0 r.headers) ≡ true) security_headers

keep_all :
    (csp_policy : Text) (names : Map Text) (headers : Map Text)
    → All (λ entry. is_some (get entry.0 headers) ≡ true) names
    → All
        (λ entry.
          is_some (
            get entry.0
              (put_missing (codes "content-security-policy-report-only") csp_policy headers))
          ≡ true)
        names
keep_all csp_policy [] headers h = tt
keep_all csp_policy ((name, value) ∷ names) headers (p, h) = (
  put_missing-there (codes "content-security-policy-report-only") csp_policy name headers p,
  keep_all csp_policy names headers h,
)

pub apply_security_headers-IsHardened :
    (csp_policy : Text) (r : Response) → IsHardened (apply_security_headers csp_policy r)
unfolding apply_security_headers
apply_security_headers-IsHardened csp_policy r = record {
  policy =
      put_missing-put (codes "content-security-policy-report-only") csp_policy
        (put_all security_headers r.headers);
  others =
      keep_all csp_policy security_headers (put_all security_headers r.headers)
        (put_all-put security_headers r.headers);
}
