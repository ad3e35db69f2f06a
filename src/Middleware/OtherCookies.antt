-- ===== src/Middleware/OtherCookies.antt =====
-- The session cookie in the Cookie header of a browser, among other cookies: what the expression of
-- app/src/middleware.ts finds there.
use web_gui.Base.{
  ℕ, ◌≡◌, ◌≢◌, ◌⊎◌, inl, inr, refl, ap, ◌∙◌, false, List, [], ◌∷◌, ◌++◌, append-nil, none, some,
  ◌==◌, arith, All, Bool-cases,
}
use web_gui.Text.{Text, trim_start, is_space}
use web_gui.Text.Split.{Lacks}
use web_gui.Auth.Session.{session_cookie_name}
use web_gui.Middleware.Cookie.{
  strip_prefix, match_at, match_after, session_token, up_to_semicolon, up_to_semicolon-Lacks,
  up_to_semicolon-cut,
}

-- Another cookie: its name is not `session` and has no `=`, semicolon or white space; its value has
-- no semicolon.
pub record IsOther (cookie : Text × Text) : Type 0 where
  pub named : cookie.0 ≢ session_cookie_name
  pub no_equals : Lacks b'=' cookie.0
  pub no_semicolon : Lacks b';' cookie.0
  pub no_space : All (λ c. is_space c ≡ false) cookie.0
  pub value_ends : Lacks b';' cookie.1

-- The end of the header, or more cookies.
pub data IsTail : Text → Type 0 where
  last_cookie : IsTail []
  more_cookies : (rest : Text) → IsTail (b';' ∷ rest)

-- `n=v; ` for each of the other cookies, then `session=token` and the tail.
unfoldable pub cookie_header : List (Text × Text) → (token : Text) → (tail : Text) → Text
cookie_header [] token tail = session_cookie_name ++ b'=' ∷ (token ++ tail)
cookie_header ((n, v) ∷ others) token tail =
    n ++ b'=' ∷ (v ++ b';' ∷ b' ' ∷ cookie_header others token tail)

strip_prefix-other :
    (p n rest : Text)
    → n ≢ p
    → Lacks b'=' n
    → Lacks b'=' p
    → strip_prefix (p ++ b'=' ∷ []) (n ++ b'=' ∷ rest) ≡ none
unfolding strip_prefix
strip_prefix-other [] [] rest differs ln lp = absurd (differs refl)
strip_prefix-other [] (c ∷ n) rest differs (c_not, ln) lp = ground arith
strip_prefix-other (d ∷ p) [] rest differs ln (d_not, lp) = ground arith
strip_prefix-other (d ∷ p) (c ∷ n) rest differs (c_not, ln) (d_not, lp) =
    elim (Bool-cases (c == d)) [
      | inr apart ↦ rw (strip_prefix, apart) refl
      | inl same ↦
          let e : c ≡ d = ground arith in
          rw (strip_prefix, same)
            (strip_prefix-other p n rest (λ q. differs (ap (λ x. x ∷ n) e ∙ ap (λ x. d ∷ x) q)) ln
              lp)
    ]

match_after-skip : (s rest : Text) → Lacks b';' s → match_after (s ++ rest) ≡ match_after rest
unfolding match_after
match_after-skip [] rest h = refl
match_after-skip (c ∷ s) rest (c_not, h) = ground (arith, match_after-skip s rest h)

trim_start-cookie_header :
    (others : List (Text × Text)) (token tail : Text)
    → All IsOther others
    → trim_start (cookie_header others token tail) ≡ cookie_header others token tail
unfolding trim_start is_space cookie_header
trim_start-cookie_header [] token tail _ = refl
trim_start-cookie_header (([], v) ∷ others) token tail _ = refl
trim_start-cookie_header ((c ∷ n, v) ∷ others) token tail (o, _) =
    let (plain, _) = o.no_space in rw (trim_start, plain) refl

up_to_semicolon-tail :
    (t tail : Text) → Lacks b';' t → IsTail tail → up_to_semicolon (t ++ tail) ≡ t
up_to_semicolon-tail t _ h last_cookie =
    ap up_to_semicolon (append-nil t) ∙ up_to_semicolon-Lacks t h
up_to_semicolon-tail t _ h (more_cookies rest) = up_to_semicolon-cut t rest h

session-Lacks : Lacks b'=' session_cookie_name
session-Lacks = ground arith

after_semicolon :
    (s : Text) {token : Text}
    → trim_start s ≡ s
    → (match_at s ≡ some token) ⊎ ((match_at s ≡ none) × (match_after s ≡ some token))
    → match_after (b';' ∷ b' ' ∷ s) ≡ some token
unfolding match_after trim_start is_space
after_semicolon s plain (inl first) = rw (plain, first) refl
after_semicolon s plain (inr (missing, later)) = rw (plain, missing, later) refl

match_after-other :
    (n v s : Text)
    → Lacks b';' n
    → Lacks b';' v
    → match_after (n ++ b'=' ∷ (v ++ b';' ∷ b' ' ∷ s)) ≡ match_after (b';' ∷ b' ' ∷ s)
unfolding match_after
match_after-other n v s ln lv =
    match_after-skip n (b'=' ∷ (v ++ b';' ∷ b' ' ∷ s)) ln ∙ match_after-skip v (b';' ∷ b' ' ∷ s) lv

module _ (c : ℕ) (token tail : Text) (plain : Lacks b';' (c ∷ token)) (ends : IsTail tail) where
  match-cookie_header :
      (others : List (Text × Text))
      → All IsOther others
      → (match_at (cookie_header others (c ∷ token) tail) ≡ some (c ∷ token))
        ⊎ ((match_at (cookie_header others (c ∷ token) tail) ≡ none)
            × (match_after (cookie_header others (c ∷ token) tail) ≡ some (c ∷ token)))
  unfolding cookie_header match_at strip_prefix
  match-cookie_header [] _ = inl (rw (up_to_semicolon-tail (c ∷ token) tail plain ends) refl)
  match-cookie_header ((n, v) ∷ others) (o, os) =
      let rest = cookie_header others (c ∷ token) tail in
      inr (
        rw
            (strip_prefix-other session_cookie_name n (v ++ b';' ∷ b' ' ∷ rest) o.named o.no_equals
              session-Lacks)
            refl,
        match_after-other n v rest o.no_semicolon o.value_ends
            ∙ after_semicolon rest (trim_start-cookie_header others (c ∷ token) tail os)
                (match-cookie_header others os),
      )

  pub session_token-cookie_header :
      (others : List (Text × Text))
      → All IsOther others
      → session_token (cookie_header others (c ∷ token) tail) ≡ c ∷ token
  unfolding session_token
  session_token-cookie_header others os = elim (match-cookie_header others os) [
    | inl first ↦ rw (session_token, first) refl
    | inr (missing, later) ↦ rw (session_token, missing, later) refl
  ]
