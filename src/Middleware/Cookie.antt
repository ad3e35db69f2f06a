-- ===== src/Middleware/Cookie.antt =====
-- The session token in a Cookie header: the match of `(?:^|;\s*)session=([^;]+)` in
-- app/src/middleware.ts. `\s` is the white space that trim strips.
use web_gui.Base.{◌≡◌, refl, [], ◌∷◌, ◌++◌, Option, none, some, ◌==◌, arith, if◌then◌else◌}
use web_gui.Text.{Text, trim_start, truthy}
use web_gui.Text.Split.{Lacks}
use web_gui.Auth.Session.{session_cookie_name}

-- `[^;]*`, as far as it goes
unfoldable pub up_to_semicolon : Text → Text
up_to_semicolon [] = []
up_to_semicolon (c ∷ s) = let rest = up_to_semicolon s in if c == b';' then [] else c ∷ rest

-- The rest of the text after a prefix.
unfoldable pub strip_prefix : Text → Text → Option Text
strip_prefix [] s = some s
strip_prefix (p ∷ ps) [] = none
strip_prefix (p ∷ ps) (c ∷ s) = if c == p then strip_prefix ps s else none

abbrev pub value_of : Option Text → Option Text
value_of none = none
value_of (some s) = truthy (some (up_to_semicolon s))

-- `session=([^;]+)` at the start of the text
unfoldable pub match_at : Text → Option Text
match_at s = value_of (strip_prefix (session_cookie_name ++ b'=' ∷ []) s)

-- The leftmost match at a semicolon.
unfoldable pub match_after : Text → Option Text
match_after [] = none
match_after (c ∷ s) =
    let rest = match_after s in
    if c == b';'
    then elim (match_at (trim_start s)) [ some value ↦ some value | none ↦ rest ]
    else rest

-- `cookieHeader.match(...)?.[1] ?? ''`
unfoldable pub session_token : Text → Text
session_token header = elim (match_at header) [
  | some value ↦ value
  | none ↦ elim (match_after header) [ some value ↦ value | none ↦ [] ]
]

pub up_to_semicolon-Lacks : (s : Text) → Lacks b';' s → up_to_semicolon s ≡ s
unfolding up_to_semicolon
up_to_semicolon-Lacks [] h = refl
up_to_semicolon-Lacks (c ∷ s) (d, h) = ground (arith, up_to_semicolon-Lacks s h)

pub up_to_semicolon-cut : (s rest : Text) → Lacks b';' s → up_to_semicolon (s ++ b';' ∷ rest) ≡ s
unfolding up_to_semicolon
up_to_semicolon-cut [] rest h = refl
up_to_semicolon-cut (c ∷ s) rest (d, h) = ground (arith, up_to_semicolon-cut s rest h)
