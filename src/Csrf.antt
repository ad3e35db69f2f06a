-- ===== src/Csrf.antt =====
-- app/src/lib/csrf.ts: the cross-site check of every request. `to_lower` is toLowerCase; the URL of a
-- request is given by its protocol (with the colon) and host, a header by its value if present.
pub mod Laws
mod Tests
use web_gui.Base.{
  ℕ, Bool, true, false, not, ◌&&◌, ◌||◌, List, [], ◌∷◌, ◌++◌, Option, none, some, ◌==◌, any,
  if◌then◌else◌,
}
use web_gui.Text.{Text, codes, text_eq, trim, truthy, contains, strip_colon}
use web_gui.Text.Split.{split_on}

pub record Request : Type 0 where
  pub method : Text
  pub url_protocol : Text
  pub url_host : Text
  pub origin : Option Text
  pub content_type : Option Text
  pub host : Option Text
  pub forwarded_proto : Option Text
  pub forwarded_host : Option Text

abbrev pub form_content_types : List Text
form_content_types =
    codes "application/x-www-form-urlencoded"
    ∷ codes "multipart/form-data"
    ∷ codes "text/plain"
    ∷ []

abbrev pub safe_methods : List Text
safe_methods = codes "GET" ∷ codes "HEAD" ∷ codes "OPTIONS" ∷ []

-- `?.trim() || undefined` of the first part
abbrev pub first_part : List Text → Option Text
first_part [] = none
first_part (p ∷ ps) = truthy (some (trim p))

unfoldable pub first_forwarded : Option Text → Option Text
first_forwarded none = none
first_forwarded (some value) = first_part (split_on b',' value)

-- `a ?? b`
abbrev pub or_else : Option Text → Text → Text
or_else none b = b
or_else (some a) b = a

-- `trustProxy ? firstForwarded(header) : undefined`
abbrev pub forwarded : Bool → Option Text → Option Text
forwarded trust_proxy header = if trust_proxy then first_forwarded header else none

module _ (to_lower : Text → Text) (trust_proxy : Bool) where
  unfoldable pub expected_origin : Request → Text
  expected_origin r =
      to_lower (or_else (forwarded trust_proxy r.forwarded_proto) (strip_colon r.url_protocol))
      ++ (codes "://"
          ++ or_else (forwarded trust_proxy r.forwarded_host) (or_else r.host r.url_host))

  -- `request.headers.get('origin') === expectedOrigin(request)`
  abbrev pub is_origin : Option Text → Text → Bool
  is_origin none expected = false
  is_origin (some origin) expected = text_eq origin expected

  abbrev pub is_form_like : Text → Bool
  is_form_like content_type = any (λ t. contains (to_lower content_type) t) form_content_types

  abbrev pub is_form : Option Text → Bool
  is_form none = true
  is_form (some content_type) = is_form_like content_type

  unfoldable pub is_forbidden_cross_site_request : Request → Bool
  is_forbidden_cross_site_request r =
      if any (λ m. text_eq m r.method) safe_methods
      then false
      else is_form r.content_type && not (is_origin r.origin (expected_origin r))
