-- ===== src/SafeUri.antt =====
-- app/src/lib/safe-uri.ts: which redirect targets, links and images are let through. `parse_url` is
-- `new URL(...)`, none where it throws; `gateway` the PUBLIC_IPFS_GATEWAY variable.
pub mod Images
pub mod Laws
mod Tests
use web_gui.Base.{
  ℕ, Bool, true, false, not, ◌&&◌, ◌||◌, List, [], ◌∷◌, ◌++◌, Option, none, some, ◌==◌, leb, any,
  all, if◌then◌else◌,
}
use web_gui.Text.{
  Text, codes, text_eq, trim, is_nonempty, starts_with, contains, lower_unit, truthy,
}
use web_gui.Params.{is_alphanumeric}

-- The parts of a parsed URL that are read; the protocol has its colon.
pub record Url : Type 0 where
  pub protocol : Text
  pub host : Text
  pub pathname : Text
  pub search : Text
  pub href : Text

abbrev pub is_printable : ℕ → Bool
is_printable c = leb 0x21 c && leb c 0x7e

unfoldable pub safe_relative_path : Text → Text
safe_relative_path raw =
    if not (all is_printable raw)
    then codes "/"
    else if starts_with raw (codes "/")
        && (not (starts_with raw (codes "//")) && not (starts_with raw (codes "/\\")))
    then raw
    else codes "/"

abbrev pub default_ipfs_gateway : Text
default_ipfs_gateway = codes "https://ipfs.io/ipfs/"

unfoldable pub ends_with_slash : Text → Bool
ends_with_slash [] = false
ends_with_slash (c ∷ []) = c == b'/'
ends_with_slash (c ∷ d ∷ s) = ends_with_slash (d ∷ s)

abbrev pub with_slash : Option Text → Text
with_slash none = default_ipfs_gateway
with_slash (some raw) = if ends_with_slash raw then raw else raw ++ codes "/"

unfoldable pub get_ipfs_gateway : Option Text → Text
get_ipfs_gateway gateway = with_slash (truthy gateway)

-- `s.replace(/^\/+/, '')`
unfoldable pub strip_slashes : Text → Text
strip_slashes [] = []
strip_slashes (c ∷ s) = let rest = strip_slashes s in if c == b'/' then rest else c ∷ s

-- `url.host || path`
abbrev pub cid_of : Url → Text
cid_of url = if is_nonempty url.host then url.host else strip_slashes url.pathname

unfoldable pub gateway_uri : Text → Url → Text
gateway_uri base url =
    base
    ++ (cid_of url
        ++ ((if is_nonempty (strip_slashes url.pathname)
              then b'/' ∷ strip_slashes url.pathname
              else [])
            ++ url.search))

-- A unit of `[a-z0-9.!#$&^+\-_.]` with the flag i.
abbrev pub is_subtype_unit : ℕ → Bool
is_subtype_unit c = is_alphanumeric c || any (λ d. c == d) (codes ".!#$&^+-_")

-- `[...]+[;,]`, where `first` says that no unit of the class was read yet.
unfoldable pub is_subtype : (first : Bool) → Text → Bool
is_subtype first [] = false
is_subtype first (c ∷ s) =
    let rest = is_subtype false s in
    if is_subtype_unit c then rest else not first && ((c == b';') || (c == b','))

-- `p.test(s)` for the literal start of the expression, without regard to case, and the rest of s.
unfoldable pub after_prefix : Text → Text → Option Text
after_prefix s [] = some s
after_prefix [] (p ∷ ps) = none
after_prefix (c ∷ s) (p ∷ ps) = if lower_unit c == p then after_prefix s ps else none

abbrev pub is_subtype_of : Option Text → Bool
is_subtype_of none = false
is_subtype_of (some s) = is_subtype true s

-- `/^data:image\/[a-z0-9.!#$&^+\-_.]+[;,]/i`
unfoldable pub is_image_data : Text → Bool
is_image_data t = is_subtype_of (after_prefix t (codes "data:image/"))

module _ (parse_url : Text → Option Url) (gateway : Option Text) where
  unfoldable pub safe_url : Url → Option Text
  safe_url url =
      if text_eq url.protocol (codes "https:")
      then some url.href
      else if text_eq url.protocol (codes "ipfs:")
      then if is_nonempty (cid_of url)
        then some (gateway_uri (get_ipfs_gateway gateway) url)
        else none
      else none

  unfoldable pub safe_external_uri : Text → Option Text
  safe_external_uri raw =
      if not (is_nonempty (trim raw))
      then none
      else elim (parse_url (trim raw)) [ some url ↦ safe_url url | none ↦ none ]

  unfoldable pub safe_image_uri : Text → Option Text
  safe_image_uri raw =
      let trimmed = trim raw in
      if not (is_nonempty trimmed)
      then none
      else if is_image_data trimmed
      then some trimmed
      else if starts_with trimmed (codes "/")
          && (not (starts_with trimmed (codes "//")) && not (contains trimmed (codes "\\")))
      then some trimmed
      else safe_external_uri trimmed
