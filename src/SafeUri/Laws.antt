-- ===== src/SafeUri/Laws.antt =====
-- Where the targets that app/src/lib/safe-uri.ts lets through may lead.
use web_gui.Base.{
  ℕ, ◌≡◌, ◌≢◌, refl, sym, ◌∙◌, subst, ◌↔◌, inl, inr, Bool, true, false, not, ◌&&◌, ◌∷◌, [], ◌++◌,
  Option, some, arith, all, Bool-cases, Option-cases,
}
use web_gui.Text.{Text, codes, text_eq, text_eq_iff, trim, is_nonempty, starts_with, contains}
use web_gui.Text.Split.{Lacks}
use web_gui.SafeUri.Images.{
  IsDataImage, is_image_data-IsDataImage, starts_with-split, contains-Lacks,
}
use web_gui.SafeUri.{
  Url, is_printable, safe_relative_path, get_ipfs_gateway, cid_of, gateway_uri, is_image_data,
  safe_url, safe_external_uri, safe_image_uri,
}

-- A path of the same origin: a slash that no slash or backslash follows, and only printable ASCII.
pub data IsLocalPath : Text → Type 0 where
  root : IsLocalPath (b'/' ∷ [])
  path :
      (c : ℕ) (s : Text)
      → c ≢ b'/'
      → c ≢ b'\\'
      → all is_printable (c ∷ s) ≡ true
      → IsLocalPath (b'/' ∷ c ∷ s)

abbrev is_kept : Text → Bool
is_kept raw =
    all is_printable raw
    && (starts_with raw (codes "/")
        && (not (starts_with raw (codes "//")) && not (starts_with raw (codes "/\\"))))

is_kept-IsLocalPath : (raw : Text) → is_kept raw ≡ true → IsLocalPath raw
unfolding starts_with
is_kept-IsLocalPath [] h = absurd (ground arith)
is_kept-IsLocalPath (c ∷ []) h = let e : c ≡ b'/' = ground arith in rw e root
is_kept-IsLocalPath (c ∷ d ∷ s) h =
    let e : c ≡ b'/' = ground arith in rw e (path d s (ground arith) (ground arith) (ground arith))

safe_relative_path_sound : (raw : Text) → IsLocalPath (safe_relative_path raw)
unfolding safe_relative_path
safe_relative_path_sound raw = elim (Bool-cases (is_kept raw)) [
  | inl kept ↦
      let same : safe_relative_path raw ≡ raw = ground arith in
      rw same (is_kept-IsLocalPath raw kept)
  | inr dropped ↦ let same : safe_relative_path raw ≡ codes "/" = ground arith in rw same root
]

safe_relative_path_kept : (raw : Text) → IsLocalPath raw → safe_relative_path raw ≡ raw
unfolding safe_relative_path starts_with
safe_relative_path_kept _ root = refl
safe_relative_path_kept _ (path c s slash backslash printable) = ground arith

-- The redirect target is a path of the same origin, and exactly such paths are kept as they are.
pub safe_relative_path-IsLocalPath :
    (raw : Text)
    → IsLocalPath (safe_relative_path raw) × ((safe_relative_path raw ≡ raw) ↔ IsLocalPath raw)
safe_relative_path-IsLocalPath raw = (
  safe_relative_path_sound raw,
  (λ e. subst IsLocalPath e (safe_relative_path_sound raw), safe_relative_path_kept raw),
)

-- A link goes to https, or to the gateway.
pub data IsLink (gateway : Option Text) : Text → Type 0 where
  https : (rest : Text) → IsLink gateway (codes "https:" ++ rest)
  ipfs : (rest : Text) → IsLink gateway (get_ipfs_gateway gateway ++ rest)

-- What follows the slash starts with no other one.
pub data IsSingleSlash : Text → Type 0 where
  last : IsSingleSlash []
  then_other : (c : ℕ) (s : Text) → c ≢ b'/' → IsSingleSlash (c ∷ s)

-- An image comes from a link, from its own data, or from a path: one slash that no other follows, and
-- no backslash.
pub data IsImage (gateway : Option Text) : Text → Type 0 where
  link : (t : Text) → IsLink gateway t → IsImage gateway t
  inline : (t : Text) → IsDataImage t → IsImage gateway t
  own : (s : Text) → IsSingleSlash s → Lacks b'\\' s → IsImage gateway (b'/' ∷ s)

own_path :
    (gateway : Option Text) (t : Text)
    → starts_with t (codes "/") ≡ true
    → starts_with t (codes "//") ≡ false
    → contains t (codes "\\") ≡ false
    → IsImage gateway t
unfolding starts_with contains
own_path gateway [] h _ _ = absurd (ground arith)
own_path gateway (c ∷ []) h single plain = let e : c ≡ b'/' = ground arith in rw e (own [] last tt)
own_path gateway (c ∷ d ∷ s) h single plain =
    let e : c ≡ b'/' = ground arith in
    rw e (own (d ∷ s) (then_other d s (ground arith)) (contains-Lacks b'\\' (d ∷ s) (ground arith)))

-- `href` starts with the protocol of the URL.
abbrev pub HrefShowsProtocol : (Text → Option Url) → Type 0
HrefShowsProtocol parse_url =
    (t : Text) (url : Url) → parse_url t ≡ some url → starts_with url.href url.protocol ≡ true

module _ (parse_url : Text → Option Url) (gateway : Option Text)
    (shows : HrefShowsProtocol parse_url) where
  safe_url-IsLink :
      (url : Url) {t : Text}
      → starts_with url.href url.protocol ≡ true
      → safe_url parse_url gateway url ≡ some t
      → IsLink gateway t
  unfolding safe_url gateway_uri
  safe_url-IsLink url {t} shown h = elim (Bool-cases (text_eq url.protocol (codes "https:"))) [
    | inl secure ↦
        let same : url.href ≡ t = ground arith in
        let protocol_is = (text_eq_iff url.protocol (codes "https:")).0 secure in
        let (rest, split) =
          starts_with-split url.href (codes "https:")
            (subst (λ p. starts_with url.href p ≡ true) protocol_is shown) in
        subst (IsLink gateway) (sym split ∙ same) (https rest)
    | inr insecure ↦
        elim (Bool-cases (text_eq url.protocol (codes "ipfs:") && is_nonempty (cid_of url))) [
          | inl stored ↦
              let same : gateway_uri (get_ipfs_gateway gateway) url ≡ t = ground arith in
              subst (IsLink gateway) same (ipfs _)
          | inr unknown ↦ absurd (ground arith)
        ]
  ]

  -- A link that is rendered goes to an https URL or to the IPFS gateway.
  pub safe_external_uri-IsLink :
      (raw : Text) {t : Text} → safe_external_uri parse_url gateway raw ≡ some t → IsLink gateway t
  unfolding safe_external_uri
  safe_external_uri-IsLink raw h = elim (Option-cases (parse_url (trim raw))) [
    | inl unread ↦ absurd (ground arith)
    | inr (url, read) ↦ safe_url-IsLink url (shows (trim raw) url read) (ground arith)
  ]

  -- An image that is rendered starts with https:, or with the IPFS gateway, or is a data: URI
  -- (data:image/ in any case, one or more letters, digits or marks of .!#$&^+-_, then a semicolon
  -- or a comma), or is a text that starts with one slash, not two, and has no backslash.
  pub safe_image_uri-IsImage :
      (raw : Text) {t : Text} → safe_image_uri parse_url gateway raw ≡ some t → IsImage gateway t
  unfolding safe_image_uri
  safe_image_uri-IsImage raw {t} h = elim (Bool-cases (is_nonempty (trim raw))) [
    | inr empty ↦ absurd (ground arith)
    | inl full ↦ elim (Bool-cases (is_image_data (trim raw))) [
      | inl image ↦
          let same : trim raw ≡ t = ground arith in
          subst (IsImage gateway) same (inline _ (is_image_data-IsDataImage (trim raw) image))
      | inr other ↦
          elim (Bool-cases (
            starts_with (trim raw) (codes "/")
            && (not (starts_with (trim raw) (codes "//"))
                && not (contains (trim raw) (codes "\\"))))) [
                  | inl local ↦
                      let same : trim raw ≡ t = ground arith in
                      subst (IsImage gateway) same
                        (own_path gateway (trim raw) (ground arith) (ground arith) (ground arith))
                  | inr foreign ↦
                      link _ (safe_external_uri-IsLink (trim raw) (rw (full, other, foreign) at h))
                ]
    ]
  ]
