-- ===== src/SafeUri/Tests.antt =====
-- Runs of app/src/lib/safe-uri.ts on concrete targets.
use web_gui.Base.{
  ◌≡◌, ◌↔◌, refl, inl, inr, [], Option, none, some, arith, Bool-cases, if◌then◌else◌,
}
use web_gui.Text.{Text, codes, text_eq, starts_with, contains, trim, is_space}
use web_gui.SafeUri.{
  Url, safe_relative_path, safe_external_uri, safe_image_uri, safe_url, gateway_uri,
  get_ipfs_gateway, ends_with_slash, strip_slashes, is_image_data, is_subtype, after_prefix,
}
use web_gui.SafeUri.Laws.{
  IsLocalPath, IsImage, HrefShowsProtocol, safe_relative_path-IsLocalPath, safe_image_uri-IsImage,
}

run : Unit {0}
unfolding text_eq starts_with contains trim is_space safe_relative_path safe_external_uri
    safe_image_uri safe_url gateway_uri get_ipfs_gateway ends_with_slash strip_slashes is_image_data
    is_subtype after_prefix
run = tt

abbrev parse_url : Text → Option Url
parse_url t =
    if starts_with t (codes "https:")
    then some
        (record { protocol = codes "https:"; host = []; pathname = []; search = []; href = t })
    else if text_eq t (codes "ipfs://cid/a.png")
    then some (record {
      protocol = codes "ipfs:";
      host = codes "cid";
      pathname = codes "/a.png";
      search = [];
      href = t;
    })
    else none

shows : HrefShowsProtocol parse_url
unfolding run
shows t url h = elim (Bool-cases (starts_with t (codes "https:"))) [
  | inl secure ↦ ground arith
  | inr other ↦ elim (Bool-cases (text_eq t (codes "ipfs://cid/a.png"))) [
    | inl stored ↦ ground (arith, web_gui.Text.eq_of_text_eq t (codes "ipfs://cid/a.png") stored)
    | inr unknown ↦ absurd (ground arith)
  ]
]

crafted : safe_relative_path (codes "/\\evil.com") ≡ codes "/"
unfolding run
crafted = refl

safe_relative_path-IsLocalPath_example :
    IsLocalPath (safe_relative_path (codes "/send?x=1"))
    × ((safe_relative_path (codes "/send?x=1") ≡ codes "/send?x=1")
        ↔ IsLocalPath (codes "/send?x=1"))
safe_relative_path-IsLocalPath_example = safe_relative_path-IsLocalPath (codes "/send?x=1")

script : safe_external_uri parse_url none (codes "javascript:alert(1)") ≡ none
unfolding run
script = refl

mapped :
    safe_external_uri parse_url none (codes " ipfs://cid/a.png ")
    ≡ some (codes "https://ipfs.io/ipfs/cid/a.png")
unfolding run
mapped = refl

inlined :
    safe_image_uri parse_url none (codes "DATA:image/png;base64,AA")
    ≡ some (codes "DATA:image/png;base64,AA")
unfolding run
inlined = refl

-- A tab behind the slash passes; the parser of URLs drops it.
tabbed :
    safe_image_uri parse_url none (codes "/\t/evil.com/x.png") ≡ some (codes "/\t/evil.com/x.png")
unfolding run
tabbed = refl

safe_image_uri-IsImage_example : IsImage none (codes "DATA:image/png;base64,AA")
safe_image_uri-IsImage_example =
    safe_image_uri-IsImage parse_url none shows (codes "DATA:image/png;base64,AA") inlined
