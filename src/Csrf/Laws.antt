-- ===== src/Csrf/Laws.antt =====
-- Which requests pass the cross-site check of app/src/lib/csrf.ts.
use web_gui.Base.{◌≡◌, refl, ap, ◌⊎◌, ◌↔◌, Bool, true, false, Option, none, some, arith, any, ◌++◌}
use web_gui.Text.{Text, codes, text_eq, text_eq_iff, strip_colon}
use web_gui.Csrf.{
  Request, safe_methods, is_form, is_origin, expected_origin, is_forbidden_cross_site_request,
  or_else,
}

abbrev pub is_safe : Text → Bool
is_safe method = any (λ m. text_eq m method) safe_methods

-- The same request with other forwarding headers.
abbrev pub reforwarded : Request → Option Text → Option Text → Request
reforwarded r proto host = record r { forwarded_proto = proto; forwarded_host = host }

module _ (to_lower : Text → Text) where
  is_origin_iff :
      (trust_proxy : Bool) (o : Option Text) (expected : Text)
      → (is_origin to_lower trust_proxy o expected ≡ true) ↔ (o ≡ some expected)
  is_origin_iff trust_proxy none expected = (λ h. absurd (ground arith), λ h. absurd (ground arith))
  is_origin_iff trust_proxy (some o) expected =
      let (sound, complete) = text_eq_iff o expected in
      (λ h. ap some (sound h), λ h. complete (ground arith))

  -- A request passes exactly if its method is GET, HEAD or OPTIONS, or it has a content type that is
  -- none of a form, or its Origin header is there and names the expected origin.
  pub is_forbidden_cross_site_request_iff :
      (trust_proxy : Bool) (r : Request)
      → (is_forbidden_cross_site_request to_lower trust_proxy r ≡ false) ↔ (
          (is_safe r.method ≡ true)
          ⊎ ((is_form to_lower trust_proxy r.content_type ≡ false)
              ⊎ (r.origin ≡ some (expected_origin to_lower trust_proxy r))))
  unfolding is_forbidden_cross_site_request
  is_forbidden_cross_site_request_iff trust_proxy r =
      ground (arith, is_origin_iff trust_proxy r.origin (expected_origin to_lower trust_proxy r))

  -- Without TRUST_PROXY, the forwarding headers do not change the verdict: whatever they say, a request
  -- passes exactly if its method is GET, HEAD or OPTIONS, or it has a content type that is none of a
  -- form, or its Origin is the scheme and host that the request was made to.
  pub is_forbidden_cross_site_request-reforwarded :
      (r : Request) (proto host : Option Text)
      → (is_forbidden_cross_site_request to_lower false (reforwarded r proto host)
          ≡ is_forbidden_cross_site_request to_lower false r)
        × ((is_forbidden_cross_site_request to_lower false (reforwarded r proto host) ≡ false) ↔ (
            (is_safe r.method ≡ true)
            ⊎ ((is_form to_lower false r.content_type ≡ false)
                ⊎ (r.origin
                    ≡ some (
                        to_lower (strip_colon r.url_protocol)
                        ++ (codes "://" ++ or_else r.host r.url_host))))))
  unfolding is_forbidden_cross_site_request expected_origin
  is_forbidden_cross_site_request-reforwarded r proto host =
      (refl, is_forbidden_cross_site_request_iff false r)
