-- ===== src/Csrf/Tests.antt =====
-- Runs of app/src/lib/csrf.ts on concrete requests.
use web_gui.Base.{◌≡◌, refl, ◌⊎◌, ◌↔◌, true, false, [], ◌∷◌, none, some, ◌++◌}
use web_gui.Text.{
  Text, codes, text_eq, trim, is_space, contains, starts_with, strip_colon, lower_unit,
}
use web_gui.Text.Split.{split_on}
use web_gui.Csrf.{
  Request, first_forwarded, expected_origin, is_form, or_else, is_forbidden_cross_site_request,
}
use web_gui.Csrf.Laws.{is_safe, reforwarded, is_forbidden_cross_site_request-reforwarded}

abbrev to_lower : Text → Text
to_lower [] = []
to_lower (c ∷ t) = lower_unit c ∷ to_lower t

run : Unit {0}
unfolding text_eq trim is_space contains starts_with strip_colon split_on first_forwarded
    expected_origin is_forbidden_cross_site_request
run = tt

-- A login form behind a gateway that ends TLS.
abbrev login : Request
login = record {
  method = codes "POST";
  url_protocol = codes "http:";
  url_host = codes "web-gui:4321";
  origin = some (codes "https://wallet.example");
  content_type = some (codes "application/x-www-form-urlencoded; charset=UTF-8");
  host = some (codes "wallet.example");
  forwarded_proto = some (codes "https, http");
  forwarded_host = none;
}

behind_gateway : is_forbidden_cross_site_request to_lower true login ≡ false
unfolding run
behind_gateway = refl

exposed : is_forbidden_cross_site_request to_lower false login ≡ true
unfolding run
exposed = refl

is_forbidden_cross_site_request-reforwarded_example :
    (is_forbidden_cross_site_request to_lower false
        (reforwarded login none (some (codes "evil.example")))
      ≡ is_forbidden_cross_site_request to_lower false login)
    × ((is_forbidden_cross_site_request to_lower false
            (reforwarded login none (some (codes "evil.example")))
          ≡ false)
        ↔ ((is_safe login.method ≡ true)
            ⊎ ((is_form to_lower false login.content_type ≡ false)
                ⊎ (login.origin
                    ≡ some (
                        to_lower (strip_colon login.url_protocol)
                        ++ (codes "://" ++ or_else login.host login.url_host))))))
is_forbidden_cross_site_request-reforwarded_example =
    is_forbidden_cross_site_request-reforwarded to_lower login none (some (codes "evil.example"))
