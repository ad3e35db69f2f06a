-- ===== src/UpdateCheck/Tests.antt =====
-- Comparisons of versions by app/src/lib/update-check.ts.
use web_gui.Base.{◌≡◌, refl}
use web_gui.Text.{codes, text_eq}
use web_gui.Text.Digits.{value_from}
use web_gui.Text.Split.{split_on}
use web_gui.UpdateCheck.{
  less, greater, normalize, digits_of, compare_cores, text_less, rc_number, compare_pres,
  compare_versions,
}

run : Unit {0}
unfolding text_eq value_from split_on normalize compare_cores text_less rc_number compare_pres
    compare_versions
run = tt

final_first : compare_versions digits_of (codes "v1.2.0") (codes "v1.2.0-rc3") ≡ greater
unfolding run
final_first = refl

by_number : compare_versions digits_of (codes "1.0.0-rc9") (codes "1.0.0-rc10") ≡ less
unfolding run
by_number = refl

-- The three comparisons go round in a circle.
by_text : compare_versions digits_of (codes "1.0.0-rc10") (codes "1.0.0-rc1a") ≡ less
unfolding run
by_text = refl

round : compare_versions digits_of (codes "1.0.0-rc1a") (codes "1.0.0-rc9") ≡ less
unfolding run
round = refl
