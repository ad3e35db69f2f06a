-- ===== src/Passkey/Tests.antt =====
-- Runs of app/src/lib/passkey.ts on concrete inputs.
use web_gui.Base.{ℕ, ◌≡◌, refl, true, false, [], ◌∷◌, none, some, arith, List}
use web_gui.Text.{Text, codes}
use web_gui.Passkey.{
  ChallengePurpose, registration, authentication, challenge_ttl_ms, purpose_eq, create_challenge,
  consume_challenge, is_valid_rp_id,
}
use web_gui.Passkey.Traces.{Op, create, consume, run_ops}
use web_gui.Passkey.Challenges.{consume-create_challenge}

run : Unit {0}
unfolding is_valid_rp_id web_gui.Passkey.is_ipv4 web_gui.Text.text_eq web_gui.Text.Split.split_on
run = tt

rp_ids :
    (is_valid_rp_id (codes "localhost") ≡ true)
    × (is_valid_rp_id (codes "192.168.0.1") ≡ false)
    × (is_valid_rp_id (codes "[::1]") ≡ false)
    × (is_valid_rp_id (codes "deadbeef") ≡ true)
    × (is_valid_rp_id [] ≡ false)
unfolding run
rp_ids = (refl, refl, refl, refl, refl)

abbrev other_login : List Op
other_login =
    create (codes "zz") authentication (codes "t2") 2000
    ∷ consume (codes "t2") authentication 3000
    ∷ []

consume-create_challenge_example :
    ((consume_challenge
        (codes "t1")
        registration
        4000
        (run_ops other_login (create_challenge (codes "abc") registration (codes "t1") 1000 []))).0
      ≡ some (codes "abc"))
    × ((again : ChallengePurpose) (at : ℕ)
        → (consume_challenge (codes "t1") again at (
            run_ops []
              (consume_challenge (codes "t1") registration 4000 (
                run_ops other_login
                  (create_challenge (codes "abc") registration (codes "t1") 1000 []))).1)).0
          ≡ none)
unfolding run
consume-create_challenge_example =
    consume-create_challenge [] (codes "abc") (codes "t1") registration registration 1000 4000
      other_login [] tt ((refl, omega arith), ((refl, omega arith), tt)) tt
