-- ===== src/Passkey.antt =====
-- app/src/lib/passkey.ts: the store of pending WebAuthn challenges and the test of relying-party ids.
-- The random token of createChallenge is an argument, and `now` is the Date.now() of a call.
pub mod Traces
pub mod Challenges
mod Tests
use web_gui.Base.{
  ℕ, zero, suc, ◌+◌, ◌*◌, Bool, true, false, not, ◌&&◌, ◌||◌, List, [], ◌∷◌, Option, none, some,
  ◌==◌, leb, if◌then◌else◌, length, all, any,
}
use web_gui.Text.{Text, codes, text_eq, is_digit, is_nonempty}
use web_gui.Text.Split.{split_on}
use web_gui.JsMap.{Map, get, set, delete, prune}
use web_gui.Validation.{is_hex_digit}

pub data ChallengePurpose : Type 0 where
  registration : ChallengePurpose
  authentication : ChallengePurpose

pub record ChallengeEntry : Type 0 where
  pub challenge : Text
  pub expires_at : ℕ
  pub purpose : ChallengePurpose

abbrev pub challenge_ttl_ms : ℕ
challenge_ttl_ms = 5 * 60 * 1000

abbrev pub purpose_eq : ChallengePurpose → ChallengePurpose → Bool
purpose_eq registration registration = true
purpose_eq authentication authentication = true
purpose_eq _ _ = false

abbrev pub challenge_is_over : ℕ → ChallengeEntry → Bool
challenge_is_over now entry = leb entry.expires_at now

-- `token` is the one that the random generator makes, which is returned.
unfoldable pub create_challenge :
    Text → ChallengePurpose → Text → ℕ → Map ChallengeEntry → Map ChallengeEntry
create_challenge challenge purpose token now m =
    set token
      (record { challenge = challenge; expires_at = now + challenge_ttl_ms; purpose = purpose })
      (prune (challenge_is_over now) m)

unfoldable pub redeem : ChallengePurpose → ℕ → ChallengeEntry → Option Text
redeem expected now entry =
    if challenge_is_over now entry
    then none
    else if not (purpose_eq entry.purpose expected)
    then none
    else some entry.challenge

unfoldable pub consume_challenge :
    Text → ChallengePurpose → ℕ → Map ChallengeEntry → Option Text × Map ChallengeEntry
consume_challenge token expected now m = elim (get token m) [
  | none ↦ (none, m)
  | some entry ↦ (redeem expected now entry, delete token m)
]

-- `\d{1,3}`
abbrev pub is_short_number : Text → Bool
is_short_number s = is_nonempty s && all is_digit s && leb (length s) 3

-- `/^\d{1,3}(\.\d{1,3}){3}$/`
unfoldable pub is_ipv4 : Text → Bool
is_ipv4 s = let parts = split_on b'.' s in (length parts == 4) && all is_short_number parts

abbrev pub is_ipv6_unit : ℕ → Bool
is_ipv6_unit c = (c == b'[') || (c == b']') || is_hex_digit c || (c == b':')

unfoldable pub is_valid_rp_id : Text → Bool
is_valid_rp_id rp_id =
    if text_eq rp_id (codes "localhost")
    then true
    else if is_ipv4 rp_id
    then false
    else if any (λ c. (c == b':') || (c == b'[')) rp_id
        && all is_ipv6_unit rp_id
        && is_nonempty rp_id
    then false
    else leb 1 (length rp_id)
