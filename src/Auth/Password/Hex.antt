-- ===== src/Auth/Password/Hex.antt =====
-- `Buffer.toString('hex')` and `Buffer.from(s, 'hex')`: reading stops at the first pair that is not
-- hexadecimal, and an odd unit at the end is dropped.
use web_gui.Base.{
  ℕ, ◌+◌, ◌-◌, ◌*◌, ◌/◌, ◌%◌, ◌<◌, ◌≡◌, refl, ◌≢◌, ◌&&◌, List, [], ◌∷◌, Option, none, some, arith,
  leb, ltb, if◌then◌else◌, length, All, ap,
}
use web_gui.Text.{Text}

unfoldable pub hex_unit : ℕ → ℕ
hex_unit d = if ltb d 10 then b'0' + d else b'a' + (d - 10)

unfoldable pub to_hex : List ℕ → Text
to_hex [] = []
to_hex (b ∷ bs) = hex_unit (b / 16 % 16) ∷ hex_unit (b % 16) ∷ to_hex bs

unfoldable pub hex_digit : ℕ → Option ℕ
hex_digit c =
    if leb b'0' c && leb c b'9'
    then some (c - b'0')
    else if leb b'a' c && leb c b'f'
    then some (c - b'a' + 10)
    else if leb b'A' c && leb c b'F'
    then some (c - b'A' + 10)
    else none

unfoldable pub hex_pair : Option ℕ → Option ℕ → List ℕ → List ℕ
hex_pair (some a) (some b) rest = (a * 16 + b) ∷ rest
hex_pair _ _ rest = []

unfoldable pub from_hex : Text → List ℕ
from_hex [] = []
from_hex (c ∷ []) = []
from_hex (c ∷ d ∷ s) = hex_pair (hex_digit c) (hex_digit d) (from_hex s)

abbrev pub AllBytes : List ℕ → Type 0
AllBytes bs = All (λ b. b < 256) bs

hex_digit-hex_unit : (d : ℕ) → d < 16 → hex_digit (hex_unit d) ≡ some d
unfolding hex_digit hex_unit
hex_digit-hex_unit d h = ground arith

pub from_hex-to_hex : (bs : List ℕ) → AllBytes bs → from_hex (to_hex bs) ≡ bs
unfolding from_hex to_hex hex_pair
from_hex-to_hex [] h = refl
from_hex-to_hex (b ∷ bs) (p, h) =
    rw
      (
        hex_digit-hex_unit (b / 16 % 16) (omega arith),
        hex_digit-hex_unit (b % 16) (omega arith),
        from_hex-to_hex bs h,
      )
      (ap (λ c. c ∷ bs) (omega arith))

pub length-to_hex : (bs : List ℕ) → length (to_hex bs) ≡ length bs * 2
unfolding to_hex
length-to_hex [] = omega arith
length-to_hex (b ∷ bs) = omega (arith, length-to_hex bs)

hex_unit-ne-colon : (d : ℕ) → d < 16 → hex_unit d ≢ b':'
unfolding hex_unit
hex_unit-ne-colon d h = ground arith

-- The text of a byte list holds no colon.
pub to_hex-Lacks : (bs : List ℕ) → All (λ c. c ≢ b':') (to_hex bs)
unfolding to_hex
to_hex-Lacks [] = tt
to_hex-Lacks (b ∷ bs) = (
  hex_unit-ne-colon (b / 16 % 16) (omega arith),
  (hex_unit-ne-colon (b % 16) (omega arith), to_hex-Lacks bs),
)
