-- ===== src/Base/Bits.antt =====
-- `^` and `&` of JavaScript on natural numbers below 2 ^ 31, as arithmetic on binary digits.
use Prim.Native.Nat.{
  ℕ, zero, suc, ◌+◌, ◌-◌, ◌*◌, ◌/◌, ◌%◌, ◌^◌, ◌≤◌, ◌<◌, min, digits, differ, bit_and-bitwise,
  bit_xor-bitwise,
}
pub use Prim.Native.Nat.{bit_and, bit_xor}
use mathlib.Core.Path.{◌≡◌, refl, sym, ap, ◌∙◌}
use native.Mathlib.Omega.{arith}
use native.Mathlib.Nat.{
  pow-suc, pow-zero, one-le-pow, div-add-mod, mod-lt, mul-add-mod_self_left, mod-eq_of_lt,
}

module _ (rest : ℕ → ℕ) (op : ℕ → ℕ → ℕ) where
  digits_one_more : (n a b : ℕ) → a ≤ n → digits rest op (suc n) a b ≡ digits rest op n a b
  digits_one_more n zero b h = out_of_digits n
    where
      out_of_digits : (n : ℕ) → digits rest op (suc n) 0 b ≡ digits rest op n 0 b
      out_of_digits zero = refl
      out_of_digits (suc n) = refl
  digits_one_more zero (suc a) b h = absurd (omega arith)
  digits_one_more (suc n) (suc a) b h =
      ap (λ (t : ℕ). t * 2 + op (suc a % 2) (b % 2))
        (digits_one_more n (suc a / 2) (b / 2) (omega arith))

  -- Fuel beyond the first number is not used.
  digits_more : (k n a b : ℕ) → k + a ≡ n → digits rest op n a b ≡ digits rest op a a b
  digits_more zero n a b e = let same : n ≡ a = omega arith in ap (λ n. digits rest op n a b) same
  digits_more (suc k) zero a b e = absurd (omega arith)
  digits_more (suc k) (suc n) a b e =
      digits_one_more n a b (omega arith) ∙ digits_more k n a b (omega arith)

  digits_half :
      (a b : ℕ)
      → digits rest op a (suc a / 2) (b / 2) ≡ digits rest op (suc a / 2) (suc a / 2) (b / 2)
  digits_half a b = digits_more (a - suc a / 2) a (suc a / 2) (b / 2) (omega arith)

pub zero-bit_xor : (b : ℕ) → bit_xor 0 b ≡ b
zero-bit_xor b = bit_xor-bitwise 0 b

differ_parity : (x y : ℕ) → x < 2 → y < 2 → differ x y ≡ (x + y) % 2
differ_parity zero y p q = omega arith
differ_parity (suc zero) zero p q = refl
differ_parity (suc zero) (suc zero) p q = refl
differ_parity (suc zero) (suc (suc y)) p q = absurd (omega arith)
differ_parity (suc (suc x)) y p q = absurd (omega arith)

-- The digits but the lowest, and the lowest.
pub bit_xor_step : (a b : ℕ) → bit_xor a b ≡ bit_xor (a / 2) (b / 2) * 2 + (a + b) % 2
bit_xor_step zero b = omega (arith, zero-bit_xor b, zero-bit_xor (b / 2))
bit_xor_step (suc a) b = omega (
  arith,
  bit_xor-bitwise (suc a) b,
  bit_xor-bitwise (suc a / 2) (b / 2),
  digits_half (λ b. b) differ a b,
  differ_parity (suc a % 2) (b % 2) (omega arith) (omega arith),
)

bit_xor-half : (a b : ℕ) → bit_xor a b / 2 ≡ bit_xor (a / 2) (b / 2)
bit_xor-half a b = omega (arith, bit_xor_step a b)

bit_xor-parity : (a b : ℕ) → bit_xor a b % 2 ≡ (a + b) % 2
bit_xor-parity a b = omega (arith, bit_xor_step a b)

bit_xor-zero_fuel : (n a : ℕ) → a ≤ n → bit_xor a 0 ≡ a
bit_xor-zero_fuel n zero h = zero-bit_xor 0
bit_xor-zero_fuel zero (suc a) h = absurd (omega arith)
bit_xor-zero_fuel (suc n) (suc a) h =
    omega (arith, bit_xor_step (suc a) 0, bit_xor-zero_fuel n (suc a / 2) (omega arith))

pub bit_xor-zero : (a : ℕ) → bit_xor a 0 ≡ a
bit_xor-zero a = bit_xor-zero_fuel a a (omega arith)

bit_xor_comm_fuel : (n a b : ℕ) → a ≤ n → bit_xor a b ≡ bit_xor b a
bit_xor_comm_fuel n zero b h = zero-bit_xor b ∙ sym (bit_xor-zero b)
bit_xor_comm_fuel zero (suc a) b h = absurd (omega arith)
bit_xor_comm_fuel (suc n) (suc a) b h = omega (
  arith,
  bit_xor_step (suc a) b,
  bit_xor_step b (suc a),
  bit_xor_comm_fuel n (suc a / 2) (b / 2) (omega arith),
)

pub bit_xor_comm : (a b : ℕ) → bit_xor a b ≡ bit_xor b a
bit_xor_comm a b = bit_xor_comm_fuel a a b (omega arith)

bit_xor_assoc_fuel : (n a b c : ℕ) → a ≤ n → bit_xor (bit_xor a b) c ≡ bit_xor a (bit_xor b c)
bit_xor_assoc_fuel n zero b c h =
    ap (λ t. bit_xor t c) (zero-bit_xor b) ∙ sym (zero-bit_xor (bit_xor b c))
bit_xor_assoc_fuel zero (suc a) b c h = absurd (omega arith)
bit_xor_assoc_fuel (suc n) (suc a) b c h = omega (
  arith,
  bit_xor_step (bit_xor (suc a) b) c,
  bit_xor_step (suc a) (bit_xor b c),
  ap (λ t. bit_xor t (c / 2)) (bit_xor-half (suc a) b),
  ap (λ t. bit_xor (suc a / 2) t) (bit_xor-half b c),
  bit_xor-parity (suc a) b,
  bit_xor-parity b c,
  bit_xor_assoc_fuel n (suc a / 2) (b / 2) (c / 2) (omega arith),
)

pub bit_xor_assoc : (a b c : ℕ) → bit_xor (bit_xor a b) c ≡ bit_xor a (bit_xor b c)
bit_xor_assoc a b c = bit_xor_assoc_fuel a a b c (omega arith)

bit_xor_self_fuel : (n a : ℕ) → a ≤ n → bit_xor a a ≡ 0
bit_xor_self_fuel n zero h = zero-bit_xor 0
bit_xor_self_fuel zero (suc a) h = absurd (omega arith)
bit_xor_self_fuel (suc n) (suc a) h =
    omega (arith, bit_xor_step (suc a) (suc a), bit_xor_self_fuel n (suc a / 2) (omega arith))

pub bit_xor_self : (a : ℕ) → bit_xor a a ≡ 0
bit_xor_self a = bit_xor_self_fuel a a (omega arith)

pub bit_xor_cancel : (a b : ℕ) → bit_xor a (bit_xor a b) ≡ b
bit_xor_cancel a b =
    sym (bit_xor_assoc a a b) ∙ ap (λ t. bit_xor t b) (bit_xor_self a) ∙ zero-bit_xor b

scale_suc : (q k : ℕ) → q * 2 ^ suc k ≡ 2 * (q * 2 ^ k)
scale_suc q k = omega (arith, ap (λ (t : ℕ). q * t) (pow-suc 2 k))

-- Two numbers cut at the same digit.
pub bit_xor_fields :
    (k a b x y : ℕ)
    → x < 2 ^ k
    → y < 2 ^ k
    → bit_xor (a * 2 ^ k + x) (b * 2 ^ k + y) ≡ bit_xor a b * 2 ^ k + bit_xor x y
bit_xor_fields zero a b x y h k =
    let x0 : x ≡ 0 = omega (arith, pow-zero 2) in
    let y0 : y ≡ 0 = omega (arith, pow-zero 2) in
    rw (x0, y0, pow-zero 2, zero-bit_xor 0) (ground (arith))
bit_xor_fields (suc k) a b x y h h' =
    let e = pow-suc 2 k in
    ground (
      arith,
      bit_xor_step (a * 2 ^ suc k + x) (b * 2 ^ suc k + y),
      bit_xor_step x y,
      scale_suc a k,
      scale_suc b k,
      scale_suc (bit_xor a b) k,
      bit_xor_fields k a b (x / 2) (y / 2) (omega arith) (omega arith),
    )

pub bit_xor-lt : (k x y : ℕ) → x < 2 ^ k → y < 2 ^ k → bit_xor x y < 2 ^ k
bit_xor-lt zero x y h h' =
    let x0 : x ≡ 0 = omega (arith, pow-zero 2) in
    let y0 : y ≡ 0 = omega (arith, pow-zero 2) in
    rw (x0, y0) (omega (arith, pow-zero 2, zero-bit_xor 0))
bit_xor-lt (suc k) x y h h' =
    let e = pow-suc 2 k in
    omega (arith, bit_xor_step x y, bit_xor-lt k (x / 2) (y / 2) (omega arith) (omega arith))

bit_and_lowest : (a b : ℕ) → bit_and a b ≡ bit_and (a / 2) (b / 2) * 2 + min (a % 2) (b % 2)
bit_and_lowest zero b = omega (arith, bit_and-bitwise 0 b, bit_and-bitwise 0 (b / 2))
bit_and_lowest (suc a) b = omega (
  arith,
  bit_and-bitwise (suc a) b,
  bit_and-bitwise (suc a / 2) (b / 2),
  digits_half (λ b. 0) min a b,
)

bit_and-zero_within : (n a : ℕ) → a ≤ n → bit_and a 0 ≡ 0
bit_and-zero_within n zero h = bit_and-bitwise 0 0
bit_and-zero_within zero (suc a) h = absurd (omega arith)
bit_and-zero_within (suc n) (suc a) h =
    omega (arith, bit_and_lowest (suc a) 0, bit_and-zero_within n (suc a / 2) (omega arith))

mod_double : (a p : ℕ) → 0 < p → a % (p * 2) ≡ a / 2 % p * 2 + a % 2
mod_double a p h =
    let rest = a / 2 % p * 2 + a % 2 in
    let split : p * 2 * (a / 2 / p) + rest ≡ a = omega (arith, div-add-mod (a / 2) p) in
    let small : rest < p * 2 = omega (arith, mod-lt (a / 2) h) in
    ap (λ (t : ℕ). t % (p * 2)) (sym split)
    ∙ mul-add-mod_self_left (p * 2) (a / 2 / p) rest
    ∙ mod-eq_of_lt small

-- A mask of the low digits is the remainder.
pub bit_and_mask : (k a m : ℕ) → suc m ≡ 2 ^ k → bit_and a m ≡ a % 2 ^ k
bit_and_mask zero a m e =
    let m0 : m ≡ 0 = omega (arith, pow-zero 2) in
    rw (m0, bit_and-zero_within a a (omega arith), pow-zero 2) (omega arith)
bit_and_mask (suc k) a m e =
    let p = pow-suc 2 k in
    let pos = one-le-pow k 2 (omega arith) in
    let odd : m % 2 ≡ 1 = omega arith in
    let low : a % 2 ^ suc k ≡ a / 2 % 2 ^ k * 2 + a % 2 =
      ap (λ (t : ℕ). a % t) p ∙ mod_double a (2 ^ k) pos in
    omega (arith, bit_and_lowest a m, bit_and_mask k (a / 2) (m / 2) (omega arith))
