-- ===== src/Bech32/Regroup.antt =====
-- convertbits and toWords of app/src/lib/bech32.ts: bytes regrouped into words of five bits.
use Prim.Native.Nat.{bit_or}
use native.Mathlib.Nat.{mod-lt, one-le-pow}
use web_gui.Base.{
  ℕ, zero, suc, ◌+◌, ◌-◌, ◌*◌, ◌/◌, ◌^◌, ◌≤◌, ◌<◌, ◌≡◌, ap, Bool, true, ◌&&◌, List, [], ◌∷◌, ◌++◌,
  arith, leb, ltb, if◌then◌else◌, length, length-append, All, All-append, Bool-cases, inl, inr,
}
use web_gui.Base.Bits.{bit_and, bit_and_mask}
use web_gui.Bech32.{shl, shr}

-- The `while` loop: the pushed groups and the bits that are left. Each round takes `tobits` off.
unfoldable pub drained : (fuel acc bits tobits : ℕ) → List ℕ × ℕ
drained zero acc bits tobits = ([], bits)
drained (suc fuel) acc bits tobits =
    let (rest, left) = drained fuel acc (bits - tobits) tobits in
    if leb tobits bits
    then (bit_and (shr acc (bits - tobits)) (2 ^ tobits - 1) ∷ rest, left)
    else ([], bits)

-- The loop over the data, from a state: the groups, and `acc` and `bits` at the end. The fuel of the
-- inner loop is the number of bits.
unfoldable pub regroup : (frombits tobits : ℕ) → List ℕ → ℕ → ℕ → List ℕ × (ℕ × ℕ)
regroup frombits tobits [] acc bits = ([], (acc, bits))
regroup frombits tobits (value ∷ values) acc bits =
    let acc' = bit_and (bit_or (shl acc frombits) value) 0xfffff in
    let (groups, left) = drained (bits + frombits) acc' (bits + frombits) tobits in
    let (more, end) = regroup frombits tobits values acc' left in (groups ++ more, end)

unfoldable pub padding : (tobits : ℕ) → Bool → ℕ → ℕ → List ℕ
padding tobits pad acc bits =
    if pad && ltb 0 bits then bit_and (shl acc (tobits - bits)) (2 ^ tobits - 1) ∷ [] else []

unfoldable pub convertbits : List ℕ → (frombits tobits : ℕ) → Bool → List ℕ
convertbits values frombits tobits pad =
    let (groups, (acc, bits)) = regroup frombits tobits values 0 0 in
    groups ++ padding tobits pad acc bits

unfoldable pub to_words : List ℕ → List ℕ
to_words bytes = convertbits bytes 8 5 true

masked-lt : (k x : ℕ) → bit_and x (2 ^ k - 1) < 2 ^ k
masked-lt k x =
    let some_mask = one-le-pow k 2 (omega arith) in
    let whole : suc (2 ^ k - 1) ≡ 2 ^ k = omega arith in
    let small = mod-lt x {m = 2 ^ k} (omega arith) in
    omega (arith, bit_and_mask k x (2 ^ k - 1) whole)

-- What is left is less than a group, and nothing is lost.
record IsRegrouped (tobits bits : ℕ) (groups : List ℕ) (left : ℕ) : Type 0 where
  total : length groups * tobits + left ≡ bits
  rest : left < tobits
  small : All (λ w. w < 2 ^ tobits) groups

drained-IsRegrouped :
    (fuel acc bits tobits : ℕ)
    → bits ≤ fuel
    → 0 < tobits
    → IsRegrouped tobits bits (drained fuel acc bits tobits).0 (drained fuel acc bits tobits).1
unfolding drained
drained-IsRegrouped zero acc bits tobits le pos = record {
  total = omega arith;
  rest = omega arith;
  small = tt;
}
drained-IsRegrouped (suc fuel) acc bits tobits le pos = elim (Bool-cases (leb tobits bits)) [
  | inl more ↦
      let enough : tobits ≤ bits = ground arith in
      let r = drained-IsRegrouped fuel acc (bits - tobits) tobits (omega arith) pos in
      rw more (record {
        total = omega (arith, r.total);
        rest = r.rest;
        small = (masked-lt tobits (shr acc (bits - tobits)), r.small);
      })
  | inr done ↦ rw done (record { total = omega arith; rest = ground arith; small = tt })
]

regroup-IsRegrouped :
    (frombits tobits : ℕ) (values : List ℕ) (acc bits : ℕ)
    → bits < tobits
    → IsRegrouped tobits
        (bits + length values * frombits)
        (regroup frombits tobits values acc bits).0
        (regroup frombits tobits values acc bits).1.1
unfolding regroup
regroup-IsRegrouped frombits tobits [] acc bits lt = record {
  total = omega arith;
  rest = lt;
  small = tt;
}
regroup-IsRegrouped frombits tobits (value ∷ values) acc bits lt =
    let acc' = bit_and (bit_or (shl acc frombits) value) 0xfffff in
    let total_bits = bits + frombits in
    let first = drained-IsRegrouped total_bits acc' total_bits tobits (omega arith) (omega arith) in
    let groups = (drained total_bits acc' total_bits tobits).0 in
    let left = (drained total_bits acc' total_bits tobits).1 in
    let later = regroup-IsRegrouped frombits tobits values acc' left first.rest in
    let more = (regroup frombits tobits values acc' left).0 in
    record {
      total =
          omega (
            arith,
            first.total,
            later.total,
            ap (λ (n : ℕ). n * tobits) (length-append groups more),
          );
      rest = later.rest;
      small = All-append (λ w. w < 2 ^ tobits) groups more first.small later.small;
    }

-- The words that a list of numbers, taken for bytes, is regrouped into are each below 32, and as
-- many as its bits need: one for each five bits, and one for what is left.
pub to_words-length :
    (bytes : List ℕ)
    → (length (to_words bytes) ≡ (8 * length bytes + 4) / 5) × All (λ w. w < 32) (to_words bytes)
unfolding to_words convertbits padding
to_words-length bytes =
    let r = regroup-IsRegrouped 8 5 bytes 0 0 (omega arith) in
    let groups = (regroup 8 5 bytes 0 0).0 in
    let acc = (regroup 8 5 bytes 0 0).1.0 in
    let left = (regroup 8 5 bytes 0 0).1.1 in
    elim (Bool-cases (ltb 0 left)) [
      | inl some_left ↦
          let last = bit_and (shl acc (5 - left)) 31 in
          let positive : 0 < left = ground arith in
          (
            rw some_left (omega (arith, r.total, r.rest, length-append groups (last ∷ []))),
            rw some_left (
                All-append (λ w. w < 32) groups (last ∷ []) r.small
                  (masked-lt 5 (shl acc (5 - left)), tt)),
          )
      | inr none_left ↦
          let empty : left ≡ 0 = ground arith in
          (
            rw none_left (omega (arith, r.total, r.rest, length-append groups [])),
            rw none_left (All-append (λ w. w < 32) groups [] r.small tt),
          )
    ]
