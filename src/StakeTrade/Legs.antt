-- ===== src/StakeTrade/Legs.antt =====
-- The legs of an order in app/src/pages/api/stake-trade.ts: what is given and what is asked.
use web_gui.Base.{
  ℕ, ◌≡◌, ◌≤◌, refl, sym, ap, ◌∙◌, subst, true, [], ◌∷◌, Option, none, some, arith, all, length,
  All, Bool-cases, Option-cases, inl, inr,
}
use web_gui.Text.{Text, codes, text_eq, text_eq_iff, is_digit}
use web_gui.Text.Digits.{IsDigit}
use web_gui.JsMap.{Map, get}
use web_gui.Json.{Json, object_of, field}
use web_gui.Decimal.{Decimal, parse_decimal}
use web_gui.Validation.Amounts.{IsAmount, is_valid_amount-IsAmount}
use web_gui.Params.{is_str, is_id}
use web_gui.Params.Laws.{IsIdField, is_id-IsIdField}
use web_gui.StakeTrade.Defaults.{Extends}
use web_gui.StakeTrade.Actions.{
  is_atoms, decimal_or_atoms, is_coin_amount, leg_of_type, is_order_leg,
}

-- 1 to 40 digits, the first one not 0.
pub record IsAtoms (t : Text) : Type 0 where
  pub first : ℕ
  pub rest : Text
  pub spelled : t ≡ first ∷ rest
  pub not_zero : b'1' ≤ first
  pub digit : first ≤ b'9'
  pub digits : All IsDigit rest
  pub short : length t ≤ 40

-- A positive amount of the precision, or without one a number of atoms.
pub data IsCoinAmount (max_decimals : ℕ) (a : Map Json) : Type 0 where
  decimal :
      (t : Text) (units : Decimal)
      → field (codes "decimal") a ≡ some t
      → parse_decimal t ≡ some units
      → IsAmount max_decimals units
      → IsCoinAmount max_decimals a
  atoms :
      (t : Text)
      → field (codes "decimal") a ≡ none
      → field (codes "atoms") a ≡ some t
      → IsAtoms t
      → IsCoinAmount max_decimals a

pub record HasCoinAmount (max_decimals : ℕ) (v : Option Json) : Type 0 where
  pub fields : Map Json
  pub object : object_of v ≡ some fields
  pub amount : IsCoinAmount max_decimals fields

-- Coins, or tokens with their identifier.
pub data IsContent (c : Map Json) : Text → Type 0 where
  coin : HasCoinAmount 11 (get (codes "amount") c) → IsContent c (codes "Coin")
  token :
      IsIdField (get (codes "id") c)
      → HasCoinAmount 18 (get (codes "amount") c)
      → IsContent c (codes "Token")

pub record IsOrderLeg (v : Option Json) : Type 0 where
  pub fields : Map Json
  pub object : object_of v ≡ some fields
  pub type : Text
  pub typed : field (codes "type") fields ≡ some type
  pub content : Map Json
  pub has_content : object_of (get (codes "content") fields) ≡ some content
  pub fit : IsContent content type

all-IsDigit : (s : Text) → all is_digit s ≡ true → All IsDigit s
all-IsDigit [] h = tt
all-IsDigit (c ∷ s) h = ((ground arith, ground arith), all-IsDigit s (ground arith))

is_atoms-IsAtoms : (t : Text) → is_atoms t ≡ true → IsAtoms t
unfolding is_atoms
is_atoms-IsAtoms [] h = absurd (ground arith)
is_atoms-IsAtoms (c ∷ s) h = record {
  first = c;
  rest = s;
  spelled = refl;
  not_zero = ground arith;
  digit = ground arith;
  digits = all-IsDigit s (ground arith);
  short = ground arith;
}

decimal_or_atoms-IsCoinAmount :
    (max_decimals : ℕ) (a : Map Json)
    → decimal_or_atoms max_decimals (field (codes "decimal") a) (field (codes "atoms") a) ≡ true
    → IsCoinAmount max_decimals a
decimal_or_atoms-IsCoinAmount max_decimals a h = elim (Option-cases (field (codes "decimal") a)) [
  | inr (t, spelled) ↦
      let (units, (reads, amount)) = is_valid_amount-IsAmount t max_decimals (rw spelled at h) in
      decimal t units spelled reads amount
  | inl missing ↦ elim (Option-cases (field (codes "atoms") a)) [
    | inl nothing ↦ absurd (ground arith)
    | inr (t, spelled) ↦ atoms t missing spelled (is_atoms-IsAtoms t (rw (missing, spelled) at h))
  ]
]

is_coin_amount-HasCoinAmount :
    (max_decimals : ℕ) (v : Option Json)
    → is_coin_amount max_decimals v ≡ true
    → HasCoinAmount max_decimals v
unfolding is_coin_amount
is_coin_amount-HasCoinAmount max_decimals v h = elim (Option-cases (object_of v)) [
  | inl missing ↦ absurd (ground arith)
  | inr (fields, object) ↦ record {
    fields = fields;
    object = object;
    amount = decimal_or_atoms-IsCoinAmount max_decimals fields (rw object at h);
  }
]

leg_of_type-IsContent :
    (t : Text) (c : Map Json) → leg_of_type (some t) (some c) ≡ true → IsContent c t
leg_of_type-IsContent t c h = elim (Bool-cases (text_eq t (codes "Coin"))) [
  | inl is_coin ↦
      let same = (text_eq_iff t (codes "Coin")).0 is_coin in
      subst (IsContent c) (sym same) (coin (is_coin_amount-HasCoinAmount 11 _ (rw is_coin at h)))
  | inr is_token ↦
      let named : text_eq t (codes "Token") ≡ true = ground arith in
      let same = (text_eq_iff t (codes "Token")).0 named in
      let identified : is_str is_id (get (codes "id") c) ≡ true = ground arith in
      let amount : is_coin_amount 18 (get (codes "amount") c) ≡ true = ground arith in
      subst (IsContent c) (sym same)
        (token (is_id-IsIdField _ identified) (is_coin_amount-HasCoinAmount 18 _ amount))
]

no_content : (t : Text) → leg_of_type (some t) none ≡ true → ⊥
no_content t h = ground arith

pub is_order_leg-IsOrderLeg : (v : Option Json) → is_order_leg v ≡ true → IsOrderLeg v
unfolding is_order_leg
is_order_leg-IsOrderLeg v h = elim (Option-cases (object_of v)) [
  | inl missing ↦ absurd (ground arith)
  | inr (leg, object) ↦ elim (Option-cases (field (codes "type") leg)) [
    | inl untyped ↦ absurd (ground arith)
    | inr (t, typed) ↦ elim (Option-cases (object_of (get (codes "content") leg))) [
      | inl empty ↦ absurd (no_content t (rw (object, typed, empty) at h))
      | inr (c, has_content) ↦ record {
        fields = leg;
        object = object;
        type = t;
        typed = typed;
        content = c;
        has_content = has_content;
        fit = leg_of_type-IsContent t c (rw (object, typed, has_content) at h);
      }
    ]
  ]
]

no_object : {fields : Map Json} → none ≡ some fields → ⊥
no_object e = cc

-- A field that holds an object is the same field after an extension.
pub object-Extends :
    (p q : Map Json) (name : Text) {fields : Map Json}
    → Extends p q
    → object_of (get name p) ≡ some fields
    → get name q ≡ get name p
object-Extends p q name h object = elim (Option-cases (get name p)) [
  | inl e ↦ absurd (no_object (sym (ap object_of e) ∙ object))
  | inr (v, e) ↦ h name v e ∙ sym e
]
