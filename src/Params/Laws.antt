-- ===== src/Params/Laws.antt =====
-- What a request without an error guarantees.
use web_gui.Base.{
  ℕ, ◌≤◌, ◌⊎◌, ◌&&◌, leb, Bool-cases, length, all, ◌≡◌, refl, true, false, List, [], ◌∷◌, Option,
  none, some, arith, All, Option-cases, inl, inr,
}
use web_gui.Base.Int.{pos}
use web_gui.Text.{Text, codes, is_digit}
use web_gui.JsMap.{Map}
use web_gui.Json.{text, Json, int, field, object_of, is_zero}
use web_gui.Decimal.{Decimal, parse_decimal}
use web_gui.Validation.Amounts.{IsAmount, is_valid_amount-IsAmount}
use web_gui.Params.{is_str, is_id, is_alphanumeric, Check, first_error, is_amount_field}

abbrev pub Passes : Check → Type 0
Passes check = check.0 ≡ true

pub first_error-none : (checks : List Check) → first_error checks ≡ none → All Passes checks
unfolding first_error
first_error-none [] h = tt
first_error-none ((true, error) ∷ checks) h = (refl, first_error-none checks h)
first_error-none ((false, error) ∷ checks) h = absurd (ground arith)

-- A field that holds an object with a decimal text, a positive amount of the precision.
pub record IsAmountField (max_decimals : ℕ) (v : Option Json) : Type 0 where
  pub fields : Map Json
  pub object : object_of v ≡ some fields
  pub decimal : Text
  pub spelled : field (codes "decimal") fields ≡ some decimal
  pub units : Decimal
  pub reads : parse_decimal decimal ≡ some units
  pub amount : IsAmount max_decimals units

pub is_amount_field_sound :
    (max_decimals : ℕ) (v : Option Json)
    → is_amount_field max_decimals v ≡ true
    → IsAmountField max_decimals v
unfolding is_amount_field
is_amount_field_sound max_decimals v h = elim (Option-cases (object_of v)) [
  | inl e ↦ absurd (ground arith)
  | inr (fields, e) ↦ elim (Option-cases (field (codes "decimal") fields)) [
    | inl missing ↦ absurd (ground arith)
    | inr (decimal, spelled) ↦
        let (units, (reads, amount)) =
          is_valid_amount-IsAmount decimal max_decimals (ground arith) in
        record {
          fields = fields;
          object = e;
          decimal = decimal;
          spelled = spelled;
          units = units;
          reads = reads;
          amount = amount;
        }
  ]
]

pub is_zero_lem : (v : Option Json) → is_zero v ≡ true → v ≡ some (int (pos 0))
is_zero_lem none h = absurd (ground arith)
is_zero_lem (some (int (pos n))) h = let e : n ≡ 0 = ground arith in rw e refl
is_zero_lem (some v) h = absurd (ground arith)

abbrev pub IsAlphanumeric : ℕ → Type 0
IsAlphanumeric c =
    ((b'0' ≤ c) × (c ≤ b'9')) ⊎ (((b'a' ≤ c) × (c ≤ b'z')) ⊎ ((b'A' ≤ c) × (c ≤ b'Z')))

pub is_alphanumeric-IsAlphanumeric : (c : ℕ) → is_alphanumeric c ≡ true → IsAlphanumeric c
is_alphanumeric-IsAlphanumeric c h = elim (Bool-cases (is_digit c)) [
  | inl digit ↦ inl (ground arith, ground arith)
  | inr letter ↦ elim (Bool-cases (leb b'a' c && leb c b'z')) [
    | inl small ↦ inr (inl (ground arith, ground arith))
    | inr capital ↦ inr (inr (ground arith, ground arith))
  ]
]

all-IsAlphanumeric : (s : Text) → all is_alphanumeric s ≡ true → All IsAlphanumeric s
all-IsAlphanumeric [] h = tt
all-IsAlphanumeric (c ∷ s) h =
    (is_alphanumeric-IsAlphanumeric c (ground arith), all-IsAlphanumeric s (ground arith))

-- A text of 10 to 120 letters and digits.
pub record IsIdField (v : Option Json) : Type 0 where
  pub id : Text
  pub spelled : v ≡ some (text id)
  pub long : 10 ≤ length id
  pub short : length id ≤ 120
  pub plain : All IsAlphanumeric id

pub is_id-IsIdField : (v : Option Json) → is_str is_id v ≡ true → IsIdField v
unfolding is_id
is_id-IsIdField (some (text t)) h = record {
  id = t;
  spelled = refl;
  long = ground arith;
  short = ground arith;
  plain = all-IsAlphanumeric t (ground arith);
}
is_id-IsIdField none h = absurd (ground arith)
is_id-IsIdField (some v) h = absurd (ground arith)
