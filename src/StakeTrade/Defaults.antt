-- ===== src/StakeTrade/Defaults.antt =====
-- What the defaults of app/src/pages/api/stake-trade.ts add to the parameters of a call.
use web_gui.Base.{
  ◌≡◌, refl, ap, sym, ◌∙◌, true, false, List, [], ◌∷◌, Option, none, some, arith, Option-cases, inl,
  inr, All,
}
use web_gui.Text.{Text, codes, text_eq, text_eq_refl}
use web_gui.JsMap.{Map, get, set, get-set}
use web_gui.Json.{Json, null, obj, Fields, is_nullish}
use web_gui.StakeTrade.Actions.{
  Action, staking_create_pool, staking_decommission_pool, order_fill, order_conclude,
}
use web_gui.StakeTrade.{default_field, action_defaults}

-- The fields of `p` are fields of `q`.
abbrev pub Extends : Map Json → Map Json → Type 0
Extends p q = (k : Text) (v : Json) → get k p ≡ some v → get k q ≡ some v

pub Extends-trans : (p q r : Map Json) → Extends p q → Extends q r → Extends p r
Extends-trans p q r h k name v e = k name v (h name v e)

text_eq-false_some :
    (name k : Text) (v w : Json) (p : Map Json)
    → get name p ≡ none
    → get k p ≡ some w
    → get k (set name v p) ≡ some w
text_eq-false_some name k v w p missing there = elim (web_gui.Base.Bool-cases (text_eq name k)) [
  | inl e ↦
      let same : name ≡ k = (web_gui.Text.text_eq_iff name k).0 e in
      absurd (none-ne-some (sym missing ∙ ap (λ n. get n p) same ∙ there))
  | inr e ↦ get-set name k v p ∙ rw e there
]
  where
    none-ne-some : {w : Json} → none ≡ some w → ⊥
    none-ne-some h = cc

pub default_field-Extends :
    (name : Text) (v : Json) (p : Map Json) → Extends p (default_field name v p)
unfolding default_field
default_field-Extends name v p k w e = elim (Option-cases (get name p)) [
  | inl missing ↦ rw (default_field, missing) (text_eq-false_some name k v w p missing e)
  | inr (u, there) ↦ rw (default_field, there) e
]

get-default_field_other :
    (name k : Text) (v : Json) (p : Map Json)
    → text_eq name k ≡ false
    → get k (default_field name v p) ≡ get k p
unfolding default_field
get-default_field_other name k v p other = elim (Option-cases (get name p)) [
  | inl missing ↦ rw (default_field, missing) (get-set name k v p ∙ rw other refl)
  | inr (u, there) ↦ rw (default_field, there) refl
]

get-default_field_null :
    (name : Text) (p : Map Json)
    → is_nullish (get name p) ≡ true
    → get name (default_field name null p) ≡ some null
unfolding default_field
get-default_field_null name p h = elim (Option-cases (get name p)) [
  | inl missing ↦
      rw (default_field, missing) (get-set name name null p ∙ rw (text_eq_refl name) refl)
  | inr (u, there) ↦
      let nothing : some u ≡ some null = nullish_some u (rw there at h) in
      rw (default_field, there) (there ∙ nothing)
]
  where
    nullish_some : (u : Json) → is_nullish (some u) ≡ true → some u ≡ some null
    nullish_some null h = refl
    nullish_some u h = absurd (ground arith)

abbrev pub with_options : Map Json → Map Json
with_options p = default_field (codes "options") (obj Fields.end) p

pub action_defaults-Extends : (a : Action) (p : Map Json) → Extends p (action_defaults (some a) p)
unfolding action_defaults
action_defaults-Extends staking_create_pool p =
    let q = default_field (codes "staker_address") null p in
    Extends-trans p q (default_field (codes "vrf_public_key") null q)
      (default_field-Extends (codes "staker_address") null p)
      (default_field-Extends (codes "vrf_public_key") null q)
action_defaults-Extends staking_decommission_pool p =
    default_field-Extends (codes "output_address") null p
action_defaults-Extends order_fill p = default_field-Extends (codes "output_address") null p
action_defaults-Extends order_conclude p = default_field-Extends (codes "output_address") null p
action_defaults-Extends _ p = λ k v e. e

-- The parameters that the daemon is given, from those of the request.
abbrev pub final_params : Action → Map Json → Map Json
final_params a p = action_defaults (some a) (with_options p)

pub final_params-Extends : (a : Action) (p : Map Json) → Extends p (final_params a p)
final_params-Extends a p =
    Extends-trans p (with_options p) (final_params a p)
      (default_field-Extends (codes "options") (obj Fields.end) p)
      (action_defaults-Extends a (with_options p))

-- The address fields that the daemon wants present as null.
abbrev pub null_fields : Action → List Text
null_fields staking_create_pool = codes "staker_address" ∷ codes "vrf_public_key" ∷ []
null_fields staking_decommission_pool = codes "output_address" ∷ []
null_fields order_fill = codes "output_address" ∷ []
null_fields order_conclude = codes "output_address" ∷ []
null_fields _ = []

abbrev pub AreNull : Map Json → List Text → Type 0
AreNull p names = All (λ name. get name p ≡ some null) names

abbrev pub AreNullish : Map Json → List Text → Type 0
AreNullish p names = All (λ name. is_nullish (get name p) ≡ true) names

with_options_null :
    (name : Text) (p : Map Json)
    → text_eq (codes "options") name ≡ false
    → is_nullish (get name p) ≡ true
    → is_nullish (get name (with_options p)) ≡ true
with_options_null name p other h =
    ap is_nullish (get-default_field_other (codes "options") name (obj Fields.end) p other) ∙ h

pub final_params-AreNull :
    (a : Action) (p : Map Json)
    → AreNullish p (null_fields a)
    → AreNull (final_params a p) (null_fields a)
unfolding action_defaults text_eq
final_params-AreNull staking_create_pool p (staker, (vrf, _)) =
    let p1 = with_options p in
    let p2 = default_field (codes "staker_address") null p1 in
    let staker1 = with_options_null (codes "staker_address") p refl staker in
    let vrf1 = with_options_null (codes "vrf_public_key") p refl vrf in
    let vrf2 : is_nullish (get (codes "vrf_public_key") p2) ≡ true =
      ap is_nullish
        (get-default_field_other (codes "staker_address") (codes "vrf_public_key") null p1 refl)
      ∙ vrf1 in
    (
      default_field-Extends (codes "vrf_public_key") null p2 (codes "staker_address") null
          (get-default_field_null (codes "staker_address") p1 staker1),
      (get-default_field_null (codes "vrf_public_key") p2 vrf2, tt),
    )
final_params-AreNull staking_decommission_pool p (out, _) = (
  get-default_field_null (codes "output_address") (with_options p)
      (with_options_null (codes "output_address") p refl out),
  tt,
)
final_params-AreNull order_fill p (out, _) = (
  get-default_field_null (codes "output_address") (with_options p)
      (with_options_null (codes "output_address") p refl out),
  tt,
)
final_params-AreNull order_conclude p (out, _) = (
  get-default_field_null (codes "output_address") (with_options p)
      (with_options_null (codes "output_address") p refl out),
  tt,
)
final_params-AreNull _ p _ = tt
