-- ===== src/StakeTrade/Safety.antt =====
-- What every call of the daemon by app/src/pages/api/stake-trade.ts guarantees.
use web_gui.Base.{ℕ, ◌≡◌, sym, subst, true, List, [], ◌∷◌, none, some, All}
use web_gui.Base.Int.{pos}
use web_gui.Text.{Text, codes}
use web_gui.JsMap.{Map, get}
use web_gui.Json.{Json, text, int, obj, Fields, is_zero}
use web_gui.Params.{is_str, is_id, is_amount_field, options_ok}
use web_gui.Params.Laws.{
  IsIdField, is_id-IsIdField, Passes, first_error-none, IsAmountField, is_amount_field_sound,
}
use web_gui.StakeTrade.Actions.{
  Action, actions, validate_params, action_checks, delegation_create, delegation_stake,
  delegation_withdraw, staking_sweep_delegation, staking_create_pool, staking_decommission_pool,
  order_create, order_fill, order_conclude, order_freeze,
}
use web_gui.StakeTrade.Defaults.{Extends, null_fields, AreNull, AreNullish}
use web_gui.StakeTrade.Legs.{IsOrderLeg, is_order_leg-IsOrderLeg, object-Extends}
use web_gui.StakeTrade.{BatchItem}

-- The fields that hold an amount as a decimal, and its precision.
abbrev pub amount_fields : Action → List (Text × ℕ)
amount_fields delegation_stake = (codes "amount", 11) ∷ []
amount_fields delegation_withdraw = (codes "amount", 11) ∷ []
amount_fields staking_create_pool = (codes "amount", 11) ∷ (codes "cost_per_block", 11) ∷ []
amount_fields order_fill = (codes "fill_amount_in_ask_currency", 18) ∷ []
amount_fields _ = []

abbrev pub AreAmounts : Map Json → List (Text × ℕ) → Type 0
AreAmounts p names = All (λ name. IsAmountField name.1 (get name.0 p)) names

-- The fields that hold a leg of an order.
abbrev pub order_legs : Action → List Text
order_legs order_create = codes "give" ∷ codes "ask" ∷ []
order_legs _ = []

abbrev pub AreLegs : Map Json → List Text → Type 0
AreLegs p names = All (λ name. IsOrderLeg (get name p)) names

-- The fields that hold an identifier or an address.
abbrev pub id_fields : Action → List Text
id_fields delegation_create = codes "pool_id" ∷ codes "address" ∷ []
id_fields delegation_stake = codes "delegation_id" ∷ []
id_fields delegation_withdraw = codes "delegation_id" ∷ codes "address" ∷ []
id_fields staking_sweep_delegation = codes "delegation_id" ∷ codes "destination_address" ∷ []
id_fields staking_create_pool = codes "decommission_address" ∷ []
id_fields staking_decommission_pool = codes "pool_id" ∷ []
id_fields order_create = codes "conclude_address" ∷ []
id_fields order_fill = codes "order_id" ∷ []
id_fields order_conclude = codes "order_id" ∷ []
id_fields order_freeze = codes "order_id" ∷ []

abbrev pub AreIds : Map Json → List Text → Type 0
AreIds p names = All (λ name. IsIdField (get name p)) names

-- A call that is fit for the daemon.
pub record IsSafeItem (item : BatchItem) : Type 0 where
  pub action : Action
  pub known : get item.action actions ≡ some action
  pub account : get (codes "account") item.params ≡ some (int (pos 0))
  pub options : Fields
  pub has_options : get (codes "options") item.params ≡ some (obj options)
  pub amounts : AreAmounts item.params (amount_fields action)
  pub legs : AreLegs item.params (order_legs action)
  pub ids : AreIds item.params (id_fields action)
  pub nulls : AreNull item.params (null_fields action)

pub record IsChecked (a : Action) (p : Map Json) : Type 0 where
  pub account : is_zero (get (codes "account") p) ≡ true
  pub options : options_ok (get (codes "options") p) ≡ true
  pub amounts : AreAmounts p (amount_fields a)
  pub legs : AreLegs p (order_legs a)
  pub ids : AreIds p (id_fields a)
  pub nulls : AreNullish p (null_fields a)

amount_of :
    (name : Text) (max_decimals : ℕ) (p : Map Json)
    → is_amount_field max_decimals (get name p) ≡ true
    → IsAmountField max_decimals (get name p)
amount_of name max_decimals p h = is_amount_field_sound max_decimals (get name p) h

id_of : (name : Text) (p : Map Json) → is_str is_id (get name p) ≡ true → IsIdField (get name p)
id_of name p h = is_id-IsIdField (get name p) h

action_checks-IsChecked :
    (a : Action) (p : Map Json)
    → options_ok (get (codes "options") p) ≡ true
    → All Passes (action_checks a p)
    → IsChecked a p
unfolding action_checks
action_checks-IsChecked delegation_create p o (acc, (x, (y, _))) = record {
  account = acc;
  options = o;
  amounts = tt;
  legs = tt;
  ids = (id_of (codes "pool_id") p x, (id_of (codes "address") p y, tt));
  nulls = tt;
}
action_checks-IsChecked delegation_stake p o (acc, (x, (amount, _))) = record {
  account = acc;
  options = o;
  amounts = (amount_of (codes "amount") 11 p amount, tt);
  legs = tt;
  ids = (id_of (codes "delegation_id") p x, tt);
  nulls = tt;
}
action_checks-IsChecked delegation_withdraw p o (acc, (x, (amount, (y, _)))) = record {
  account = acc;
  options = o;
  amounts = (amount_of (codes "amount") 11 p amount, tt);
  legs = tt;
  ids = (id_of (codes "delegation_id") p x, (id_of (codes "address") p y, tt));
  nulls = tt;
}
action_checks-IsChecked staking_sweep_delegation p o (acc, (x, (y, _))) = record {
  account = acc;
  options = o;
  amounts = tt;
  legs = tt;
  ids = (id_of (codes "delegation_id") p x, (id_of (codes "destination_address") p y, tt));
  nulls = tt;
}
action_checks-IsChecked staking_create_pool p o
      (acc, (amount, (cost, (_, (x, (staker, (vrf, _))))))) =
    record {
      account = acc;
      options = o;
      amounts = (
        amount_of (codes "amount") 11 p amount,
        (amount_of (codes "cost_per_block") 11 p cost, tt),
      );
      legs = tt;
      ids = (id_of (codes "decommission_address") p x, tt);
      nulls = (staker, (vrf, tt));
    }
action_checks-IsChecked staking_decommission_pool p o (acc, (x, (out, _))) = record {
  account = acc;
  options = o;
  amounts = tt;
  legs = tt;
  ids = (id_of (codes "pool_id") p x, tt);
  nulls = (out, tt);
}
action_checks-IsChecked order_create p o (acc, (give, (ask, (x, _)))) = record {
  account = acc;
  options = o;
  amounts = tt;
  legs = (is_order_leg-IsOrderLeg _ give, (is_order_leg-IsOrderLeg _ ask, tt));
  ids = (id_of (codes "conclude_address") p x, tt);
  nulls = tt;
}
action_checks-IsChecked order_fill p o (acc, (x, (amount, (out, _)))) = record {
  account = acc;
  options = o;
  amounts = (amount_of (codes "fill_amount_in_ask_currency") 18 p amount, tt);
  legs = tt;
  ids = (id_of (codes "order_id") p x, tt);
  nulls = (out, tt);
}
action_checks-IsChecked order_conclude p o (acc, (x, (out, _))) = record {
  account = acc;
  options = o;
  amounts = tt;
  legs = tt;
  ids = (id_of (codes "order_id") p x, tt);
  nulls = (out, tt);
}
action_checks-IsChecked order_freeze p o (acc, (x, (out, _))) = record {
  account = acc;
  options = o;
  amounts = tt;
  legs = tt;
  ids = (id_of (codes "order_id") p x, tt);
  nulls = tt;
}

pub validate_params-IsChecked :
    (a : Action) (p : Map Json) → validate_params a p ≡ none → IsChecked a p
unfolding validate_params
validate_params-IsChecked a p h =
    let (options, rest) = first_error-none _ h in action_checks-IsChecked a p options rest

pub IsAmountField-Extends :
    (p q : Map Json) (names : List (Text × ℕ))
    → Extends p q
    → AreAmounts p names
    → AreAmounts q names
IsAmountField-Extends p q [] h _ = tt
IsAmountField-Extends p q ((name, m) ∷ names) h (a, rest) = (
  subst (IsAmountField m) (sym (object-Extends p q name h a.object)) a,
  IsAmountField-Extends p q names h rest,
)

pub IsOrderLeg-Extends :
    (p q : Map Json) (names : List Text) → Extends p q → AreLegs p names → AreLegs q names
IsOrderLeg-Extends p q [] h _ = tt
IsOrderLeg-Extends p q (name ∷ names) h (leg, rest) = (
  subst IsOrderLeg (sym (object-Extends p q name h leg.object)) leg,
  IsOrderLeg-Extends p q names h rest,
)

pub IsIdField-Extends :
    (p q : Map Json) (names : List Text) → Extends p q → AreIds p names → AreIds q names
IsIdField-Extends p q [] h _ = tt
IsIdField-Extends p q (name ∷ names) h (a, rest) = (
  record {
    id = a.id;
    spelled = h name (text a.id) a.spelled;
    long = a.long;
    short = a.short;
    plain = a.plain;
  },
  IsIdField-Extends p q names h rest,
)
