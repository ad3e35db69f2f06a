-- ===== src/StakeTrade/Entries.antt =====
-- How the entries of a body of app/src/pages/api/stake-trade.ts become calls.
use web_gui.Base.{
  ◌≡◌, refl, sym, ap, subst, ◌∙◌, ◌⊎◌, inl, inr, List, [], ◌∷◌, Option, none, some, arith, length,
  suc, Bool-cases, Option-cases,
}
use web_gui.Text.{Text, codes, text_eq, text_eq_iff}
use web_gui.JsMap.{Map, get, get-set}
use web_gui.Json.{
  Json, null, bool, fraction, text, int, obj, arr, Fields, members, object_of, field,
}
use web_gui.StakeTrade.Actions.{
  Action, staking_create_pool, staking_decommission_pool, order_fill, order_conclude, actions,
}
use web_gui.StakeTrade.Defaults.{Extends, default_field-Extends, final_params-Extends, with_options}
use web_gui.StakeTrade.{
  BatchItem, item_of, entry_item, both, entry_items, default_field, action_defaults, with_defaults,
  all_with_defaults,
}

-- What may be added to the parameters of an entry: a null, or `options` without a field.
abbrev pub IsDefault : Text → Json → Type 0
IsDefault k v = (v ≡ null) ⊎ ((k ≡ codes "options") × (v ≡ obj Fields.end))

abbrev pub AddsDefaults : Map Json → Map Json → Type 0
AddsDefaults p q = (k : Text) (v : Json) → get k q ≡ some v → (get k p ≡ some v) ⊎ IsDefault k v

-- An entry asks for a call: the action is its action, the parameters are its parameters, and only
-- defaults are added to them.
pub record AsksFor (entry : Json) (item : BatchItem) : Type 0 where
  pub fields : Fields
  pub object : entry ≡ obj fields
  pub named : field (codes "action") (members fields) ≡ some item.action
  pub params : Map Json
  pub given : object_of (get (codes "params") (members fields)) ≡ some params
  pub kept : Extends params item.params
  pub added : AddsDefaults params item.params

-- One call for each entry, in the same order.
pub data AskForAll : List Json → List BatchItem → Type 0 where
  done : AskForAll [] []
  next :
      (entry : Json) (item : BatchItem) {entries : List Json} {items : List BatchItem}
      → AsksFor entry item
      → AskForAll entries items
      → AskForAll (entry ∷ entries) (item ∷ items)

AddsDefaults-trans : (p q r : Map Json) → AddsDefaults p q → AddsDefaults q r → AddsDefaults p r
AddsDefaults-trans p q r h g k v e = elim (g k v e) [ inl there ↦ h k v there | inr new ↦ inr new ]

default_field-AddsDefaults :
    (name : Text) (w : Json) (p : Map Json)
    → ((k : Text) → k ≡ name → IsDefault k w)
    → AddsDefaults p (default_field name w p)
unfolding default_field
default_field-AddsDefaults name w p fit k v h = elim (Option-cases (get name p)) [
  | inr (u, there) ↦ inl (rw (default_field, there) at h)
  | inl missing ↦
      let read = sym (get-set name k w p) ∙ rw (default_field, missing) at h in
      elim (Bool-cases (text_eq name k)) [
        | inr other ↦ inl (rw other at read)
        | inl same ↦
            let value : some w ≡ some v = rw same at read in
            let e : w ≡ v = ground arith in
            inr (subst (IsDefault k) e (fit k (sym ((text_eq_iff name k).0 same))))
      ]
]

null-AddsDefaults : (name : Text) (p : Map Json) → AddsDefaults p (default_field name null p)
null-AddsDefaults name p = default_field-AddsDefaults name null p (λ k e. inl refl)

action_defaults-AddsDefaults :
    (o : Option Action) (p : Map Json) → AddsDefaults p (action_defaults o p)
unfolding action_defaults
action_defaults-AddsDefaults (some staking_create_pool) p =
    AddsDefaults-trans p (default_field (codes "staker_address") null p) _
      (null-AddsDefaults (codes "staker_address") p)
      (null-AddsDefaults (codes "vrf_public_key") (default_field (codes "staker_address") null p))
action_defaults-AddsDefaults (some staking_decommission_pool) p =
    null-AddsDefaults (codes "output_address") p
action_defaults-AddsDefaults (some order_fill) p = null-AddsDefaults (codes "output_address") p
action_defaults-AddsDefaults (some order_conclude) p = null-AddsDefaults (codes "output_address") p
action_defaults-AddsDefaults _ p = λ k v e. inl e

with_defaults-AddsDefaults :
    (item : BatchItem) → AddsDefaults item.params (with_defaults item).params
unfolding with_defaults
with_defaults-AddsDefaults item =
    let p = item.params in
    let options_only : (k : Text) → k ≡ codes "options" → IsDefault k (obj Fields.end) =
      λ k e. inr (e, refl) in
    AddsDefaults-trans p (with_options p) _
      (default_field-AddsDefaults (codes "options") (obj Fields.end) p options_only)
      (action_defaults-AddsDefaults (get item.action actions) (with_options p))

with_defaults-Extends : (item : BatchItem) → Extends item.params (with_defaults item).params
unfolding with_defaults action_defaults
with_defaults-Extends item = elim (Option-cases (get item.action actions)) [
  | inr (a, known) ↦ rw (with_defaults, known) (final_params-Extends a item.params)
  | inl unknown ↦
      rw (with_defaults, unknown)
        (default_field-Extends (codes "options") (obj Fields.end) item.params)
]

read-AsksFor :
    (fs : Fields) (action : Text) (params : Map Json)
    → field (codes "action") (members fs) ≡ some action
    → object_of (get (codes "params") (members fs)) ≡ some params
    → AsksFor (obj fs) (with_defaults (record { action = action; params = params }))
unfolding with_defaults
read-AsksFor fs action params named given =
    let item : BatchItem = record { action = action; params = params } in
    record {
      fields = fs;
      object = refl;
      named = named;
      params = params;
      given = given;
      kept = with_defaults-Extends item;
      added = with_defaults-AddsDefaults item;
    }

-- An item that is read has both parts.
item_of-some :
    (action : Option Text) (params : Option (Map Json)) {item : BatchItem}
    → item_of action params ≡ some item
    → (action ≡ some item.action) × (params ≡ some item.params)
item_of-some none params h = absurd (ground arith)
item_of-some (some action) none h = absurd (ground arith)
item_of-some (some action) (some params) {item} h =
    let same : record { action = action; params = params } ≡ item = ground arith in
    (
      ap some (ap (λ (i : BatchItem). i.action) same),
      ap some (ap (λ (i : BatchItem). i.params) same),
    )

entry_item-AsksFor :
    (entry : Json) {item : BatchItem}
    → entry_item entry ≡ some item
    → AsksFor entry (with_defaults item)
unfolding entry_item
entry_item-AsksFor (obj fs) {item} h =
    let (named, given) = item_of-some _ _ h in read-AsksFor fs item.action item.params named given
entry_item-AsksFor null h = absurd (ground arith)
entry_item-AsksFor (bool b) h = absurd (ground arith)
entry_item-AsksFor (int n) h = absurd (ground arith)
entry_item-AsksFor fraction h = absurd (ground arith)
entry_item-AsksFor (text t) h = absurd (ground arith)
entry_item-AsksFor (arr vs) h = absurd (ground arith)

both-some :
    (o : Option BatchItem) (os : Option (List BatchItem)) {items : List BatchItem}
    → both o os ≡ some items
    → (item : BatchItem) × ((rest : List BatchItem) × ((o ≡ some item)
          × ((os ≡ some rest) × (item ∷ rest ≡ items))))
both-some none os h = absurd (ground arith)
both-some (some item) none h = absurd (ground arith)
both-some (some item) (some rest) h = (item, (rest, (refl, (refl, ground arith))))

pub entry_items-AskForAll :
    (entries : List Json) {items : List BatchItem}
    → entry_items entries ≡ some items
    → AskForAll entries (all_with_defaults items)
unfolding entry_items all_with_defaults
entry_items-AskForAll [] {items} h =
    let same : [] ≡ items = ground arith in
    subst (λ is. AskForAll [] (all_with_defaults is)) same done
entry_items-AskForAll (e ∷ es) h =
    let (item, (rest, (first, (others, same)))) = both-some (entry_item e) (entry_items es) h in
    subst (λ is. AskForAll (e ∷ es) (all_with_defaults is)) same
      (next e (with_defaults item) (entry_item-AsksFor e first) (entry_items-AskForAll es others))

pub length-AskForAll :
    {entries : List Json} {items : List BatchItem}
    → AskForAll entries items
    → length items ≡ length entries
length-AskForAll done = refl
length-AskForAll (next entry item asks rest) = ap suc (length-AskForAll rest)
