-- ===== src/StakeTrade/Requested.antt =====
-- Which calls a body of app/src/pages/api/stake-trade.ts asks for.
use web_gui.Base.{
  ◌≡◌, ◌≢◌, refl, subst, ◌⊎◌, inl, inr, true, List, [], ◌∷◌, Option, none, some, arith, Bool-cases,
  if◌then◌else◌,
}
use web_gui.Text.{codes}
use web_gui.JsMap.{get}
use web_gui.Json.{
  Json, null, bool, fraction, text, int, obj, arr, Items, elements, fields_of, is_truthy,
}
use web_gui.StakeTrade.{raw_entries}

-- The entries of a body: its array `actions`, or without one the body itself if it has an action.
pub data IsRequested (body : Json) : List Json → Type 0 where
  batch :
      (entries : Items)
      → get (codes "actions") (fields_of body) ≡ some (arr entries)
      → IsRequested body (elements entries)
  single :
      ((entries : Items) → get (codes "actions") (fields_of body) ≢ some (arr entries))
      → is_truthy (get (codes "action") (fields_of body)) ≡ true
      → IsRequested body (body ∷ [])

array_cases :
    (v : Option Json)
    → ((entries : Items) × (v ≡ some (arr entries))) ⊎ ((entries : Items) → v ≢ some (arr entries))
array_cases (some (arr entries)) = inl (entries, refl)
array_cases none = inr (λ entries h. absurd (ground arith))
array_cases (some null) = inr (λ entries h. absurd (ground arith))
array_cases (some (bool b)) = inr (λ entries h. absurd (ground arith))
array_cases (some (int n)) = inr (λ entries h. absurd (ground arith))
array_cases (some fraction) = inr (λ entries h. absurd (ground arith))
array_cases (some (text t)) = inr (λ entries h. absurd (ground arith))
array_cases (some (obj fs)) = inr (λ entries h. absurd (ground arith))

unfoldable entries_from : Json → Option Json → Option (List Json)
entries_from body v = elim v [
  | some (arr entries) ↦ some (elements entries)
  | _ ↦ if is_truthy (get (codes "action") (fields_of body)) then some (body ∷ []) else none
]

single_entry :
    (body : Json) {entries : List Json}
    → (if is_truthy (get (codes "action") (fields_of body)) then some (body ∷ []) else none)
      ≡ some entries
    → (is_truthy (get (codes "action") (fields_of body)) ≡ true) × (body ∷ [] ≡ entries)
single_entry body h = elim (Bool-cases (is_truthy (get (codes "action") (fields_of body)))) [
  | inl asked ↦ (asked, ground arith)
  | inr silent ↦ absurd (ground arith)
]

alone :
    (body : Json) (v : Option Json) {entries : List Json}
    → ((items : Items) → v ≢ some (arr items))
    → entries_from body v ≡ some entries
    → (is_truthy (get (codes "action") (fields_of body)) ≡ true) × (body ∷ [] ≡ entries)
unfolding entries_from
alone body (some (arr items)) missing h = absurd (missing items refl)
alone body none missing h = single_entry body h
alone body (some null) missing h = single_entry body h
alone body (some (bool b)) missing h = single_entry body h
alone body (some (int n)) missing h = single_entry body h
alone body (some fraction) missing h = single_entry body h
alone body (some (text t)) missing h = single_entry body h
alone body (some (obj fs)) missing h = single_entry body h

pub raw_entries-IsRequested :
    (body : Json) {entries : List Json} → raw_entries body ≡ some entries → IsRequested body entries
unfolding raw_entries entries_from
raw_entries-IsRequested body {entries} h =
    elim (array_cases (get (codes "actions") (fields_of body))) [
      | inl (items, given) ↦
          let found : some (elements items) ≡ some entries = rw (raw_entries, given) at h in
          let same : elements items ≡ entries = ground arith in
          subst (IsRequested body) same (batch items given)
      | inr missing ↦
          let (asked, same) = alone body (get (codes "actions") (fields_of body)) missing h in
          subst (IsRequested body) same (single missing asked)
    ]
