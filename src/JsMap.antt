-- ===== src/JsMap.antt =====
-- `Map<string, V>` as an association list in insertion order: get, set, delete, and the loop that
-- deletes the entries whose value passes a test.
use web_gui.Base.{◌≡◌, refl, Bool, List, [], ◌∷◌, Option, none, some, arith, if◌then◌else◌}
use web_gui.Text.{Text, text_eq, text_eq_iff}

abbrev pub Map {ℓ} : Type ℓ → Type ℓ
Map V = List (Text × V)

-- An option filtered by a test that drops the value.
abbrev pub unless {ℓ} : {V : Type ℓ} → (V → Bool) → Option V → Option V
unless p none = none
unless p (some v) = if p v then none else some v

module _ {ℓ} {V : Type ℓ} where
  unfoldable pub get : Text → Map V → Option V
  get k [] = none
  get k ((j, v) ∷ m) = if text_eq j k then some v else get k m

  unfoldable pub set : Text → V → Map V → Map V
  set k v [] = (k, v) ∷ []
  set k v ((j, w) ∷ m) = if text_eq j k then (j, v) ∷ m else (j, w) ∷ set k v m

  unfoldable pub delete : Text → Map V → Map V
  delete k [] = []
  delete k ((j, w) ∷ m) = if text_eq j k then m else (j, w) ∷ delete k m

  unfoldable pub prune : (V → Bool) → Map V → Map V
  prune p [] = []
  prune p ((j, w) ∷ m) = if p w then prune p m else (j, w) ∷ prune p m

  -- No key stands twice.
  abbrev pub HasUniqueKeys : Map V → Type ℓ
  HasUniqueKeys [] = Unit
  HasUniqueKeys ((k, v) ∷ m) = (get k m ≡ none) × HasUniqueKeys m

  pub get-set :
      (k j : Text) (v : V) (m : Map V)
      → get j (set k v m) ≡ (if text_eq k j then some v else get j m)
  unfolding get set
  get-set k j v [] = refl
  get-set k j v ((i, w) ∷ m) =
      ground (arith, text_eq_iff k j, text_eq_iff i k, text_eq_iff i j, get-set k j v m)

  pub set-HasUniqueKeys :
      (k : Text) (v : V) (m : Map V) → HasUniqueKeys m → HasUniqueKeys (set k v m)
  unfolding get set
  set-HasUniqueKeys k v [] h = (refl, tt)
  set-HasUniqueKeys k v ((i, w) ∷ m) h =
      ground (arith, text_eq_iff k i, text_eq_iff i k, get-set k i v m, set-HasUniqueKeys k v m)

  pub get-delete :
      (k j : Text) (m : Map V)
      → HasUniqueKeys m
      → get j (delete k m) ≡ (if text_eq k j then none else get j m)
  unfolding get delete
  get-delete k j [] h = ground arith
  get-delete k j ((i, w) ∷ m) h =
      ground (arith, text_eq_iff k j, text_eq_iff i k, text_eq_iff i j, get-delete k j m)

  pub delete-HasUniqueKeys : (k : Text) (m : Map V) → HasUniqueKeys m → HasUniqueKeys (delete k m)
  unfolding get delete
  delete-HasUniqueKeys k [] h = tt
  delete-HasUniqueKeys k ((i, w) ∷ m) h = ground (arith, get-delete k i m, delete-HasUniqueKeys k m)

  pub get-prune :
      (p : V → Bool) (k : Text) (m : Map V)
      → HasUniqueKeys m
      → get k (prune p m) ≡ unless p (get k m)
  unfolding get prune
  get-prune p k [] h = refl
  get-prune p k ((i, w) ∷ m) h = ground (arith, text_eq_iff i k, get-prune p k m)

  pub prune-HasUniqueKeys : (p : V → Bool) (m : Map V) → HasUniqueKeys m → HasUniqueKeys (prune p m)
  unfolding get prune
  prune-HasUniqueKeys p [] h = tt
  prune-HasUniqueKeys p ((i, w) ∷ m) h = ground (arith, get-prune p i m, prune-HasUniqueKeys p m)
