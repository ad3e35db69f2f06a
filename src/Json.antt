-- ===== src/Json.antt =====
-- JSON values as the handlers read them: a body is what `await request.json()` returns. A number is an
-- integer or some fraction, of which the modelled code only asks that it is none. A body of a handler
-- that reads fields is their map, none where parsing throws or where reading a field would.
use web_gui.Base.{Bool, true, false, List, [], ◌∷◌, Option, none, some, not, ◌==◌}
use web_gui.Base.Int.{ℤ, pos}
use web_gui.Text.{Text, trim, is_nonempty}
use web_gui.JsMap.{Map, get}

mutual
  pub data Json : Type 0 where
    null : Json
    bool : Bool → Json
    int : ℤ → Json
    fraction : Json
    text : Text → Json
    arr : Items → Json
    obj : Fields → Json

  pub data Items : Type 0 where
    nil : Items
    cons : Json → Items → Items

  pub data Fields : Type 0 where
    end : Fields
    member : Text → Json → Fields → Fields

abbrev pub members : Fields → Map Json
members end = []
members (member k v fs) = (k, v) ∷ members fs

abbrev pub elements : Items → List Json
elements nil = []
elements (cons v vs) = v ∷ elements vs

abbrev pub text_of : Option Json → Option Text
text_of (some (text t)) = some t
text_of _ = none

-- `typeof v === 'object' && v !== null && !Array.isArray(v)`, with the fields
abbrev pub object_of : Option Json → Option (Map Json)
object_of (some (obj fs)) = some (members fs)
object_of _ = none

-- The fields of any value but null and undefined: only objects have the named ones that are read.
abbrev pub fields_of : Json → Map Json
fields_of (obj fs) = members fs
fields_of _ = []

-- `v === null`, and the same with undefined
abbrev pub is_null : Option Json → Bool
is_null (some null) = true
is_null _ = false

abbrev pub is_nullish : Option Json → Bool
is_nullish none = true
is_nullish (some null) = true
is_nullish _ = false

abbrev pub is_bool : Option Json → Bool
is_bool (some (bool b)) = true
is_bool _ = false

-- `v !== 0`
abbrev pub is_zero : Option Json → Bool
is_zero (some (int (pos n))) = n == 0
is_zero _ = false

-- `if (v)`
abbrev pub is_truthy : Option Json → Bool
is_truthy none = false
is_truthy (some null) = false
is_truthy (some (bool b)) = b
is_truthy (some (int (pos n))) = not (n == 0)
is_truthy (some (text t)) = is_nonempty t
is_truthy (some _) = true

unfoldable pub field : Text → Map Json → Option Text
field name body = text_of (get name body)

abbrev pub or_empty : Option Text → Text
or_empty none = []
or_empty (some t) = t

-- `if (typeof body.f === 'string') x = body.f.trim()` over the initial ''
abbrev pub trimmed : Option Text → Text
trimmed none = []
trimmed (some t) = trim t
