-- ===== src/Common/Json.antt =====
-- The values of Python's `json` module, and the questions that the client asks of them.
use thunder_sandbox.Prelude.{
  ℕ, Bool, true, false, Option, none, some, List, [], ◌∷◌, Text, text_eq, ℤ, pos, is_nat,
  if◌then◌else◌,
}

-- A float is kept as the integer that it equals, if it equals one: nothing else is asked of it.
mutual
  pub data Json : Type 0 where
    null : Json
    bool : Bool → Json
    int : ℤ → Json
    float : Option ℤ → Json
    str : Text → Json
    arr : Items → Json
    obj : Fields → Json

  pub data Items : Type 0 where
    end : Items
    item : Json → Items → Items

  pub data Fields : Type 0 where
    done : Fields
    field : Text → Json → Fields → Fields

-- `raw.get(key)` of a decoded object, whose keys are distinct; `none` is a missing key
abbrev pub get : Text → Fields → Option Json
get k done = none
get k (field j v fs) = if text_eq j k then some v else get k fs

-- `value == k` for an integer literal: `True == 1` and `1.0 == 1` hold in Python
abbrev pub equals_nat : ℕ → Option Json → Bool
equals_nat k (some (Json.int i)) = is_nat k i
equals_nat k (some (Json.float (some i))) = is_nat k i
equals_nat k (some (Json.bool b)) = is_nat k (pos (if b then 1 else 0))
equals_nat k _ = false

-- the list of a sequence of texts, as `json.dumps` encodes a list of `str`
abbrev pub str_items : List Text → Items
str_items [] = Items.end
str_items (t ∷ ts) = Items.item (Json.str t) (str_items ts)

-- the texts of a list all of whose members are `str`
abbrev pub all_str : Items → Option (List Text)
all_str Items.end = some []
all_str (Items.item (Json.str t) is) = elim (all_str is) [ none ↦ none | some ts ↦ some (t ∷ ts) ]
all_str (Items.item _ is) = none

-- Python's truth of a member
unfoldable pub is_truthy : Option Json → Bool
is_truthy none = false
is_truthy (some Json.null) = false
is_truthy (some (Json.bool b)) = b
is_truthy (some (Json.int (pos ℕ.zero))) = false
is_truthy (some (Json.float (some (pos ℕ.zero)))) = false
is_truthy (some (Json.str [])) = false
is_truthy (some (Json.arr Items.end)) = false
is_truthy (some (Json.obj Fields.done)) = false
is_truthy (some j) = true
