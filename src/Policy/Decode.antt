-- ===== src/Policy/Decode.antt =====
-- `_network_policy_from_response`, `_network_policy_generation` and `_string_tuple`
-- (thunder_sandbox/asynchronous/sandbox.py), with `NetworkPolicy` (thunder_sandbox/_common/types.py).
pub mod Equality
use thunder_sandbox.Prelude.{
  ℕ, Bool, true, false, ◌&&◌, Option, none, some, List, [], ◌∷◌, Text, codes, text_eq, leb, pos,
  if◌then◌else◌,
}
use thunder_sandbox.Common.Errors.{ErrorKind, Result, ok, raise}
use thunder_sandbox.Common.Json.{Json, Items, Fields, get}

pub record NetworkPolicy : Type 0 where
  pub internet_access : Text
  pub cidrs : List Text
  pub domains : List Text

abbrev pub lists_eq : List Text → List Text → Bool
lists_eq [] [] = true
lists_eq (x ∷ xs) (y ∷ ys) = text_eq x y && lists_eq xs ys
lists_eq _ _ = false

-- `==` of the dataclass
abbrev pub policy_eq : NetworkPolicy → NetworkPolicy → Bool
policy_eq p q =
    text_eq p.internet_access q.internet_access
    && (lists_eq p.cidrs q.cidrs && lists_eq p.domains q.domains)

-- Python's `str` of a decoded value is a parameter: only that of a text is known, the text itself.
module _ (str_of : Json → Text) where
  abbrev pub strings : Items → List Text
  strings Items.end = []
  strings (Items.item j is) = str_of j ∷ strings is

  -- `_string_tuple`
  abbrev pub string_tuple : Option Json → List Text
  string_tuple (some (Json.arr is)) = strings is
  string_tuple _ = []

  abbrev pub access_of : Option Json → Text
  access_of none = codes "closed"
  access_of (some j) = str_of j

  abbrev pub policy_of : Fields → NetworkPolicy
  policy_of fs = record {
    internet_access = access_of (get (codes "internet_access") fs);
    cidrs = string_tuple (get (codes "cidr_allowlist") fs);
    domains = string_tuple (get (codes "domain_allowlist") fs);
  }

  -- `_network_policy_from_response`; what is no object counts as an empty one
  unfoldable pub policy_from_response : Option Json → NetworkPolicy
  policy_from_response (some (Json.obj fs)) = policy_of fs
  policy_from_response _ = policy_of Fields.done

-- `_network_policy_generation`; a Boolean is no integer here
unfoldable pub generation_from : Option Json → Result (Option ℕ)
generation_from none = ok none
generation_from (some Json.null) = ok none
generation_from (some (Json.int (pos n))) =
    if leb n 0xFFFFFFFF then ok (some n) else raise ErrorKind.connection
generation_from (some _) = raise ErrorKind.connection
