-- ===== src/Client/Response/Classes.antt =====
-- Which errors a caller of the API may meet.
use thunder_sandbox.Prelude.{ℕ, ◌≡◌, ◌≤◌, refl, true, Option, none, some, arith, leb}
use thunder_sandbox.Common.Errors.{ErrorKind, thunder_error, Result, ok, err, ◌>>=◌}
use thunder_sandbox.Common.Json.{Json, Items, Fields}
use thunder_sandbox.Client.Response.{
  kind_of_code, kind_of_json, api_error, Payload, empty, undecodable, malformed, value,
  error_member, raised, error_reply, replies, request_json, as_object, request,
}

-- a member that can be a key of a table
abbrev pub IsKey : Option Json → Type 0
IsKey (some (Json.arr (Items.item j is))) = ⊥
IsKey (some (Json.obj (Fields.field k j fs))) = ⊥
IsKey _ = Unit

-- a reply in UTF-8 whose member `error`, if it has one, can be a key
abbrev pub IsRegular : Payload → Type 0
IsRegular undecodable = ⊥
IsRegular (value j) = IsKey (error_member j)
IsRegular _ = Unit

-- the error that a reply is reported by keeps its status and its hint
abbrev pub Reports : ℕ → Option ℕ → Result Fields → Type 0
Reports s hint (err (thunder_error e)) = (e.status ≡ some s) × (e.retry_after ≡ hint)
Reports s hint _ = ⊥

abbrev object_of : Result Json → Result Fields
object_of r = r >>= as_object

kind-IsKey : (c : Option Json) → IsKey c → (k : Option ErrorKind) × (kind_of_json c ≡ ok k)
unfolding kind_of_json
kind-IsKey none h = (none, refl)
kind-IsKey (some Json.null) h = (none, refl)
kind-IsKey (some (Json.bool b)) h = (none, refl)
kind-IsKey (some (Json.int i)) h = (none, refl)
kind-IsKey (some (Json.float o)) h = (none, refl)
kind-IsKey (some (Json.str t)) h = (kind_of_code t, refl)
kind-IsKey (some (Json.arr Items.end)) h = (none, refl)
kind-IsKey (some (Json.arr (Items.item j is))) h = absurd h
kind-IsKey (some (Json.obj Fields.done)) h = (none, refl)
kind-IsKey (some (Json.obj (Fields.field k j fs))) h = absurd h

api_error-Reports :
    (s : ℕ) (c : Option Json) (hint : Option ℕ)
    → IsKey c
    → Reports s hint (object_of (raised (api_error s c hint)))
unfolding api_error ◌>>=◌
api_error-Reports s c hint h = let (k, e) = kind-IsKey c h in rw e (refl, refl)

reply-Reports :
    (s : ℕ) (p : Payload) (hint : Option ℕ)
    → IsRegular p
    → Reports s hint (object_of (error_reply s p hint))
unfolding error_reply
reply-Reports s empty hint h = api_error-Reports s none hint tt
reply-Reports s malformed hint h = api_error-Reports s none hint tt
reply-Reports s undecodable hint h = absurd h
reply-Reports s (value j) hint h = api_error-Reports s (error_member j) hint h

-- A reply with an error's status is raised as an error of the client's own that carries the status
-- and the hint when to retry, whatever else the reply holds, if it is UTF-8 and its member `error`
-- is no list or object.
pub request-Reports :
    (s : ℕ) (p : Payload) (hint : Option ℕ)
    → 400 ≤ s
    → IsRegular p
    → Reports s hint (request (replies s p hint))
unfolding request request_json
request-Reports s p hint h r =
    let is_error : leb 400 s ≡ true = ground (arith, h) in rw is_error (reply-Reports s p hint r)
