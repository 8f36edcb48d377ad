-- ===== src/Client/Response.antt =====
-- `_api_error`, `_request_json` and `_request` (thunder_sandbox/asynchronous/client.py), from the reply
-- of the HTTP library on.
pub mod Classes
use thunder_sandbox.Prelude.{
  ℕ, ◌==◌, Bool, true, false, Option, none, some, Text, codes, text_eq, leb, if◌then◌else◌,
}
use thunder_sandbox.Common.Errors.{
  Error, ErrorKind, ThunderError, thunder_error, value_error, type_error, Result, ok, err, raise,
  ◌>>=◌,
}
use thunder_sandbox.Common.Json.{Json, Items, Fields, get}

-- the table `_ERROR_CODES`
unfoldable pub kind_of_code : Text → Option ErrorKind
kind_of_code t =
    if text_eq t (codes "sandbox_capacity_unavailable")
    then some ErrorKind.capacity
    else if text_eq t (codes "sandbox_scheduler_unavailable")
    then some ErrorKind.service_unavailable
    else if text_eq t (codes "sandbox_scheduler_timeout")
    then some ErrorKind.service_unavailable
    else if text_eq t (codes "sandbox_already_exists")
    then some ErrorKind.conflict
    else if text_eq t (codes "sandbox_name_in_use")
    then some ErrorKind.conflict
    else if text_eq t (codes "sandbox_scheduler_rejected_request")
    then some ErrorKind.invalid_request
    else if text_eq t (codes "sandbox_wait_timeout")
    then some ErrorKind.wait_window_elapsed
    else if text_eq t (codes "rate_limit_exceeded")
    then some ErrorKind.rate_limit
    else if text_eq t (codes "sandbox_image_invalid_source")
    then some ErrorKind.invalid_request
    else if text_eq t (codes "sandbox_image_source_collision")
    then some ErrorKind.conflict
    else if text_eq t (codes "sandbox_image_registry_unavailable")
    then some ErrorKind.service_unavailable
    else if text_eq t (codes "sandbox_image_control_plane_unavailable")
    then some ErrorKind.service_unavailable
    else if text_eq t (codes "sandbox_image_job_creation_failed")
    then some ErrorKind.service_unavailable
    else if text_eq t (codes "sandbox_image_stale_attempt")
    then some ErrorKind.conflict
    else if text_eq t (codes "sandbox_image_not_ready")
    then some ErrorKind.conflict
    else if text_eq t (codes "sandbox_image_failed")
    then some ErrorKind.sandbox_failed
    else none

-- the table `_ERROR_STATUSES`, with its default
unfoldable pub kind_of_status : ℕ → ErrorKind
kind_of_status s =
    if s == 400
    then ErrorKind.invalid_request
    else if s == 401
    then ErrorKind.authentication
    else if s == 403
    then ErrorKind.authentication
    else if s == 404
    then ErrorKind.not_found
    else if s == 409
    then ErrorKind.conflict
    else if s == 429
    then ErrorKind.rate_limit
    else if s == 502
    then ErrorKind.service_unavailable
    else if s == 503
    then ErrorKind.service_unavailable
    else if s == 504
    then ErrorKind.service_unavailable
    else ErrorKind.thunder

-- `_ERROR_CODES.get(code or "")`: a list or an object that is not empty cannot be a key
unfoldable pub kind_of_json : Option Json → Result (Option ErrorKind)
kind_of_json (some (Json.str t)) = ok (kind_of_code t)
kind_of_json (some (Json.arr (Items.item j is))) = err type_error
kind_of_json (some (Json.obj (Fields.field k j fs))) = err type_error
kind_of_json _ = ok none

-- the code, where it is a text: nothing is compared with another
abbrev pub code_text : Option Json → Option Text
code_text (some (Json.str t)) = some t
code_text _ = none

abbrev pub chosen_kind : ℕ → Option ErrorKind → ErrorKind
chosen_kind s none = kind_of_status s
chosen_kind s (some k) = k

-- `_api_error`, with the number that the `Retry-After` header holds, if it holds one
unfoldable pub api_error : ℕ → Option Json → Option ℕ → Result ThunderError
api_error s code hint = do
  k ← kind_of_json code
  ok (record { kind = chosen_kind s k; code = code_text code; status = some s; retry_after = hint })

-- the bytes of a reply, as `json.loads` takes them: none at all, no UTF-8, no JSON, or a value
pub data Payload : Type 0 where
  empty undecodable malformed : Payload
  value : Json → Payload

-- `parsed.get("error")`; anything but an object has no `get`
abbrev pub error_member : Json → Option Json
error_member (Json.obj fs) = get (codes "error") fs
error_member _ = none

abbrev pub raised : Result ThunderError → Result Json
raised (ok e) = err (thunder_error e)
raised (err e) = err e

-- the branch for a status of 400 or more
unfoldable pub error_reply : ℕ → Payload → Option ℕ → Result Json
error_reply s undecodable hint = err value_error
error_reply s (value j) hint = raised (api_error s (error_member j) hint)
error_reply s _ hint = raised (api_error s none hint)

unfoldable pub success_reply : Payload → Result Json
success_reply empty = ok (Json.obj Fields.done)
success_reply undecodable = err value_error
success_reply malformed = raise ErrorKind.connection
success_reply (value j) = ok j

-- what comes of one request: the client is closed, the transport fails, or there is a reply
pub data Exchange : Type 0 where
  closed fails : Exchange
  replies : ℕ → Payload → Option ℕ → Exchange

-- `_request_json`
unfoldable pub request_json : Exchange → Result Json
request_json closed = raise ErrorKind.connection
request_json fails = raise ErrorKind.connection
request_json (replies s p hint) = if leb 400 s then error_reply s p hint else success_reply p

abbrev pub as_object : Json → Result Fields
as_object (Json.obj fs) = ok fs
as_object _ = raise ErrorKind.connection

-- `_request`
unfoldable pub request : Exchange → Result Fields
request x = do j ← request_json x; as_object j
