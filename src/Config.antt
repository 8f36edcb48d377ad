-- ===== src/Config.antt =====
-- `ClientConfig` and `_read_json` (thunder_sandbox/_common/config.py).
pub mod Resolved
pub mod Paths
use thunder_sandbox.Prelude.{
  Bool, true, false, ◌&&◌, not, Option, none, some, List, [], ◌∷◌, Text, codes, text_eq, has_char,
  is_empty, if◌then◌else◌,
}
use thunder_sandbox.Common.Errors.{
  Error, ErrorKind, thunder_error, plain, Result, ok, err, raise, guard, ◌>>=◌, ◌>>◌,
}
use thunder_sandbox.Common.Json.{Json, Fields, get, is_truthy}
use thunder_sandbox.Common.Whitespace.{rstrip}

-- what the file of the command line's configuration is
pub data ConfigFile : Type 0 where
  missing unreadable undecodable malformed : ConfigFile
  holds : Json → ConfigFile

-- `_read_json`; a text that is not UTF-8 raises `UnicodeDecodeError`, which is not handled
unfoldable pub read_json : ConfigFile → Result Fields
read_json missing = ok Fields.done
read_json unreadable = raise ErrorKind.invalid_request
read_json undecodable = err Error.value_error
read_json malformed = raise ErrorKind.invalid_request
read_json (holds (Json.obj fs)) = ok fs
read_json (holds _) = raise ErrorKind.invalid_request

-- The token, if there is any, is what is in the configuration, and need not be a text.
pub record ClientConfig : Type 0 where
  pub api_token : Option Json
  pub api_url : Text

-- `a or b`, where `a` may be missing
abbrev pub or_next : Option Text → Option Json → Option Json
or_next none next = next
or_next (some t) next = if is_empty t then next else some (Json.str t)

abbrev pub default_api_url : Text
default_api_url = codes "https://api.thundercompute.com:8443"

-- `str` of a value, and `urlsplit`, which gives the scheme and the network location or raises
-- `ValueError`, are parameters
module _ (str_of : Json → Text) (urlsplit : Text → Option (Text × Text)) where
  abbrev pub text_or_default : Option Json → Text
  text_or_default none = default_api_url
  text_or_default (some (Json.str t)) = t
  text_or_default (some j) = str_of j

  -- `value or DEFAULT_API_URL`
  abbrev pub or_default : Option Json → Option Json
  or_default j = if is_truthy j then j else none

  abbrev pub url_of : Option Text → Option Text → Fields → Text
  url_of api_url environment cli = rstrip 47 (
      text_or_default
        (or_default (or_next api_url (or_next environment (get (codes "api_url") cli)))))

  abbrev pub checked_url : Text → Result (Unit {0})
  checked_url url = elim (urlsplit url) [
    | none ↦ err Error.value_error
    | some p ↦
        guard (text_eq p.0 (codes "https") && not (is_empty p.1))
          (thunder_error (plain ErrorKind.invalid_request))
  ]

  -- `ClientConfig.__init__`: the arguments, the variables of the environment, and the file
  unfoldable pub client_config :
      Option Text → Option Text → Option Text → Option Text → ConfigFile → Result ClientConfig
  client_config api_url api_token url_variable token_variable file = do
    cli ← read_json file
    checked_url (url_of api_url url_variable cli)
    ok (record {
      api_token = or_next api_token (or_next token_variable (get (codes "token") cli));
      api_url = url_of api_url url_variable cli;
    })

  -- `ClientConfig.from_cli`
  unfoldable pub from_cli : Option Text → Option Text → ConfigFile → Result ClientConfig
  from_cli url_variable token_variable file = do
    c ← client_config none none url_variable token_variable file
    guard (is_truthy c.api_token) (thunder_error (plain ErrorKind.authentication))
    ok c

-- `_validate_sandbox_name`
unfoldable pub validate_sandbox_name : Text → Result (Unit {0})
validate_sandbox_name name =
    guard
      (not (is_empty name)
        && (not (text_eq name (codes "."))
            && (not (text_eq name (codes ".."))
                && (not (has_char 47 name) && not (has_char 92 name)))))
      (thunder_error (plain ErrorKind.invalid_request))
