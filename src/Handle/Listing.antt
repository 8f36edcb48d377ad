-- ===== src/Handle/Listing.antt =====
-- `list_sandboxes` (thunder_sandbox/asynchronous/client.py), with `_from_response`
-- (thunder_sandbox/asynchronous/sandbox.py).
pub mod Whole
pub mod Complete
use thunder_sandbox.Prelude.{
  Option, none, some, List, [], ◌∷◌, ◌++◌, Text, codes, is_empty, if◌then◌else◌,
}
use thunder_sandbox.Common.Errors.{Error, Result, ok, err}
use thunder_sandbox.Common.Json.{Json, Items, Fields, get}
use thunder_sandbox.Common.Task.{Ran, done, threw, waiting}
use thunder_sandbox.Handle.Info.{Language, SandboxInfo, Hosts, info_from_response, text_or}

-- What has been yielded, the tokens of the pages that were asked for, the host keys that are
-- remembered, and how it ended.
pub record Listed : Type 0 where
  pub yielded : List SandboxInfo
  pub asked : List Text
  pub hosts : Hosts
  pub ended : Ran (Unit {0})

-- What `for item in value` goes through. The characters of a text and the keys of an object are no
-- objects and are passed over.
unfoldable pub items_of : Option Json → Result Items
items_of none = ok Items.end
items_of (some (Json.arr is)) = ok is
items_of (some (Json.str t)) = ok Items.end
items_of (some (Json.obj fs)) = ok Items.end
items_of (some _) = err Error.type_error

module _ (py : Language) where
  -- `yield`, before what follows
  abbrev pub yield : SandboxInfo → Listed → Listed
  yield i l = record l { yielded = i ∷ l.yielded }

  abbrev pub stop : Error → Hosts → Listed
  stop e hosts = record { yielded = []; asked = []; hosts = hosts; ended = threw e }

  -- a sandbox, or the error that ends the listing
  abbrev pub yield_or_stop : Result SandboxInfo × Hosts → (Hosts → Listed) → Listed
  yield_or_stop (ok i, hosts) k = yield i (k hosts)
  yield_or_stop (err e, hosts) k = stop e hosts

  -- the members of a page, and then what follows
  unfoldable pub yield_all : Items → Hosts → (Hosts → Listed) → Listed
  yield_all Items.end hosts k = k hosts
  yield_all (Items.item (Json.obj fs) is) hosts k =
      yield_or_stop (info_from_response py fs hosts) (λ h. yield_all is h k)
  yield_all (Items.item _ is) hosts k = yield_all is hosts k

  abbrev pub next_token : Fields → Text
  next_token = text_or py (codes "next_page_token") []

  abbrev pub finished : Hosts → Listed
  finished hosts = record { yielded = []; asked = []; hosts = hosts; ended = done tt }

  -- a page, and then those after it, unless it is the last
  abbrev pub page : Fields → Hosts → (Text → Hosts → Listed) → Listed
  page fs hosts k = elim (items_of (get (codes "sandboxes") fs)) [
    | err e ↦ stop e hosts
    | ok is ↦
        yield_all is hosts
          (λ h. let token = next_token fs in if is_empty token then finished h else k token h)
  ]

  abbrev pub ask_for : Text → Listed → Listed
  ask_for token l = record l { asked = token ∷ l.asked }

  -- the loop: one reply for each request
  unfoldable pub list_pages : List (Result Fields) → Text → Hosts → Listed
  list_pages [] token hosts = record {
    yielded = [];
    asked = token ∷ [];
    hosts = hosts;
    ended = waiting;
  }
  list_pages (err e ∷ rs) token hosts = ask_for token (stop e hosts)
  list_pages (ok fs ∷ rs) token hosts = ask_for token (page fs hosts (list_pages rs))

  -- `list_sandboxes`, once the workspace is resolved or is not
  unfoldable pub list_sandboxes : Result Text → List (Result Fields) → Hosts → Listed
  list_sandboxes (err e) rs hosts = stop e hosts
  list_sandboxes (ok workspace) rs hosts = list_pages rs [] hosts
