-- ===== src/Client/Workspaces.antt =====
-- `list_workspaces` and `_resolve_workspace` (thunder_sandbox/asynchronous/client.py). Times are
-- milliseconds. Lower case and the `str` of a value are the language's, and are parameters.
pub mod Resolves
use thunder_sandbox.Prelude.{
  starts_with, ℕ, ◌-◌, Bool, true, false, ◌||◌, Option, none, some, List, [], ◌∷◌, Text, codes,
  text_eq, ltb, length, take, is_empty, if◌then◌else◌,
}
use thunder_sandbox.Common.Errors.{ErrorKind, Result, ok, err, raise}
use thunder_sandbox.Common.Json.{Json, Items, Fields, get, is_truthy}
use thunder_sandbox.Common.Whitespace.{strip}

pub record Workspace : Type 0 where
  pub id : Text
  pub name : Text
  pub role : Option Text

-- A dictionary: the binding that was made last is the first.
abbrev pub Ids : Type 0
Ids = List (Text × Text)

abbrev pub find_id : Text → Ids → Option Text
find_id k [] = none
find_id k ((l, i) ∷ m) = if text_eq l k then some i else find_id k m

-- `_workspace_ids` and `_workspace_ids_at`
pub record Cache : Type 0 where
  pub ids : Ids
  pub at : ℕ

-- `Client.__init__`
abbrev pub no_workspaces : Cache
no_workspaces = record { ids = []; at = 0 }

-- WORKSPACE_CACHE_SECONDS
abbrev pub cache_time : ℕ
cache_time = 60000

-- `a or b`
abbrev pub or_else : Option Text → Text → Text
or_else none d = d
or_else (some t) d = if is_empty t then d else t

-- the reference, or the one of the environment, without the white space around it
abbrev pub chosen_reference : Option Text → Option Text → Text
chosen_reference reference environment = strip (or_else reference (or_else environment []))

module _ (str_of : Json → Text) where
  abbrev pub text_member : Text → Fields → Text
  text_member k fs = elim (get k fs) [ none ↦ [] | some j ↦ str_of j ]

  abbrev pub workspace_of : Fields → Workspace
  workspace_of fs = record {
    id = text_member (codes "id") fs;
    name = text_member (codes "name") fs;
    role = if is_truthy (get (codes "role") fs) then some (text_member (codes "role") fs) else none;
  }

  -- the comprehension of `list_workspaces`
  unfoldable pub workspaces_of : Items → List Workspace
  workspaces_of Items.end = []
  workspaces_of (Items.item (Json.obj fs) js) =
      let more = workspaces_of js in
      if is_truthy (get (codes "id") fs) then workspace_of fs ∷ more else more
  workspaces_of (Items.item _ js) = workspaces_of js

module _ (lower : Text → Text) where
  -- `dict.update` with a binding for each workspace
  abbrev pub bind_all : (Workspace → Text) → List Workspace → Ids → Ids
  bind_all key [] m = m
  bind_all key (w ∷ ws) m = bind_all key ws ((lower (key w), w.id) ∷ m)

  unfoldable pub remember : List Workspace → ℕ → Cache
  remember ws now = record {
    ids = bind_all (λ w. w.id) ws (bind_all (λ w. w.name) ws []);
    at = now;
  }

-- what follows a reading of the list
abbrev pub found : Text → Result (List Workspace) × Cache → Result Text × Cache
found key (err e, c) = (err e, c)
found key (ok ws, c) = elim (find_id key c.ids) [
  | none ↦ (raise ErrorKind.not_found, c)
  | some i ↦ (ok i, c)
]

abbrev pub cached : ℕ → Text → Cache → Option Text
cached now key c = if ltb (now - c.at) cache_time then find_id key c.ids else none

module _ (lower : Text → Text) (str_of : Json → Text) where
  unfoldable pub list_workspaces : Result Json → ℕ → Cache → Result (List Workspace) × Cache
  list_workspaces (err e) now c = (err e, c)
  list_workspaces (ok (Json.arr js)) now c =
      (ok (workspaces_of str_of js), remember lower (workspaces_of str_of js) now)
  list_workspaces (ok _) now c = (raise ErrorKind.connection, c)

  -- `_resolve_workspace`: the time, and the reply to a request for the list with its time
  unfoldable pub resolve_workspace :
      Option Text → Option Text → ℕ → Result Json → ℕ → Cache → Result Text × Cache
  resolve_workspace reference environment now reply later c =
      let chosen = chosen_reference reference environment in
      let key = lower chosen in
      if is_empty chosen || text_eq key (codes "main")
      then (ok (codes "main"), c)
      else if starts_with (codes "ws-") key
      then (ok chosen, c)
      else elim (cached now key c) [
        | some i ↦ (ok i, c)
        | none ↦ found key (list_workspaces reply later c)
      ]
