-- ===== src/Client/Workspaces/Resolves.antt =====
-- What a workspace is resolved to (thunder_sandbox/asynchronous/client.py).
use thunder_sandbox.Prelude.{
  [], false, or_false, true≢false, sym, ap, empty→nil, starts_with, or_cases, unequal, ℕ, ◌-◌, ◌≤◌,
  ◌<◌, subst, ◌≡◌, ◌≢◌, refl, ◌∙◌, ◌⊎◌, inl, inr, true, ◌||◌, Option, none, some, List, [], ◌∷◌,
  Text, codes, text_eq, text_eq→eq, ltb, is_empty, Bool-cases, Option-cases, All, arith,
}
use mathlib.Core.List.{Memᴰ}
use thunder_sandbox.Common.Errors.{Error, ErrorKind, Result, ok, err, raise}
use thunder_sandbox.Common.Json.{Json, Items}
use thunder_sandbox.Common.Whitespace.{strip}
use thunder_sandbox.Client.Workspaces.{
  or_else, Workspace, Ids, find_id, Cache, cache_time, chosen_reference, workspaces_of, bind_all,
  remember, list_workspaces, found, cached, resolve_workspace,
}

module _ (lower : Text → Text) where
  -- a workspace of the list whose name or ID, as `by` says, is `k`, has the ID `i`
  abbrev pub Named : (Workspace → Text) → Text → List Workspace → Text → Type 0
  Named by k ws i = (w : Workspace) × Memᴰ w ws × (lower (by w) ≡ k) × (w.id ≡ i)

  -- no workspace of the list has it
  abbrev pub Unnamed : (Workspace → Text) → Text → List Workspace → Type 0
  Unnamed by k ws = All (λ w. lower (by w) ≢ k) ws

  -- what a list of workspaces says that `k` is: an ID comes before a name
  pub data Finds (k : Text) (ws : List Workspace) : Option Text → Type 0 where
    by_id : (i : Text) → Named (λ w. w.id) k ws i → Finds k ws (some i)
    by_name :
        (i : Text) → Unnamed (λ w. w.id) k ws → Named (λ w. w.name) k ws i → Finds k ws (some i)
    missing : Unnamed (λ w. w.id) k ws → Unnamed (λ w. w.name) k ws → Finds k ws none

  bind_all-finds :
      (by : Workspace → Text) (k : Text) (ws : List Workspace) (m : Ids)
      → ((i : Text) × (find_id k (bind_all lower by ws m) ≡ some i) × Named by k ws i)
        ⊎ ((find_id k (bind_all lower by ws m) ≡ find_id k m) × Unnamed by k ws)
  bind_all-finds by k [] m = inr (refl, tt)
  bind_all-finds by k (w ∷ ws) m = elim (bind_all-finds by k ws ((lower (by w), w.id) ∷ m)) [
    | inl (i, e, n) ↦ inl (i, e, (n.0, Memᴰ.tail n.1, n.2, n.3))
    | inr (e, u) ↦ elim (Bool-cases (text_eq (lower (by w)) k)) [
      | inl q ↦ inl (w.id, e ∙ rw q refl, (w, Memᴰ.head refl, text_eq→eq _ k q, refl))
      | inr q ↦ inr (e ∙ rw q refl, (unequal _ k q, u))
    ]
  ]

  pub remember-Finds :
      (k : Text) (ws : List Workspace) (now : ℕ)
      → Finds k ws (find_id k (remember lower ws now).ids)
  unfolding remember
  remember-Finds k ws now =
      let names = bind_all lower (λ w. w.name) ws [] in
      elim (bind_all-finds (λ w. w.id) k ws names) [
        | inl (i, e, n) ↦ rw e (Finds.by_id i n)
        | inr (e, u) ↦ elim (bind_all-finds (λ w. w.name) k ws []) [
          | inl (i, f, n) ↦ rw e (rw f (Finds.by_name i u n))
          | inr (f, v) ↦ rw e (rw f (Finds.missing u v))
        ]
      ]

module _ (lower : Text → Text) (str_of : Json → Text) where
  -- the list is read: it was not read in the last minute, or it does not say what `k` is
  abbrev pub Stale : Text → List Workspace → ℕ → ℕ → Type 0
  Stale k ws now at = (60000 ≤ now - at) ⊎ Finds lower k ws none

  -- a reference that is neither the main workspace nor an ID
  abbrev pub IsOther : Text → Type 0
  IsOther chosen =
      (chosen ≢ [])
      × (lower chosen ≢ codes "main")
      × (starts_with (codes "ws-") (lower chosen) ≡ false)

  -- what comes of a reference when the list was `ws` at the time `at`
  pub data Resolution (chosen : Text) (ws : List Workspace) (at now : ℕ) (reply : Result Json)
      (later : ℕ) : Result Text × Cache → Type 0 where
    to_main :
        (chosen ≡ []) ⊎ (lower chosen ≡ codes "main")
        → Resolution chosen ws at now reply later (ok (codes "main"), remember lower ws at)
    to_itself :
        chosen ≢ []
        → starts_with (codes "ws-") (lower chosen) ≡ true
        → Resolution chosen ws at now reply later (ok chosen, remember lower ws at)
    remembered :
        (i : Text)
        → IsOther chosen
        → now - at < 60000
        → Finds lower (lower chosen) ws (some i)
        → Resolution chosen ws at now reply later (ok i, remember lower ws at)
    unreadable :
        (e : Error)
        → IsOther chosen
        → Stale (lower chosen) ws now at
        → ((js : Items) → reply ≢ ok (Json.arr js))
        → Resolution chosen ws at now reply later (err e, remember lower ws at)
    renewed :
        (js : Items) (i : Text)
        → IsOther chosen
        → Stale (lower chosen) ws now at
        → reply ≡ ok (Json.arr js)
        → Finds lower (lower chosen) (workspaces_of str_of js) (some i)
        → Resolution chosen ws at now reply later
            (ok i, remember lower (workspaces_of str_of js) later)
    unknown :
        (js : Items)
        → IsOther chosen
        → Stale (lower chosen) ws now at
        → reply ≡ ok (Json.arr js)
        → Finds lower (lower chosen) (workspaces_of str_of js) none
        → Resolution chosen ws at now reply later
            (raise ErrorKind.not_found, remember lower (workspaces_of str_of js) later)

  module _ (chosen : Text) (ws : List Workspace) (at now later : ℕ) where
    found-Resolution :
        (reply : Result Json)
        → IsOther chosen
        → Stale (lower chosen) ws now at
        → Resolution chosen ws at now reply later
            (found (lower chosen) (list_workspaces lower str_of reply later (remember lower ws at)))
    unfolding list_workspaces
    found-Resolution (err e) o h = Resolution.unreadable e o h (λ js q. cc)
    found-Resolution (ok (Json.arr js)) o h =
        let f = remember-Finds lower (lower chosen) (workspaces_of str_of js) later in
        elim (Option-cases
          (find_id (lower chosen) (remember lower (workspaces_of str_of js) later).ids)) [
            | inl e ↦
                rw (found, e)
                  (Resolution.unknown js o h refl
                    (subst (Finds lower (lower chosen) (workspaces_of str_of js)) e f))
            | inr (i, e) ↦
                rw (found, e)
                  (Resolution.renewed js i o h refl
                    (subst (Finds lower (lower chosen) (workspaces_of str_of js)) e f))
          ]
    found-Resolution (ok j) o h = Resolution.unreadable _ o h (λ js q. cc)

    cached-cases :
        ((cached now (lower chosen) (remember lower ws at) ≡ none) × Stale (lower chosen) ws now at)
        ⊎ ((i : Text) × (cached now (lower chosen) (remember lower ws at) ≡ some i)
            × (now - at < cache_time)
            × Finds lower (lower chosen) ws (some i))
    unfolding remember
    cached-cases =
        let f = remember-Finds lower (lower chosen) ws at in
        elim (Bool-cases (ltb (now - at) cache_time)) [
          | inr q ↦ inl (rw q refl, inl (ground arith))
          | inl q ↦ elim (Option-cases (find_id (lower chosen) (remember lower ws at).ids)) [
            | inl e ↦ inl (rw q e, inr (subst (Finds lower (lower chosen) ws) e f))
            | inr (i, e) ↦ inr (i, rw q e, ground arith, subst (Finds lower (lower chosen) ws) e f)
          ]
        ]

-- The reference that counts, without the white space around it: the caller's, or that of the
-- environment if the caller has none or an empty one, or none.
pub data Chosen (reference environment : Option Text) : Text → Type 0 where
  by_caller : (t : Text) → reference ≡ some t → t ≢ [] → Chosen reference environment (strip t)
  by_environment :
      (t : Text)
      → (reference ≡ none) ⊎ (reference ≡ some [])
      → environment ≡ some t
      → t ≢ []
      → Chosen reference environment (strip t)
  by_none :
      (reference ≡ none) ⊎ (reference ≡ some [])
      → (environment ≡ none) ⊎ (environment ≡ some [])
      → Chosen reference environment []

environment-Chosen :
    (reference environment : Option Text)
    → (reference ≡ none) ⊎ (reference ≡ some [])
    → Chosen reference environment (strip (or_else environment []))
environment-Chosen reference none h = Chosen.by_none h (inl refl)
environment-Chosen reference (some []) h = Chosen.by_none h (inr refl)
environment-Chosen reference (some (c ∷ cs)) h = Chosen.by_environment (c ∷ cs) h refl (λ e. cc)

chosen_reference-Chosen :
    (reference environment : Option Text)
    → Chosen reference environment (chosen_reference reference environment)
chosen_reference-Chosen none environment = environment-Chosen none environment (inl refl)
chosen_reference-Chosen (some []) environment = environment-Chosen (some []) environment (inr refl)
chosen_reference-Chosen (some (c ∷ cs)) environment = Chosen.by_caller (c ∷ cs) refl (λ e. cc)

not_empty : (t : Text) → is_empty t ≡ false → t ≢ []
not_empty t h e = true≢false (sym (ap is_empty e) ∙ h)

module _ (lower : Text → Text) (str_of : Json → Text) where
  -- A reference, that of the caller or else that of the environment, is resolved as the documentation
  -- says, without the white space around it and whatever the case of its letters: none, an empty one and
  -- `main` to the main workspace; one that begins with `ws-` to itself; and any other by what was read in
  -- the last minute, or by a new reading, where an ID comes before a name; and what was read replaces
  -- what was remembered.
  pub resolve_workspace-Resolution :
      (reference environment : Option Text) (ws : List Workspace) (at now : ℕ) (reply : Result Json)
      (later : ℕ)
      → (chosen : Text) × Chosen reference environment chosen
        × Resolution lower str_of chosen ws at now reply later (
            resolve_workspace lower str_of reference environment now reply later
              (remember lower ws at))
  unfolding resolve_workspace
  resolve_workspace-Resolution reference environment ws at now reply later =
      let chosen = chosen_reference reference environment in
      let key = lower chosen in
      (
        chosen,
        chosen_reference-Chosen reference environment,
        elim (Bool-cases (is_empty chosen || text_eq key (codes "main"))) [
          | inl q ↦ rw q (
              Resolution.to_main (elim (or_cases _ _ q) [
                | inl a ↦ inl (empty→nil _ a)
                | inr b ↦ inr (text_eq→eq _ _ b)
              ]))
          | inr q ↦
              let n = or_false _ _ q in
              rw q (elim (Bool-cases (starts_with (codes "ws-") key)) [
                | inl p ↦ rw p (Resolution.to_itself (not_empty _ n.0) p)
                | inr p ↦
                    let o : IsOther lower str_of chosen = (not_empty _ n.0, unequal _ _ n.1, p) in
                    rw p (elim (cached-cases lower str_of chosen ws at now later) [
                      | inl (e, h) ↦
                          rw e (found-Resolution lower str_of chosen ws at now later reply o h)
                      | inr (i, e, l, h) ↦ rw e (Resolution.remembered i o l h)
                    ])
              ])
        ],
      )
