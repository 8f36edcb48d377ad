-- ===== src/Handle/Listing/Whole.antt =====
-- That a listing is complete (thunder_sandbox/asynchronous/client.py).
use thunder_sandbox.Prelude.{
  ◌≡◌, refl, sym, ◌∙◌, ap, ◌⊎◌, inl, inr, true, false, List, [], ◌∷◌, ◌++◌, Text, codes, is_empty,
  map, append-nil, subst, Bool-cases, if◌then◌else◌,
}
use thunder_sandbox.Common.Errors.{Error, Result, Result-cases, ok, err}
use thunder_sandbox.Common.Json.{Json, Items, Fields, get}
use thunder_sandbox.Common.Task.{done}
use thunder_sandbox.Handle.Info.{Language, SandboxInfo, Hosts, info_from_response}
use thunder_sandbox.Handle.Listing.{
  Listed, items_of, yield, yield_all, next_token, finished, page, ask_for, list_pages,
  list_sandboxes,
}

-- the objects among the members
abbrev pub objects : Items → List Fields
objects Items.end = []
objects (Items.item (Json.obj fs) is) = fs ∷ objects is
objects (Items.item _ is) = objects is

module _ (py : Language) where
  -- each description is read as a sandbox, with the host keys that are remembered so far
  pub data Decodes : List Fields → Hosts → List SandboxInfo → Hosts → Type 0 where
    all_read : (h : Hosts) → Decodes [] h [] h
    reads :
        (fs : Fields) (fss : List Fields) (h m n : Hosts) (i : SandboxInfo) (is : List SandboxInfo)
        → info_from_response py fs h ≡ (ok i, m)
        → Decodes fss m is n
        → Decodes (fs ∷ fss) h (i ∷ is) n

  -- The pages from a token on, each asked for by the token that the one before names, until one names
  -- none; with all their descriptions and the tokens.
  pub data Pages : Text → List Fields → List Fields → List Text → Type 0 where
    last :
        (t : Text) (p : Fields) (is : Items)
        → items_of (get (codes "sandboxes") p) ≡ ok is
        → is_empty (next_token py p) ≡ true
        → Pages t (p ∷ []) (objects is) (t ∷ [])
    more :
        (t : Text) (p : Fields) (is : Items) (ps os : List Fields) (ts : List Text)
        → items_of (get (codes "sandboxes") p) ≡ ok is
        → is_empty (next_token py p) ≡ false
        → Pages (next_token py p) ps os ts
        → Pages t (p ∷ ps) (objects is ++ os) (t ∷ ts)

  -- what a listing that ends with no exception has gone through
  pub record Whole (t : Text) (rs : List (Result Fields)) (h : Hosts) (l : Listed) : Type 0 where
    pub pages : List Fields
    pub descriptions : List Fields
    pub unread : List (Result Fields)
    pub replies : rs ≡ map ok pages ++ unread
    pub chain : Pages t pages descriptions l.asked
    pub decoded : Decodes descriptions h l.yielded l.hosts

  Decodes-append :
      {xs ys : List Fields} {h m n : Hosts} {is js : List SandboxInfo}
      → Decodes xs h is m
      → Decodes ys m js n
      → Decodes (xs ++ ys) h (is ++ js) n
  Decodes-append (Decodes.all_read h) d = d
  Decodes-append (Decodes.reads fs fss h m n i is e c) d =
      Decodes.reads fs _ h m _ i _ e (Decodes-append c d)

  -- the sandboxes, before what follows
  abbrev prepend : List SandboxInfo → Listed → Listed
  prepend is l = record l { yielded = is ++ l.yielded }

  pair-cases :
      (r : Result SandboxInfo × Hosts)
      → ((i : SandboxInfo) × (m : Hosts) × (r ≡ (ok i, m)))
        ⊎ ((e : Error) × (m : Hosts) × (r ≡ (err e, m)))
  pair-cases (ok i, m) = inl (i, m, refl)
  pair-cases (err e, m) = inr (e, m, refl)

  -- the members of a page were read, and then what follows ran
  abbrev Read : Items → Hosts → (Hosts → Listed) → Type 0
  Read is h k =
      (ys : List SandboxInfo) × (m : Hosts) × Decodes (objects is) h ys m
      × (yield_all py is h k ≡ prepend ys (k m))

  yield_all-Read :
      (is : Items) (h : Hosts) (k : Hosts → Listed)
      → (yield_all py is h k).ended ≡ done tt
      → Read is h k
  unfolding yield_all
  yield_all-Read Items.end h k = λ e. ([], h, Decodes.all_read h, refl)
  yield_all-Read (Items.item (Json.obj fs) is) h k =
      elim (pair-cases (info_from_response py fs h)) [
        | inr (x, m, q) ↦ rw q (λ e. cc)
        | inl (i, m, q) ↦ rw q (λ e.
            let r = yield_all-Read is m k e in
            (i ∷ r.0, r.1, Decodes.reads fs _ h m _ i _ q r.2, ap (yield py i) r.3))
      ]
  yield_all-Read (Items.item j is) h k = yield_all-Read is h k

  page-cases :
      (p : Fields) (h : Hosts) (k : Text → Hosts → Listed)
      → (page py p h k).ended ≡ done tt
      → (is : Items) × (ys : List SandboxInfo) × (m : Hosts) × (items_of (get (codes "sandboxes") p)
          ≡ ok is)
        × Decodes (objects is) h ys m
        × (page py p h k
            ≡ prepend ys
                (if is_empty (next_token py p) then finished py m else k (next_token py p) m))
  page-cases p h k = elim (Result-cases (items_of (get (codes "sandboxes") p))) [
    | inr (x, q) ↦ rw (page, q) (λ e. cc)
    | inl (is, q) ↦
        rw (page, q) (λ e. let r = yield_all-Read is h _ e in (is, r.0, r.1, refl, r.2, r.3))
  ]

  -- a page that was read, before the rest of the listing
  page-Whole :
      (p : Fields) (rs : List (Result Fields)) (t : Text) (h m : Hosts) (is : Items)
      (ys : List SandboxInfo)
      → items_of (get (codes "sandboxes") p) ≡ ok is
      → Decodes (objects is) h ys m
      → ((list_pages py rs (next_token py p) m).ended ≡ done tt
          → Whole (next_token py p) rs m (list_pages py rs (next_token py p) m))
      → let l = prepend ys (
          if is_empty (next_token py p)
          then finished py m
          else list_pages py rs (next_token py p) m) in
        l.ended ≡ done tt → Whole t (ok p ∷ rs) h (ask_for py t l)
  page-Whole p rs t h m is ys q d rest = elim (Bool-cases (is_empty (next_token py p))) [
    | inl b ↦ rw b (λ e. record {
      pages = p ∷ [];
      descriptions = objects is;
      unread = rs;
      replies = refl;
      chain = Pages.last t p is q b;
      decoded = subst (λ z. Decodes (objects is) h z m) (sym (append-nil ys)) d;
    })
    | inr b ↦ rw b (λ e.
        let w = rest e in
        record {
          pages = p ∷ w.pages;
          descriptions = objects is ++ w.descriptions;
          unread = w.unread;
          replies = ap (λ z. ok p ∷ z) w.replies;
          chain = Pages.more t p is w.pages w.descriptions _ q b w.chain;
          decoded = Decodes-append d w.decoded;
        })
  ]

  pub list_pages-Whole :
      (rs : List (Result Fields)) (t : Text) (h : Hosts)
      → (list_pages py rs t h).ended ≡ done tt
      → Whole t rs h (list_pages py rs t h)
  unfolding list_pages
  list_pages-Whole [] t h = λ e. cc
  list_pages-Whole (err x ∷ rs) t h = λ e. cc
  list_pages-Whole (ok p ∷ rs) t h = λ e.
      let (is, ys, m, q, d, g) = page-cases p h (list_pages py rs) e in
      subst (λ l. Whole t (ok p ∷ rs) h (ask_for py t l)) (sym g)
        (page-Whole p rs t h m is ys q d (list_pages-Whole rs (next_token py p) m)
          (ap (λ l. l.ended) (sym g) ∙ e))

  -- A listing that ends with no exception is complete: it has asked once for each page of the chain
  -- of tokens that begins with none and ends where no token is named, and has yielded a sandbox for
  -- each description on them, in their order; whatever the API answers.
  pub list_sandboxes-Whole :
      (workspace : Result Text) (rs : List (Result Fields)) (h : Hosts)
      → (list_sandboxes py workspace rs h).ended ≡ done tt
      → Whole [] rs h (list_sandboxes py workspace rs h)
  unfolding list_sandboxes
  list_sandboxes-Whole (err x) rs h = λ e. cc
  list_sandboxes-Whole (ok w) rs h = list_pages-Whole rs [] h
