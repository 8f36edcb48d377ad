-- ===== src/Handle/Listing/Complete.antt =====
-- That a listing ends where its pages do (thunder_sandbox/asynchronous/client.py).
use thunder_sandbox.Prelude.{
  ◌≡◌, refl, sym, ◌∙◌, ap, subst, List, [], ◌∷◌, ◌++◌, Text, map, append-nil,
}
use thunder_sandbox.Common.Errors.{Result, ok}
use thunder_sandbox.Common.Json.{Json, Items, Fields}
use thunder_sandbox.Common.Task.{done}
use thunder_sandbox.Handle.Info.{Language, SandboxInfo, Hosts, info_from_response}
use thunder_sandbox.Handle.Listing.{
  Listed, yield, yield_all, page, ask_for, list_pages, list_sandboxes,
}
use thunder_sandbox.Handle.Listing.Whole.{Decodes, Pages, objects}

-- a listing that has ended with no exception
abbrev pub listing : List SandboxInfo → List Text → Hosts → Listed
listing is ts h = record { yielded = is; asked = ts; hosts = h; ended = done tt }

module _ (py : Language) where
  -- how descriptions are read, by the first of them
  abbrev View : List Fields → Hosts → List SandboxInfo → Hosts → Type 0
  View [] h is n = (is ≡ []) × (h ≡ n)
  View (fs ∷ fss) h is n =
      (i : SandboxInfo) × (m : Hosts) × (js : List SandboxInfo) × (is ≡ i ∷ js)
      × (info_from_response py fs h ≡ (ok i, m))
      × Decodes py fss m js n

  Decodes-View :
      {fss : List Fields} {h n : Hosts} {is : List SandboxInfo}
      → Decodes py fss h is n
      → View fss h is n
  Decodes-View (Decodes.all_read h) = (refl, refl)
  Decodes-View (Decodes.reads fs fss h m n i is e d) = (i, m, is, refl, e, d)

  yield_all-listing :
      (is : Items) (os : List Fields) (h n : Hosts) (ys : List SandboxInfo) (ts : List Text)
      (k : Hosts → Listed)
      → Decodes py (objects is ++ os) h ys n
      → ((m : Hosts) (zs : List SandboxInfo) → Decodes py os m zs n → k m ≡ listing zs ts n)
      → yield_all py is h k ≡ listing ys ts n
  unfolding yield_all
  yield_all-listing Items.end os h n ys ts k d f = f h ys d
  yield_all-listing (Items.item (Json.obj fs) is) os h n ys ts k d f =
      let (i, m, zs, e, q, c) = Decodes-View d in
      rw q (
        ap (yield py i) (yield_all-listing is os m n zs ts k c f)
        ∙ ap (λ z. listing z ts n) (sym e))
  yield_all-listing (Items.item j is) os h n ys ts k d f = yield_all-listing is os h n ys ts k d f

  pub list_pages-listing :
      {t : Text} {ps os : List Fields} {ts : List Text} (unread : List (Result Fields))
      (h n : Hosts) (ys : List SandboxInfo)
      → Pages py t ps os ts
      → Decodes py os h ys n
      → list_pages py (map ok ps ++ unread) t h ≡ listing ys ts n
  unfolding list_pages
  list_pages-listing unread h n ys (Pages.last t p is q b) d =
      rw (page, q)
        (ap (ask_for py t) (
          yield_all-listing is [] h n ys [] _
            (subst (λ z. Decodes py z h ys n) (sym (append-nil (objects is))) d)
            (λ m zs c. let (e, g) = Decodes-View c in rw b (rw e (rw g refl)))))
  list_pages-listing unread h n ys (Pages.more t p is ps os ts q b c) d =
      rw (page, q)
        (ap (ask_for py t) (
          yield_all-listing is os h n ys ts _ d
            (λ m zs r. rw b (list_pages-listing unread m n zs c r))))

  -- If the API answers with a chain of pages, of which the last names no token, and each description
  -- on them can be read, then the listing ends with no exception, has asked for these pages and for
  -- nothing else, and has yielded exactly these sandboxes.
  pub list_sandboxes-listing :
      {ps os : List Fields} {ts : List Text} (workspace : Text) (unread : List (Result Fields))
      (h n : Hosts) (ys : List SandboxInfo)
      → Pages py [] ps os ts
      → Decodes py os h ys n
      → list_sandboxes py (ok workspace) (map ok ps ++ unread) h ≡ listing ys ts n
  unfolding list_sandboxes
  list_sandboxes-listing workspace unread h n ys c d = list_pages-listing unread h n ys c d
