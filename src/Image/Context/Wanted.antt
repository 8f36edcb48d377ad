-- ===== src/Image/Context/Wanted.antt =====
-- Which files of a folder a build context should have (thunder_sandbox/image.py).
use mathlib.Core.List.{Memᴰ}
use thunder_sandbox.Prelude.{
  ◌∙◌, arith, [], ◌++◌, append_assoc, any, starts_with, codes, true≢false, or_true, and_true, ◌≡◌,
  refl, sym, ap, subst, ◌⊎◌, inl, inr, Bool, true, false, ◌&&◌, ◌||◌, not, List, ◌∷◌, Text, text_eq,
  text_eq_refl, Bool-cases, if◌then◌else◌,
}
use thunder_sandbox.Common.Errors.{ok≢err, ok-injective, Yields, Yields-ok, Yields-err, Yields-bind}
use thunder_sandbox.Image.Ignore.{DockerIgnore, excludes, could_include_descendant}
use thunder_sandbox.Image.Context.{
  Node, Entries, Walk, is_folder, child, is_unsafe, is_kept, is_seen, is_link, Inspected,
  normalized_relative_path, meet, inspect, is_walked, folder_names,
}

starts_with-append : (t rest : Text) → starts_with t (t ++ rest) ≡ true
starts_with-append [] rest = refl
starts_with-append (c ∷ cs) rest = ground (arith, starts_with-append cs rest)

any-Mem : (p : Text → Bool) (t : Text) (ts : List Text) → Memᴰ t ts → p t ≡ true → any p ts ≡ true
any-Mem p t [] m h = elim m [ ]
any-Mem p t (u ∷ us) (Memᴰ.head e) h = rw (sym e) (rw h refl)
any-Mem p t (u ∷ us) (Memᴰ.tail m) h = or_true (p u) (any-Mem p t us m h)

could_include-Mem :
    (ignore : DockerIgnore) (path rest : Text)
    → Memᴰ (path ++ (47 ∷ rest)) ignore.negated_patterns
    → could_include_descendant ignore path ≡ true
unfolding could_include_descendant
could_include-Mem ignore path rest m =
    any-Mem (λ p. starts_with (path ++ codes "/") p) _ _ m
      (subst (λ z. starts_with (path ++ codes "/") z ≡ true) (append_assoc path (codes "/") rest)
        (starts_with-append (path ++ codes "/") rest))

not_left_out : (a b x : Bool) → not (not (a || b) && x) ≡ (a || (b || not x))
not_left_out true b x = refl
not_left_out false true x = refl
not_left_out false false x = refl

module _ (nfc : Text → Text) (is_artifacts : Text → Bool) (ignore : DockerIgnore) where
  -- the name is that of the Dockerfile or the `.dockerignore`, or it is not excluded
  abbrev pub is_wanted : Text → Bool
  is_wanted name =
      text_eq name (codes "Dockerfile")
      || (text_eq name (codes ".dockerignore") || not (excludes ignore name))

  -- a folder that is looked into: it is wanted, or a negation may include something from it
  abbrev pub is_open : Text → Bool
  is_open path =
      not (is_artifacts path)
      && (is_wanted (nfc path) || could_include_descendant ignore (nfc path))

  -- The same, said of the patterns: it is not that of the artifacts, and it is wanted, or a negated
  -- pattern is a path below it.
  abbrev pub Opens : Text → Type 0
  Opens path =
      (is_artifacts path ≡ false)
      × ((is_wanted (nfc path) ≡ true)
          ⊎ ((rest : Text) × Memᴰ (nfc path ++ (47 ∷ rest)) ignore.negated_patterns))

  -- the wanted files right in a folder
  pub data Direct (parent : Text) : Entries → Text → Type 0 where
    here :
        (n : Text) (es : Entries)
        → is_wanted (nfc (child parent n)) ≡ true
        → Direct parent (Entries.entry n Node.regular es) (child parent n)
    later :
        (n : Text) (y : Node) (es : Entries) (path : Text)
        → Direct parent es path
        → Direct parent (Entries.entry n y es) path

  -- the wanted files in the open folders below a folder
  pub data Deep : Text → Entries → Text → Type 0 where
    inside :
        (parent n : Text) (sub es : Entries) (path : Text)
        → Opens (child parent n)
        → Direct (child parent n) sub path
        → Deep parent (Entries.entry n (Node.folder sub) es) path
    below :
        (parent n : Text) (sub es : Entries) (path : Text)
        → Opens (child parent n)
        → Deep (child parent n) sub path
        → Deep parent (Entries.entry n (Node.folder sub) es) path
    beside :
        (parent n : Text) (y : Node) (es : Entries) (path : Text)
        → Deep parent es path
        → Deep parent (Entries.entry n y es) path

  -- the open folders right in a folder
  pub data Open (parent : Text) : Entries → Text → Type 0 where
    here :
        (n : Text) (sub es : Entries)
        → is_open (child parent n) ≡ true
        → Open parent (Entries.entry n (Node.folder sub) es) n
    later :
        (m : Text) (y : Node) (es : Entries) (n : Text)
        → Open parent es n
        → Open parent (Entries.entry m y es) n

  not_left_out-is_wanted :
      (name : Text) → not (not (is_kept name) && excludes ignore name) ≡ is_wanted name
  not_left_out-is_wanted name =
      not_left_out (text_eq name (codes "Dockerfile")) (text_eq name (codes ".dockerignore"))
        (excludes ignore name)

  -- whether a name is taken is whether it is wanted
  abbrev pub AsWanted : Text → Inspected → Type 0
  AsWanted name i = (i.name ≡ name) × (i.taken ≡ is_wanted name)

  meet-AsWanted :
      (name : Text) (node : Node) (seen : List Text)
      → Yields (AsWanted name) (meet nfc is_artifacts ignore name node seen)
  meet-AsWanted name node seen = elim (Bool-cases (not (is_kept name) && excludes ignore name)) [
    | inl q ↦ rw q (Yields-ok _ (refl, sym (ap not q) ∙ not_left_out-is_wanted name))
    | inr q ↦ elim (Bool-cases (is_seen name seen)) [
      | inl p ↦ rw (q, p) (Yields-err _)
      | inr p ↦ elim (Bool-cases (is_link node)) [
        | inl l ↦ rw (q, p, l) (Yields-err _)
        | inr l ↦ rw (q, p, l) (Yields-ok _ (refl, sym (ap not q) ∙ not_left_out-is_wanted name))
      ]
    ]
  ]

  pub inspect-AsWanted :
      (path : Text) (node : Node) (seen : List Text)
      → Yields (AsWanted (nfc path)) (inspect nfc is_artifacts ignore path node seen)
  unfolding inspect normalized_relative_path
  inspect-AsWanted path node seen = elim (Bool-cases (is_unsafe (nfc path))) [
    | inl u ↦ rw u (Yields-bind _ _ (λ name e. absurd (ok≢err e)))
    | inr u ↦ rw u (
        Yields-bind _ _ (λ name e.
          subst (λ z. Yields (AsWanted z) (meet nfc is_artifacts ignore name node seen))
            (sym (ok-injective e)) (meet-AsWanted name node seen)))
  ]

  Open-cases :
      (parent m : Text) (y : Node) (es : Entries) (n : Text)
      → Open parent (Entries.entry m y es) n
      → ((n ≡ m) × (is_folder y ≡ true) × (is_open (child parent m) ≡ true)) ⊎ Open parent es n
  Open-cases parent m _ es _ (Open.here _ sub _ o) = inl (refl, refl, o)
  Open-cases parent m y es n (Open.later _ _ _ _ o) = inr o

  -- a folder that is passed over is not open
  passed_over : (f a o : Bool) → (not f || a) ≡ true → f ≡ true → (not a && o) ≡ true → true ≡ false
  passed_over true true o = λ q g h. sym h
  passed_over true false o = λ q g h. sym q
  passed_over false a o = λ q g h. sym g

  names-seen :
      (n k : Text) (b : Bool) (ks : List Text)
      → is_seen k ks ≡ true
      → is_seen k (if b then n ∷ ks else ks) ≡ true
  names-seen n k true ks h = or_true (text_eq n k) h
  names-seen n k false ks h = h

  names-first :
      (n k : Text) {b : Bool} (ks : List Text)
      → b ≡ true
      → k ≡ n
      → is_seen k (if b then n ∷ ks else ks) ≡ true
  names-first n k ks e same = rw e (rw same (rw (text_eq_refl n) refl))

  walked-open :
      (path : Text) (i : Inspected)
      → AsWanted (nfc path) i
      → is_open path ≡ true
      → is_walked nfc is_artifacts ignore i ≡ true
  walked-open path i (e, t) p = rw (is_walked, t, e) ((and_true (not (is_artifacts path)) _ p).1)

  -- the loop over the folders leaves the files alone, and names the open folders
  pub folder_names-Open :
      (parent : Text) (es : Entries) (w : Walk)
      → Yields
          (λ r. (r.1.files ≡ w.files) × ((n : Text) → Open parent es n → is_seen n r.0 ≡ true))
          (folder_names nfc is_artifacts ignore parent es w)
  unfolding folder_names
  folder_names-Open parent Entries.end w = Yields-ok _ (refl, λ n o. elim o [ ])
  folder_names-Open parent (Entries.entry n node es) w =
      elim (Bool-cases (not (is_folder node) || is_artifacts (child parent n))) [
        | inl q ↦ rw q (record {
          at = λ r e.
              let h = (folder_names-Open parent es w).at r e in
              (
                h.0,
                λ k o. elim (Open-cases parent n node es k o) [
                  | inl (same, f, p) ↦ absurd (true≢false (passed_over _ _ _ q f p))
                  | inr o ↦ h.1 k o
                ],
              );
        })
        | inr q ↦ rw q (
            Yields-bind _ _ (λ i e. Yields-bind _ _ (λ r g.
              let h = (folder_names-Open parent es _).at r g in
              let a = (inspect-AsWanted _ node w.seen).at i e in
              Yields-ok _ (
                h.0,
                λ k o. elim (Open-cases parent n node es k o) [
                  | inl (same, f, p) ↦ names-first n k r.0 (walked-open _ i a p) same
                  | inr o ↦ names-seen n k _ r.0 (h.1 k o)
                ],
              ))))
      ]

  pub Opens-is_open : (path : Text) → Opens path → is_open path ≡ true
  Opens-is_open path (a, inl w) = rw (a, w) refl
  Opens-is_open path (a, inr (rest, m)) =
      rw (a, could_include-Mem ignore (nfc path) rest m) (or_true (is_wanted (nfc path)) refl)
