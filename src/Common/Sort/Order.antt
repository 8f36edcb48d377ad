-- ===== src/Common/Sort/Order.antt =====
-- That sorting orders, and keeps what is sorted.
use thunder_sandbox.Prelude.{
  ℕ, ◌++◌, ◌<◌, ◌==◌, ltb, ltb→lt, ==→eq, or_cases, and_true, true≢false, subst, ◌≡◌, ◌≢◌, refl,
  sym, arith, ◌⊎◌, inl, inr, true, false, List, [], ◌∷◌, Text, All, Bool-cases,
}
use mathlib.Core.List.{Memᴰ, Permᴰ}
use mathlib.Core.List.Permᴰ
use thunder_sandbox.Common.Sort.{comes_before, insert, sorted}

-- The order of `str`, by code points: a text stands before those that it begins, and otherwise the
-- first difference decides.
pub data Precedes : Text → Text → Type 0 where
  begins : (p t : Text) → Precedes p (p ++ t)
  differs : (p s t : Text) (a b : ℕ) → a < b → Precedes (p ++ (a ∷ s)) (p ++ (b ∷ t))

cons-Precedes : (c : ℕ) (x y : Text) → Precedes x y → Precedes (c ∷ x) (c ∷ y)
cons-Precedes c _ _ (Precedes.begins p t) = Precedes.begins (c ∷ p) t
cons-Precedes c _ _ (Precedes.differs p s t a b l) = Precedes.differs (c ∷ p) s t a b l

comes_before-Precedes : (x y : Text) → comes_before x y ≡ true → Precedes x y
comes_before-Precedes [] y h = Precedes.begins [] y
comes_before-Precedes (a ∷ x) [] h = absurd (true≢false (sym h))
comes_before-Precedes (a ∷ x) (b ∷ y) h = elim (or_cases (ltb a b) _ h) [
  | inl l ↦ Precedes.differs [] x y a b (ltb→lt a b l)
  | inr r ↦
      let k = and_true (a == b) _ r in
      subst (λ c. Precedes (a ∷ x) (c ∷ y)) (==→eq a b k.0)
        (cons-Precedes a x y (comes_before-Precedes x y k.1))
]

comes_before_total : (x y : Text) → comes_before x y ≡ false → comes_before y x ≡ true
comes_before_total [] y = λ e. cc
comes_before_total (a ∷ x) [] = λ e. refl
comes_before_total (a ∷ x) (b ∷ y) = let h = comes_before_total x y in ground arith

comes_before_trans :
    (x y z : Text) → comes_before x y ≡ true → comes_before y z ≡ true → comes_before x z ≡ true
comes_before_trans [] y z = λ e f. refl
comes_before_trans (a ∷ x) [] z = λ e f. cc
comes_before_trans (a ∷ x) (b ∷ y) [] = λ e f. cc
comes_before_trans (a ∷ x) (b ∷ y) (c ∷ z) = let h = comes_before_trans x y z in ground arith

module _ {A : Type 0} where
  -- no two items have one name
  abbrev pub Distinct : List (Text × A) → Type 0
  Distinct [] = Unit
  Distinct (f ∷ fs) = All (λ g. g.0 ≢ f.0) fs × Distinct fs

  -- each item is before those behind it
  abbrev Ordered : List (Text × A) → Type 0
  Ordered [] = Unit
  Ordered (f ∷ fs) = All (λ g. comes_before f.0 g.0 ≡ true) fs × Ordered fs

  -- the same, said of the order itself
  abbrev pub Ascending : List (Text × A) → Type 0
  Ascending [] = Unit
  Ascending (f ∷ fs) = All (λ g. Precedes f.0 g.0) fs × Ascending fs

  module _ {κ} (P : (Text × A) → Type κ) where
    insert-All : (f : (Text × A)) (fs : List (Text × A)) → P f → All P fs → All P (insert f fs)
    insert-All f [] p h = (p, tt)
    insert-All f (g ∷ gs) p (q, h) = elim (Bool-cases (comes_before f.0 g.0)) [
      | inl e ↦ rw e (p, (q, h))
      | inr e ↦ rw e (q, insert-All f gs p h)
    ]

    pub sorted-All : (fs : List (Text × A)) → All P fs → All P (sorted fs)
    sorted-All [] h = tt
    sorted-All (f ∷ fs) (p, h) = insert-All f (sorted fs) p (sorted-All fs h)

  All-map {κ μ} :
      (P : (Text × A) → Type κ) (Q : (Text × A) → Type μ) (fs : List (Text × A))
      → ((f : (Text × A)) → P f → Q f)
      → All P fs
      → All Q fs
  All-map P Q [] k h = tt
  All-map P Q (f ∷ fs) k (p, h) = (k f p, All-map P Q fs k h)

  insert-Distinct :
      (f : (Text × A)) (fs : List (Text × A))
      → All (λ g. g.0 ≢ f.0) fs
      → Distinct fs
      → Distinct (insert f fs)
  insert-Distinct f [] n d = (tt, tt)
  insert-Distinct f (g ∷ gs) (n, ns) (d, ds) = elim (Bool-cases (comes_before f.0 g.0)) [
    | inl e ↦ rw e ((n, ns), (d, ds))
    | inr e ↦ rw e (insert-All (λ k. k.0 ≢ g.0) f gs (λ q. n (sym q)) d, insert-Distinct f gs ns ds)
  ]

  pub sorted-Distinct : (fs : List (Text × A)) → Distinct fs → Distinct (sorted fs)
  sorted-Distinct [] d = tt
  sorted-Distinct (f ∷ fs) (n, d) =
      insert-Distinct f (sorted fs) (sorted-All (λ g. g.0 ≢ f.0) fs n) (sorted-Distinct fs d)

  insert-Ordered : (f : (Text × A)) (fs : List (Text × A)) → Ordered fs → Ordered (insert f fs)
  insert-Ordered f [] o = (tt, tt)
  insert-Ordered f (g ∷ gs) (h, o) = elim (Bool-cases (comes_before f.0 g.0)) [
    | inl e ↦ rw e (
      (
        e,
        All-map (λ k. comes_before g.0 k.0 ≡ true) (λ k. comes_before f.0 k.0 ≡ true) gs
            (λ k b. comes_before_trans f.0 g.0 k.0 e b) h,
      ),
      (h, o),
    )
    | inr e ↦ rw e (
      insert-All (λ k. comes_before g.0 k.0 ≡ true) f gs (comes_before_total f.0 g.0 e) h,
      insert-Ordered f gs o,
    )
  ]

  Ordered-Ascending : (fs : List (Text × A)) → Ordered fs → Ascending fs
  Ordered-Ascending [] o = tt
  Ordered-Ascending (f ∷ fs) (h, o) = (
    All-map (λ g. comes_before f.0 g.0 ≡ true) (λ g. Precedes f.0 g.0) fs
        (λ g. comes_before-Precedes f.0 g.0) h,
    Ordered-Ascending fs o,
  )

  sorted-Ordered : (fs : List (Text × A)) → Ordered (sorted fs)
  sorted-Ordered [] = tt
  sorted-Ordered (f ∷ fs) = insert-Ordered f (sorted fs) (sorted-Ordered fs)

  pub sorted-Ascending : (fs : List (Text × A)) → Ascending (sorted fs)
  sorted-Ascending fs = Ordered-Ascending (sorted fs) (sorted-Ordered fs)

  behind_or_here :
      (f g h : (Text × A)) (hs ks : List (Text × A))
      → ((g ≡ f) ⊎ Memᴰ g hs → Memᴰ g ks)
      → (g ≡ f) ⊎ Memᴰ g (h ∷ hs)
      → Memᴰ g (h ∷ ks)
  behind_or_here f g h hs ks k (inl e) = Memᴰ.tail (k (inl e))
  behind_or_here f g h hs ks k (inr (Memᴰ.head e)) = Memᴰ.head e
  behind_or_here f g h hs ks k (inr (Memᴰ.tail m)) = Memᴰ.tail (k (inr m))

  insert-Mem :
      (f g : (Text × A)) (fs : List (Text × A)) → (g ≡ f) ⊎ Memᴰ g fs → Memᴰ g (insert f fs)
  insert-Mem f g [] (inl e) = Memᴰ.head e
  insert-Mem f g [] (inr m) = elim m [ ]
  insert-Mem f g (h ∷ hs) m = elim (Bool-cases (comes_before f.0 h.0)) [
    | inl q ↦ rw q (elim m [ inl e ↦ Memᴰ.head e | inr z ↦ Memᴰ.tail z ])
    | inr q ↦ rw q (behind_or_here f g h hs (insert f hs) (insert-Mem f g hs) m)
  ]

  pub sorted-Mem : (g : (Text × A)) (fs : List (Text × A)) → Memᴰ g fs → Memᴰ g (sorted fs)
  sorted-Mem g [] m = elim m [ ]
  sorted-Mem g (f ∷ fs) (Memᴰ.head e) = insert-Mem f g (sorted fs) (inl e)
  sorted-Mem g (f ∷ fs) (Memᴰ.tail m) = insert-Mem f g (sorted fs) (inr (sorted-Mem g fs m))

  insert-Permᴰ : (f : Text × A) (fs : List (Text × A)) → Permᴰ (insert f fs) (f ∷ fs)
  insert-Permᴰ f [] = Permᴰ.cons refl Permᴰ.nil
  insert-Permᴰ f (g ∷ gs) = elim (Bool-cases (comes_before f.0 g.0)) [
    | inl e ↦ rw e (Permᴰ.refl (f ∷ (g ∷ gs)))
    | inr e ↦ rw e (Permᴰ.trans (Permᴰ.cons refl (insert-Permᴰ f gs)) (Permᴰ.swap refl refl))
  ]

  pub sorted-Permᴰ : (fs : List (Text × A)) → Permᴰ (sorted fs) fs
  sorted-Permᴰ [] = Permᴰ.nil
  sorted-Permᴰ (f ∷ fs) =
      Permᴰ.trans (insert-Permᴰ f (sorted fs)) (Permᴰ.cons refl (sorted-Permᴰ fs))
