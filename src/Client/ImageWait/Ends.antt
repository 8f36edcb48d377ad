-- ===== src/Client/ImageWait/Ends.antt =====
-- How waiting for an image ends.
use thunder_sandbox.Prelude.{
  ℕ, ◌+◌, ◌*◌, ◌≤◌, ◌<◌, ◌≡◌, ◌≢◌, ◌⊎◌, inl, inr, refl, sym, subst, Bool, true, false, Option, none,
  some, List, [], ◌∷◌, Text, codes, text_eq, leb, length, arith, if◌then◌else◌,
}
use thunder_sandbox.Common.Errors.{Result, ok, err}
use thunder_sandbox.Common.Task.{Ran, done, waiting, Task}
use thunder_sandbox.Common.Json.{Json, Fields, get}
use thunder_sandbox.Client.ImageWait.{
  ResolvedImage, filled, Verdict, resolved, fails, building, broken, resolved_or_broken, failure,
  by_state, with_id, verdict, Poll, request_timeout, received, ask, decide, woken, poll_again,
  wait_for_image,
}

abbrev Some : Option Text → Type 0
Some none = Unit
Some (some t) = t ≢ []

filled-Some : (j : Option Json) → Some (filled j)
filled-Some none = tt
filled-Some (some (Json.str [])) = tt
filled-Some (some (Json.str (c ∷ cs))) = λ e. cc
filled-Some (some Json.null) = tt
filled-Some (some (Json.bool b)) = tt
filled-Some (some (Json.int i)) = tt
filled-Some (some (Json.float o)) = tt
filled-Some (some (Json.arr is)) = tt
filled-Some (some (Json.obj fs)) = tt

-- an image whose members are all there
pub record IsWhole (i : ResolvedImage) : Type 0 where
  pub id : i.id ≢ []
  pub managed_reference : i.managed_reference ≢ []
  pub managed_digest : i.managed_digest ≢ []

abbrev Sound : Verdict → Type 0
Sound (resolved i) = IsWhole i
Sound _ = Unit

whole-Sound :
    (i : Text) (r d : Option Text) → i ≢ [] → Some r → Some d → Sound (resolved_or_broken i r d)
whole-Sound i none d h k l = tt
whole-Sound i (some r) none h k l = tt
whole-Sound i (some r) (some d) h k l = record { id = h; managed_reference = k; managed_digest = l }

either-Sound : (x : Bool) (v w : Verdict) → Sound v → Sound w → Sound (if x then v else w)
either-Sound true v w h k = h
either-Sound false v w h k = k

state-Sound : (fs : Fields) (i : Text) (s : Option Json) → i ≢ [] → Sound (by_state fs i s)
state-Sound fs i (some (Json.str t)) h =
    either-Sound (text_eq t (codes "READY")) _ _
      (whole-Sound i _ _ h (filled-Some (get (codes "managed_reference") fs))
        (filled-Some (get (codes "managed_digest") fs)))
      (either-Sound (text_eq t (codes "FAILED")) (fails (failure fs)) _ tt
        (either-Sound (text_eq t (codes "BUILDING")) building broken tt tt))
state-Sound fs i none h = tt
state-Sound fs i (some Json.null) h = tt
state-Sound fs i (some (Json.bool b)) h = tt
state-Sound fs i (some (Json.int n)) h = tt
state-Sound fs i (some (Json.float o)) h = tt
state-Sound fs i (some (Json.arr is)) h = tt
state-Sound fs i (some (Json.obj gs)) h = tt

id-Sound : (fs : Fields) (i : Option Text) → Some i → Sound (with_id fs i)
id-Sound fs none h = tt
id-Sound fs (some i) h = state-Sound fs i (get (codes "state") fs) h

verdict-Sound : (fs : Fields) → Sound (verdict fs)
unfolding verdict
verdict-Sound fs = id-Sound fs (filled (get (codes "id") fs)) (filled-Some (get (codes "id") fs))

abbrev pub Resolves : Ran ResolvedImage × ℕ → Type 0
Resolves (done i, t) = IsWhole i
Resolves _ = Unit

decide-Resolves :
    (v : Verdict) (now : ℕ) (k : Task ℕ ResolvedImage)
    → Sound v
    → ((t : ℕ) → Resolves (k t))
    → Resolves (decide v now k)
decide-Resolves (resolved i) now k h f = h
decide-Resolves (fails e) now k h f = tt
decide-Resolves building now k h f = f now

received-Resolves :
    (r : Result Fields) (now : ℕ) (k : Fields → Task ℕ ResolvedImage)
    → ((fs : Fields) (t : ℕ) → Resolves (k fs t))
    → Resolves (received r now k)
received-Resolves (ok fs) now k f = f fs now
received-Resolves (err e) now k f = tt

ask-Resolves :
    (o : Option ℕ) (p : Poll) (now : ℕ) (k : Fields → Task ℕ ResolvedImage)
    → ((fs : Fields) (t : ℕ) → Resolves (k fs t))
    → Resolves (ask o p now k)
ask-Resolves none p now k f = tt
ask-Resolves (some t) p now k f = received-Resolves p.reply (now + p.took) k f

-- An image that `_wait_for_image` returns has an ID, a reference and a digest, none of them empty.
pub wait_for_image-Resolves :
    (deadline : Option ℕ) (ps : List Poll) (fs : Fields) (now : ℕ)
    → Resolves (wait_for_image deadline ps fs now)
unfolding wait_for_image
wait_for_image-Resolves deadline [] fs now =
    decide-Resolves (verdict fs) now _ (verdict-Sound fs) (λ t. tt)
wait_for_image-Resolves deadline (p ∷ ps) fs now =
    let rest = wait_for_image-Resolves deadline ps in
    decide-Resolves (verdict fs) now _ (verdict-Sound fs) λ t.
      ask-Resolves (request_timeout deadline (woken deadline p t)) p (woken deadline p t)
        (wait_for_image deadline ps) rest

abbrev Waits : Ran ResolvedImage × ℕ → Type 0
Waits (waiting, t) = Unit
Waits _ = ⊥

Waits-of : (r : Ran ResolvedImage × ℕ) (t : ℕ) → r ≡ (waiting, t) → Waits r
Waits-of r t e = subst Waits (sym e) tt

module _ {P : Type 0} where
  decide_next :
      (v : Verdict) (now : ℕ) (k : Task ℕ ResolvedImage)
      → Waits (decide v now k)
      → (Waits (k now) → P)
      → P
  decide_next (resolved i) now k w f = absurd w
  decide_next (fails e) now k w f = absurd w
  decide_next building now k w f = f w

  received_next :
      (r : Result Fields) (now : ℕ) (k : Fields → Task ℕ ResolvedImage)
      → Waits (received r now k)
      → ((fs : Fields) → Waits (k fs now) → P)
      → P
  received_next (ok fs) now k w f = f fs w
  received_next (err e) now k w f = absurd w

  ask_next :
      (d : ℕ) (x : Bool) (p : Poll) (now : ℕ) (n : Option ℕ) (k : Fields → Task ℕ ResolvedImage)
      → leb d now ≡ x
      → Waits (ask (if x then none else n) p now k)
      → (now < d → (fs : Fields) → Waits (k fs (now + p.took)) → P)
      → P
  ask_next d true p now n k e w f = absurd w
  ask_next d false p now none k e w f = absurd w
  ask_next d false p now (some t) k e w f =
      received_next p.reply (now + p.took) k w (f (ground arith))

seconds_left :
    (d : ℕ) (ps : List Poll) (fs : Fields) (now : ℕ)
    → Waits (wait_for_image (some d) ps fs now)
    → (length ps ≡ 0) ⊎ (now + 1000 * length ps < d)
unfolding wait_for_image request_timeout
seconds_left d [] fs now w = inl refl
seconds_left d (p ∷ ps) fs now w =
    let rest = seconds_left d ps in
    decide_next (verdict fs) now (poll_again (some d) p (wait_for_image (some d) ps)) w λ v.
      ask_next d _ p (woken (some d) p now) _ (wait_for_image (some d) ps) refl v λ before gs u.
        elim (rest gs _ u) [
          | inl e ↦ inr (omega (arith, e, before))
          | inr e ↦ inr (omega (arith, e, before))
        ]

-- With a deadline, `_wait_for_image` ends, whatever the API answers: it asks for the state once for
-- each second that is left, or begun, at most.
pub wait_for_image_ends :
    (d : ℕ) (ps : List Poll) (fs : Fields) (now t : ℕ)
    → d ≤ now + 1000 * length ps
    → 0 < length ps
    → wait_for_image (some d) ps fs now ≢ (waiting, t)
wait_for_image_ends d ps fs now t many some_polls e =
    elim (seconds_left d ps fs now (Waits-of _ t e)) [
      | inl x ↦ omega (arith, x, some_polls)
      | inr x ↦ omega (arith, x, many)
    ]
