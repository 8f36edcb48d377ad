-- ===== src/Client/Resolve/Closed.antt =====
-- That `resolve_image` ends and cleans up (thunder_sandbox/asynchronous/client.py).
use thunder_sandbox.Prelude.{
  ℕ, suc, ◌+◌, ◌*◌, ◌≤◌, ◌<◌, ◌≡◌, ◌≢◌, refl, sym, ap, ◌∙◌, subst, arith, true≢false, Bool, true,
  Option, none, some, List, ◌∷◌, Text, codes, length, pos,
}
use thunder_sandbox.Common.Errors.{Result, ok, err}
use thunder_sandbox.Common.Json.{Json, Fields, get}
use thunder_sandbox.Common.Task.{Ran, done, threw, waiting}
use thunder_sandbox.Create.Options.{Argument, proper, improper}
use thunder_sandbox.Image.Context.{ContextFile}
use thunder_sandbox.Image.Archive.{Bytes, Archive, Disk, Outcome}
use thunder_sandbox.Image.Archive.Built.{Built, create_build_context-Built}
use thunder_sandbox.Image.Definition.{Image, Source, registry, dockerfile}
use thunder_sandbox.Client.ImageWait.{ResolvedImage, wait_for_image}
use thunder_sandbox.Client.ImageWait.Ends.{wait_for_image_ends}
use thunder_sandbox.Client.Upload.{Round}
use thunder_sandbox.Client.Upload.Bounded.{upload_image_context-ends}
use thunder_sandbox.Client.Resolve.{
  Wanted, Answers, Ended, request_image, wait_ready, then_wait, ends_with, close, upload_asked,
  build, by_source, deadline_of, with_deadline, checked, resolve_image,
}

-- it returned or raised, and no archive is left
abbrev pub IsClosed : Ended → Type 0
IsClosed x = (x.result ≢ waiting) × (x.left ≡ none)

ends_with-ends :
    (r : Result Fields) (k : Fields → Ran ResolvedImage)
    → ((fs : Fields) → k fs ≢ waiting)
    → ends_with r k ≢ waiting
ends_with-ends (ok fs) k h = h fs
ends_with-ends (err e) k h = λ q. cc

close-IsClosed :
    (left : Option Archive) (sent : Option Fields) (r : Ran ResolvedImage)
    → r ≢ waiting
    → IsClosed (close true left sent r)
close-IsClosed left sent (done i) h = ((λ q. cc), refl)
close-IsClosed left sent (threw e) h = ((λ q. cc), refl)
close-IsClosed left sent waiting h = absurd (h refl)

module _ (date_of : Text → Option ℕ) (canonical : Text → Option Text) (d : ℕ) (a : Answers) where
  wait_ready-ends :
      (fs : Fields)
      → d ≤ a.wait_at + 1000 * length a.polls
      → 0 < length a.polls
      → wait_ready (some d) a fs ≢ waiting
  wait_ready-ends fs many some_polls e =
      let r = wait_for_image (some d) a.polls fs a.wait_at in
      wait_for_image_ends d a.polls fs a.wait_at r.1 many some_polls (ap (λ z. (z, r.1)) e)

  upload_asked-ends :
      (j : Option Json) (r : Round) (rs : List Round)
      → a.rounds ≡ r ∷ rs
      → d ≤ a.upload_at + 1000 * length rs
      → upload_asked date_of canonical (some d) a j ≢ waiting
  upload_asked-ends none r rs e h = λ q. cc
  upload_asked-ends (some Json.null) r rs e h = λ q. cc
  upload_asked-ends (some (Json.obj fs)) r rs e h = rw e (
      upload_image_context-ends date_of canonical (some d) fs r rs a.upload_at
        (λ t q. omega (arith, h)))
  upload_asked-ends (some j) r rs e h = λ q. cc

  then_wait-ends :
      (fs : Fields) (u : Ran (Unit {0}))
      → u ≢ waiting
      → wait_ready (some d) a fs ≢ waiting
      → then_wait (some d) a fs u ≢ waiting
  then_wait-ends fs (done u) h g = g
  then_wait-ends fs (threw e) h g = λ q. cc
  then_wait-ends fs waiting h g = absurd (h refl)

  module _ (r : Round) (rs : List Round) (rounds : a.rounds ≡ r ∷ rs)
      (enough_rounds : d ≤ a.upload_at + 1000 * length rs)
      (enough_polls : d ≤ a.wait_at + 1000 * length a.polls) (some_polls : 0 < length a.polls) where
    finished-ends :
        ends_with (request_image (some d) a) (λ fs.
          then_wait
            (some d)
            a
            fs
            (upload_asked date_of canonical (some d) a (get (codes "upload") fs)))
        ≢ waiting
    finished-ends = ends_with-ends (request_image (some d) a) _ (λ fs.
        then_wait-ends fs _ (upload_asked-ends _ r rs rounds enough_rounds)
          (wait_ready-ends fs enough_polls some_polls))

    module _ (size : Archive → ℕ) (digest_file : Archive → Text) (digest : Bytes → Text)
        (public_key : Text) (w : Wanted) (i : Image) (queue : Bool) (k : Disk)
        (files : Result (List ContextFile)) (unlinks : k.unlinks ≡ true) where
      build-IsClosed :
          (o : Outcome)
          → Built size digest_file digest k files o
          → IsClosed (
              build date_of canonical
                (some d)
                a
                k.unlinks
                public_key
                i
                queue
                w.gated_features
                w.spec
                o)
      build-IsClosed _ (Built.made fs x b _ _ _ _) =
          rw unlinks (close-IsClosed (some x) _ _ finished-ends)
      build-IsClosed _ (Built.removed e) = ((λ q. cc), refl)
      build-IsClosed _ (Built.stuck e x s) = absurd (true≢false (sym unlinks ∙ s))

      by_source-IsClosed :
          (s : Source) (directory : Option Text)
          → IsClosed (
              by_source date_of canonical size digest_file digest public_key
                (some d)
                w
                i
                queue
                a
                k
                files
                s
                directory)
      by_source-IsClosed registry directory = (
        ends_with-ends (request_image (some d) a) _
            (λ fs. wait_ready-ends fs enough_polls some_polls),
        refl,
      )
      by_source-IsClosed dockerfile none = ((λ q. cc), refl)
      by_source-IsClosed dockerfile (some directory) =
          build-IsClosed _ (create_build_context-Built size digest_file digest k files)

checked-IsClosed :
    (i : Argument Image) (q : Argument Bool) (k : Image → Bool → Ended)
    → ((i : Image) (q : Bool) → IsClosed (k i q))
    → IsClosed (checked i q k)
checked-IsClosed (proper i) (proper q) k h = h i q
checked-IsClosed (proper i) improper k h = ((λ q. cc), refl)
checked-IsClosed improper q k h = ((λ q. cc), refl)

module _ (date_of : Text → Option ℕ) (canonical : Text → Option Text) (size : Archive → ℕ)
    (digest_file : Archive → Text) (digest : Bytes → Text) (public_key : Text) where
  -- With a timeout, `resolve_image` ends, and leaves no archive of the build context behind, however it
  -- ends and whatever the disk, the API and the builder answer, if an archive can be removed: one
  -- transfer for each second, or begun second, until the deadline and one more are enough, and one
  -- request for the state for each.
  pub resolve_image-IsClosed :
      (w : Wanted) (n now : ℕ) (a : Answers) (r : Round) (rs : List Round) (k : Disk)
      (files : Result (List ContextFile))
      → w.timeout ≡ some (pos (suc n))
      → a.rounds ≡ r ∷ rs
      → now + suc n ≤ a.upload_at + 1000 * length rs
      → now + suc n ≤ a.wait_at + 1000 * length a.polls
      → 0 < length a.polls
      → k.unlinks ≡ true
      → IsClosed
          (resolve_image date_of canonical size digest_file digest public_key w now a k files)
  unfolding resolve_image
  resolve_image-IsClosed w n now a r rs k files t e many_rounds many_polls some_polls u =
      checked-IsClosed w.image w.queue _ (λ i q.
        subst
          (λ o. IsClosed (
            with_deadline date_of canonical size digest_file digest public_key w i q a k files
              (deadline_of o now)))
          (sym t)
          (by_source-IsClosed date_of canonical (now + suc n) a r rs e many_rounds many_polls
            some_polls size digest_file digest public_key w i q k files u i.source
            i.context_directory))
