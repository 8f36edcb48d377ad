-- ===== src/Client/Upload/Bounded.antt =====
-- What an upload of an image's build context accepts, and that it ends
-- (thunder_sandbox/asynchronous/client.py).
use thunder_sandbox.Prelude.{
  ℕ, ◌+◌, ◌*◌, ◌≤◌, ◌≡◌, ◌≢◌, inl, inr, true, Option, List, [], ◌∷◌, Text, length, leb, arith,
  Bool-cases,
}
use thunder_sandbox.Common.Errors.{Result-cases, ok}
use thunder_sandbox.Common.Json.{Fields}
use thunder_sandbox.Common.Task.{Ran, waiting}
use thunder_sandbox.Client.Upload.{
  Target, upload_target, Transfer, sent, timed_out, rejected, broken, other, Round, limit,
  after_transfer, send, upload_image_context,
}

after_transfer-ends :
    (l : ℕ) (t : Transfer) (now oversleep : ℕ) (k : ℕ → Ran (Unit {0}))
    → ((m : ℕ) → now + 1000 ≤ m → k m ≢ waiting)
    → after_transfer l t now oversleep k ≢ waiting
after_transfer-ends l sent now oversleep k h = λ e. cc
after_transfer-ends l timed_out now oversleep k h = λ e. cc
after_transfer-ends l rejected now oversleep k h = λ e. cc
after_transfer-ends l (other x) now oversleep k h = λ e. cc
after_transfer-ends l broken now oversleep k h = elim (Bool-cases (leb l (now + 1000))) [
  | inl u ↦ rw u (λ e. cc)
  | inr u ↦ rw u (h (now + 1000 + oversleep) (omega arith))
]

send-ends :
    (l : ℕ) (r : Round) (rs : List Round) (now : ℕ)
    → l ≤ now + 1000 * length rs
    → send l (r ∷ rs) now ≢ waiting
unfolding send
send-ends l r [] now h = let u : leb l now ≡ true = ground arith in rw u (λ e. cc)
send-ends l r (r2 ∷ rs) now h = elim (Bool-cases (leb l now)) [
  | inl u ↦ rw u (λ e. cc)
  | inr u ↦ rw u (
      after_transfer-ends l r.transfer (now + r.took) r.oversleep (send l (r2 ∷ rs))
        (λ m le. send-ends l r2 rs m (omega arith)))
]

-- An upload of a build context ends, by success or by an error, whatever the server does and whatever
-- the libraries take texts for: it is tried once for each second, or begun second, until the limit, and
-- once more. The limit is the expiry that the reply gives, or the deadline if that is earlier.
pub upload_image_context-ends :
    (date_of : Text → Option ℕ) (canonical : Text → Option Text) (deadline : Option ℕ) (fs : Fields)
    (r : Round) (rs : List Round) (now : ℕ)
    → ((t : Target)
        → upload_target date_of canonical fs ≡ ok t
        → limit t.expiry deadline ≤ now + 1000 * length rs)
    → upload_image_context date_of canonical deadline fs (r ∷ rs) now ≢ waiting
unfolding upload_image_context
upload_image_context-ends date_of canonical deadline fs r rs now h =
    elim (Result-cases (upload_target date_of canonical fs)) [
      | inl u ↦
          rw (upload_image_context, u.1)
            (send-ends (limit u.0.expiry deadline) r rs now (h u.0 u.1))
      | inr u ↦ rw (upload_image_context, u.1) (λ e. cc)
    ]
