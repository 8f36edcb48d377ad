-- ===== src/Process/Output/Completion.antt =====
-- Once a job has ended, a read to the end of its output returns.
use thunder_sandbox.Prelude.{
  ℕ, zero, suc, ◌+◌, ◌<◌, ◌≤◌, ◌≡◌, ◌⊎◌, inl, inr, refl, sym, ap, ◌∙◌, Bool, true, false, some,
  List, [], ◌∷◌, ◌++◌, negsuc, length, take, length-append, append-nil, arith, if◌then◌else◌, All,
}
use thunder_sandbox.Common.Task.{Task, done, threw, waiting, Ran, resume, ◌>>=◌}
use thunder_sandbox.Process.Output.Utf8.{start}
use thunder_sandbox.Process.Output.{
  Reader, Answer, report_eof, decode_chunk, fetch, fetch_until, report_if_eof, split_buffer, read,
  fresh_reader,
}
use thunder_sandbox.Process.Output.Whole.{Holds}
use thunder_sandbox.Process.Output.Fetching.{Told, until-Keeps, report_if-Keeps, fetch-Keeps}
use thunder_sandbox.Process.Output.Delivery.{
  Call, IsTold, perform_all, perform_all-Holds, fresh-Holds, part-Holds,
}
use thunder_sandbox.Process.Output.LastFetch.{
  ended, Completes, report-Completes, GoesOn, fetch-Completes,
}

abbrev pub times : ℕ → List ℕ → List Answer
times zero file = []
times (suc n) file = ended file ∷ times n file

module _ (file contents : List ℕ) where
  abbrev AtEnd : Reader → Type 0
  AtEnd s = s.eof ≡ true

  stop-Completes :
      (b : Bool) (r : Reader) (m : Ran (Unit {0}) × Reader)
      → r.eof ≡ b
      → (b ≡ false → Completes AtEnd m)
      → Completes AtEnd (if◌then◌else◌ {A = Ran (Unit {0}) × Reader} b (done tt, r) m)
  stop-Completes true r m e c = e
  stop-Completes false r m e c = c refl

  within_file : (out : List ℕ) (r : Reader) → Holds file contents out r → r.offset ≤ length file
  within_file out r h =
      let whole : length h.seen + length h.unread ≡ length file =
        sym (length-append h.seen h.unread) ∙ ap length h.divided in
      omega (arith, h.cursor, whole)

  resumed-Completes :
      (n : ℕ) (out : List ℕ) (r : Reader) (p : Ran (Unit {0}) × Reader) (k : Task Reader (Unit {0}))
      → Holds file contents out p.1
      → Completes (GoesOn r.offset) p
      → ((s : Reader) → Holds file contents out s → GoesOn r.offset s → Completes AtEnd (k s))
      → Completes AtEnd (resume p (λ u. k))
  resumed-Completes n out r (done u, s) k h c f = f s h c
  resumed-Completes n out r (threw x, s) k h c f = absurd c
  resumed-Completes n out r (waiting, s) k h c f = absurd c

  enough_left :
      (n : ℕ) (r s : Reader)
      → r.eof ≡ false
      → (r.eof ≡ true) ⊎ (length file < suc n + r.offset)
      → GoesOn r.offset s
      → (s.eof ≡ true) ⊎ (length file < n + s.offset)
  enough_left n r s live e (inl x) = inl x
  enough_left n r s live (inl e) (inr x) = absurd (cc)
  enough_left n r s live (inr e) (inr x) = inr (omega (arith, e, x))

  until-Completes :
      (n : ℕ) (out : List ℕ) (r : Reader)
      → Holds file contents out r
      → (r.eof ≡ true) ⊎ (length file < n + r.offset)
      → Completes AtEnd (fetch_until (λ s. s.eof) (times n file) r)
  unfolding fetch_until ◌>>=◌
  until-Completes zero out r h enough =
      stop-Completes r.eof r (waiting, r) refl
        λ live. elim enough [ inl e ↦ cc | inr e ↦ omega (arith, e, within_file out r h) ]
  until-Completes (suc n) out r h enough =
      let again = until-Completes n out in
      stop-Completes r.eof r _ refl λ live.
        resumed-Completes n out r (fetch (ended file) r) (fetch_until (λ s. s.eof) (times n file))
          ((fetch-Keeps file contents (ended file) refl).at r out h)
          (fetch-Completes file contents out r h live)
          λ s k g. again s k (enough_left n r s live enough g)

  -- what a call returns is all that has not been delivered
  abbrev pub Rest : List ℕ → Ran (List ℕ) × Reader → Type 0
  Rest out (done v, s) = out ++ v ≡ contents
  Rest out _ = ⊥

  take-length : (xs : List ℕ) → take (length xs) xs ≡ xs
  take-length [] = refl
  take-length (x ∷ xs) = ap (λ ys. x ∷ ys) (take-length xs)

  split-Rest :
      (out : List ℕ) (r : Reader)
      → Holds file contents out r
      → r.eof ≡ true
      → Rest out (split_buffer length r)
  unfolding split_buffer
  split-Rest out r h e =
      let (more, all, over) = part-Holds file contents (out, r) h in
      let nothing : more ≡ [] = elim over [ inl f ↦ absurd (cc) | inr f ↦ f ] in
      ap (λ b. out ++ b) (take-length r.buffer)
      ∙ ap (λ b. out ++ b) (sym (append-nil r.buffer))
      ∙ ap (λ m. out ++ (r.buffer ++ m)) (sym nothing)
      ∙ all

  resumed-Rest :
      (P : Reader → Type 0) (out : List ℕ) (p : Ran (Unit {0}) × Reader) (k : Task Reader (List ℕ))
      → Holds file contents out p.1
      → Completes P p
      → ((s : Reader) → Holds file contents out s → P s → Rest out (k s))
      → Rest out (resume p (λ u. k))
  resumed-Rest P out (done u, s) k h c f = f s h c
  resumed-Rest P out (threw x, s) k h c f = absurd c
  resumed-Rest P out (waiting, s) k h c f = absurd c

  abbrev Enough : ℕ → Reader → Type 0
  Enough n r = (r.eof ≡ true) ⊎ (length file < n + r.offset)

  report_if-Completes : (n : ℕ) (r : Reader) → Enough n r → Completes (Enough n) (report_if_eof r)
  unfolding report_if_eof
  report_if-Completes n r e = choice r.eof
    where
      choice :
          (b : Bool)
          → Completes
              (Enough n)
              (if◌then◌else◌ {A = Ran (Unit {0}) × Reader} b (report_eof r) (done tt, r))
      choice true = report-Completes (Enough n) r e e
      choice false = e

  reading-Rest :
      (k n : ℕ) (out : List ℕ) (r : Reader)
      → Holds file contents out r
      → length file < n
      → Rest out (read (negsuc k) (times n file) r)
  unfolding read ◌>>=◌
  reading-Rest k n out r h enough =
      resumed-Rest (Enough n) out (report_if_eof r) _ ((report_if-Keeps file contents).at r out h)
        (report_if-Completes n r (inr (omega (arith, enough))))
        λ s j e.
          resumed-Rest AtEnd out (fetch_until (λ t. t.eof) (times n file) s) _
            ((until-Keeps file contents _ (times n file) (told n)).at s out j)
            (until-Completes n out s j e) (split-Rest out)
    where
      told : (m : ℕ) → All (Told file) (times m file)
      told zero = tt
      told (suc m) = (refl, told m)

-- Once the job has ended, `read(-1)` returns after finitely many fetches, more than the file has
-- bytes being enough, whatever calls came before and however they ended; and it returns exactly the
-- part of the contents that they did not.
pub read-Rest :
    (file contents : List ℕ) (text : Bool) (cs : List Call) (k n : ℕ)
    → decode_chunk text start file ≡ some (contents, start)
    → All (IsTold file) cs
    → length file < n
    → Rest file contents
        (perform_all cs ([], fresh_reader text true)).0
        (read (negsuc k) (times n file) (perform_all cs ([], fresh_reader text true)).1)
read-Rest file contents text cs k n whole told enough =
    reading-Rest file contents k n _ _
      (perform_all-Holds file contents cs [] _ told (fresh-Holds file contents text whole)) enough
