-- ===== src/Process/Output/Delivered.antt =====
-- What one call of a durable reader delivers (thunder_sandbox/asynchronous/process.py).
use thunder_sandbox.Prelude.{
  ℕ, zero, suc, sym, ap, subst, ◌∙◌, Bool, some, List, ◌++◌, ℤ, pos, negsuc, take, drop,
  take-append-drop, append_assoc, append-nil, All,
}
use thunder_sandbox.Common.Task.{Task, done, threw, waiting, Ran, resume, ◌>>=◌, ◌>>◌}
use thunder_sandbox.Common.Task.Moves.{Moves, Moves-bind}
use thunder_sandbox.Process.Output.{
  Reader, Answer, fetch_until, report_if_eof, split_buffer, read, readline, wait_eof,
}
use thunder_sandbox.Process.Output.Whole.{Holds, Keeps, Keeps-order, report-Keeps}
use thunder_sandbox.Process.Output.Fetching.{Told, until-Keeps, report_if-Keeps}

module _ (file contents : List ℕ) where
  -- what a call returns is delivered; a call that raises or waits delivers nothing
  abbrev pub Delivered : List ℕ → Ran (List ℕ) × Reader → Type 0
  Delivered out (done v, s) = Holds file contents (out ++ v) s
  Delivered out (threw x, s) = Holds file contents out s
  Delivered out (waiting, s) = Holds file contents out s

  split-Delivered :
      (n : List ℕ → ℕ) (out : List ℕ) (r : Reader)
      → Holds file contents out r
      → Delivered out (split_buffer n r)
  unfolding split_buffer
  split-Delivered n out r h =
      let parts =
        append_assoc out (take (n r.buffer) r.buffer) (drop (n r.buffer) r.buffer)
        ∙ ap (λ b. out ++ b) (take-append-drop (n r.buffer) r.buffer) in
      record {
        seen = h.seen;
        unread = h.unread;
        divided = h.divided;
        cursor = h.cursor;
        decoded = h.decoded ∙ ap (λ b. some (b, r.decoder)) (sym parts);
        whole = h.whole;
        ended = h.ended;
      }

  resumed-Delivered :
      (out : List ℕ) (p : Ran (Unit {0}) × Reader) (k : Task Reader (List ℕ))
      → Holds file contents out p.1
      → ((s : Reader) → Holds file contents out s → Delivered out (k s))
      → Delivered out (resume p (λ u. k))
  resumed-Delivered out (done u, s) k h f = f s h
  resumed-Delivered out (threw x, s) k h f = h
  resumed-Delivered out (waiting, s) k h f = h

  -- the shape of `read` and `readline`
  taking-Delivered :
      (stop : Reader → Bool) (n : List ℕ → ℕ) (answers : List Answer) (out : List ℕ) (r : Reader)
      → All (Told file) answers
      → Holds file contents out r
      → Delivered out ((do report_if_eof; fetch_until stop answers; split_buffer n) r)
  unfolding ◌>>=◌
  taking-Delivered stop n answers out r told h =
      resumed-Delivered out (report_if_eof r) _ ((report_if-Keeps file contents).at r out h) λ s k.
        resumed-Delivered out (fetch_until stop answers s) _
          ((until-Keeps file contents stop answers told).at s out k) (split-Delivered n out)

  pub read-Delivered :
      (n : ℤ) (answers : List Answer) (out : List ℕ) (r : Reader)
      → All (Told file) answers
      → Holds file contents out r
      → Delivered out (read n answers r)
  unfolding read
  read-Delivered (pos zero) answers out r told h =
      subst (λ o. Holds file contents o r) (sym (append-nil out)) h
  read-Delivered (pos (suc n)) answers out r told h = taking-Delivered _ _ answers out r told h
  read-Delivered (negsuc n) answers out r told h = taking-Delivered _ _ answers out r told h

  pub readline-Delivered :
      (answers : List Answer) (out : List ℕ) (r : Reader)
      → All (Told file) answers
      → Holds file contents out r
      → Delivered out (readline answers r)
  unfolding readline
  readline-Delivered answers out r told h = taking-Delivered _ _ answers out r told h

  pub wait_eof-Keeps :
      (answers : List Answer)
      → All (Told file) answers
      → Moves (Keeps file contents) (wait_eof answers)
  unfolding wait_eof
  wait_eof-Keeps answers told =
      Moves-bind (Keeps-order file contents) (fetch_until (λ r. r.eof) answers) _
        (until-Keeps file contents _ answers told) (λ u. report-Keeps file contents)
