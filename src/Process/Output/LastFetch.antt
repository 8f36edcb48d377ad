-- ===== src/Process/Output/LastFetch.antt =====
-- A fetch of a durable reader once the job has ended (thunder_sandbox/asynchronous/process.py).
use thunder_sandbox.Prelude.{
  ℕ, ◌+◌, ◌<◌, ◌≡◌, ◌⊎◌, inl, inr, refl, sym, ap, ◌∙◌, Bool, true, false, ◌||◌, not, none, some,
  List, [], ◌∷◌, length, append-nil, arith, if◌then◌else◌,
}
use thunder_sandbox.Common.Errors.{value_error, ok}
use thunder_sandbox.Common.Task.{done, threw, Ran, ◌>>=◌}
use thunder_sandbox.Process.Output.Utf8.{Decoder, start, Step, decode_utf8}
use thunder_sandbox.Process.Output.{
  chunk_size, Reader, Answer, read_at, report_eof, decode_chunk, append_decoded, append_chunk,
  at_boundary, finish_stream, take_chunk, fetch,
}
use thunder_sandbox.Process.Output.Whole.{Holds, remaining, chunk_decodes}
use thunder_sandbox.Process.Output.Fetching.{nothing_left}
use thunder_sandbox.Process.Output.Decoding.{from_cursor, chunk_and_rest}

-- the answer to a fetch once the job has ended
abbrev pub ended : List ℕ → Answer
ended file = record { final = ok true; written = ok file }

-- `m` comes to its end, in a state with `P`
abbrev pub Completes : (Reader → Type 0) → Ran (Unit {0}) × Reader → Type 0
Completes P (done u, s) = P s
Completes P _ = ⊥

pub report-Completes :
    (P : Reader → Type 0) (r : Reader)
    → P r
    → P (record r { reported = true; reports = r.reports + 1 })
    → Completes P (report_eof r)
unfolding report_eof
report-Completes P r h k = choice r.reported
  where
    choice :
        (b : Bool)
        → Completes P (
            if b
            then (done tt, r)
            else (done tt, record r { reported = true; reports = r.reports + 1 }))
    choice true = h
    choice false = k

-- a fetch at the end of the job reaches the end of the file or goes forward in it
abbrev pub GoesOn : ℕ → Reader → Type 0
GoesOn offset s = (s.eof ≡ true) ⊎ (offset < s.offset)

module _ (file contents : List ℕ) where
  append-Completes :
      (r : Reader) (n : ℕ) (p : List ℕ × Decoder) (o : Step)
      → o ≡ some p
      → 0 < n
      → Completes (GoesOn r.offset) (append_decoded o (record r { offset = r.offset + n }))
  append-Completes r n p none e k = absurd (cc)
  append-Completes r n p (some q) e k = inr (omega (arith, k))

  boundary :
      (text : Bool) (d : Decoder) (v : List ℕ)
      → decode_chunk text d [] ≡ some (v, start)
      → (not text || at_boundary d) ≡ true
  unfolding decode_chunk decode_utf8
  boundary false d v e = refl
  boundary true d v e = let same : d ≡ start = cc in rw same refl

  finish-Completes :
      (r : Reader) (offset : ℕ) (b : Bool)
      → b ≡ true
      → Completes (GoesOn offset) (
          if◌then◌else◌ {A = Ran (Unit {0}) × Reader} b
            (report_eof (record r { eof = true }))
            (threw value_error, r))
  finish-Completes r offset true e =
      report-Completes (GoesOn offset) (record r { eof = true }) (inl refl) (inl refl)
  finish-Completes r offset false e = absurd (cc)

  take-Completes :
      (out : List ℕ) (r : Reader) (h : Holds file contents out r) (chunk : List ℕ)
      → read_at (length h.seen) file ≡ chunk
      → Completes (GoesOn r.offset) (take_chunk true chunk r)
  unfolding take_chunk finish_stream append_chunk
  take-Completes out r h [] e =
      let (v, left, all) = remaining file contents out r h in
      let none_left = nothing_left file contents h.seen h.unread file h.divided refl e in
      finish-Completes r r.offset (not r.text || at_boundary r.decoder)
        (boundary r.text r.decoder v (ap (decode_chunk r.text r.decoder) (sym none_left) ∙ left))
  take-Completes out r h (c ∷ cs) e =
      let (more, q) = from_cursor h.seen h.unread file [] (append-nil file ∙ sym h.divided) in
      let (p, o) =
        chunk_decodes file contents out r h (c ∷ cs) _
          (chunk_and_rest chunk_size _ (c ∷ cs) more h.unread e q) _ refl in
      append-Completes r (length (c ∷ cs)) p _ o (omega arith)

  live-Completes :
      (P : Reader → Type 0) (b : Bool) (m n : Ran (Unit {0}) × Reader)
      → b ≡ false
      → Completes P n
      → Completes P (if◌then◌else◌ {A = Ran (Unit {0}) × Reader} b m n)
  live-Completes P true m n e c = absurd (cc)
  live-Completes P false m n e c = c

  pub fetch-Completes :
      (out : List ℕ) (r : Reader)
      → Holds file contents out r
      → r.eof ≡ false
      → Completes (GoesOn r.offset) (fetch (ended file) r)
  unfolding fetch ◌>>=◌
  fetch-Completes out r h live =
      live-Completes (GoesOn r.offset) r.eof (report_eof r) _ live
        (take-Completes out r h (read_at r.offset file) (ap (λ o. read_at o file) (sym h.cursor)))
