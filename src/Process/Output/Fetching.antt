-- ===== src/Process/Output/Fetching.antt =====
-- That the fetches of a durable reader keep what it has read (thunder_sandbox/asynchronous/process.py).
use thunder_sandbox.Prelude.{
  ℕ, ◌≡◌, inr, refl, sym, ap, ◌∙◌, Bool, true, false, ◌||◌, not, List, [], ◌∷◌, ◌++◌, length, take,
  drop, append-nil, drop-append, if◌then◌else◌, All,
}
use thunder_sandbox.Common.Errors.{value_error, Result, ok, err}
use thunder_sandbox.Common.Task.{threw, lift, Ran, resume, ◌>>=◌}
use thunder_sandbox.Common.Task.Moves.{Moves, Moves-bind}
use thunder_sandbox.Process.Output.{
  chunk_size, Reader, Answer, read_at, report_eof, at_boundary, finish_stream, take_chunk, fetch,
  fetch_until, report_if_eof,
}
use thunder_sandbox.Process.Output.Decoding.{from_cursor, take-nothing, chunk_and_rest}
use thunder_sandbox.Process.Output.Whole.{
  Holds, ran, Keeps, Keeps-order, report-Keeps, append-Holds,
}

-- What a fetch is told of the file: what it held is a part of the whole from its start on, and all
-- of it if the job had ended before.
abbrev pub Shows : List ℕ → Result Bool → Result (List ℕ) → Type 0
Shows file (ok true) (ok written) = written ≡ file
Shows file (ok false) (ok written) = (rest : List ℕ) × (written ++ rest ≡ file)
Shows file _ _ = Unit

abbrev pub Told : List ℕ → Answer → Type 0
Told file a = Shows file a.final a.written

module _ (file contents : List ℕ) where
  finish_choice :
      (b : Bool) (out : List ℕ) (r : Reader)
      → (h : Holds file contents out r) → h.unread ≡ []
      → Holds file contents out
          (ran (if b then report_eof (record r { eof = true }) else (threw value_error, r)))
  finish_choice true out r h e =
      (report-Keeps file contents).at (record r { eof = true }) out
        (record {
          seen = h.seen;
          unread = h.unread;
          divided = h.divided;
          cursor = h.cursor;
          decoded = h.decoded;
          whole = h.whole;
          ended = inr e;
        })
  finish_choice false out r h e = h

  finish-Holds :
      (out : List ℕ) (r : Reader) (h : Holds file contents out r)
      → h.unread ≡ []
      → Holds file contents out (finish_stream r).1
  unfolding finish_stream
  finish-Holds out r h e = finish_choice (not r.text || at_boundary r.decoder) out r h e

  shown_prefix :
      (final : Bool) (written : List ℕ)
      → Shows file (ok final) (ok written)
      → (rest : List ℕ) × (written ++ rest ≡ file)
  shown_prefix true written s = ([], append-nil written ∙ s)
  shown_prefix false written s = s

  pub nothing_left :
      (seen unread written : List ℕ)
      → seen ++ unread ≡ file
      → written ≡ file
      → read_at (length seen) written ≡ []
      → unread ≡ []
  nothing_left seen unread written d s e = take-nothing 65535 unread (
      ap (take chunk_size) (sym (drop-append seen unread) ∙ ap (drop (length seen)) (d ∙ sym s))
      ∙ e)

  taken-Holds :
      (final : Bool) (out : List ℕ) (r : Reader) (h : Holds file contents out r) (written : List ℕ)
      → r.eof ≡ false
      → Shows file (ok final) (ok written)
      → (chunk : List ℕ) → read_at (length h.seen) written ≡ chunk
      → Holds file contents out (take_chunk final chunk r).1
  unfolding take_chunk
  taken-Holds true out r h written live s [] e =
      finish-Holds out r h (nothing_left h.seen h.unread written h.divided s e)
  taken-Holds false out r h written live s [] e = h
  taken-Holds final out r h written live s (c ∷ cs) e =
      let (rest, p) = shown_prefix final written s in
      let (more, q) = from_cursor h.seen h.unread written rest (p ∙ sym h.divided) in
      append-Holds file contents out r h (c ∷ cs) _
        (chunk_and_rest chunk_size _ (c ∷ cs) more h.unread e q) live

  fetched :
      (a b : _) (out : List ℕ) (r : Reader)
      → Holds file contents out r
      → r.eof ≡ false
      → Shows file a b
      → Holds file contents out
          (resume
            (lift a r)
            (λ final. do written ← lift b; take_chunk final (read_at r.offset written))).1
  unfolding ◌>>=◌
  fetched (ok final) (ok written) out r h live s =
      taken-Holds final out r h written live s (read_at r.offset written)
        (ap (λ o. read_at o written) (sym h.cursor))
  fetched (ok final) (err x) out r h live s = h
  fetched (err x) b out r h live s = h

  if-Holds :
      {A : Type 0} (out : List ℕ) (b : Bool) (m n : Ran A × Reader)
      → Holds file contents out m.1
      → (b ≡ false → Holds file contents out n.1)
      → Holds file contents out (if◌then◌else◌ {A = Ran A × Reader} b m n).1
  if-Holds out true m n h k = h
  if-Holds out false m n h k = k refl

  pub fetch-Keeps : (a : Answer) → Told file a → Moves (Keeps file contents) (fetch a)
  unfolding fetch ◌>>=◌
  fetch-Keeps a s = record {
    at = λ r out h.
        if-Holds out r.eof (report_eof r) _ ((report-Keeps file contents).at r out h)
          λ live. fetched a.final a.written out r h live s;
  }

  pub until-Keeps :
      (stop : Reader → Bool) (answers : List Answer)
      → All (Told file) answers
      → Moves (Keeps file contents) (fetch_until stop answers)
  unfolding fetch_until
  until-Keeps stop [] told = record { at = λ r out h. if-Holds out (stop r) _ _ h (λ e. h) }
  until-Keeps stop (a ∷ answers) told =
      let again = until-Keeps stop answers told.1 in
      record {
        at = λ r out h. if-Holds out (stop r) _ _ h λ e.
            (Moves-bind (Keeps-order file contents) (fetch a) _ (fetch-Keeps a told.0)
                (λ u. again)).at
              r out h;
      }

  pub report_if-Keeps : Moves (Keeps file contents) report_if_eof
  unfolding report_if_eof
  report_if-Keeps = record {
    at = λ r out h.
        if-Holds out r.eof (report_eof r) _ ((report-Keeps file contents).at r out h) (λ e. h);
  }
