-- ===== src/Process/Output/Whole.antt =====
-- What a durable reader has read, and what is to come.
use thunder_sandbox.Prelude.{
  ℕ, ◌+◌, ◌≡◌, ◌⊎◌, inl, refl, sym, ap, ◌∙◌, Bool, true, false, none, some, List, [], ◌++◌, length,
  length-append, append_assoc, arith, if◌then◌else◌,
}
use thunder_sandbox.Common.Task.{Task, done, Ran}
use thunder_sandbox.Common.Task.Moves.{IsPreorder, Moves, Moves-if}
use thunder_sandbox.Process.Output.Utf8.{Decoder, start, Step, prepend_text, and_then}
use thunder_sandbox.Process.Output.{Reader, report_eof, decode_chunk, append_decoded, append_chunk}
use thunder_sandbox.Process.Output.Decoding.{decode_chunk-append, rest_decodes}

abbrev pub ran : Ran (Unit {0}) × Reader → Reader
ran p = p.1

module _ (file contents : List ℕ) where
  -- The bytes that have been read so far are those before the cursor; what they decode to is what was
  -- delivered, `out`, and what is in the buffer.
  pub record Holds (out : List ℕ) (r : Reader) : Type 0 where
    pub seen : List ℕ
    pub unread : List ℕ
    pub divided : seen ++ unread ≡ file
    pub cursor : r.offset ≡ length seen
    pub decoded : decode_chunk r.text start seen ≡ some (out ++ r.buffer, r.decoder)
    pub whole : decode_chunk r.text start file ≡ some (contents, start)
    pub ended : (r.eof ≡ false) ⊎ (unread ≡ [])

  abbrev pub Keeps : Reader → Reader → Type 0
  Keeps r s = (out : List ℕ) → Holds out r → Holds out s

  pub Keeps-order : IsPreorder Keeps
  Keeps-order = record { same = λ r out h. h; chain = λ r s t f g out h. g out (f out h) }

  keep_if :
      {A : Type 0} (b : Bool) (m n : Task Reader A)
      → Moves Keeps m
      → Moves Keeps n
      → Moves Keeps (if b then m else n)
  keep_if b m n h k = Moves-if Keeps-order b m n h k

  reported-Holds :
      (b : Bool) (out : List ℕ) (r : Reader) (n : ℕ)
      → Holds out r
      → Holds out (record r { reported = b; reports = n })
  reported-Holds b out r n h = record {
    seen = h.seen;
    unread = h.unread;
    divided = h.divided;
    cursor = h.cursor;
    decoded = h.decoded;
    whole = h.whole;
    ended = h.ended;
  }

  report_choice :
      (b : Bool) (out : List ℕ) (r : Reader)
      → Holds out r
      → Holds out (
          ran (
            if b
            then (done tt, r)
            else (done tt, record r { reported = true; reports = r.reports + 1 })))
  report_choice true out r h = h
  report_choice false out r h = reported-Holds true out r (r.reports + 1) h

  pub report-Keeps : Moves Keeps report_eof
  unfolding report_eof
  report-Keeps = record { at = λ r out h. report_choice r.reported out r h }

  -- the bytes that are still to be read decode to the text that is still to come
  pub remaining :
      (out : List ℕ) (r : Reader) (h : Holds out r)
      → (v : List ℕ) × (decode_chunk r.text r.decoder h.unread ≡ some (v, start))
        × ((out ++ r.buffer) ++ v ≡ contents)
  remaining out r h =
      rest_decodes r.text start r.decoder h.seen h.unread contents (out ++ r.buffer)
        (ap (decode_chunk r.text start) h.divided ∙ h.whole) h.decoded

  -- no part of the file fails to decode
  pub chunk_decodes :
      (out : List ℕ) (r : Reader) (h : Holds out r) (chunk more : List ℕ)
      → chunk ++ more ≡ h.unread
      → (o : Step) → decode_chunk r.text r.decoder chunk ≡ o
      → (p : List ℕ × Decoder) × (o ≡ some p)
  chunk_decodes out r h chunk more e (some p) d = (p, refl)
  chunk_decodes out r h chunk more e none d =
      let (v, left, all) = remaining out r h in
      let split =
        sym (ap (λ x. and_then x (λ e. decode_chunk r.text e more)) d)
        ∙ sym (decode_chunk-append r.text r.decoder chunk more)
        ∙ ap (decode_chunk r.text r.decoder) e
        ∙ left in
      absurd (cc)

  -- the bytes of one more chunk
  appended :
      (out : List ℕ) (r : Reader) (h : Holds out r) (chunk more : List ℕ)
      → chunk ++ more ≡ h.unread
      → (r.eof ≡ false)
      → (o : Step) → decode_chunk r.text r.decoder chunk ≡ o
      → Holds out (append_decoded o (record r { offset = r.offset + length chunk })).1
  appended out r h chunk more e live none d =
      let (p, some_p) = chunk_decodes out r h chunk more e none d in absurd (cc)
  appended out r h chunk more e live (some (t, s)) d = record {
    seen = h.seen ++ chunk;
    unread = more;
    divided = append_assoc h.seen chunk more ∙ ap (λ u. h.seen ++ u) e ∙ h.divided;
    cursor = omega (arith, h.cursor, length-append h.seen chunk);
    decoded =
        decode_chunk-append r.text start h.seen chunk
        ∙ ap (λ x. and_then x (λ e. decode_chunk r.text e chunk)) h.decoded
        ∙ ap (prepend_text (out ++ r.buffer)) d
        ∙ ap (λ x. some (x, s)) (append_assoc out r.buffer t);
    whole = h.whole;
    ended = inl live;
  }

  pub append-Holds :
      (out : List ℕ) (r : Reader) (h : Holds out r) (chunk more : List ℕ)
      → chunk ++ more ≡ h.unread
      → r.eof ≡ false
      → Holds out (append_chunk chunk r).1
  unfolding append_chunk
  append-Holds out r h chunk more e live =
      appended out r h chunk more e live (decode_chunk r.text r.decoder chunk) refl
