-- ===== src/Process/Output/Delivery.antt =====
-- What the calls of a durable reader deliver: the text of the whole file, in order, each part once.
use thunder_sandbox.Prelude.{
  ℕ, ◌≡◌, ◌⊎◌, inl, inr, refl, sym, ap, ◌∙◌, Bool, true, false, some, List, [], ◌∷◌, ◌++◌, ℤ,
  append_assoc, All,
}
use thunder_sandbox.Common.Task.{done, threw, waiting, Ran}
use thunder_sandbox.Process.Output.Utf8.{Decoder, start, decode_utf8}
use thunder_sandbox.Process.Output.{
  Reader, Answer, decode_chunk, read, readline, wait_eof, fresh_reader,
}
use thunder_sandbox.Process.Output.Whole.{Holds, remaining}
use thunder_sandbox.Process.Output.Fetching.{Told}
use thunder_sandbox.Process.Output.Delivered.{
  Delivered, read-Delivered, readline-Delivered, wait_eof-Keeps,
}

-- One call of the reader, with the answers to its fetches.
pub data Call : Type 0 where
  reads : ℤ → List Answer → Call
  reads_line waits_eof : List Answer → Call

abbrev pub IsTold : List ℕ → Call → Type 0
IsTold file (Call.reads n answers) = All (Told file) answers
IsTold file (Call.reads_line answers) = All (Told file) answers
IsTold file (Call.waits_eof answers) = All (Told file) answers

-- what has been delivered, with one more result
abbrev deliver : List ℕ → Ran (List ℕ) × Reader → List ℕ × Reader
deliver out (done v, s) = (out ++ v, s)
deliver out (threw x, s) = (out, s)
deliver out (waiting, s) = (out, s)

unfoldable pub perform : Call → List ℕ × Reader → List ℕ × Reader
perform (Call.reads n answers) (out, r) = deliver out (read n answers r)
perform (Call.reads_line answers) (out, r) = deliver out (readline answers r)
perform (Call.waits_eof answers) (out, r) = (out, (wait_eof answers r).1)

unfoldable pub perform_all : List Call → List ℕ × Reader → List ℕ × Reader
unfolding perform
perform_all [] p = p
perform_all (c ∷ cs) p = perform_all cs (perform c p)

deliver-Holds :
    (file contents out : List ℕ) (p : Ran (List ℕ) × Reader)
    → Delivered file contents out p
    → Holds file contents (deliver out p).0 (deliver out p).1
deliver-Holds file contents out (done v, s) h = h
deliver-Holds file contents out (threw x, s) h = h
deliver-Holds file contents out (waiting, s) h = h

perform-Holds :
    (file contents : List ℕ) (c : Call) (out : List ℕ) (r : Reader)
    → IsTold file c
    → Holds file contents out r
    → Holds file contents (perform c (out, r)).0 (perform c (out, r)).1
unfolding perform
perform-Holds file contents (Call.reads n answers) out r told h =
    deliver-Holds file contents out _ (read-Delivered file contents n answers out r told h)
perform-Holds file contents (Call.reads_line answers) out r told h =
    deliver-Holds file contents out _ (readline-Delivered file contents answers out r told h)
perform-Holds file contents (Call.waits_eof answers) out r told h =
    (wait_eof-Keeps file contents answers told).at r out h

pub perform_all-Holds :
    (file contents : List ℕ) (cs : List Call) (out : List ℕ) (r : Reader)
    → All (IsTold file) cs
    → Holds file contents out r
    → Holds file contents (perform_all cs (out, r)).0 (perform_all cs (out, r)).1
unfolding perform_all
perform_all-Holds file contents [] out r told h = h
perform_all-Holds file contents (c ∷ cs) out r told h =
    perform_all-Holds file contents cs _ _ told.1 (perform-Holds file contents c out r told.0 h)

pub fresh-Holds :
    (file contents : List ℕ) (text : Bool)
    → decode_chunk text start file ≡ some (contents, start)
    → Holds file contents [] (fresh_reader text true)
unfolding decode_chunk decode_utf8
fresh-Holds file contents true whole = record {
  seen = [];
  unread = file;
  divided = refl;
  cursor = refl;
  decoded = refl;
  whole = whole;
  ended = inl refl;
}
fresh-Holds file contents false whole = record {
  seen = [];
  unread = file;
  divided = refl;
  cursor = refl;
  decoded = refl;
  whole = whole;
  ended = inl refl;
}

-- what a reader has delivered and holds is the whole up to some point, and all of it at the end
abbrev pub IsPartOf : List ℕ → List ℕ × Reader → Type 0
IsPartOf contents (out, r) =
    (more : List ℕ) × (out ++ (r.buffer ++ more) ≡ contents) × ((r.eof ≡ false) ⊎ (more ≡ []))

pub nothing_decodes :
    (text : Bool) (d : Decoder) (v : List ℕ) → decode_chunk text d [] ≡ some (v, start) → v ≡ []
unfolding decode_chunk decode_utf8
nothing_decodes true d v h = cc
nothing_decodes false d v h = cc

ended_part :
    (text : Bool) (d : Decoder) (eof : Bool) (unread more : List ℕ)
    → decode_chunk text d unread ≡ some (more, start)
    → (eof ≡ false) ⊎ (unread ≡ [])
    → (eof ≡ false) ⊎ (more ≡ [])
ended_part text d eof unread more left (inl e) = inl e
ended_part text d eof unread more left (inr e) =
    inr (nothing_decodes text d more (ap (decode_chunk text d) (sym e) ∙ left))

pub part-Holds :
    (file contents : List ℕ) (p : List ℕ × Reader)
    → Holds file contents p.0 p.1
    → IsPartOf contents p
part-Holds file contents (out, r) h =
    let (more, left, all) = remaining file contents out r h in
    (
      more,
      sym (append_assoc out r.buffer more) ∙ all,
      ended_part r.text r.decoder r.eof h.unread more left h.ended,
    )

-- If the file decodes as a whole, then whatever is called on a reader of it, and however the file
-- grows and calls fail meanwhile, what the calls have returned so far, then the buffer, then what is
-- still to come make up the contents: nothing is lost, repeated or reordered. At the end of the
-- stream nothing is still to come.
pub perform_all-IsPartOf :
    (file contents : List ℕ) (text : Bool) (cs : List Call)
    → decode_chunk text start file ≡ some (contents, start)
    → All (IsTold file) cs
    → IsPartOf contents (perform_all cs ([], fresh_reader text true))
perform_all-IsPartOf file contents text cs whole told =
    part-Holds file contents _
      (perform_all-Holds file contents cs [] _ told (fresh-Holds file contents text whole))
