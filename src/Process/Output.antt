-- ===== src/Process/Output.antt =====
-- `_DurableReader` (thunder_sandbox/asynchronous/process.py): a reader of a file in the sandbox, with
-- its own byte cursor.
pub mod Utf8
pub mod Decoding
pub mod Whole
pub mod Fetching
pub mod Delivered
pub mod Delivery
pub mod LastFetch
pub mod Completion
use thunder_sandbox.Prelude.{
  ℕ, zero, suc, ◌+◌, ◌==◌, Bool, true, false, ◌||◌, not, Option, none, some, List, [], ◌∷◌, ◌++◌, ℤ,
  pos, negsuc, length, take, drop, is_empty, has_char, if◌then◌else◌,
}
use thunder_sandbox.Common.Errors.{value_error, Result, ok, err}
use thunder_sandbox.Common.Task.{Task, done, threw, pure, throw, wait_on, lift, Ran, ◌>>=◌, ◌>>◌}
use thunder_sandbox.Process.Output.Utf8.{Decoder, start, decode_utf8}

-- the limit of one read
abbrev pub chunk_size : ℕ
chunk_size = 65536

-- `text` says whether there is a decoder, and `decoder` is its state; a unit of the buffer is a byte
-- or a code point. `reports` counts the calls of `_reached_eof`.
pub record Reader : Type 0 where
  pub text : Bool
  pub decoder : Decoder
  pub buffer : List ℕ
  pub offset : ℕ
  pub eof : Bool
  pub reported : Bool
  pub reports : ℕ

abbrev pub fresh_reader : Bool → Bool → Reader
fresh_reader text captured = record {
  text = text;
  decoder = start;
  buffer = [];
  offset = 0;
  eof = not captured;
  reported = false;
  reports = 0;
}

-- What the sandbox answers to one fetch: whether the job is in a final state, and then the bytes
-- that the file holds when it is read.
pub record Answer : Type 0 where
  pub final : Result Bool
  pub written : Result (List ℕ)

-- `self._read_output(self._stream, self._offset, 65536)`, of a file with these bytes
abbrev pub read_at : ℕ → List ℕ → List ℕ
read_at offset written = take chunk_size (drop offset written)

-- `_report_eof`
unfoldable pub report_eof : Task Reader (Unit {0})
report_eof r =
    if r.reported
    then (done tt, r)
    else (done tt, record r { reported = true; reports = r.reports + 1 })

-- the decoder's `decode(chunk, final=False)`, or the chunk itself
unfoldable pub decode_chunk : Bool → Decoder → List ℕ → Option (List ℕ × Decoder)
decode_chunk true d chunk = decode_utf8 d chunk
decode_chunk false d chunk = some (chunk, d)

-- a decoding that fails leaves the decoder as it was
abbrev pub append_decoded : Option (List ℕ × Decoder) → Task Reader (Unit {0})
append_decoded none r = (threw value_error, r)
append_decoded (some (t, d)) r = (done tt, record r { buffer = r.buffer ++ t; decoder = d })

unfoldable pub append_chunk : List ℕ → Task Reader (Unit {0})
append_chunk chunk r =
    append_decoded (decode_chunk r.text r.decoder chunk)
      (record r { offset = r.offset + length chunk })

-- the decoder's `decode(b"", final=True)` fails in the middle of a character
abbrev pub at_boundary : Decoder → Bool
at_boundary Decoder.start = true
at_boundary _ = false

unfoldable pub finish_stream : Task Reader (Unit {0})
finish_stream r =
    if not r.text || at_boundary r.decoder
    then report_eof (record r { eof = true })
    else (threw value_error, r)

unfoldable pub take_chunk : Bool → List ℕ → Task Reader (Unit {0})
take_chunk final [] = if final then finish_stream else pure tt
take_chunk final (c ∷ cs) = append_chunk (c ∷ cs)

-- `_fetch`
unfoldable pub fetch : Answer → Task Reader (Unit {0})
fetch a r =
    if r.eof
    then report_eof r
    else (do
      final ← lift a.final
      written ← lift a.written
      take_chunk final (read_at r.offset written))
        r

-- `while not stop: await self._fetch()`
unfoldable pub fetch_until : (Reader → Bool) → List Answer → Task Reader (Unit {0})
fetch_until stop [] r = if stop r then (done tt, r) else wait_on r
fetch_until stop (a ∷ answers) r =
    let again = fetch_until stop answers in if stop r then (done tt, r) else (fetch a >> again) r

unfoldable pub report_if_eof : Task Reader (Unit {0})
report_if_eof r = if r.eof then report_eof r else (done tt, r)

-- `result, self._buffer = self._buffer[:n], self._buffer[n:]`
unfoldable pub split_buffer : (List ℕ → ℕ) → Task Reader (List ℕ)
split_buffer n r =
    (done (take (n r.buffer) r.buffer), record r { buffer = drop (n r.buffer) r.buffer })

abbrev pub has_data : Reader → Bool
has_data r = not (is_empty r.buffer) || r.eof

abbrev pub has_line : Reader → Bool
has_line r = has_char 10 r.buffer || r.eof

-- `read(n)`
unfoldable pub read : ℤ → List Answer → Task Reader (List ℕ)
read (pos zero) answers = pure []
read (pos (suc n)) answers = do
  report_if_eof
  fetch_until has_data answers
  split_buffer (λ b. suc n)
read (negsuc n) answers = do report_if_eof; fetch_until (λ r. r.eof) answers; split_buffer length

-- the length of the first line, with its newline, or of all if there is none
unfoldable pub line_length : List ℕ → ℕ
line_length [] = 0
line_length (c ∷ cs) = let rest = line_length cs in if c == 10 then 1 else suc rest

-- `readline`
unfoldable pub readline : List Answer → Task Reader (List ℕ)
readline answers = do report_if_eof; fetch_until has_line answers; split_buffer line_length

-- `wait_eof`
unfoldable pub wait_eof : List Answer → Task Reader (Unit {0})
wait_eof answers = do fetch_until (λ r. r.eof) answers; report_eof
