-- ===== src/Examples/Output.antt =====
-- The durable reader of thunder_sandbox/asynchronous/process.py.
use thunder_sandbox.Prelude.{ℕ, ◌≡◌, refl, arith, true, false, some, List, [], ◌∷◌, pos, negsuc}
use thunder_sandbox.Common.Errors.{ErrorKind, ok, raise}
use thunder_sandbox.Common.Task.{◌>>=◌}
use thunder_sandbox.Process.Output.{
  fresh_reader, decode_chunk, read, report_if_eof, fetch_until, split_buffer, fetch, take_chunk,
  append_chunk, readline, line_length,
}
use thunder_sandbox.Process.Output.Utf8.{start, decode_utf8, next_byte, first_byte}
use thunder_sandbox.Process.Output.Delivery.{
  Call, perform, perform_all, IsPartOf, perform_all-IsPartOf,
}
use thunder_sandbox.Process.Output.Completion.{times, Rest, read-Rest}

-- the bytes of `é`, a newline, and `b`
abbrev bytes : List ℕ
bytes = 195 ∷ 169 ∷ 10 ∷ 98 ∷ []

abbrev characters : List ℕ
characters = 233 ∷ 10 ∷ 98 ∷ []

bytes-characters : decode_chunk true start bytes ≡ some (characters, start)
unfolding decode_chunk decode_utf8 next_byte first_byte
bytes-characters = refl

-- the first byte of a character arrives alone, then a read fails, then the rest comes
abbrev calls : List Call
calls =
    Call.reads (pos 1) (
      record { final = ok false; written = ok (195 ∷ []) }
      ∷ record { final = raise ErrorKind.connection; written = ok bytes }
      ∷ [])
    ∷ Call.reads_line (record { final = ok true; written = ok bytes } ∷ [])
    ∷ []

perform_all-IsPartOf_example : IsPartOf characters (perform_all calls ([], fresh_reader true true))
perform_all-IsPartOf_example =
    perform_all-IsPartOf bytes characters true calls bytes-characters
      (((169 ∷ 10 ∷ 98 ∷ [], refl), (tt, tt)), ((refl, tt), tt))

line_read : (perform_all calls ([], fresh_reader true true)).0 ≡ 233 ∷ 10 ∷ []
unfolding perform_all perform read readline report_if_eof fetch_until split_buffer fetch take_chunk
    append_chunk decode_chunk decode_utf8 next_byte first_byte line_length ◌>>=◌
line_read = refl

read-Rest_example :
    Rest bytes characters
      (perform_all calls ([], fresh_reader true true)).0
      (read (negsuc 0) (times 5 bytes) (perform_all calls ([], fresh_reader true true)).1)
read-Rest_example =
    read-Rest bytes characters true calls 0 5 bytes-characters
      (((169 ∷ 10 ∷ 98 ∷ [], refl), (tt, tt)), ((refl, tt), tt)) (omega arith)
