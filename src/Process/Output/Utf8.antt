-- ===== src/Process/Output/Utf8.antt =====
-- The incremental UTF-8 decoder of Python's `codecs`, with the strict error handler.
use thunder_sandbox.Prelude.{
  ℕ, zero, suc, ◌+◌, ◌-◌, ◌*◌, Bool, ◌&&◌, Option, none, some, List, [], ◌∷◌, ◌++◌, leb, ltb,
  if◌then◌else◌,
}

-- between two characters, or with the continuation bytes that are still due after the next one, the
-- bounds of the next one, and the bits so far
pub data Decoder : Type 0 where
  start : Decoder
  within : ℕ → ℕ → ℕ → ℕ → Decoder

abbrev pub Step : Type 0
Step = Option (List ℕ × Decoder)

abbrev between : ℕ → ℕ → ℕ → Bool
between low high b = leb low b && leb b high

-- the first byte of a character
unfoldable pub first_byte : ℕ → Step
first_byte b =
    if ltb b 128
    then some (b ∷ [], start)
    else if between 194 223 b
    then some ([], within 0 128 191 (b - 192))
    else if between 224 224 b
    then some ([], within 1 160 191 0)
    else if between 225 236 b
    then some ([], within 1 128 191 (b - 224))
    else if between 237 237 b
    then some ([], within 1 128 159 13)
    else if between 238 239 b
    then some ([], within 1 128 191 (b - 224))
    else if between 240 240 b
    then some ([], within 2 144 191 0)
    else if between 241 243 b
    then some ([], within 2 128 191 (b - 240))
    else if between 244 244 b
    then some ([], within 2 128 143 4)
    else none

unfoldable pub next_byte : Decoder → ℕ → Step
next_byte start b = first_byte b
next_byte (within zero low high acc) b =
    if between low high b then some ((acc * 64 + (b - 128)) ∷ [], start) else none
next_byte (within (suc k) low high acc) b =
    if between low high b then some ([], within k 128 191 (acc * 64 + (b - 128))) else none

abbrev pub prepend_text : List ℕ → Step → Step
prepend_text t none = none
prepend_text t (some (u, d)) = some (t ++ u, d)

abbrev pub and_then : Step → (Decoder → Step) → Step
and_then none k = none
and_then (some (t, d)) k = prepend_text t (k d)

unfoldable pub decode_utf8 : Decoder → List ℕ → Step
decode_utf8 d [] = some ([], d)
decode_utf8 d (b ∷ bs) = and_then (next_byte d b) (λ e. decode_utf8 e bs)
