-- ===== src/Process/Output/Decoding.antt =====
-- Decoding in chunks, and the bytes behind a cursor of a file that grows.
use thunder_sandbox.Prelude.{
  ℕ, suc, ◌≡◌, refl, sym, ap, ◌∙◌, Bool, true, false, none, some, List, [], ◌∷◌, ◌++◌, length, take,
  drop, take-append-drop, append_assoc,
}
use thunder_sandbox.Process.Output.Utf8.{
  Decoder, start, Step, prepend_text, and_then, next_byte, decode_utf8,
}
use thunder_sandbox.Process.Output.{decode_chunk}

prepend-twice :
    (t u : List ℕ) (s : Step) → prepend_text t (prepend_text u s) ≡ prepend_text (t ++ u) s
prepend-twice t u none = refl
prepend-twice t u (some (v, d)) = rw append_assoc

and_then-prepend :
    (t : List ℕ) (s : Step) (k : Decoder → Step)
    → and_then (prepend_text t s) k ≡ prepend_text t (and_then s k)
and_then-prepend t none k = refl
and_then-prepend t (some (u, d)) k = sym (prepend-twice t u (k d))

and_then-twice :
    (s : Step) (k l : Decoder → Step)
    → and_then (and_then s k) l ≡ and_then s (λ d. and_then (k d) l)
and_then-twice none k l = refl
and_then-twice (some (t, d)) k l = and_then-prepend t (k d) l

and_then-each :
    (s : Step) (k l : Decoder → Step) → ((d : Decoder) → k d ≡ l d) → and_then s k ≡ and_then s l
and_then-each none k l h = refl
and_then-each (some (t, d)) k l h = ap (prepend_text t) (h d)

prepend-nothing : (s : Step) → prepend_text [] s ≡ s
prepend-nothing none = refl
prepend-nothing (some (t, d)) = refl

-- Decoding does not depend on how the bytes are divided into chunks.
pub decode_utf8-append :
    (d : Decoder) (xs ys : List ℕ)
    → decode_utf8 d (xs ++ ys) ≡ and_then (decode_utf8 d xs) (λ e. decode_utf8 e ys)
unfolding decode_utf8
decode_utf8-append d [] ys = sym (prepend-nothing (decode_utf8 d ys))
decode_utf8-append d (x ∷ xs) ys =
    and_then-each (next_byte d x) _ _ (λ e. decode_utf8-append e xs ys)
    ∙ sym (and_then-twice (next_byte d x) (λ e. decode_utf8 e xs) (λ e. decode_utf8 e ys))

pub decode_chunk-append :
    (text : Bool) (d : Decoder) (xs ys : List ℕ)
    → decode_chunk text d (xs ++ ys)
      ≡ and_then (decode_chunk text d xs) (λ e. decode_chunk text e ys)
unfolding decode_chunk
decode_chunk-append true d xs ys = decode_utf8-append d xs ys
decode_chunk-append false d xs ys = refl

-- the bytes from a cursor on, when a file that grows held `written`
pub from_cursor :
    (seen unread written rest : List ℕ)
    → written ++ rest ≡ seen ++ unread
    → (more : List ℕ) × (drop (length seen) written ++ more ≡ unread)
from_cursor [] unread written rest e = (rest, e)
from_cursor (x ∷ seen) unread [] rest e = (unread, refl)
from_cursor (x ∷ seen) unread (y ∷ written) rest e = from_cursor seen unread written rest cc

unprepend :
    (u t : List ℕ) (s : Step)
    → prepend_text u s ≡ some (t, start)
    → (v : List ℕ) × (s ≡ some (v, start)) × (u ++ v ≡ t)
unprepend u t none h = absurd (cc)
unprepend u t (some (v, d)) h = (v, cc, cc)

-- what remains of the whole decoding after its first part
pub rest_decodes :
    (text : Bool) (d e : Decoder) (xs ys t u : List ℕ)
    → decode_chunk text d (xs ++ ys) ≡ some (t, start)
    → decode_chunk text d xs ≡ some (u, e)
    → (v : List ℕ) × (decode_chunk text e ys ≡ some (v, start)) × (u ++ v ≡ t)
rest_decodes text d e xs ys t u whole first = unprepend u t (decode_chunk text e ys) (
    sym (ap (λ s. and_then s (λ e. decode_chunk text e ys)) first)
    ∙ sym (decode_chunk-append text d xs ys)
    ∙ whole)

pub take-nothing : (n : ℕ) (xs : List ℕ) → take (suc n) xs ≡ [] → xs ≡ []
take-nothing n [] h = refl
take-nothing n (x ∷ xs) h = absurd (cc)

-- a chunk, and what follows it
pub chunk_and_rest :
    (n : ℕ) (xs chunk more unread : List ℕ)
    → take n xs ≡ chunk
    → xs ++ more ≡ unread
    → chunk ++ (drop n xs ++ more) ≡ unread
chunk_and_rest n xs chunk more unread e f =
    ap (λ c. c ++ (drop n xs ++ more)) (sym e)
    ∙ sym (append_assoc (take n xs) (drop n xs) more)
    ∙ ap (λ ys. ys ++ more) (take-append-drop n xs)
    ∙ f
