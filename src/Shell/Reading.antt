-- ===== src/Shell/Reading.antt =====
-- Quoted texts, joined by spaces, are read back as the words that were quoted.
use thunder_sandbox.Prelude.{
  ℕ, ◌≡◌, refl, true, some, List, [], ◌∷◌, ◌++◌, Text, codes, all, arith, append_assoc, append-nil,
  Bool-cases, inl, inr, ◌==◌,
}
use thunder_sandbox.Shell.Quote.{is_safe, escape, quote, join_words}
use thunder_sandbox.Shell.Reader.{
  Token, word, and_and, between, in_word, in_single, Move, move, read_from, prepend,
}

safe_moves :
    (w : Text) (c : ℕ) → is_safe c ≡ true → move (in_word w) c ≡ Move.go (in_word (w ++ c ∷ []))
unfolding move is_safe
safe_moves w c h = ground arith

read-safe :
    (w s rest : Text)
    → all is_safe s ≡ true
    → read_from (s ++ rest) (in_word w) ≡ read_from rest (in_word (w ++ s))
unfolding read_from
read-safe w [] rest h = rw append-nil
read-safe w (c ∷ s) rest h =
    let safe : is_safe c ≡ true = ground arith in
    let others : all is_safe s ≡ true = ground arith in
    rw (safe_moves w c safe, read-safe (w ++ c ∷ []) s rest others, append_assoc)

read-escape :
    (w s rest : Text)
    → read_from (escape s ++ (39 ∷ rest)) (in_single w) ≡ read_from rest (in_word (w ++ s))
unfolding read_from move
read-escape w [] rest = rw append-nil
read-escape w (c ∷ s) rest = elim (Bool-cases (c == 39)) [
  | inl e ↦
      let quote_mark : c ≡ 39 = ground arith in
      rw (e, quote_mark, read-escape (w ++ 39 ∷ []) s rest, append_assoc)
  | inr e ↦ rw (e, e, read-escape (w ++ c ∷ []) s rest, append_assoc)
]

read-quote_in :
    (w s rest : Text) → read_from (quote s ++ rest) (in_word w) ≡ read_from rest (in_word (w ++ s))
unfolding quote read_from move
read-quote_in w [] rest = rw append-nil
read-quote_in w (c ∷ s) rest = elim (Bool-cases (all is_safe (c ∷ s))) [
  | inl e ↦ rw e (read-safe w (c ∷ s) rest e)
  | inr e ↦ rw (e, append_assoc) (read-escape w (c ∷ s) rest)
]

safe_starts : (c : ℕ) → is_safe c ≡ true → move between c ≡ Move.go (in_word (c ∷ []))
unfolding move is_safe
safe_starts c h = ground arith

read-safe_start :
    (c : ℕ) (s rest : Text)
    → all is_safe (c ∷ s) ≡ true
    → read_from (c ∷ s ++ rest) between ≡ read_from rest (in_word (c ∷ s))
unfolding read_from
read-safe_start c s rest h =
    let safe : is_safe c ≡ true = ground arith in
    let others : all is_safe s ≡ true = ground arith in
    rw (safe_starts c safe) (read-safe (c ∷ []) s rest others)

-- a quoted text begins a word just as it goes on with one
read-quote : (s rest : Text) → read_from (quote s ++ rest) between ≡ read_from rest (in_word s)
unfolding quote read_from move
read-quote [] rest = refl
read-quote (c ∷ s) rest = elim (Bool-cases (all is_safe (c ∷ s))) [
  | inl e ↦ rw e (read-safe_start c s rest e)
  | inr e ↦ rw (e, append_assoc) (read-escape [] (c ∷ s) rest)
]

-- a piece of a command line that the shell reads as one word
pub record IsWord (p w : Text) : Type 0 where
  pub reads : (rest : Text) → read_from (p ++ rest) between ≡ read_from rest (in_word w)

pub data Reads : List Text → List Token → Type 0 where
  done : Reads [] []
  word_piece :
      {p w : Text} {ps : List Text} {ts : List Token}
      → IsWord p w
      → Reads ps ts
      → Reads (p ∷ ps) (word w ∷ ts)
  and_piece :
      {ps : List Text} {ts : List Token} → Reads ps ts → Reads (codes "&&" ∷ ps) (and_and ∷ ts)

-- what follows the first part of a joined line
abbrev spaced : List Text → Text
spaced [] = []
spaced (p ∷ ps) = b' ' ∷ join_words (p ∷ ps)

join_words-cons : (p : Text) (ps : List Text) → join_words (p ∷ ps) ≡ p ++ spaced ps
join_words-cons p [] = rw append-nil
join_words-cons p (q ∷ qs) = refl

read-spaced_word :
    (w : Text) (ps : List Text)
    → read_from (spaced ps) (in_word w) ≡ prepend (word w) (read_from (join_words ps) between)
unfolding read_from move
read-spaced_word w [] = refl
read-spaced_word w (p ∷ ps) = refl

read-spaced : (ps : List Text) → read_from (spaced ps) between ≡ read_from (join_words ps) between
unfolding read_from move
read-spaced [] = refl
read-spaced (p ∷ ps) = refl

read-and_and :
    (rest : Text)
    → read_from (codes "&&" ++ rest) between ≡ prepend and_and (read_from rest between)
unfolding read_from move
read-and_and rest = refl

pub read-join_words :
    {ps : List Text} {ts : List Token} → Reads ps ts → read_from (join_words ps) between ≡ some ts
read-join_words done = unfold read_from in refl
read-join_words (word_piece {p} {w} {ps} h r) =
    rw (join_words-cons p ps, h.reads (spaced ps), read-spaced_word w ps, read-join_words r)
read-join_words (and_piece {ps} r) =
    rw
      (join_words-cons (codes "&&") ps, read-and_and (spaced ps), read-spaced ps, read-join_words r)

pub quote-IsWord : (s : Text) → IsWord (quote s) s
quote-IsWord s = record { reads = read-quote s }

pub cd-IsWord : IsWord (codes "cd") (codes "cd")
unfolding read_from move is_safe
cd-IsWord = record { reads = λ rest. refl }

pub env-IsWord : IsWord (codes "env") (codes "env")
unfolding read_from move is_safe
env-IsWord = record { reads = λ rest. refl }

pub unset-IsWord : IsWord (codes "-u") (codes "-u")
unfolding read_from move is_safe
unset-IsWord = record { reads = λ rest. refl }

read-equals :
    (w rest : Text)
    → read_from (b'=' ∷ rest) (in_word w) ≡ read_from rest (in_word (w ++ b'=' ∷ []))
unfolding read_from move is_safe
read-equals w rest = refl

pub assignment-IsWord : (k v : Text) → IsWord (quote k ++ (b'=' ∷ quote v)) (k ++ (b'=' ∷ v))
assignment-IsWord k v = record {
  reads = λ rest. rw (
    append_assoc,
    read-quote k (b'=' ∷ quote v ++ rest),
    read-equals,
    read-quote_in,
    append_assoc,
  );
}
