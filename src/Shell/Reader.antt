-- ===== src/Shell/Reader.antt =====
-- An independent description of how a POSIX shell divides a simple command line into words and
-- the operator `&&`. What would be expanded or redirected is refused, so a text that is read has
-- no other meaning.
use thunder_sandbox.Prelude.{
  ℕ, Bool, ◌||◌, Option, none, some, List, [], ◌∷◌, ◌++◌, Text, ◌==◌, if◌then◌else◌,
}
use thunder_sandbox.Shell.Quote.{is_safe}

pub data Token : Type 0 where
  word : Text → Token
  and_and : Token

-- the word read so far, and the quotes that are open
pub data Mode : Type 0 where
  between : Mode
  in_word in_single in_double : Text → Mode
  ampersand : Mode

pub data Move : Type 0 where
  go : Mode → Move
  emit : Token → Mode → Move
  refuse : Move

-- an unquoted character, in the word read so far
abbrev pub unquoted : Text → ℕ → Move
unquoted w c =
    if c == 39
    then go (Mode.in_single w)
    else if c == 34
    then go (Mode.in_double w)
    else if is_safe c
    then go (Mode.in_word (w ++ c ∷ []))
    else refuse

abbrev pub is_blank : ℕ → Bool
is_blank c = c == 32 || c == 9

unfoldable pub move : Mode → ℕ → Move
move Mode.between c =
    if is_blank c then go Mode.between else if c == 38 then go Mode.ampersand else unquoted [] c
move (Mode.in_word w) c = if is_blank c then emit (Token.word w) Mode.between else unquoted w c
move (Mode.in_single w) c =
    if c == 39 then go (Mode.in_word w) else go (Mode.in_single (w ++ c ∷ []))
move (Mode.in_double w) c =
    if c == 34
    then go (Mode.in_word w)
    else if c == 36 || (c == 92 || c == 96)
    then refuse
    else go (Mode.in_double (w ++ c ∷ []))
move Mode.ampersand c = if c == 38 then emit Token.and_and Mode.between else refuse

abbrev pub prepend : Token → Option (List Token) → Option (List Token)
prepend t none = none
prepend t (some ts) = some (t ∷ ts)

abbrev pub finish : Mode → Option (List Token)
finish Mode.between = some []
finish (Mode.in_word w) = some (Token.word w ∷ [])
finish _ = none

abbrev pub follow : Move → (Mode → Option (List Token)) → Option (List Token)
follow (go m) k = k m
follow (emit t m) k = prepend t (k m)
follow refuse k = none

unfoldable pub read_from : Text → Mode → Option (List Token)
read_from [] m = finish m
read_from (c ∷ cs) m = follow (move m c) (read_from cs)

unfoldable pub read_tokens : Text → Option (List Token)
unfolding read_from
read_tokens t = read_from t Mode.between
