-- ===== src/Image/Ignore.antt =====
-- `_DockerIgnore` and `_compile_ignore_pattern` (thunder_sandbox/image.py). What Python's `re` makes of
-- an expression, its escape of a character, and the lines of a text are parameters.
pub mod Last
pub mod Fuel
use thunder_sandbox.Prelude.{
  starts_with, ℕ, zero, suc, Bool, true, false, ◌&&◌, ◌||◌, not, Option, none, some, List, [], ◌∷◌,
  ◌++◌, Text, codes, text_eq, take, drop, length, is_empty, any, ◌==◌, if◌then◌else◌,
}
use thunder_sandbox.Common.Errors.{Error, ErrorKind, Result, ok, err, raise, ◌>>=◌}
use thunder_sandbox.Common.Whitespace.{strip, lstrip, rstrip}

-- `re.compile(expression).fullmatch`; no expression, where it raises `re.error`
abbrev pub Compile : Type 0
Compile = Text → Option (Text → Bool)

pub record IgnoreRule : Type 0 where
  pub matches : Text → Bool
  pub negated : Bool

pub record DockerIgnore : Type 0 where
  pub rules : List IgnoreRule
  pub negated_patterns : List Text

-- the text before the first `]` and the one behind it
abbrev pub split_bracket : Text → Option (Text × Text)
split_bracket [] = none
split_bracket (c ∷ cs) =
    let rest = split_bracket cs in
    if c == 93 then some ([], cs) else elim rest [ none ↦ none | some (a, b) ↦ some (c ∷ a, b) ]

abbrev pub double_backslashes : Text → Text
double_backslashes [] = []
double_backslashes (c ∷ cs) =
    let rest = double_backslashes cs in if c == 92 then 92 ∷ 92 ∷ rest else c ∷ rest

-- what follows the character, if the text begins with it
abbrev pub behind : ℕ → Text → Option Text
behind k [] = none
behind k (c ∷ cs) = if c == k then some cs else none

-- the class between the brackets
abbrev pub class_text : Text → Text
class_text cs = elim (behind 33 cs) [
  | none ↦ codes "[" ++ (double_backslashes cs ++ codes "]")
  | some ds ↦ codes "[^" ++ (double_backslashes ds ++ codes "]")
]

-- what follows a `*`
abbrev pub star : Text → Text × Text
star cs = elim (behind 42 cs) [
  | none ↦ (codes "[^/]*", cs)
  | some ds ↦ elim (behind 47 ds) [ none ↦ (codes ".*", ds) | some es ↦ (codes "(?:.*/)?", es) ]
]

abbrev pub bracket : Text → Text × Text
bracket cs = elim (split_bracket cs) [ none ↦ (codes "\\[", cs) | some (a, b) ↦ (class_text a, b) ]

module _ (escape : ℕ → Text) where
  abbrev pub backslash : Text → Text × Text
  backslash [] = (escape 92, [])
  backslash (c ∷ cs) = (escape c, cs)

  -- one round of the loop: the part of the expression for what begins with `c`, and what is left
  abbrev pub piece : ℕ → Text → Text × Text
  piece c cs =
      if c == 42
      then star cs
      else if c == 63
      then (codes "[^/]", cs)
      else if c == 91
      then bracket cs
      else if c == 92
      then backslash cs
      else (escape c, cs)

  -- the loop, on fuel
  unfoldable pub expression_of : ℕ → Text → Text
  expression_of zero t = []
  expression_of (suc n) [] = []
  expression_of (suc n) (c ∷ cs) = let p = piece c cs in p.0 ++ expression_of n p.1

  -- `_compile_ignore_pattern` before `re.compile`; each round reads a character
  unfoldable pub pattern_expression : Text → Text
  pattern_expression t = expression_of (length t) t ++ codes "(?:/.*)?"

module _ (compile : Compile) (escape : ℕ → Text) where
  abbrev pub compile_rule : Bool → Text → Result IgnoreRule
  compile_rule negated pattern = elim (compile (pattern_expression escape pattern)) [
    | none ↦ err Error.regex_error
    | some f ↦ ok (record { matches = f; negated = negated })
  ]

  abbrev pub add_rule : IgnoreRule → Text → DockerIgnore → DockerIgnore
  add_rule r pattern d = record {
    rules = r ∷ d.rules;
    negated_patterns = if r.negated then pattern ∷ d.negated_patterns else d.negated_patterns;
  }

  -- a pattern without the slashes around it, before the lines that follow
  abbrev pub add_pattern : Bool → Text → Result DockerIgnore → Result DockerIgnore
  add_pattern negated pattern rest =
      if is_empty pattern
      then rest
      else (compile_rule negated pattern >>= λ r. rest >>= λ d. ok (add_rule r pattern d))

  abbrev pub trim_slashes : Text → Text
  trim_slashes t = rstrip 47 (lstrip 47 t)

  abbrev pub add_negation : Text → Result DockerIgnore → Result DockerIgnore
  add_negation pattern rest =
      if is_empty pattern
      then raise ErrorKind.invalid_request
      else add_pattern true (trim_slashes pattern) rest

  -- a line without the white space around it, before the lines that follow
  abbrev pub add_trimmed : Text → Result DockerIgnore → Result DockerIgnore
  add_trimmed t rest = if is_empty t || text_eq t (codes ".") then rest else elim (behind 33 t) [
    | none ↦ add_pattern false (trim_slashes t) rest
    | some cs ↦ add_negation (strip cs) rest
  ]

  abbrev pub add_line : Text → Result DockerIgnore → Result DockerIgnore
  add_line line rest = if starts_with (codes "#") line then rest else add_trimmed (strip line) rest

  -- `_DockerIgnore.__init__` of the lines
  unfoldable pub ignore_of : List Text → Result DockerIgnore
  ignore_of [] = ok (record { rules = []; negated_patterns = [] })
  ignore_of (l ∷ ls) = let rest = ignore_of ls in add_line l rest

-- the loop of `excludes`
unfoldable pub excludes_from : Bool → List IgnoreRule → Text → Bool
excludes_from excluded [] path = excluded
excludes_from excluded (r ∷ rs) path =
    excludes_from (if r.matches path then not r.negated else excluded) rs path

-- `excludes`
unfoldable pub excludes : DockerIgnore → Text → Bool
excludes d path = excludes_from false d.rules path

-- `could_include_descendant`
unfoldable pub could_include_descendant : DockerIgnore → Text → Bool
could_include_descendant d directory =
    any (λ p. starts_with (directory ++ codes "/") p) d.negated_patterns
