-- ===== src/Common/Whitespace.antt =====
-- Python's `str.isspace` on one character, `str.strip`, and the same for one character.
use thunder_sandbox.Prelude.{ℕ, Bool, ◌&&◌, ◌||◌, [], ◌∷◌, Text, is_empty, leb, ◌==◌, if◌then◌else◌}

-- the white space of Unicode, and the separators of ASCII
abbrev pub is_space : ℕ → Bool
is_space c =
    (leb 9 c && leb c 13)
    || ((leb 28 c && leb c 32)
        || (c == 133
            || (c == 160
                || (c == 5760
                    || ((leb 8192 c && leb c 8202)
                        || (c == 8232
                            || (c == 8233 || (c == 8239 || (c == 8287 || c == 12288)))))))))

abbrev pub strip_left : Text → Text
strip_left [] = []
strip_left (c ∷ cs) = let rest = strip_left cs in if is_space c then rest else c ∷ cs

abbrev pub strip_right : Text → Text
strip_right [] = []
strip_right (c ∷ cs) =
    let rest = strip_right cs in if is_space c && is_empty rest then [] else c ∷ rest

abbrev pub strip : Text → Text
strip t = strip_left (strip_right t)

-- `text.lstrip(c)`
abbrev pub lstrip : ℕ → Text → Text
lstrip k [] = []
lstrip k (c ∷ cs) = let rest = lstrip k cs in if c == k then rest else c ∷ cs

-- `text.rstrip(c)`
abbrev pub rstrip : ℕ → Text → Text
rstrip k [] = []
rstrip k (c ∷ cs) = let rest = rstrip k cs in if c == k && is_empty rest then [] else c ∷ rest
