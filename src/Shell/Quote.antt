-- ===== src/Shell/Quote.antt =====
-- `shlex.quote` of Python's library, and `" ".join`.
use thunder_sandbox.Prelude.{
  ℕ, Bool, ◌&&◌, ◌||◌, List, [], ◌∷◌, ◌++◌, Text, codes, all, leb, ◌==◌, is_empty, if◌then◌else◌,
}

-- the ASCII class `[\w@%+=:,./-]`
unfoldable pub is_safe : ℕ → Bool
is_safe c =
    (leb b'a' c && leb c b'z')
    || ((leb b'A' c && leb c b'Z')
        || ((leb b'0' c && leb c b'9')
            || (c == b'_'
                || (c == b'@'
                    || (c == b'%'
                        || (c == b'+'
                            || (c == b'='
                                || (c == b':'
                                    || (c == b','
                                        || (c == b'.' || (c == b'/' || c == b'-')))))))))))

-- `s.replace("'", "'\"'\"'")`
abbrev pub escape : Text → Text
escape [] = []
escape (c ∷ cs) =
    let rest = escape cs in if c == 39 then 39 ∷ 34 ∷ 39 ∷ 34 ∷ 39 ∷ rest else c ∷ rest

unfoldable pub quote : Text → Text
quote s = if is_empty s then codes "''" else if all is_safe s then s else 39 ∷ (escape s ++ 39 ∷ [])

-- `" ".join(parts)`
abbrev pub join_words : List Text → Text
join_words [] = []
join_words (p ∷ []) = p
join_words (p ∷ q ∷ qs) = p ++ (b' ' ∷ join_words (q ∷ qs))
