-- ===== src/Strings.antt =====
-- Python's methods of `str`, on texts as lists of code points: what config.py and `_schema_statements`
-- of connection.py use.
pub mod Trimming
use activegraph_surrealdb.Prelude.{
  ℕ, Bool, true, false, not, ◌&&◌, ◌||◌, ◌==◌, nat_eq, List, [], ◌∷◌, ◌++◌, leb, if◌then◌else◌,
}

abbrev pub Text : Type 0
Text = List ℕ

-- `str.isspace` of one character, which `strip()` removes
unfoldable pub is_space : ℕ → Bool
is_space c =
    leb 9 c && leb c 13
    || leb 28 c && leb c 32
    || c == 133
    || c == 160
    || c == 5760
    || leb 8192 c && leb c 8202
    || c == 8232
    || c == 8233
    || c == 8239
    || c == 8287
    || c == 12288

-- the line boundaries of `splitlines()`
unfoldable pub is_line_end : ℕ → Bool
is_line_end c = leb 10 c && leb c 13 || leb 28 c && leb c 30 || c == 133 || c == 8232 || c == 8233

unfoldable pub drop_while : (ℕ → Bool) → Text → Text
drop_while test [] = []
drop_while test (c ∷ cs) = if test c then drop_while test cs else c ∷ cs

abbrev pub trim_cons : (ℕ → Bool) → ℕ → Text → Text
trim_cons test c [] = if test c then [] else c ∷ []
trim_cons test c (r ∷ rs) = c ∷ r ∷ rs

unfoldable pub trim_right : (ℕ → Bool) → Text → Text
trim_right test [] = []
trim_right test (c ∷ cs) = trim_cons test c (trim_right test cs)

unfoldable pub strip : Text → Text
strip s = trim_right is_space (drop_while is_space s)

-- `rstrip(…)` with one character
unfoldable pub rstrip : ℕ → Text → Text
rstrip b = trim_right (λ c. c == b)

abbrev pub same_text : Text → Text → Bool
same_text [] [] = true
same_text [] (d ∷ ds) = false
same_text (c ∷ cs) [] = false
same_text (c ∷ cs) (d ∷ ds) = c == d && same_text cs ds

unfoldable pub starts_with : Text → Text → Bool
starts_with [] s = true
starts_with (p ∷ ps) [] = false
starts_with (p ∷ ps) (c ∷ cs) = p == c && starts_with ps cs

unfoldable pub ends_with : Text → Text → Bool
ends_with suffix [] = same_text suffix []
ends_with suffix (c ∷ cs) = same_text suffix (c ∷ cs) || ends_with suffix cs

-- `[]` is the text before the first character read
abbrev pub prepend : ℕ → List Text → List Text
prepend c [] = (c ∷ []) ∷ []
prepend c (x ∷ xs) = (c ∷ x) ∷ xs

-- `split(…)` with one character
unfoldable pub split_on : ℕ → Text → List Text
split_on b [] = [] ∷ []
split_on b (c ∷ cs) = let rest = split_on b cs in if c == b then [] ∷ rest else prepend c rest

-- `splitlines()`; the flag says that a carriage return has just ended a line
unfoldable pub lines_after : Bool → Text → List Text
lines_after returned [] = []
lines_after returned (c ∷ cs) =
    let rest = lines_after (c == 13) cs in
    if returned && c == 10 then rest else if is_line_end c then [] ∷ rest else prepend c rest

abbrev pub splitlines : Text → List Text
splitlines = lines_after false

-- `"\n".join(…)`
unfoldable pub join_lines : List Text → Text
join_lines [] = []
join_lines (x ∷ []) = x
join_lines (x ∷ y ∷ xs) = x ++ 10 ∷ join_lines (y ∷ xs)

-- `text[:-4]`
unfoldable pub but_last_4 : Text → Text
but_last_4 (a ∷ b ∷ c ∷ d ∷ e ∷ rest) = a ∷ but_last_4 (b ∷ c ∷ d ∷ e ∷ rest)
but_last_4 _ = []
