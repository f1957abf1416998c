-- ===== src/Connection/Statements.antt =====
-- connection.py: `_schema_statements`, which cuts the text of schema.surql into statements.
use activegraph_surrealdb.Prelude.{
  ℕ, ◌≡◌, ◌≢◌, refl, Bool, false, not, ◌==◌, nat_eq, List, [], ◌∷◌, ◌++◌, keep_if, codes, arith,
  All, Bool-cases, inl, inr,
}
use activegraph_surrealdb.Strings.{
  Text, is_space, drop_while, strip, starts_with, prepend, split_on, splitlines, join_lines,
}
use activegraph_surrealdb.Strings.Trimming.{IsTrimmed, occurs, strip-IsTrimmed, occurs-strip}

-- `not line.lstrip().startswith("--")`
unfoldable pub is_kept_line : Text → Bool
is_kept_line line = not (starts_with (codes "--") (drop_while is_space line))

unfoldable pub uncommented : Text → Text
uncommented source = join_lines (keep_if is_kept_line (splitlines source))

-- what the loop yields for one stripped fragment
abbrev pub statement : Text → List Text
statement [] = []
statement (c ∷ cs) = ((c ∷ cs) ++ b';' ∷ []) ∷ []

unfoldable pub fragments : List Text → List Text
fragments [] = []
fragments (fragment ∷ rest) = statement (strip fragment) ++ fragments rest

unfoldable pub schema_statements : Text → List Text
schema_statements source = fragments (split_on b';' (uncommented source))

-- One statement: text with no semicolon in it, not blank and with no whitespace at its ends, and one
-- semicolon behind it.
pub record IsStatement (text : Text) : Type 0 where
  pub body : Text
  pub ended : text ≡ body ++ b';' ∷ []
  pub single : occurs b';' body ≡ false
  pub filled : body ≢ []
  pub trimmed : IsTrimmed body

prepend-All :
    (b c : ℕ) (xs : List Text)
    → (c == b) ≡ false
    → All (λ x. occurs b x ≡ false) xs
    → All (λ x. occurs b x ≡ false) (prepend c xs)
prepend-All b c [] h k = (ground (arith, h), tt)
prepend-All b c (x ∷ xs) h k = (ground (arith, h, k.0), k.1)

split_on-All : (b : ℕ) (s : Text) → All (λ x. occurs b x ≡ false) (split_on b s)
unfolding split_on
split_on-All b [] = (refl, tt)
split_on-All b (c ∷ cs) = elim (Bool-cases (c == b)) [
  | inl cut ↦ rw cut (refl, split_on-All b cs)
  | inr inside ↦ rw inside (prepend-All b c (split_on b cs) inside (split_on-All b cs))
]

statement-All :
    (s : Text)
    → occurs b';' s ≡ false
    → IsTrimmed s
    → (rest : List Text) → All IsStatement rest
    → All IsStatement (statement s ++ rest)
statement-All [] h t rest k = k
statement-All (c ∷ cs) h t rest k = (
  record { body = c ∷ cs; ended = refl; single = h; filled = λ e. absurd (cc e); trimmed = t },
  k,
)

fragments-All :
    (xs : List Text) → All (λ x. occurs b';' x ≡ false) xs → All IsStatement (fragments xs)
unfolding fragments
fragments-All [] h = tt
fragments-All (x ∷ xs) h =
    statement-All (strip x) (occurs-strip b';' x h.0) (strip-IsTrimmed x) (fragments xs)
      (fragments-All xs h.1)

-- Whatever the text, each piece that it is cut into is one statement, so that no query holds two.
pub schema_statements-All : (source : Text) → All IsStatement (schema_statements source)
unfolding schema_statements
schema_statements-All source =
    fragments-All (split_on b';' (uncommented source)) (split_on-All b';' (uncommented source))
