-- ===== src/GraphStore/ObjectSeq.antt =====
-- graph_store.py: `_object_seq` and its pattern `#(?P<seq>\d+)$`, whose `\d` is read as the digits
-- 0 to 9.
use activegraph_surrealdb.Prelude.{
  ℕ, String, ◌+◌, ◌-◌, ◌*◌, ◌<◌, ◌≡◌, refl, Bool, true, false, ◌&&◌, Option, none, some, List, [],
  ◌∷◌, ◌++◌, ◌==◌, nat_eq, leb, arith, All, codes, if◌then◌else◌,
}

-- at a character that is no digit
abbrev newline_end : Bool → ℕ → ℕ → List ℕ → Option ℕ
newline_end true value c [] = if c == 10 then some value else none
newline_end _ value c rest = none

-- The value of a run of digits that ends the text, or ends it but for one newline, as `$` allows.
-- `\d` is read as 0 to 9; `seen` says that a digit has gone before.
unfoldable pub trailing_digits : Bool → ℕ → List ℕ → Option ℕ
trailing_digits seen value [] = if seen then some value else none
trailing_digits seen value (c ∷ rest) =
    let later = trailing_digits true (value * 10 + (c - 48)) rest in
    if leb 48 c && leb c 57 then later else newline_end seen value c rest

-- `search`: the leftmost `#` from which the pattern matches
unfoldable pub search_seq : List ℕ → Option ℕ
unfolding trailing_digits
search_seq [] = none
search_seq (c ∷ rest) =
    let later = search_seq rest in
    if c == b'#'
    then elim (trailing_digits false 0 rest) [ some n ↦ some n | none ↦ later ]
    else later

abbrev pub or_zero : Option ℕ → ℕ
or_zero none = 0
or_zero (some n) = n

unfoldable pub object_seq : String → ℕ
unfolding search_seq
object_seq object_id = or_zero (search_seq (codes object_id))

-- the digits of a numeral, most significant first, and their value
abbrev pub digits_value : ℕ → List ℕ → ℕ
digits_value value [] = value
digits_value value (d ∷ ds) = digits_value (value * 10 + d) ds

abbrev pub digit_codes : List ℕ → List ℕ
digit_codes [] = []
digit_codes (d ∷ ds) = (d + 48) ∷ digit_codes ds

trailing-digit_codes :
    (seen : Bool) (value d : ℕ) (ds : List ℕ)
    → All (λ x. x < 10) (d ∷ ds)
    → trailing_digits seen value (digit_codes (d ∷ ds)) ≡ some (digits_value value (d ∷ ds))
unfolding trailing_digits
trailing-digit_codes seen value d [] h = ground arith
trailing-digit_codes seen value d (e ∷ ds) h =
    ground (arith, trailing-digit_codes true (value * 10 + d) e ds h.1)

-- no run of digits reaches past a `#`
trailing_digits-hash :
    (seen : Bool) (value : ℕ) (xs : List ℕ) (c : ℕ) (rest : List ℕ)
    → trailing_digits seen value (xs ++ b'#' ∷ c ∷ rest) ≡ none
unfolding trailing_digits
trailing_digits-hash true value [] c rest = ground arith
trailing_digits-hash false value [] c rest = ground arith
trailing_digits-hash true value (x ∷ []) c rest =
    ground (arith, trailing_digits-hash true (value * 10 + (x - 48)) [] c rest)
trailing_digits-hash false value (x ∷ []) c rest =
    ground (arith, trailing_digits-hash true (value * 10 + (x - 48)) [] c rest)
trailing_digits-hash true value (x ∷ y ∷ xs) c rest =
    ground (arith, trailing_digits-hash true (value * 10 + (x - 48)) (y ∷ xs) c rest)
trailing_digits-hash false value (x ∷ y ∷ xs) c rest =
    ground (arith, trailing_digits-hash true (value * 10 + (x - 48)) (y ∷ xs) c rest)

-- Whatever stands before it, hash signs included, the counter of an object ID that ends in `#` and
-- one or more decimal digits is the number that those digits write.
pub search_seq-digits :
    (before : List ℕ) (d : ℕ) (ds : List ℕ)
    → All (λ x. x < 10) (d ∷ ds)
    → search_seq (before ++ b'#' ∷ digit_codes (d ∷ ds)) ≡ some (digits_value 0 (d ∷ ds))
unfolding search_seq
search_seq-digits [] d ds h = ground (arith, trailing-digit_codes false 0 d ds h)
search_seq-digits (x ∷ before) d ds h = ground (
  arith,
  search_seq-digits before d ds h,
  trailing_digits-hash false 0 before (d + 48) (digit_codes ds),
)

object_seq_task : object_seq "task#12" ≡ 12
unfolding object_seq
object_seq_task = refl

object_seq_foreign : object_seq "task#12a" ≡ 0
unfolding object_seq
object_seq_foreign = refl
