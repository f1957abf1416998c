-- ===== src/Strings/Trimming.antt =====
-- What `strip` and `rstrip` leave, and the texts that they leave alone.
use activegraph_surrealdb.Prelude.{
  ℕ, ◌≡◌, refl, ap, Bool, false, ◌||◌, ◌==◌, nat_eq, [], ◌∷◌, arith, ◌∙◌,
}
use activegraph_surrealdb.Strings.{Text, is_space, drop_while, trim_cons, trim_right, strip}

abbrev pub first_passes : (ℕ → Bool) → Text → Bool
first_passes test [] = false
first_passes test (c ∷ cs) = test c

abbrev pub last_passes : (ℕ → Bool) → Text → Bool
last_passes test [] = false
last_passes test (c ∷ []) = test c
last_passes test (c ∷ d ∷ cs) = last_passes test (d ∷ cs)

abbrev pub occurs : ℕ → Text → Bool
occurs b [] = false
occurs b (c ∷ cs) = c == b || occurs b cs

-- no whitespace at either end
pub record IsTrimmed (s : Text) : Type 0 where
  pub front : first_passes is_space s ≡ false
  pub back : last_passes is_space s ≡ false

module _ (test : ℕ → Bool) where
  first_passes-drop_while : (s : Text) → first_passes test (drop_while test s) ≡ false
  unfolding drop_while
  first_passes-drop_while [] = refl
  first_passes-drop_while (c ∷ cs) = ground (arith, first_passes-drop_while cs)

  last_passes-trim_cons :
      (c : ℕ) (r : Text)
      → last_passes test r ≡ false
      → last_passes test (trim_cons test c r) ≡ false
  last_passes-trim_cons c [] h = ground arith
  last_passes-trim_cons c (d ∷ r) h = h

  pub last_passes-trim_right : (s : Text) → last_passes test (trim_right test s) ≡ false
  unfolding trim_right
  last_passes-trim_right [] = refl
  last_passes-trim_right (c ∷ cs) =
      last_passes-trim_cons c (trim_right test cs) (last_passes-trim_right cs)

  first_passes-trim_cons :
      (other : ℕ → Bool) (c : ℕ) (r : Text)
      → other c ≡ false
      → first_passes other (trim_cons test c r) ≡ false
  first_passes-trim_cons other c [] h = ground arith
  first_passes-trim_cons other c (d ∷ r) h = h

  pub first_passes-trim_right :
      (other : ℕ → Bool) (s : Text)
      → first_passes other s ≡ false
      → first_passes other (trim_right test s) ≡ false
  unfolding trim_right
  first_passes-trim_right other [] h = refl
  first_passes-trim_right other (c ∷ cs) h = first_passes-trim_cons other c (trim_right test cs) h

  trim_cons_kept :
      (c : ℕ) (cs : Text) → last_passes test (c ∷ cs) ≡ false → trim_cons test c cs ≡ c ∷ cs
  trim_cons_kept c [] h = ground arith
  trim_cons_kept c (d ∷ cs) h = refl

  last_passes_rest :
      (c : ℕ) (cs : Text) → last_passes test (c ∷ cs) ≡ false → last_passes test cs ≡ false
  last_passes_rest c [] h = refl
  last_passes_rest c (d ∷ cs) h = h

  pub trim_right_kept : (s : Text) → last_passes test s ≡ false → trim_right test s ≡ s
  unfolding trim_right
  trim_right_kept [] h = refl
  trim_right_kept (c ∷ cs) h =
      rw (trim_right_kept cs (last_passes_rest c cs h)) (trim_cons_kept c cs h)

  drop_while_kept : (s : Text) → first_passes test s ≡ false → drop_while test s ≡ s
  unfolding drop_while
  drop_while_kept [] h = refl
  drop_while_kept (c ∷ cs) h = ground (arith, h)

  -- Nothing is added.
  occurs-drop_while : (b : ℕ) (s : Text) → occurs b s ≡ false → occurs b (drop_while test s) ≡ false
  unfolding drop_while
  occurs-drop_while b [] h = refl
  occurs-drop_while b (c ∷ cs) h = ground (arith, occurs-drop_while b cs)

  occurs-trim_cons :
      (b c : ℕ) (r : Text)
      → (c == b) ≡ false
      → occurs b r ≡ false
      → occurs b (trim_cons test c r) ≡ false
  occurs-trim_cons b c [] h k = ground arith
  occurs-trim_cons b c (d ∷ r) h k = ground (arith, h, k)

  occurs-trim_right : (b : ℕ) (s : Text) → occurs b s ≡ false → occurs b (trim_right test s) ≡ false
  unfolding trim_right
  occurs-trim_right b [] h = refl
  occurs-trim_right b (c ∷ cs) h =
      occurs-trim_cons b c (trim_right test cs) (ground (arith, h))
        (occurs-trim_right b cs (ground (arith, h)))

pub strip-IsTrimmed : (s : Text) → IsTrimmed (strip s)
unfolding strip
strip-IsTrimmed s = record {
  front =
      first_passes-trim_right is_space is_space (drop_while is_space s)
        (first_passes-drop_while is_space s);
  back = last_passes-trim_right is_space (drop_while is_space s);
}

pub strip_kept : (s : Text) → IsTrimmed s → strip s ≡ s
unfolding strip
strip_kept s t =
    ap (trim_right is_space) (drop_while_kept is_space s t.front)
    ∙ trim_right_kept is_space s t.back

pub occurs-strip : (b : ℕ) (s : Text) → occurs b s ≡ false → occurs b (strip s) ≡ false
unfolding strip
occurs-strip b s h =
    occurs-trim_right is_space b (drop_while is_space s) (occurs-drop_while is_space b s h)
