-- ===== src/Surreal/Sorting.antt =====
-- Insertion in order, and what a filter does to it.
use activegraph_surrealdb.Prelude.{
  ◌≡◌, refl, sym, Bool, true, false, inl, inr, List, [], ◌∷◌, All, keep_if, if◌then◌else◌,
  Bool-cases, arith,
}
use activegraph_surrealdb.Surreal.{insert_by, IsOrder}

pub All-keep_if :
    {A : Type 0} (P : A → Type 0) (q : A → Bool) (xs : List A) → All P xs → All P (keep_if q xs)
All-keep_if P q [] h = tt
All-keep_if P q (x ∷ xs) h = elim (Bool-cases (q x)) [
  | inl e ↦ rw e (h.0, All-keep_if P q xs h.1)
  | inr e ↦ rw e (All-keep_if P q xs h.1)
]

module _ {Row : Type 0} (before : Row → Row → Bool) (order : IsOrder before) where
  -- no row precedes one that stands before it
  abbrev pub Sorted : List Row → Type 0
  Sorted [] = Unit
  Sorted (x ∷ xs) = All (λ y. before y x ≡ false) xs × Sorted xs

  first :
      (r : Row) (ys : List Row) → All (λ y. before r y ≡ true) ys → insert_by before r ys ≡ r ∷ ys
  unfolding insert_by
  first r [] h = refl
  first r (y ∷ ys) h = rw h.0

  before-All :
      (r x : Row) (ys : List Row)
      → before r x ≡ true
      → All (λ y. before y x ≡ false) ys
      → All (λ y. before r y ≡ true) ys
  before-All r x [] h k = tt
  before-All r x (y ∷ ys) h k = (order.trans_weak r x y h k.0, before-All r x ys h k.1)

  All-insert_by :
      (P : Row → Type 0) (r : Row) (xs : List Row) → P r → All P xs → All P (insert_by before r xs)
  unfolding insert_by
  All-insert_by P r [] p h = (p, tt)
  All-insert_by P r (x ∷ xs) p h = elim (Bool-cases (before r x)) [
    | inl e ↦ rw e (p, h)
    | inr e ↦ rw e (h.0, All-insert_by P r xs p h.1)
  ]

  none_before :
      (r : Row) (ys : List Row) → All (λ y. before r y ≡ true) ys → All (λ y. before y r ≡ false) ys
  none_before r [] h = tt
  none_before r (y ∷ ys) h = (order.asym r y h.0, none_before r ys h.1)

  pub Sorted-insert_by : (r : Row) (xs : List Row) → Sorted xs → Sorted (insert_by before r xs)
  unfolding insert_by
  Sorted-insert_by r [] s = (tt, tt)
  Sorted-insert_by r (x ∷ xs) s = elim (Bool-cases (before r x)) [
    | inl e ↦ rw e (none_before r (x ∷ xs) (e, before-All r x xs e s.0), s)
    | inr e ↦ rw e (All-insert_by (λ y. before y x ≡ false) r xs e s.0, Sorted-insert_by r xs s.1)
  ]

  pub keep_if-insert_by :
      (q : Row → Bool) (r : Row) (xs : List Row)
      → Sorted xs
      → keep_if q (insert_by before r xs)
        ≡ (if q r then insert_by before r (keep_if q xs) else keep_if q xs)
  unfolding insert_by
  keep_if-insert_by q r [] s = ground arith
  keep_if-insert_by q r (x ∷ xs) s = elim (Bool-cases (before r x)) [
    | inl e ↦
        let k =
          first r (keep_if q (x ∷ xs))
            (All-keep_if (λ y. before r y ≡ true) q (x ∷ xs) (e, before-All r x xs e s.0)) in
        elim (Bool-cases (q r)) [ inl f ↦ rw (e, f) (sym k) | inr f ↦ rw (e, f) ]
    | inr e ↦ elim (Bool-cases (q r)) [
      | inl f ↦ ground (arith, keep_if-insert_by q r xs s.1)
      | inr f ↦ ground (arith, keep_if-insert_by q r xs s.1)
    ]
  ]
