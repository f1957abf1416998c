-- ===== src/Surreal/Memory.antt =====
-- A table in memory that meets the laws of `Collection`: the laws can hold, and examples run.
use activegraph_surrealdb.Prelude.{
  String, ◌≡◌, refl, ap, sym, ◌∙◌, ◌↔◌, ◌⊎◌, inl, inr, Bool, ◌&&◌, true, not, text_eq, Option, none,
  some, List, [], ◌∷◌, Elem, keep_if, if◌then◌else◌, Bool-cases, arith, eq_iff,
}
use activegraph_surrealdb.Keys.{RecordId, same_id}
use activegraph_surrealdb.Surreal.{Collection, CollectionLaws, insert_by, keep_option, IsOrder}
use activegraph_surrealdb.Surreal.Sorting.{Sorted, Sorted-insert_by, keep_if-insert_by}

pub same_id_iff : (a b : RecordId) → (same_id a b ≡ true) ↔ (a ≡ b)
unfolding same_id
same_id_iff a b = (
  λ h. ground (arith, eq_iff a.table b.table, eq_iff a.key b.key),
  λ h. ground (arith, h, eq_iff a.table b.table, eq_iff a.key b.key),
)

same_id_flip : (a b : RecordId) → same_id a b ≡ same_id b a
unfolding same_id
same_id_flip a b =
    ground (
      arith,
      eq_iff a.table b.table,
      eq_iff a.key b.key,
      eq_iff b.table a.table,
      eq_iff b.key a.key,
    )

-- equal records are equal to the same records
same_id_left : (a b j : RecordId) → same_id a b ≡ true → same_id a j ≡ same_id b j
same_id_left a b j h = ap (λ k. same_id k j) ((same_id_iff a b).0 h)

same_id_self : (k : RecordId) → same_id k k ≡ true
same_id_self k = (same_id_iff k k).1 refl

none-some : {A : Type 0} {a : A} → none ≡ some a → ⊥
none-some e = cc

module _ {Row : Type 0} where
  unfoldable pub lookup : RecordId → List (RecordId × Row) → Option Row
  lookup j [] = none
  lookup j ((k, r) ∷ t) = if same_id k j then some r else lookup j t

  -- no record stands twice
  abbrev pub Unique : List (RecordId × Row) → Type 0
  Unique [] = Unit
  Unique ((k, r) ∷ t) = (lookup k t ≡ none) × Unique t

  abbrev pub rows : List (RecordId × Row) → List Row
  rows [] = []
  rows ((k, r) ∷ t) = r ∷ rows t

  unfoldable pub sort : (Row → Row → Bool) → List Row → List Row
  unfolding insert_by
  sort before [] = []
  sort before (r ∷ rs) = insert_by before r (sort before rs)

  lookup-keep_if :
      (p : RecordId × Row → Bool) (j : RecordId) (t : List (RecordId × Row))
      → lookup j t ≡ none
      → lookup j (keep_if p t) ≡ none
  unfolding lookup
  lookup-keep_if p j [] h = refl
  lookup-keep_if p j ((k, r) ∷ t) h = ground (arith, lookup-keep_if p j t)

  pub Unique-keep_if :
      (p : RecordId × Row → Bool) (t : List (RecordId × Row)) → Unique t → Unique (keep_if p t)
  Unique-keep_if p [] h = tt
  Unique-keep_if p ((k, r) ∷ t) h = ground (arith, lookup-keep_if p k t h.0, Unique-keep_if p t h.1)

  abbrev pub without : RecordId → List (RecordId × Row) → List (RecordId × Row)
  without k = keep_if (λ e. not (same_id k e.0))

  lookup-without :
      (k j : RecordId) (t : List (RecordId × Row))
      → lookup j (without k t) ≡ (if same_id k j then none else lookup j t)
  unfolding lookup
  lookup-without k j [] = ground arith
  lookup-without k j ((i, r) ∷ t) =
      ground (arith, lookup-without k j t, same_id_left k i j, same_id_left k j i, same_id_flip i j)

  without_absent : (k : RecordId) (t : List (RecordId × Row)) → lookup k t ≡ none → without k t ≡ t
  unfolding lookup
  without_absent k [] h = refl
  without_absent k ((i, r) ∷ t) h = ground (arith, without_absent k t, same_id_flip k i)

  lookup_same :
      (k j : RecordId) (t : List (RecordId × Row)) → same_id k j ≡ true → lookup k t ≡ lookup j t
  lookup_same k j t h = ap (λ i. lookup i t) ((same_id_iff k j).0 h)

  lookup-without_gone :
      (gone : Row → Bool) (j : RecordId) (t : List (RecordId × Row))
      → Unique t
      → lookup j (keep_if (λ e. not (gone e.1)) t) ≡ keep_option (λ r. not (gone r)) (lookup j t)
  unfolding lookup
  lookup-without_gone gone j [] u = refl
  lookup-without_gone gone j ((k, r) ∷ t) u =
      ground (arith, lookup-without_gone gone j t u.1, lookup_same k j t)

  Elem-insert_by :
      (before : Row → Row → Bool) (r x : Row) (xs : List Row)
      → Elem r (insert_by before x xs) ↔ ((r ≡ x) ⊎ Elem r xs)
  unfolding insert_by
  Elem-insert_by before r x [] = (λ h. h, λ h. h)
  Elem-insert_by before r x (y ∷ ys) =
      let (f, g) = Elem-insert_by before r x ys in
      elim (Bool-cases (before x y)) [
        | inl e ↦ rw e (λ h. h, λ h. h)
        | inr e ↦ rw e (
          λ h. elim h [
            | inl q ↦ inr (inl q)
            | inr m ↦ elim (f m) [ inl q ↦ inl q | inr n ↦ inr (inr n) ]
          ],
          λ h. elim h [
            | inl q ↦ inr (g (inl q))
            | inr m ↦ elim m [ inl q ↦ inl q | inr n ↦ inr (g (inr n)) ]
          ],
        )
      ]

  module _ (keep : Row → Bool) (before : Row → Row → Bool) where
    abbrev pub query : List (RecordId × Row) → List Row
    query t = sort before (keep_if keep (rows t))

    query-cons :
        (k : RecordId) (r : Row) (t : List (RecordId × Row))
        → query ((k, r) ∷ t) ≡ (if keep r then insert_by before r (query t) else query t)
    unfolding sort
    query-cons k r t = ground arith

    Elem-step :
        (r : Row) (k : RecordId) (x : Row) (t : List (RecordId × Row))
        → Elem r (query ((k, x) ∷ t)) ↔ ((keep x ≡ true) × (r ≡ x) ⊎ Elem r (query t))
    Elem-step r k x t = elim (Bool-cases (keep x)) [
      | inl e ↦
          let (f, g) = Elem-insert_by before r x (query t) in
          rw (query-cons k x t, e)
            (
              λ h. elim (f h) [ inl q ↦ inl (refl, q) | inr m ↦ inr m ],
              λ h. elim h [ inl q ↦ g (inl q.1) | inr m ↦ g (inr m) ],
            )
      | inr e ↦
          rw (query-cons k x t, e) (λ h. inr h, λ h. elim h [ inl q ↦ absurd (cc) | inr m ↦ m ])
    ]

    Elem-query :
        (k : RecordId) (r : Row) (t : List (RecordId × Row))
        → lookup k t ≡ some r
        → keep r ≡ true
        → Elem r (query t)
    unfolding lookup
    Elem-query k r [] h e = absurd (cc)
    Elem-query k r ((i, x) ∷ t) h e = elim (Bool-cases (same_id i k)) [
      | inl same ↦ let q : x ≡ r = ground arith in (Elem-step r i x t).1 (inl (rw (q, e), sym q))
      | inr other ↦ (Elem-step r i x t).1 (inr (Elem-query k r t (ground arith) e))
    ]

    query_sound :
        (r : Row) (t : List (RecordId × Row))
        → Unique t
        → Elem r (query t)
        → (keep r ≡ true) × (k : RecordId) × (lookup k t ≡ some r)
    unfolding lookup sort
    query_sound r [] u h = absurd h
    query_sound r ((i, x) ∷ t) u h = elim ((Elem-step r i x t).0 h) [
      | inl (e, q) ↦ (rw q e, i, rw (same_id_self i) (ap some (sym q)))
      | inr m ↦
          let (e, k, f) = query_sound r t u.1 m in
          (
            e,
            k,
            elim (Bool-cases (same_id i k)) [
              | inl same ↦ absurd (none-some (sym u.0 ∙ lookup_same i k t same ∙ f))
              | inr other ↦ rw other f
            ],
          )
    ]

module _ {Row : Type 0} (before : Row → Row → Bool) (order : IsOrder before)
    (keep gone : Row → Bool) where
  query-Sorted : (t : List (RecordId × Row)) → Sorted before order (query keep before t)
  unfolding sort
  query-Sorted [] = tt
  query-Sorted ((k, r) ∷ t) = elim (Bool-cases (keep r)) [
    | inl e ↦ rw e (Sorted-insert_by before order r (query keep before t) (query-Sorted t))
    | inr e ↦ rw e (query-Sorted t)
  ]

  query-gone :
      (t : List (RecordId × Row))
      → query keep before (keep_if (λ e. not (gone e.1)) t)
        ≡ keep_if (λ r. not (gone r)) (query keep before t)
  unfolding sort
  query-gone [] = refl
  query-gone ((k, r) ∷ t) = ground (
    arith,
    query-gone t,
    keep_if-insert_by before order (λ r. not (gone r)) r (query keep before t) (query-Sorted t),
  )

  query-and :
      (t : List (RecordId × Row))
      → query (λ r. keep r && gone r) before t ≡ keep_if gone (query keep before t)
  unfolding sort
  query-and [] = refl
  query-and ((k, r) ∷ t) = ground (
    arith,
    query-and t,
    keep_if-insert_by before order gone r (query keep before t) (query-Sorted t),
  )

abbrev pub refusal : {Row : Type 0} → Option Row → Option String
refusal none = none
refusal (some r) = some "Database record already exists"

pub write_unique :
    {Row : Type 0} (k : RecordId) (t : List (RecordId × Row)) → lookup k (without k t) ≡ none
write_unique k t = lookup-without k k t ∙ ap (λ b. if b then none else lookup k t) (same_id_self k)

refused_taken :
    {Row : Type 0} (found : Option Row) (old : Row) → refusal found ≡ none → found ≡ some old → ⊥
refused_taken none old h e = cc
refused_taken (some r) old h e = cc

abbrev pub memory : (Row : Type 0) → Collection Row
memory Row = record {
  Table = (t : List (RecordId × Row)) × Unique t;
  select = λ t k. lookup k t.0;
  refuses = λ k r t. refusal (lookup k t.0);
  write = λ k r t. ((k, r) ∷ without k t.0, (write_unique k t.0, Unique-keep_if _ t.0 t.1));
  delete = λ k t. (without k t.0, Unique-keep_if _ t.0 t.1);
  delete_where = λ gone t. (keep_if (λ e. not (gone e.1)) t.0, Unique-keep_if _ t.0 t.1);
  select_where = λ keep before t. query keep before t.0;
}

pub memory-CollectionLaws : (Row : Type 0) → CollectionLaws (memory Row)
unfolding lookup
memory-CollectionLaws Row = record {
  select-write = λ k r t j. ground (arith, lookup-without k j t.0);
  select-delete = λ k t j. lookup-without k j t.0;
  select-delete_where = λ gone t j. lookup-without_gone gone j t.0 t.1;
  refuses_taken = λ k r old t h e. refused_taken (lookup k t.0) old h e;
  Elem-select_where = λ keep before t k r h e. Elem-query keep before k r t.0 h e;
  select_where_sound = λ keep before t r h. query_sound keep before r t.0 t.1 h;
  select_where-write =
      λ keep before k r t h e a. rw (without_absent k t.0 h, query-cons keep before k r t.0, e);
  select_where-write_other =
      λ keep before k r t h e. rw (without_absent k t.0 h, query-cons keep before k r t.0, e);
  select_where-delete_where = λ keep before gone t order. query-gone before order keep gone t.0;
  select_where-and = λ keep more before t order. query-and before order keep more t.0;
}
