-- ===== src/GraphStore/Queries/Levels.antt =====
-- graph_store.py: one level of the neighbourhood walk.
use activegraph_surrealdb.Prelude.{
  ℕ, suc, String, ◌≡◌, ◌⊎◌, inl, inr, subst, true, List, [], ◌∷◌, text_eq, arith, eq_iff, Elem,
  member, add_all, Bool-cases,
}
use activegraph_surrealdb.GraphStore.Rows.{RelationRow, GraphServer, GraphDb}
use activegraph_surrealdb.GraphStore.Session.{GraphHandle}
use activegraph_surrealdb.GraphStore.Queries.{next_frontier, relation_ids}
use activegraph_surrealdb.GraphStore.Queries.Reach.{
  Touches, Touches-is_endpoint, IsEdge, Within, Crossed, incident, incident-IsEdge, IsEdge-incident,
}
use activegraph_surrealdb.GraphStore.Queries.Sets.{
  member-add_all, member-next_frontier, member-relation_ids, is_endpoint_of, is_endpoint_of-Elem,
  is_id_of-Elem, Elem-is_endpoint_of, Elem-is_id_of,
}
use activegraph_surrealdb.GraphStore.Rebuild.{GraphLaws}

module _ ⦃s : GraphServer⦄ (laws : GraphLaws s) (h : GraphHandle) (d : GraphDb s.tables) where
  -- what the walk has seen after so many levels, with its frontier
  pub record Progress (start : String) (n : ℕ) (objs frontier rels : List String) : Type 0 where
    pub sound : (v : String) → member v objs ≡ true → Within h d start n v
    pub complete : (v : String) → Within h d start n v → member v objs ≡ true
    pub inside : (v : String) → member v frontier ≡ true → member v objs ≡ true
    pub settled :
        (u : String) (row : RelationRow)
        → member u objs ≡ true
        → IsEdge h d row
        → Touches u row
        → (member u frontier ≡ true)
          ⊎ ((member row.content.relation_id rels ≡ true)
              × ((v : String) → Touches v row → member v objs ≡ true))
    pub rels_sound : (r : String) → member r rels ≡ true → Crossed h d start n r
    pub rels_complete : (r : String) → Crossed h d start n r → member r rels ≡ true

  pub first_level : (start : String) → Progress start 0 (start ∷ []) (start ∷ []) []
  first_level start = record {
    sound = λ v m. ground (arith, m, eq_iff v start);
    complete = λ v w. ground (arith, w, eq_iff v start);
    inside = λ v m. m;
    settled = λ u row m edge touching. inl m;
    rels_sound = λ r m. absurd (cc m);
    rels_complete = λ r c. absurd c;
  }

  -- An empty frontier has nothing left to find.
  pub level_later :
      (start : String) (n : ℕ) (objs rels : List String)
      → Progress start n objs [] rels
      → Progress start (suc n) objs [] rels
  level_later start n objs rels l = record {
    sound = λ v m. inl (l.sound v m);
    complete = λ v w. elim w [
      | inl old ↦ l.complete v old
      | inr (u, row, near, edge, tu, tv) ↦ elim (l.settled u row (l.complete u near) edge tu) [
        | inl waiting ↦ absurd (cc waiting)
        | inr (known, ends) ↦ ends v tv
      ]
    ];
    inside = l.inside;
    settled = l.settled;
    rels_sound = λ r m. inl (l.rels_sound r m);
    rels_complete = λ r c. elim c [
      | inl old ↦ l.rels_complete r old
      | inr (u, row, near, edge, tu, same) ↦ elim (l.settled u row (l.complete u near) edge tu) [
        | inl waiting ↦ absurd (cc waiting)
        | inr (known, ends) ↦ subst (λ t. member t rels ≡ true) same known
      ]
    ];
  }

  module _ (start : String) (n : ℕ) (objs frontier rels : List String)
      (l : Progress start n objs frontier rels) where
    abbrev reached : List String
    reached = next_frontier objs (incident h d frontier) []

    old_object : (v : String) → member v objs ≡ true → member v (add_all reached objs) ≡ true
    old_object v m = ground (arith, member-add_all v reached objs)

    new_endpoint :
        (v : String) (row : RelationRow)
        → Elem row (incident h d frontier)
        → Touches v row
        → member v (add_all reached objs) ≡ true
    new_endpoint v row inside touching = ground (
      arith,
      member-add_all v reached objs,
      member-next_frontier objs v (incident h d frontier) [],
      Elem-is_endpoint_of v row (incident h d frontier) inside
          ((Touches-is_endpoint v row).0 touching),
    )

    seen_cases :
        (v : String)
        → member v (add_all reached objs) ≡ true
        → (member v objs ≡ true) ⊎ (is_endpoint_of v (incident h d frontier) ≡ true)
    seen_cases v m = elim (Bool-cases (member v objs)) [
      | inl old ↦ inl old
      | inr new ↦ inr (
          ground (
            arith,
            m,
            new,
            member-add_all v reached objs,
            member-next_frontier objs v (incident h d frontier) [],
          ))
    ]

    next_sound : (v : String) → member v (add_all reached objs) ≡ true → Within h d start (suc n) v
    next_sound v m = elim (seen_cases v m) [
      | inl old ↦ inl (l.sound v old)
      | inr ends ↦
          let (row, inside, at_end) = is_endpoint_of-Elem v (incident h d frontier) ends in
          let (edge, (u, waiting, tu)) = incident-IsEdge h d laws frontier row inside in
          inr
            (u, row, l.sound u (l.inside u waiting), edge, tu, (Touches-is_endpoint v row).1 at_end)
    ]

    next_complete :
        (v : String) → Within h d start (suc n) v → member v (add_all reached objs) ≡ true
    next_complete v (inl old) = old_object v (l.complete v old)
    next_complete v (inr (u, row, near, edge, tu, tv)) =
        elim (l.settled u row (l.complete u near) edge tu) [
          | inl waiting ↦
              new_endpoint v row (IsEdge-incident h d laws frontier row u edge waiting tu) tv
          | inr (known, ends) ↦ old_object v (ends v tv)
        ]

    old_relation :
        (r : String)
        → member r rels ≡ true
        → member r (relation_ids (incident h d frontier) rels) ≡ true
    old_relation r m = ground (arith, member-relation_ids r (incident h d frontier) rels)

    new_relation :
        (row : RelationRow)
        → Elem row (incident h d frontier)
        → member row.content.relation_id (relation_ids (incident h d frontier) rels) ≡ true
    new_relation row inside = ground (
      arith,
      member-relation_ids row.content.relation_id (incident h d frontier) rels,
      Elem-is_id_of row (incident h d frontier) inside,
    )

    next_rels_sound :
        (r : String)
        → member r (relation_ids (incident h d frontier) rels) ≡ true
        → Crossed h d start (suc n) r
    next_rels_sound r m = elim (Bool-cases (member r rels)) [
      | inl old ↦ inl (l.rels_sound r old)
      | inr new ↦
          let (row, inside, same) =
            is_id_of-Elem r (incident h d frontier)
              (ground (arith, m, new, member-relation_ids r (incident h d frontier) rels)) in
          let (edge, (u, waiting, tu)) = incident-IsEdge h d laws frontier row inside in
          inr (u, row, l.sound u (l.inside u waiting), edge, tu, same)
    ]

    next_rels_complete :
        (r : String)
        → Crossed h d start (suc n) r
        → member r (relation_ids (incident h d frontier) rels) ≡ true
    next_rels_complete r (inl old) = old_relation r (l.rels_complete r old)
    next_rels_complete r (inr (u, row, near, edge, tu, same)) =
        subst (λ t. member t (relation_ids (incident h d frontier) rels) ≡ true) same
          (elim (l.settled u row (l.complete u near) edge tu) [
            | inl waiting ↦
                new_relation row (IsEdge-incident h d laws frontier row u edge waiting tu)
            | inr (known, ends) ↦ old_relation row.content.relation_id known
          ])

    next_settled :
        (u : String) (row : RelationRow)
        → member u (add_all reached objs) ≡ true
        → IsEdge h d row
        → Touches u row
        → (member u reached ≡ true)
          ⊎ ((member row.content.relation_id (relation_ids (incident h d frontier) rels) ≡ true)
              × ((v : String) → Touches v row → member v (add_all reached objs) ≡ true))
    next_settled u row m edge tu = elim (Bool-cases (member u objs)) [
      | inr new ↦ inl (ground (arith, m, new, member-add_all u reached objs))
      | inl old ↦ elim (l.settled u row old edge tu) [
        | inl waiting ↦
            let inside = IsEdge-incident h d laws frontier row u edge waiting tu in
            inr (new_relation row inside, λ v tv. new_endpoint v row inside tv)
        | inr (known, ends) ↦
            inr (old_relation row.content.relation_id known, λ v tv. old_object v (ends v tv))
      ]
    ]

    pub next_level :
        Progress start
          (suc n)
          (add_all reached objs)
          reached
          (relation_ids (incident h d frontier) rels)
    next_level = record {
      sound = next_sound;
      complete = next_complete;
      inside = λ v m. ground (arith, m, member-add_all v reached objs);
      settled = next_settled;
      rels_sound = next_rels_sound;
      rels_complete = next_rels_complete;
    }
