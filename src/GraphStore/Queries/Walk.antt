-- ===== src/GraphStore/Queries/Walk.antt =====
-- graph_store.py: the neighbourhood walk finds what lies within its depth.
use activegraph_surrealdb.Prelude.{
  ℕ, zero, suc, String, ◌≡◌, ◌+◌, ◌↔◌, refl, subst, true, List, [], ◌∷◌, text_eq, arith, member,
  add_all,
}
use activegraph_surrealdb.Errors.{ok}
use activegraph_surrealdb.GraphStore.Rows.{GraphServer, GraphDb}
use activegraph_surrealdb.GraphStore.Session.{GraphHandle}
use activegraph_surrealdb.GraphStore.Relations.{query_relations}
use activegraph_surrealdb.GraphStore.Queries.{walk, next_frontier, relation_ids}
use activegraph_surrealdb.GraphStore.Queries.Reach.{Within, Crossed, incident}
use activegraph_surrealdb.GraphStore.Lifecycle.{at_rest, action_steps}
use activegraph_surrealdb.GraphStore.Rebuild.{GraphLaws}
use activegraph_surrealdb.Platform.{Platform}
use activegraph_surrealdb.GraphStore.Queries.Levels.{Progress, first_level, level_later, next_level}

module _ ⦃s : GraphServer⦄ (laws : GraphLaws s) (h : GraphHandle) (d : GraphDb s.tables) where
  -- what the walk returns after so many levels: the objects and the relations
  pub record Explored (start : String) (n : ℕ) (objs rels : List String) : Type 0 where
    pub objects : (v : String) → (member v objs ≡ true) ↔ Within h d start n v
    pub relations : (r : String) → (member r rels ≡ true) ↔ Crossed h d start n r

  Progress-Explored :
      (start : String) (n : ℕ) (objs frontier rels : List String)
      → Progress laws h d start n objs frontier rels
      → Explored start n objs rels
  Progress-Explored start n objs frontier rels l = record {
    objects = λ v. (l.sound v, l.complete v);
    relations = λ r. (l.rels_sound r, l.rels_complete r);
  }

  levels_later :
      (depth : ℕ) (start : String) (n m : ℕ) (objs rels : List String)
      → n + depth ≡ m
      → Progress laws h d start n objs [] rels
      → Progress laws h d start m objs [] rels
  levels_later zero start n m objs rels e l =
      subst (λ k. Progress laws h d start k objs [] rels) (omega (arith, e)) l
  levels_later (suc depth) start n m objs rels e l =
      levels_later depth start (suc n) m objs rels (omega (arith, e))
        (level_later laws h d start n objs rels l)

  module _ ⦃p : Platform⦄ where
    walk_on :
        (depth : ℕ) (start : String) (n m : ℕ) (objs frontier rels : List String)
        → n + depth ≡ m
        → Progress laws h d start n objs frontier rels
        → (objs' rels' : List String) × (walk depth objs frontier rels (at_rest h d)
            ≡ (ok (objs', rels'), at_rest h d))
          × Explored start m objs' rels'
    unfolding action_steps walk query_relations
    walk_on zero start n m objs frontier rels e l = (
      objs,
      rels,
      refl,
      subst (λ k. Explored start k objs rels) (omega (arith, e))
          (Progress-Explored start n objs frontier rels l),
    )
    walk_on (suc depth) start n m objs [] rels e l = (
      objs,
      rels,
      refl,
      Progress-Explored start m objs [] rels (levels_later (suc depth) start n m objs rels e l),
    )
    walk_on (suc depth) start n m objs (f ∷ frontier) rels e l =
        let found = incident h d (f ∷ frontier) in
        walk_on depth start (suc n) m (add_all (next_frontier objs found []) objs)
          (next_frontier objs found []) (relation_ids found rels) (omega (arith, e))
          (next_level laws h d start n objs (f ∷ frontier) rels l)

    -- In a quiet world the walk from one object returns, and finds exactly the objects that at most
    -- `depth` relations of the run lead to, in either direction, and exactly the IDs of the relations
    -- at an object that fewer than `depth` relations lead to.
    pub walk_explores :
        (depth : ℕ) (start : String)
        → (objs rels : List String) × (walk depth (start ∷ []) (start ∷ []) [] (at_rest h d)
            ≡ (ok (objs, rels), at_rest h d))
          × Explored start depth objs rels
    walk_explores depth start =
        walk_on depth start 0 depth (start ∷ []) (start ∷ []) [] (omega arith)
          (first_level laws h d start)
