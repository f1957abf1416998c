-- ===== src/Harness/Evicting.antt =====
-- harness.py: what `_evict_foreign_packs` forgets.
use activegraph_surrealdb.Prelude.{
  String, ◌≡◌, refl, ap, true, false, ◌&&◌, ◌==◌, text_eq, none, List, [], ◌∷◌, arith, eq_iff,
  member, if◌then◌else◌, Bool-cases, inl, inr,
}
use activegraph_surrealdb.Harness.{
  Interpreter, Python, cached, del_module, del_modules, packs_names, of_packs, is_foreign,
  evict_foreign_packs,
}

module _ {Module : Type 0} where
  cached-del_module :
      (name gone : String) (modules : List (String × Module))
      → cached name (del_module gone modules) ≡ (if gone == name then none else cached name modules)
  unfolding cached del_module
  cached-del_module name gone [] = ground arith
  cached-del_module name gone ((key, m) ∷ rest) =
      ground (
        arith,
        cached-del_module name gone rest,
        eq_iff key gone,
        eq_iff key name,
        eq_iff gone name,
      )

  cached-del_modules :
      (name : String) (gone : List String) (modules : List (String × Module))
      → cached name (del_modules gone modules)
        ≡ (if member name gone then none else cached name modules)
  unfolding del_modules
  cached-del_modules name [] modules = refl
  cached-del_modules name (g ∷ gone) modules = ground (
    arith,
    cached-del_modules name gone (del_module g modules),
    cached-del_module name g modules,
    eq_iff name g,
    eq_iff g name,
  )

  packs_names-of_packs :
      (name : String) (modules : List (String × Module))
      → member name (packs_names modules) ≡ true
      → of_packs name ≡ true
  unfolding packs_names
  packs_names-of_packs name [] h = absurd (cc)
  packs_names-of_packs name ((key, m) ∷ rest) h = elim (Bool-cases (key == name)) [
    | inl same ↦
        let e : key ≡ name = ground (arith, same, eq_iff key name) in
        elim (Bool-cases (of_packs name)) [
          | inl packs ↦ packs
          | inr other ↦ packs_names-of_packs name rest (ground (arith, h, other, ap of_packs e))
        ]
    | inr other ↦
        packs_names-of_packs name rest (ground (arith, h, other, eq_iff name key, eq_iff key name))
  ]

  cached-packs_names :
      (name : String) (modules : List (String × Module))
      → of_packs name ≡ true
      → member name (packs_names modules) ≡ false
      → cached name modules ≡ none
  unfolding cached packs_names
  cached-packs_names name [] h k = refl
  cached-packs_names name ((key, m) ∷ rest) h k = elim (Bool-cases (key == name)) [
    | inl same ↦
        let e : key ≡ name = ground (arith, same, eq_iff key name) in
        absurd (ground (arith, h, k, ap of_packs e, eq_iff name key))
    | inr other ↦
        let later = cached-packs_names name rest h (ground (arith, h, k, other, eq_iff name key)) in
        ground (arith, later, other)
  ]

module _ ⦃p : Python⦄ where
  -- `_evict_foreign_packs` forgets the modules of the packs, all of them, if the cached `packs` is
  -- not of the given checkout, and nothing else; otherwise it forgets nothing.
  pub cached-evict_foreign_packs :
      (name root : String) (i : Interpreter p.Module)
      → cached name (evict_foreign_packs root i).modules ≡ (
          if is_foreign root (cached "packs" i.modules) && of_packs name
          then none
          else cached name i.modules)
  unfolding evict_foreign_packs
  cached-evict_foreign_packs name root i = ground (
    arith,
    cached-del_modules name (packs_names i.modules) i.modules,
    packs_names-of_packs name i.modules,
    cached-packs_names name i.modules,
  )
