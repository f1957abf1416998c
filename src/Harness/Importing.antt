-- ===== src/Harness/Importing.antt =====
-- harness.py: which checkout an import of a pack reads.
use activegraph_surrealdb.Prelude.{
  String, ◌≡◌, ◌≢◌, refl, sym, subst, ap, ◌↔◌, ◌⊎◌, ◌∙◌, true, false, text_eq, Option, none, some,
  List, [], ◌∷◌, arith, eq_iff, member, if◌then◌else◌, Bool-cases, inl, inr,
}
use activegraph_surrealdb.Errors.{Error, Result, ok, err}
use activegraph_surrealdb.Exec.{World, pure, fail, lift, modify, try_else, ◌>>=◌, settle}
use activegraph_surrealdb.EventStore.Chain.{format}
use activegraph_surrealdb.Harness.{
  Session, import_module, import_pack, could_not_import, is_import_error, resolves_to, Interpreter,
  Python, cached, of_packs, is_foreign, ensure_importable,
}
use activegraph_surrealdb.Harness.Evicting.{cached-evict_foreign_packs}

module _ ⦃p : Python⦄ where
  -- the first entry of the search path with packs in it
  abbrev pub searched : List String → Option String
  searched [] = none
  searched (entry ∷ rest) =
      let later = searched rest in if p.is_dir (p.packs_in entry) then some entry else later

-- What the code relies on: an import of a pack that returns leaves a cached `packs` as it is, and
-- otherwise caches the `packs` of the first entry of the search path that has it.
pub record ImportLaws (p : Python) : Type 0 where
  pub keeps :
      (name : String) (i : Interpreter p.Module) (m old : p.Module)
      → (p.import_module (format ("packs." ∷ name ∷ [])) i).0 ≡ ok m
      → cached "packs" i.modules ≡ some old
      → cached "packs" (p.import_module (format ("packs." ∷ name ∷ [])) i).1.modules ≡ some old
  pub finds :
      (name entry : String) (i : Interpreter p.Module) (m : p.Module)
      → (p.import_module (format ("packs." ∷ name ∷ [])) i).0 ≡ ok m
      → cached "packs" i.modules ≡ none
      → searched ⦃p = p⦄ i.path ≡ some entry
      → (new : p.Module) × (cached "packs"
            (p.import_module (format ("packs." ∷ name ∷ [])) i).1.modules
          ≡ some new)
        × (p.package_path new ≡ p.packs_in entry ∷ [])

module _ ⦃p : Python⦄ (laws : ImportLaws p) where
  -- the cached `packs` is of the checkout
  abbrev pub IsOfRoot : String → Option p.Module → Type 0
  IsOfRoot root found =
      (m : p.Module) × (found ≡ some m)
      × (resolves_to (p.resolve (p.packs_in root)) (p.package_path m) ≡ true)

  raises_not_import :
      (name : String) (exc : Error) {State : Type 0} (w : World (Session p.Module) State)
      (m : p.Module)
      → (could_not_import name exc w).0 ≢ ok m
  unfolding fail
  raises_not_import name exc w m = elim (Bool-cases (is_import_error exc.kind)) [
    | inl missing ↦ λ h. absurd (ground (arith, h, missing))
    | inr other ↦ λ h. absurd (ground (arith, h, other))
  ]

  settled_import :
      (name : String) (r : Result p.Module) {State : Type 0} (w : World (Session p.Module) State)
      (m : p.Module)
      → (settle r pure (could_not_import name) w).0 ≡ ok m
      → (r ≡ ok m) × ((settle r pure (could_not_import name) w).1 ≡ w)
  unfolding pure
  settled_import name (ok found) w m h = (h, refl)
  settled_import name (err exc) w m h = absurd (raises_not_import name exc w m h)

  -- what `import_pack` does when it returns
  import_pack-ok :
      (name root : String) {State : Type 0} (w : World (Session p.Module) State) (m : p.Module)
      → (import_pack name (some root) w).0 ≡ ok m
      → let i = ensure_importable root w.handle.interpreter in
        let after = p.import_module (format ("packs." ∷ name ∷ [])) i in
        (after.0 ≡ ok m) × ((import_pack name (some root) w).1.handle.interpreter ≡ after.1)
  unfolding import_pack lift modify ◌>>=◌ try_else import_module
  import_pack-ok name root w m h =
      let (a, b) = settled_import name _ _ m h in (a, ap (λ v. v.handle.interpreter) b)

  IsOfRoot-not_foreign :
      (root : String) (found : Option p.Module)
      → IsOfRoot root found
      → is_foreign root found ≡ false
  IsOfRoot-not_foreign root found (m, e, same) = rw e (rw same refl)

  not_foreign-IsOfRoot :
      (root : String) (m : p.Module) → is_foreign root (some m) ≡ false → IsOfRoot root (some m)
  not_foreign-IsOfRoot root m h = (m, refl, ground (arith, h))

  cached-ensure_importable :
      (root : String) (i : Interpreter p.Module)
      → cached "packs" (ensure_importable root i).modules
        ≡ (if is_foreign root (cached "packs" i.modules) then none else cached "packs" i.modules)
  unfolding ensure_importable of_packs
  cached-ensure_importable root i = elim (Bool-cases (member root i.path)) [
    | inl there ↦ rw there (ground (arith, cached-evict_foreign_packs "packs" root i))
    | inr new ↦ rw new (
        ground (arith, cached-evict_foreign_packs "packs" root (record i { path = root ∷ i.path })))
  ]

  -- the module found under a fresh import is of the checkout if the entry is
  fresh-IsOfRoot :
      (root entry : String) (new : p.Module)
      → p.package_path new ≡ p.packs_in entry ∷ []
      → IsOfRoot root (some new) ↔ (p.resolve (p.packs_in entry) ≡ p.resolve (p.packs_in root))
  unfolding resolves_to
  fresh-IsOfRoot root entry new e = (
    λ (m, same, found).
        let k : new ≡ m = cc in
        ground (
          arith,
          e,
          found,
          ap p.package_path k,
          eq_iff (p.resolve (p.packs_in entry)) (p.resolve (p.packs_in root)),
        ),
    λ same. (
      new,
      refl,
      rw e (ground (arith, eq_iff (p.resolve (p.packs_in entry)) (p.resolve (p.packs_in root)))),
    ),
  )

  abbrev after_import : String → Interpreter p.Module → Option p.Module
  after_import name i = cached "packs" (p.import_module (format ("packs." ∷ name ∷ [])) i).1.modules

  freshly_imported :
      (name root entry : String) (i : Interpreter p.Module) (m : p.Module)
      (before : Option p.Module)
      → cached "packs" i.modules ≡ none
      → ¬ IsOfRoot root before
      → (p.import_module (format ("packs." ∷ name ∷ [])) i).0 ≡ ok m
      → searched i.path ≡ some entry
      → IsOfRoot root (after_import name i)
        ↔ (IsOfRoot root before ⊎ (p.resolve (p.packs_in entry) ≡ p.resolve (p.packs_in root)))
  freshly_imported name root entry i m before c n h s =
      let (new, found, at_entry) = laws.finds name entry i m h c s in
      let (to, from) = fresh-IsOfRoot root entry new at_entry in
      (
        λ q. inr (to (subst (IsOfRoot root) found q)),
        λ q. elim q [
          | inl own ↦ absurd (n own)
          | inr same ↦ subst (IsOfRoot root) (sym found) (from same)
        ],
      )

  imported-IsOfRoot :
      (name root entry : String) (i : Interpreter p.Module) (m : p.Module)
      (before : Option p.Module)
      → cached "packs" i.modules ≡ before
      → (p.import_module (format ("packs." ∷ name ∷ [])) (ensure_importable root i)).0 ≡ ok m
      → searched (ensure_importable root i).path ≡ some entry
      → IsOfRoot root (after_import name (ensure_importable root i))
        ↔ (IsOfRoot root before ⊎ (p.resolve (p.packs_in entry) ≡ p.resolve (p.packs_in root)))
  imported-IsOfRoot name root entry i m none e h s =
      freshly_imported name root entry (ensure_importable root i) m none
        (cached-ensure_importable root i ∙ rw e refl) (λ (m, f, q). absurd (cc (f))) h s
  imported-IsOfRoot name root entry i m (some old) e h s =
      elim (Bool-cases (is_foreign root (some old))) [
        | inl foreign ↦
            freshly_imported name root entry (ensure_importable root i) m (some old)
              (cached-ensure_importable root i ∙ rw e (rw foreign refl))
              (λ q. absurd (cc (foreign, IsOfRoot-not_foreign root (some old) q))) h s
        | inr own ↦
            let there = cached-ensure_importable root i ∙ rw e (rw own refl) in
            let kept = laws.keeps name (ensure_importable root i) m old h there in
            (
              λ q. inl (subst (IsOfRoot root) kept q),
              λ q. subst (IsOfRoot root) (sym kept) (not_foreign-IsOfRoot root old own),
            )
      ]

  -- When `import_pack` of a checkout returns, the cached `packs` is of that checkout exactly if it was
  -- so before, or if the first entry of the search path that has packs, with the checkout added in
  -- front unless it is there somewhere, leads to the same packs.
  pub import_pack_wins_iff :
      (name root entry : String) {State : Type 0} (w : World (Session p.Module) State)
      (m : p.Module)
      → (import_pack name (some root) w).0 ≡ ok m
      → searched (ensure_importable root w.handle.interpreter).path ≡ some entry
      → IsOfRoot root (cached "packs" (import_pack name (some root) w).1.handle.interpreter.modules)
        ↔ (IsOfRoot root (cached "packs" w.handle.interpreter.modules)
            ⊎ (p.resolve (p.packs_in entry) ≡ p.resolve (p.packs_in root)))
  import_pack_wins_iff name root entry w m h s =
      let (done, after) = import_pack-ok name root w m h in
      let (to, from) = imported-IsOfRoot name root entry w.handle.interpreter m _ refl done s in
      let same = ap (λ i. cached "packs" i.modules) after in
      (λ q. to (subst (IsOfRoot root) same q), λ q. subst (IsOfRoot root) (sym same) (from q))
