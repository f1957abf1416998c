-- ===== src/Harness/Loading.antt =====
-- harness.py: the names in `loaded_packs`, however far the loading of packs gets.
use mathlib.Core.List.{append-nil, append_assoc}
use activegraph_surrealdb.Prelude.{
  String, ◌≡◌, refl, sym, ap, ◌∙◌, false, ◌||◌, ◌==◌, text_eq, Option, none, some, List, [], ◌∷◌,
  ◌++◌, arith, eq_iff, member, add_new, Bool-cases, inl, inr,
}
use activegraph_surrealdb.Errors.{Error}
use activegraph_surrealdb.Exec.{World, modify, call}
use activegraph_surrealdb.Exec.Triples.{
  Triple, Triple-pure, Triple-fail, Triple-lift, Triple-bind, Triple-try_else,
}
use activegraph_surrealdb.Exec.Held.{Holds-call}
use activegraph_surrealdb.Harness.{
  Interpreter, Python, PackLoader, Session, Loading, import_module, import_pack, could_not_import,
  is_import_error, load_with, load_module, load_modules,
}

-- no name twice
abbrev pub Distinct : List String → Type 0
Distinct [] = Unit
Distinct (x ∷ xs) = (member x xs ≡ false) × Distinct xs

member-snoc : (v t : String) (xs : List String) → member v (xs ++ t ∷ []) ≡ (member v xs || t == v)
member-snoc v t [] = ground (arith, eq_iff v t, eq_iff t v)
member-snoc v t (x ∷ xs) = ground (arith, member-snoc v t xs)

Distinct-snoc :
    (t : String) (xs : List String) → member t xs ≡ false → Distinct xs → Distinct (xs ++ t ∷ [])
Distinct-snoc t [] m d = (refl, tt)
Distinct-snoc t (x ∷ xs) m d = (
  ground (arith, m, d.0, member-snoc x t xs, eq_iff t x),
  Distinct-snoc t xs (ground (arith, m)) d.1,
)

-- the names of an earlier list, and others behind them, none of them twice
pub record Grown (base names : List String) : Type 0 where
  pub more : List String
  pub extends : names ≡ base ++ more
  pub distinct : Distinct names

Grown-add_new :
    (base names : List String) (t : String) → Grown base names → Grown base (add_new t names)
Grown-add_new base names t g = elim (Bool-cases (member t names)) [
  | inl there ↦ rw there g
  | inr new ↦ rw new (record {
    more = g.more ++ t ∷ [];
    extends = ap (λ r. r ++ t ∷ []) g.extends ∙ append_assoc base g.more (t ∷ []);
    distinct = Distinct-snoc t names new g.distinct;
  })
]

-- what no step of the loading of packs changes
pub record Stable ⦃p : Python⦄ {State : Type 0} ⦃r : PackLoader p State⦄
    (P : World (Session p.Module) State → Type 0) : Type 0 where
  pub imports :
      (w : World (Session p.Module) State) (i : Interpreter p.Module)
      → P w
      → P (record w { handle = record w.handle { interpreter = i } })
  pub adds :
      (w : World (Session p.Module) State) (name : String)
      → P w
      → P (record w {
        handle = record w.handle { loaded_packs = add_new name w.handle.loaded_packs };
      })
  pub loads : (pack : p.Pack) → Triple P (λ (u : Unit {0}). Unit {0}) (call (r.load_pack pack))
  pub loads_with :
      (settings : p.Settings) (pack : p.Pack)
      → Triple P (λ (u : Unit {0}). Unit {0}) (call (r.load_pack_with settings pack))

module _ ⦃p : Python⦄ {State : Type 0} ⦃r : PackLoader p State⦄
    (P : World (Session p.Module) State → Type 0) (stable : Stable P) where
  abbrev Keeps : {A : Type 0} → Loading State A → Type 0
  Keeps m = Triple P (λ a. Unit) m

  Keeps-import_module : (name : String) → Keeps (import_module name)
  unfolding import_module
  Keeps-import_module name = record { at = λ w g. (stable.imports w _ g, λ a e. tt) }

  Keeps-could_not_import : (name : String) (exc : Error) → Keeps (could_not_import name exc)
  Keeps-could_not_import name exc = elim (Bool-cases (is_import_error exc.kind)) [
    | inl missing ↦ rw missing (Triple-fail _)
    | inr other ↦ rw other (Triple-fail _)
  ]

  Keeps-import_pack : (name : String) (root : Option String) → Keeps (import_pack name root)
  unfolding import_pack modify
  Keeps-import_pack name root = Triple-bind _ _ (Triple-lift _ (λ a e. tt)) λ chosen _.
      Triple-bind {R = λ u. Unit {0}} _ _ (record { at = λ w g. (stable.imports w _ g, λ a e. tt) })
        λ _ _.
          Triple-try_else _ _ _ (Keeps-import_module _) (Keeps-could_not_import name)
            (λ found _. Triple-pure found tt)

  Keeps-load_with : (pack : p.Pack) (settings : Option p.Settings) → Keeps (load_with pack settings)
  Keeps-load_with pack none = stable.loads pack
  Keeps-load_with pack (some settings) = stable.loads_with settings pack

  module _ (settings : String → Option p.Settings) (root : Option String) where
    Keeps-load_module : (name : String) → Keeps (load_module settings root name)
    unfolding load_module modify
    Keeps-load_module name = Triple-bind _ _ (Keeps-import_pack name root) λ found _.
        Triple-bind _ _ (Triple-lift _ (λ a e. tt)) λ pack _.
          Triple-bind _ _ (Keeps-load_with pack (settings name))
            λ _ _. record { at = λ w g. (stable.adds w (p.pack_name pack) g, λ a e. tt) }

    pub Keeps-load_modules :
        (modules : List String)
        → Triple P (λ (u : Unit {0}). Unit {0}) (load_modules settings root modules)
    unfolding load_modules
    Keeps-load_modules [] = Triple-pure tt tt
    Keeps-load_modules (name ∷ modules) =
        Triple-bind _ _ (Keeps-load_module name) λ _ _. Keeps-load_modules modules

abbrev Names : {M D : Type 0} → List String → World (Session M) D → Type 0
Names base w = Grown base w.handle.loaded_packs

Names-Stable :
    ⦃p : Python⦄ {State : Type 0} ⦃r : PackLoader p State⦄ (base : List String)
    → Stable {State = State} (Names base)
Names-Stable base = record {
  imports = λ w i g. g;
  adds = λ w name g. Grown-add_new base w.handle.loaded_packs name g;
  loads = λ pack. Holds-call (λ h. Grown base h.loaded_packs) _;
  loads_with = λ settings pack. Holds-call (λ h. Grown base h.loaded_packs) _;
}

-- From a list of loaded names that has no name twice, however far the loading of packs gets, whether it
-- returns or raises, the names loaded before stay in their places, and no name is in the list twice.
pub load_modules-Grown :
    ⦃p : Python⦄ {State : Type 0} ⦃r : PackLoader p State⦄ (settings : String → Option p.Settings)
    (root : Option String) (modules : List String) (w : World (Session p.Module) State)
    → Distinct w.handle.loaded_packs
    → Grown w.handle.loaded_packs (load_modules settings root modules w).1.handle.loaded_packs
load_modules-Grown settings root modules w d =
    ((Keeps-load_modules (Names w.handle.loaded_packs) (Names-Stable w.handle.loaded_packs) settings
        root modules).at
      w (record { more = []; extends = sym (append-nil w.handle.loaded_packs); distinct = d })).0
