-- ===== src/Samples/Packs.antt =====
-- Tests and witnesses for the packs of harness.py.
use activegraph_surrealdb.Prelude.{
  String, ◌≡◌, ◌↔◌, ◌⊎◌, refl, ap, Bool, ◌==◌, ◌||◌, text_eq, Option, none, some, List, [], ◌∷◌,
  if◌then◌else◌,
}
use activegraph_surrealdb.Errors.{Result, ok, raised, import_error}
use activegraph_surrealdb.Exec.{World, pure, fail, lift, modify, call, try_else, ◌>>=◌}
use activegraph_surrealdb.Strings.{starts_with}
use activegraph_surrealdb.EventStore.Chain.{format}
use activegraph_surrealdb.Harness.{
  Interpreter, Python, PackLoader, Session, cached, del_module, del_modules, packs_names, of_packs,
  resolves_to, evict_foreign_packs, ensure_importable, import_module, import_pack, load_module,
  load_modules,
}
use activegraph_surrealdb.Harness.Importing.{searched, ImportLaws, IsOfRoot, import_pack_wins_iff}
use activegraph_surrealdb.Harness.Loading.{Grown, load_modules-Grown}

-- A module is the directory of its package. The checkouts /a and /b have packs.
abbrev checkout : String → Bool
checkout directory = directory == "/a/packs" || directory == "/b/packs"

abbrev join_packs : String → String
join_packs root = format (root ∷ "/packs" ∷ [])

abbrev first_checkout : List String → Option String
first_checkout [] = none
first_checkout (entry ∷ rest) =
    let later = first_checkout rest in if checkout (join_packs entry) then some entry else later

abbrev import_from :
    Option String → Option String → Interpreter String → Result String × Interpreter String
import_from (some old) entry i = (ok old, i)
import_from none none i = (raised import_error "No module named 'packs'", i)
import_from none (some entry) i =
    (ok (join_packs entry), record i { modules = ("packs", join_packs entry) ∷ i.modules })

instance abbrev pub two_checkouts : Python
two_checkouts = record {
  Module = String;
  Pack = String;
  Settings = Unit {0};
  package_path = λ m. m ∷ [];
  exported = λ m. some m;
  pack_name = λ pack. pack;
  environ = λ name. none;
  expanduser = λ path. path;
  packs_in = join_packs;
  is_dir = checkout;
  resolve = λ path. path;
  import_module = λ name i. import_from (cached "packs" i.modules) (first_checkout i.path) i;
}

instance abbrev inert : PackLoader two_checkouts (Unit {0})
inert = record { load_pack = λ pack s. (ok tt, s); load_pack_with = λ settings pack s. (ok tt, s) }

searched-first_checkout : (path : List String) → searched path ≡ first_checkout path
searched-first_checkout [] = refl
searched-first_checkout (entry ∷ rest) =
    ap (λ later. if checkout (join_packs entry) then some entry else later)
      (searched-first_checkout rest)

import_from_keeps :
    (i : Interpreter String) (found entry : Option String) (old : String)
    → cached "packs" i.modules ≡ some old
    → found ≡ some old
    → cached "packs" (import_from found entry i).1.modules ≡ some old
import_from_keeps i none entry old h e = absurd (cc)
import_from_keeps i (some o) entry old h e = h

import_from_finds :
    (i : Interpreter String) (found entry : Option String) (at : String)
    → found ≡ none
    → entry ≡ some at
    → cached "packs" (import_from found entry i).1.modules ≡ some (join_packs at)
unfolding cached
import_from_finds i (some o) entry at h e = absurd (cc)
import_from_finds i none none at h e = absurd (cc)
import_from_finds i none (some a) at h e =
    let same : a ≡ at = cc in ap (λ x. some (join_packs x)) same

two_checkouts-ImportLaws : ImportLaws two_checkouts
two_checkouts-ImportLaws = record {
  keeps = λ name i m old r h.
      import_from_keeps i (cached "packs" i.modules) (first_checkout i.path) old h h;
  finds = λ name entry i m r h s. (
    join_packs entry,
    import_from_finds i (cached "packs" i.modules) (first_checkout i.path) entry h
        (rw (searched-first_checkout i.path) s),
    refl,
  );
}

abbrev from_b : List String → World (Session String) (Unit {0})
from_b path = record {
  handle = record {
    interpreter = record {
      path = path;
      modules =
          ("json", "/lib/json") ∷ ("packs", "/b/packs") ∷ ("packs.core", "/b/packs/core") ∷ [];
    };
    loaded_packs = "seed" ∷ [];
  };
  db = tt;
  schedule = [];
}

unfoldable packs_run : Unit {0}
unfolding pure fail lift modify call try_else ◌>>=◌ starts_with cached del_module del_modules
    packs_names of_packs resolves_to evict_foreign_packs ensure_importable import_module import_pack
    load_module load_modules
packs_run = tt

-- a checkout that is new to the search path is imported
new_checkout_test : (import_pack "core" (some "/a") (from_b ("/b" ∷ []))).0 ≡ ok "/a/packs"
unfolding packs_run
new_checkout_test = refl

-- one that is there behind another is not
old_checkout_test : (import_pack "core" (some "/a") (from_b ("/b" ∷ "/a" ∷ []))).0 ≡ ok "/b/packs"
unfolding packs_run
old_checkout_test = refl

import_pack_wins_iff_example :
    IsOfRoot two_checkouts-ImportLaws "/a" (
      cached "packs"
        (import_pack "core" (some "/a") (from_b ("/b" ∷ []))).1.handle.interpreter.modules)
    ↔ (IsOfRoot two_checkouts-ImportLaws "/a" (some "/b/packs")
        ⊎ (join_packs "/a" ≡ join_packs "/a"))
unfolding packs_run
import_pack_wins_iff_example =
    import_pack_wins_iff two_checkouts-ImportLaws "core" "/a" "/a" (from_b ("/b" ∷ [])) "/a/packs"
      refl refl

load_modules-Grown_example :
    Grown
      ("seed" ∷ [])
      (load_modules
        (λ name. none)
        (some "/a")
        ("core" ∷ "chat" ∷ [])
        (from_b ("/b" ∷ []))).1.handle.loaded_packs
load_modules-Grown_example =
    load_modules-Grown (λ name. none) (some "/a") ("core" ∷ "chat" ∷ []) (from_b ("/b" ∷ []))
      (refl, tt)
