-- ===== src/Connection/Reported.antt =====
-- connection.py: `server_version`, which looks for a version in what the server reports of itself, with
-- the pattern `(?:surrealdb[- ]v?)?(?P<version>\d+\.\d+\.\d+)`. The event store's own pattern in
-- event_store.py differs in the optional prefix only. No prefix has a digit, so the group is always the
-- leftmost version in the text; `\d` is read as 0 to 9.
use mathlib.Core.List.{append-nil}
use activegraph_surrealdb.Prelude.{
  ℕ, ◌≡◌, refl, sym, ap, ◌∙◌, Bool, ◌&&◌, ◌==◌, nat_eq, leb, Option, none, some, [], ◌∷◌, ◌++◌,
  arith, Option-cases, inl, inr, if◌then◌else◌,
}
use activegraph_surrealdb.Strings.{Text}

abbrev pub is_digit : ℕ → Bool
is_digit c = leb 48 c && leb c 57

-- `\d+` takes all digits that follow, and gives none back: a dot must come behind them
unfoldable pub digits_of : Text → Text
digits_of [] = []
digits_of (c ∷ rest) = let more = digits_of rest in if is_digit c then c ∷ more else []

unfoldable pub after_digits : Text → Text
after_digits [] = []
after_digits (c ∷ rest) = let later = after_digits rest in if is_digit c then later else c ∷ rest

-- one or more digits, and what comes behind them
abbrev pub some_digits : Text → Option Text
some_digits [] = none
some_digits (d ∷ ds) = some (d ∷ ds)

-- `\.` and what comes behind it
abbrev pub after_dot : Text → Option Text
after_dot [] = none
after_dot (c ∷ rest) = if c == b'.' then some rest else none

abbrev pub patch_at : Text → Text → Option Text → Option Text
patch_at major minor none = none
patch_at major minor (some patch) = some (major ++ (b'.' ∷ (minor ++ (b'.' ∷ patch))))

abbrev pub behind_minor : Text → Text → Option Text → Option Text
behind_minor major minor none = none
behind_minor major minor (some rest) = patch_at major minor (some_digits (digits_of rest))

abbrev pub minor_at : Text → Text → Option Text → Option Text
minor_at major rest none = none
minor_at major rest (some minor) = behind_minor major minor (after_dot (after_digits rest))

abbrev pub behind_major : Text → Option Text → Option Text
behind_major major none = none
behind_major major (some rest) = minor_at major rest (some_digits (digits_of rest))

abbrev pub major_at : Text → Option Text → Option Text
major_at text none = none
major_at text (some major) = behind_major major (after_dot (after_digits text))

-- the version that begins a text
unfoldable pub version_at : Text → Option Text
version_at text = major_at text (some_digits (digits_of text))

abbrev pub found_or_later : Option Text → Option Text → Option Text
found_or_later none later = later
found_or_later (some version) later = some version

-- `_VERSION_RE.search(raw)`
unfoldable pub search_version : Text → Option Text
search_version [] = none
search_version (c ∷ rest) =
    let later = search_version rest in found_or_later (version_at (c ∷ rest)) later

abbrev pub or_raw : Text → Option Text → Text
or_raw raw none = raw
or_raw raw (some version) = version

-- `match.group("version") if match else raw`
unfoldable pub reported_version : Text → Text
reported_version raw = or_raw raw (search_version raw)

digits_of-append :
    (xs rest : Text) → digits_of (digits_of xs ++ rest) ≡ digits_of xs ++ digits_of rest
unfolding digits_of
digits_of-append [] rest = refl
digits_of-append (x ∷ xs) rest = ground (arith, digits_of-append xs rest)

after_digits-append : (xs rest : Text) → after_digits (digits_of xs ++ rest) ≡ after_digits rest
unfolding digits_of after_digits
after_digits-append [] rest = refl
after_digits-append (x ∷ xs) rest = ground (arith, after_digits-append xs rest)

digits_of-dot : (xs rest : Text) → digits_of (digits_of xs ++ b'.' ∷ rest) ≡ digits_of xs
unfolding digits_of
digits_of-dot xs rest = digits_of-append xs (b'.' ∷ rest) ∙ append-nil (digits_of xs)

digits_of-digits_of : (xs : Text) → digits_of (digits_of xs) ≡ digits_of xs
unfolding digits_of
digits_of-digits_of [] = refl
digits_of-digits_of (x ∷ xs) = ground (arith, digits_of-digits_of xs)

-- three numerals with dots between them
record Dotted (v : Text) : Type 0 where
  major : Text
  minor : Text
  patch : Text
  has_major : some_digits (digits_of major) ≡ some (digits_of major)
  has_minor : some_digits (digits_of minor) ≡ some (digits_of minor)
  has_patch : some_digits (digits_of patch) ≡ some (digits_of patch)
  written : v ≡ digits_of major ++ (b'.' ∷ (digits_of minor ++ (b'.' ∷ digits_of patch)))

some_digits-same : (xs ys : Text) → some_digits xs ≡ some ys → xs ≡ ys
some_digits-same [] ys e = absurd (cc (e))
some_digits-same (x ∷ xs) ys e = cc (e)

whole :
    (xs ys : Text)
    → some_digits (digits_of xs) ≡ some ys
    → some_digits (digits_of xs) ≡ some (digits_of xs)
whole xs ys e = e ∙ ap some (sym (some_digits-same (digits_of xs) ys e))

module _ (v text : Text) where
  Dotted-patch :
      (major minor rest left : Text) (p : Option Text)
      → some_digits (digits_of text) ≡ some major
      → some_digits (digits_of rest) ≡ some minor
      → some_digits (digits_of left) ≡ p
      → patch_at major minor p ≡ some v
      → Dotted v
  Dotted-patch major minor rest left none a b c e = absurd (cc (e))
  Dotted-patch major minor rest left (some patch) a b c e = record {
    major = text;
    minor = rest;
    patch = left;
    has_major = whole text major a;
    has_minor = whole rest minor b;
    has_patch = whole left patch c;
    written = cc (
      e,
      some_digits-same (digits_of text) major a,
      some_digits-same (digits_of rest) minor b,
      some_digits-same (digits_of left) patch c,
    );
  }

  Dotted-behind_minor :
      (major minor rest : Text) (left : Option Text)
      → some_digits (digits_of text) ≡ some major
      → some_digits (digits_of rest) ≡ some minor
      → behind_minor major minor left ≡ some v
      → Dotted v
  Dotted-behind_minor major minor rest none a b e = absurd (cc (e))
  Dotted-behind_minor major minor rest (some left) a b e =
      Dotted-patch major minor rest left (some_digits (digits_of left)) a b refl e

  Dotted-minor :
      (major rest : Text) (m : Option Text)
      → some_digits (digits_of text) ≡ some major
      → some_digits (digits_of rest) ≡ m
      → minor_at major rest m ≡ some v
      → Dotted v
  Dotted-minor major rest none a b e = absurd (cc (e))
  Dotted-minor major rest (some minor) a b e =
      Dotted-behind_minor major minor rest (after_dot (after_digits rest)) a b e

  Dotted-behind_major :
      (major : Text) (rest : Option Text)
      → some_digits (digits_of text) ≡ some major
      → behind_major major rest ≡ some v
      → Dotted v
  Dotted-behind_major major none a e = absurd (cc (e))
  Dotted-behind_major major (some rest) a e =
      Dotted-minor major rest (some_digits (digits_of rest)) a refl e

  Dotted-major :
      (m : Option Text) → some_digits (digits_of text) ≡ m → major_at text m ≡ some v → Dotted v
  Dotted-major none a e = absurd (cc (e))
  Dotted-major (some major) a e = Dotted-behind_major major (after_dot (after_digits text)) a e

  version_at-Dotted : version_at text ≡ some v → Dotted v
  unfolding version_at
  version_at-Dotted e = Dotted-major (some_digits (digits_of text)) refl e

after_dot-append :
    (xs rest : Text) → after_dot (after_digits (digits_of xs ++ b'.' ∷ rest)) ≡ some rest
unfolding after_digits
after_dot-append xs rest = ap after_dot (after_digits-append xs (b'.' ∷ rest))

Dotted-version_at : (v : Text) → Dotted v → version_at v ≡ some v
unfolding version_at
Dotted-version_at v d =
    let x = digits_of d.major in
    let y = digits_of d.minor in
    let z = digits_of d.patch in
    rw d.written (
      rw (digits_of-dot d.major (y ++ b'.' ∷ z)) (
        rw d.has_major (
          rw (after_dot-append d.major (y ++ b'.' ∷ z)) (
            rw (digits_of-dot d.minor z) (
              rw d.has_minor (
                rw (after_dot-append d.minor z)
                  (rw (digits_of-digits_of d.patch) (rw d.has_patch refl))))))))

search_version-Dotted : (raw v : Text) → search_version raw ≡ some v → Dotted v
unfolding search_version
search_version-Dotted [] v e = absurd (cc (e))
search_version-Dotted (c ∷ rest) v e = elim (Option-cases (version_at (c ∷ rest))) [
  | inl none_here ↦
      search_version-Dotted rest v
        (sym (ap (λ f. found_or_later f (search_version rest)) none_here) ∙ e)
  | inr (found, here) ↦
      version_at-Dotted v (c ∷ rest)
        (here ∙ sym (ap (λ f. found_or_later f (search_version rest)) here) ∙ e)
]

search_version-version_at : (v : Text) → version_at v ≡ some v → search_version v ≡ some v
unfolding search_version version_at digits_of
search_version-version_at [] e = absurd (cc (e))
search_version-version_at (c ∷ rest) e = ap (λ f. found_or_later f (search_version rest)) e

-- Whatever the server reports, looking for the version again, in the version that was found, changes
-- nothing: the event store's `server_version` is that of its connection.
pub reported_version-reported_version :
    (raw : Text) → reported_version (reported_version raw) ≡ reported_version raw
unfolding reported_version
reported_version-reported_version raw = elim (Option-cases (search_version raw)) [
  | inl missing ↦ rw missing (rw missing refl)
  | inr (v, found) ↦ rw found (
      rw (search_version-version_at v (Dotted-version_at v (search_version-Dotted raw v found)))
        refl)
]
