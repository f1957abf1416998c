-- ===== src/Serde/Hashing.antt =====
-- serde.py: `event_hash` tells apart all that it hashes.
use activegraph_surrealdb.Prelude.{
  ℕ, String, ◌≡◌, ◌≢◌, ◌⊎◌, inl, inr, refl, ◌∙◌, ap, Option, none, some, List, [], ◌∷◌, ◌++◌, ◌==◌,
  text_eq, if◌then◌else◌,
}
use mathlib.Core.List.{List-discrete}
use native.Mathlib.Decide.{ℕ_discrete}
use activegraph_surrealdb.Errors.{Result, ok, bind-eq-ok}
use activegraph_surrealdb.Platform.{Platform, JsonLaws, adapt}
use activegraph_surrealdb.Serde.{
  Event, canonical_json, event_hash, optional_value, preimage_before, preimage_after,
}
use activegraph_surrealdb.Serde.RoundTrip.{loads-canonical_json}

abbrev pub or_else {ℓ} : {A : Type ℓ} → Option A → Option A → Option A
or_else none b = b
or_else (some a) b = some a

-- what a dictionary literal holds under a key: the last of its items there
abbrev pub last_value {ℓ} : {A : Type ℓ} → String → List (String × A) → Option A
last_value key [] = none
last_value key ((k, v) ∷ rest) = or_else (last_value key rest) (if k == key then some v else none)

-- What the code relies on: an encoded and decoded dictionary holds each item's value, encoded and
-- decoded, under its key, and None, texts and numbers come back as they are.
pub record DictLaws (p : Platform) : Type 0 where
  pub get : p.Value → String → Option p.Value
  pub get-object :
      (items : List (String × p.Value)) (key : String) (v a : p.Value)
      → adapt ⦃p = p⦄ (p.object items) ≡ ok a
      → last_value key items ≡ some v
      → (x : p.Value) × (adapt ⦃p = p⦄ v ≡ ok x) × (get a key ≡ some x)
  pub adapt-null : adapt ⦃p = p⦄ p.null ≡ ok p.null
  pub adapt-text : (t : String) → adapt ⦃p = p⦄ (p.text t) ≡ ok (p.text t)
  pub adapt-number : (n : ℕ) → adapt ⦃p = p⦄ (p.number n) ≡ ok (p.number n)
  pub text_inj : (s t : String) → p.text s ≡ p.text t → s ≡ t
  pub number_inj : (n m : ℕ) → p.number n ≡ p.number m → n ≡ m
  pub null-text : (t : String) → p.null ≢ p.text t

-- the arguments of `event_hash`
pub record Position (Value : Type 0) : Type 0 where
  pub scope : String
  pub run_id : String
  pub seq : ℕ
  pub event : Event Value
  pub previous : Option String

module _ ⦃p : Platform⦄ where
  abbrev pub hash_at : Position p.Value → Result String
  hash_at x = event_hash x.scope x.run_id x.seq x.event x.previous

  abbrev pub items_at : Position p.Value → List (String × p.Value)
  items_at x =
      preimage_before x.scope x.run_id x.seq x.event
      ++ ("payload", x.event.payload) ∷ preimage_after x.event x.previous

  -- the same chain position and the same event, payloads being compared in plain JSON form
  pub record IsSame (x y : Position p.Value) : Type 0 where
    pub scope : x.scope ≡ y.scope
    pub run_id : x.run_id ≡ y.run_id
    pub seq : x.seq ≡ y.seq
    pub id : x.event.id ≡ y.event.id
    pub event_type : x.event.event_type ≡ y.event.event_type
    pub payload : adapt x.event.payload ≡ adapt y.event.payload
    pub actor : x.event.actor ≡ y.event.actor
    pub frame_id : x.event.frame_id ≡ y.event.frame_id
    pub caused_by : x.event.caused_by ≡ y.event.caused_by
    pub timestamp : x.event.timestamp ≡ y.event.timestamp
    pub previous : x.previous ≡ y.previous

  -- two texts of JSON whose bytes differ and have one SHA-256
  pub record Collides (x y : Position p.Value) : Type 0 where
    pub text : String
    pub other : String
    pub encoded : canonical_json (p.object (items_at x)) ≡ ok text
    pub encoded_other : canonical_json (p.object (items_at y)) ≡ ok other
    pub differ : p.utf8 text ≢ p.utf8 other
    pub collide : p.sha256 (p.utf8 text) ≡ p.sha256 (p.utf8 other)

module _ ⦃p : Platform⦄ (json : JsonLaws p) (laws : DictLaws p) where
  same_text : (s t : String) → adapt (p.text s) ≡ adapt (p.text t) → s ≡ t
  same_text s t e = laws.text_inj s t (cc (laws.adapt-text s, laws.adapt-text t, e))

  same_number : (n m : ℕ) → adapt (p.number n) ≡ adapt (p.number m) → n ≡ m
  same_number n m e = laws.number_inj n m (cc (laws.adapt-number n, laws.adapt-number m, e))

  same_optional :
      (s t : Option String) → adapt (optional_value s) ≡ adapt (optional_value t) → s ≡ t
  unfolding optional_value
  same_optional none none e = refl
  same_optional none (some t) e =
      absurd (laws.null-text t (cc (laws.adapt-null, laws.adapt-text t, e)))
  same_optional (some s) none e =
      absurd (laws.null-text s (cc (laws.adapt-null, laws.adapt-text s, e)))
  same_optional (some s) (some t) e = ap some (same_text s t e)

  same_item :
      (xs ys : List (String × p.Value)) (a : p.Value)
      → adapt (p.object xs) ≡ ok a
      → adapt (p.object ys) ≡ ok a
      → (key : String) (v w : p.Value) → last_value key xs ≡ some v
      → last_value key ys ≡ some w
      → adapt v ≡ adapt w
  same_item xs ys a ex ey key v w hv hw =
      let (m, em, gm) = laws.get-object xs key v a ex hv in
      let (n, en, gn) = laws.get-object ys key w a ey hw in cc (em, gm, en, gn)

  items_at-IsSame :
      (x y : Position p.Value) (a : p.Value)
      → adapt (p.object (items_at x)) ≡ ok a
      → adapt (p.object (items_at y)) ≡ ok a
      → IsSame x y
  items_at-IsSame x y a ex ey =
      let same = same_item (items_at x) (items_at y) a ex ey in
      record {
        scope = same_text _ _ (same "scope" _ _ refl refl);
        run_id = same_text _ _ (same "run_id" _ _ refl refl);
        seq = same_number _ _ (same "seq" _ _ refl refl);
        id = same_text _ _ (same "id" _ _ refl refl);
        event_type = same_text _ _ (same "type" _ _ refl refl);
        payload = same "payload" _ _ refl refl;
        actor = same_optional _ _ (same "actor" _ _ refl refl);
        frame_id = same_optional _ _ (same "frame_id" _ _ refl refl);
        caused_by = same_optional _ _ (same "caused_by" _ _ refl refl);
        timestamp = same_text _ _ (same "timestamp" _ _ refl refl);
        previous = same_optional _ _ (same "previous_hash" _ _ refl refl);
      }

  -- If decoded JSON is printed and read back unchanged, holds each item of a dictionary under its key
  -- and keeps None, texts and numbers, and UTF-8 is injective: two events at chain positions have one
  -- hash only if scope, run, number and previous hash are the same and the events agree in every
  -- field, the payloads in plain JSON form, or if the bytes that are hashed are a collision of
  -- SHA-256.
  pub event_hash_inj :
      (x y : Position p.Value) (hash : String)
      → ((a b : String) → p.utf8 a ≡ p.utf8 b → a ≡ b)
      → hash_at x ≡ ok hash
      → hash_at y ≡ ok hash
      → IsSame x y ⊎ Collides x y
  unfolding event_hash
  event_hash_inj x y hash utf8_inj hx hy =
      let (s, es, gs) = bind-eq-ok (canonical_json (p.object (items_at x))) _ hx in
      let (t, et, gt) = bind-eq-ok (canonical_json (p.object (items_at y))) _ hy in
      let (a, adapted_x, loads_x, _) = loads-canonical_json json (p.object (items_at x)) s es in
      let (b, adapted_y, loads_y, _) = loads-canonical_json json (p.object (items_at y)) t et in
      elim (List-discrete ℕ_discrete (p.utf8 s) (p.utf8 t)) [
        | yes same ↦
            let e : s ≡ t = utf8_inj s t same in
            let f : b ≡ a = cc (loads_x, loads_y, e) in
            inl (items_at-IsSame x y a adapted_x (adapted_y ∙ ap ok f))
        | no differ ↦ inr (record {
          text = s;
          other = t;
          encoded = es;
          encoded_other = et;
          differ = differ;
          collide = cc (gs, gt);
        })
      ]
