-- ===== src/Serde/RoundTrip.antt =====
-- serde.py: what is written to a row is read back, with every value in its plain JSON form.
use activegraph_surrealdb.Prelude.{ℕ, String, ◌≡◌, Option, arith}
use activegraph_surrealdb.Errors.{ok, returned, failed, outcome, bind-eq-ok}
use activegraph_surrealdb.Platform.{Platform, JsonLaws, adapt}
use activegraph_surrealdb.Serde.{
  Event, EventRecord, Object, ObjectRecord, Relation, RelationRecord, Patch, PatchRecord,
  canonical_json, event_to_record, record_to_event, event_hash, preimage_before, preimage_after,
  object_to_record, object_from_record, relation_to_record, record_to_relation, patch_to_record,
  patch_from_record,
}

module _ ⦃p : Platform⦄ (laws : JsonLaws p) where
  -- Encoded text is the dump of the adapted value, and reads back as that value.
  pub loads-canonical_json :
      (v : p.Value) (t : String)
      → canonical_json v ≡ ok t
      → (a : p.Value) × (adapt v ≡ ok a) × (p.loads t ≡ ok a) × (canonical_json a ≡ ok t)
  unfolding canonical_json
  loads-canonical_json v t h = elim (outcome (adapt v)) [
    | returned a e ↦
        (a, e, ground (arith, laws.loads-dumps v a), rw (laws.adapt-adapt v a e) (rw e at h))
    | failed x e ↦ absurd (ground arith)
  ]

  -- The row of an event decodes to the event, its payload in plain JSON form.
  pub record_to_event-event_to_record :
      (event : Event p.Value) (row : EventRecord)
      → event_to_record event ≡ ok row
      → (a : p.Value) × (adapt event.payload ≡ ok a)
        × (record_to_event row ≡ ok (record event { payload = a }))
        × (event_to_record (record event { payload = a }) ≡ ok row)
  unfolding event_to_record record_to_event
  record_to_event-event_to_record event row h =
      let (t, e, g) = bind-eq-ok (canonical_json event.payload) _ h in
      let (a, adapted, loaded, again) = loads-canonical_json event.payload t e in
      (a, adapted, ground arith, ground arith)

  -- The hash of an event reads its payload only through the plain JSON form.
  pub event_hash-adapt :
      (scope run_id : String) (seq : ℕ) (event : Event p.Value) (previous : Option String)
      (a : p.Value)
      → adapt event.payload ≡ ok a
      → event_hash scope run_id seq (record event { payload = a }) previous
        ≡ event_hash scope run_id seq event previous
  unfolding event_hash canonical_json
  event_hash-adapt scope run_id seq event previous a h =
      rw
        (← laws.adapt-object (preimage_before scope run_id seq event) "payload" event.payload a
          (preimage_after event previous) h)

  -- An object's row decodes to the object, its two values in plain JSON form.
  pub object_from_record-object_to_record :
      (obj : Object p.Value) (row : ObjectRecord)
      → object_to_record obj ≡ ok row
      → (a b : p.Value) × (adapt obj.properties ≡ ok a)
        × (adapt obj.provenance ≡ ok b)
        × (object_from_record row ≡ ok (record obj { properties = a; provenance = b }))
  unfolding object_to_record object_from_record
  object_from_record-object_to_record obj row h =
      let (t, e, g) = bind-eq-ok (canonical_json obj.properties) _ h in
      let (u, e', g') = bind-eq-ok (canonical_json obj.provenance) _ g in
      let (a, adapted, loaded, _) = loads-canonical_json obj.properties t e in
      let (b, adapted', loaded', _) = loads-canonical_json obj.provenance u e' in
      (a, b, adapted, adapted', ground arith)

  -- A relation's row decodes to the relation, its two values in plain JSON form.
  pub record_to_relation-relation_to_record :
      (relation : Relation p.Value) (row : RelationRecord)
      → relation_to_record relation ≡ ok row
      → (a b : p.Value) × (adapt relation.properties ≡ ok a)
        × (adapt relation.provenance ≡ ok b)
        × (record_to_relation row ≡ ok (record relation { properties = a; provenance = b }))
  unfolding relation_to_record record_to_relation
  record_to_relation-relation_to_record relation row h =
      let (t, e, g) = bind-eq-ok (canonical_json relation.properties) _ h in
      let (u, e', g') = bind-eq-ok (canonical_json relation.provenance) _ g in
      let (a, adapted, loaded, _) = loads-canonical_json relation.properties t e in
      let (b, adapted', loaded', _) = loads-canonical_json relation.provenance u e' in
      (a, b, adapted, adapted', ground arith)

  -- A patch's row decodes to the patch, its three values in plain JSON form.
  pub patch_from_record-patch_to_record :
      (patch : Patch p.Value) (row : PatchRecord)
      → ((a : p.Value) → adapt patch.evidence ≡ ok a → p.listed a ≡ ok a)
      → patch_to_record patch ≡ ok row
      → (a b c : p.Value) × (adapt patch.value ≡ ok a)
        × (adapt patch.evidence ≡ ok b)
        × (adapt patch.provenance ≡ ok c)
        × (patch_from_record row ≡ ok (record patch { value = a; evidence = b; provenance = c }))
  unfolding patch_to_record patch_from_record
  patch_from_record-patch_to_record patch row is_list h =
      let (t, e, g) = bind-eq-ok (canonical_json patch.value) _ h in
      let (u, e', g') = bind-eq-ok (canonical_json patch.evidence) _ g in
      let (v, e'', g'') = bind-eq-ok (canonical_json patch.provenance) _ g' in
      let (a, adapted, loaded, _) = loads-canonical_json patch.value t e in
      let (b, adapted', loaded', _) = loads-canonical_json patch.evidence u e' in
      let (c, adapted'', loaded'', _) = loads-canonical_json patch.provenance v e'' in
      (a, b, c, adapted, adapted', adapted'', ground (arith, is_list b adapted'))
