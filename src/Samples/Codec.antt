-- ===== src/Samples/Codec.antt =====
-- Tests and witnesses for serde.py, keys.py and the object counter of graph_store.py.
use activegraph_surrealdb.Prelude.{String, ◌≡◌, refl, none, some, [], ◌∷◌, arith}
use activegraph_surrealdb.Errors.{ok}
use activegraph_surrealdb.Platform.{adapt}
use activegraph_surrealdb.Serde.{
  Object, ObjectRecord, Relation, RelationRecord, Patch, PatchRecord, canonical_json,
  event_to_record, record_to_event, object_to_record, object_from_record, relation_to_record,
  record_to_relation, patch_to_record, patch_from_record,
}
use activegraph_surrealdb.Serde.RoundTrip.{
  record_to_event-event_to_record, object_from_record-object_to_record,
  record_to_relation-relation_to_record, patch_from_record-patch_to_record,
}
use activegraph_surrealdb.GraphStore.ObjectSeq.{search_seq, search_seq-digits, digit_codes}
use activegraph_surrealdb.Samples.Machine.{machine-JsonLaws}
use activegraph_surrealdb.Samples.Events.{sample_platform, first_event, first_record}

record_to_event-event_to_record_example :
    (a : String) × (adapt first_event.payload ≡ ok a)
    × (record_to_event (record {
      event_id = "e1";
      event_type = "task.created";
      payload_json = "p";
      actor = none;
      frame_id = none;
      caused_by = none;
      timestamp = "t1";
    })
        ≡ ok (record first_event { payload = a }))
    × (event_to_record (record first_event { payload = a })
        ≡ ok (record {
          event_id = "e1";
          event_type = "task.created";
          payload_json = "p";
          actor = none;
          frame_id = none;
          caused_by = none;
          timestamp = "t1";
        }))
record_to_event-event_to_record_example =
    record_to_event-event_to_record (machine-JsonLaws _) first_event _ first_record

abbrev task : Object String
task = record {
  id = "task#12";
  object_type = "task";
  properties = "d";
  version = 2;
  provenance = "o";
}

abbrev task_record : ObjectRecord
task_record = record {
  object_id = "task#12";
  object_type = "task";
  data_json = "d";
  version = 2;
  provenance_json = "o";
}

task_stored : object_to_record task ≡ ok task_record
unfolding object_to_record canonical_json
task_stored = refl

object_from_record-object_to_record_example :
    (a b : String) × (adapt task.properties ≡ ok a)
    × (adapt task.provenance ≡ ok b)
    × (object_from_record task_record ≡ ok (record task { properties = a; provenance = b }))
object_from_record-object_to_record_example =
    object_from_record-object_to_record (machine-JsonLaws _) task task_record task_stored

abbrev blocks : Relation String
blocks = record {
  id = "r1";
  source = "task#12";
  target = "task#3";
  relation_type = "blocks";
  properties = "d";
  provenance = "o";
}

abbrev blocks_record : RelationRecord
blocks_record = record {
  relation_id = "r1";
  source = "task#12";
  target = "task#3";
  relation_type = "blocks";
  data_json = "d";
  provenance_json = "o";
}

blocks_stored : relation_to_record blocks ≡ ok blocks_record
unfolding relation_to_record canonical_json
blocks_stored = refl

record_to_relation-relation_to_record_example :
    (a b : String) × (adapt blocks.properties ≡ ok a)
    × (adapt blocks.provenance ≡ ok b)
    × (record_to_relation blocks_record ≡ ok (record blocks { properties = a; provenance = b }))
record_to_relation-relation_to_record_example =
    record_to_relation-relation_to_record (machine-JsonLaws _) blocks blocks_record blocks_stored

abbrev edit : Patch String
edit = record {
  id = "p1";
  target = "task#12";
  op = "update";
  value = "v";
  expected_version = 2;
  proposed_by = "agent";
  rationale = none;
  evidence = "e";
  status = "proposed";
  rejection_reason = none;
  provenance = "o";
}

abbrev edit_record : PatchRecord
edit_record = record {
  patch_id = "p1";
  target = "task#12";
  op = "update";
  value_json = "v";
  expected_version = 2;
  proposed_by = "agent";
  rationale = none;
  evidence_json = "e";
  status = "proposed";
  rejection_reason = none;
  provenance_json = "o";
}

edit_stored : patch_to_record edit ≡ ok edit_record
unfolding patch_to_record canonical_json
edit_stored = refl

patch_from_record-patch_to_record_example :
    (a b c : String) × (adapt edit.value ≡ ok a)
    × (adapt edit.evidence ≡ ok b)
    × (adapt edit.provenance ≡ ok c)
    × (patch_from_record edit_record ≡ ok (record edit { value = a; evidence = b; provenance = c }))
patch_from_record-patch_to_record_example =
    patch_from_record-patch_to_record (machine-JsonLaws _) edit edit_record (λ a h. refl)
      edit_stored

-- task#x#12
search_seq-digits_example :
    search_seq (b't' ∷ b'#' ∷ b'x' ∷ b'#' ∷ digit_codes (1 ∷ 2 ∷ [])) ≡ some 12
search_seq-digits_example =
    search_seq-digits (b't' ∷ b'#' ∷ b'x' ∷ []) 1 (2 ∷ []) (omega arith, (omega arith, tt))
