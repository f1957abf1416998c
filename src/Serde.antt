-- ===== src/Serde.antt =====
-- serde.py: canonical JSON, and the rows of events, objects, relations and patches. A row is typed
-- by schema.surql, so each field is there, and `str(…)` and `int(…)` of it change nothing. The
-- fields that the stores add to an event row (scope, run_id, seq, previous_hash, hash) are
-- `Stamp`'s.
pub mod Hashing
pub mod RoundTrip
use activegraph_surrealdb.Prelude.{ℕ, String, Option, none, some, List, [], ◌∷◌, ◌++◌}
use activegraph_surrealdb.Errors.{Result, ok, ◌>>=◌}
use activegraph_surrealdb.Platform.{Platform, adapt}

-- activegraph.core.event.Event
pub record Event (Value : Type 0) : Type 0 where
  pub id : String
  pub event_type : String
  pub payload : Value
  pub actor : Option String
  pub frame_id : Option String
  pub caused_by : Option String
  pub timestamp : String

pub record EventRecord : Type 0 where
  pub event_id : String
  pub event_type : String
  pub payload_json : String
  pub actor : Option String
  pub frame_id : Option String
  pub caused_by : Option String
  pub timestamp : String

-- activegraph.core.graph.Object and Relation, activegraph.core.patch.Patch
pub record Object (Value : Type 0) : Type 0 where
  pub id : String
  pub object_type : String
  pub properties : Value
  pub version : ℕ
  pub provenance : Value

pub record ObjectRecord : Type 0 where
  pub object_id : String
  pub object_type : String
  pub data_json : String
  pub version : ℕ
  pub provenance_json : String

pub record Relation (Value : Type 0) : Type 0 where
  pub id : String
  pub source : String
  pub target : String
  pub relation_type : String
  pub properties : Value
  pub provenance : Value

pub record RelationRecord : Type 0 where
  pub relation_id : String
  pub source : String
  pub target : String
  pub relation_type : String
  pub data_json : String
  pub provenance_json : String

pub record Patch (Value : Type 0) : Type 0 where
  pub id : String
  pub target : String
  pub op : String
  pub value : Value
  pub expected_version : ℕ
  pub proposed_by : String
  pub rationale : Option String
  pub evidence : Value
  pub status : String
  pub rejection_reason : Option String
  pub provenance : Value

pub record PatchRecord : Type 0 where
  pub patch_id : String
  pub target : String
  pub op : String
  pub value_json : String
  pub expected_version : ℕ
  pub proposed_by : String
  pub rationale : Option String
  pub evidence_json : String
  pub status : String
  pub rejection_reason : Option String
  pub provenance_json : String

module _ ⦃p : Platform⦄ where
  unfoldable pub canonical_json : p.Value → Result String
  canonical_json value = do adapted ← adapt value; ok (p.dumps adapted)

  unfoldable pub event_to_record : Event p.Value → Result EventRecord
  event_to_record event = do
    payload_json ← canonical_json event.payload
    ok (record {
      event_id = event.id;
      event_type = event.event_type;
      payload_json = payload_json;
      actor = event.actor;
      frame_id = event.frame_id;
      caused_by = event.caused_by;
      timestamp = event.timestamp;
    })

  unfoldable pub record_to_event : EventRecord → Result (Event p.Value)
  record_to_event row = do
    payload ← p.loads row.payload_json
    ok (record {
      id = row.event_id;
      event_type = row.event_type;
      payload = payload;
      actor = row.actor;
      frame_id = row.frame_id;
      caused_by = row.caused_by;
      timestamp = row.timestamp;
    })

  unfoldable pub optional_value : Option String → p.Value
  optional_value none = p.null
  optional_value (some t) = p.text t

  -- the dictionary that `event_hash` hashes, around its payload
  abbrev pub preimage_before : String → String → ℕ → Event p.Value → List (String × p.Value)
  preimage_before scope run_id seq event =
      ("scope", p.text scope)
      ∷ ("run_id", p.text run_id)
      ∷ ("seq", p.number seq)
      ∷ ("id", p.text event.id)
      ∷ ("type", p.text event.event_type)
      ∷ []

  abbrev pub preimage_after : Event p.Value → Option String → List (String × p.Value)
  preimage_after event previous_hash =
      ("actor", optional_value event.actor)
      ∷ ("frame_id", optional_value event.frame_id)
      ∷ ("caused_by", optional_value event.caused_by)
      ∷ ("timestamp", p.text event.timestamp)
      ∷ ("previous_hash", optional_value previous_hash)
      ∷ []

  unfoldable pub event_hash : String → String → ℕ → Event p.Value → Option String → Result String
  event_hash scope run_id seq event previous_hash = do
    let preimage = p.object (
        preimage_before scope run_id seq event
        ++ ("payload", event.payload) ∷ preimage_after event previous_hash)
    json ← canonical_json preimage
    ok (p.sha256 (p.utf8 json))

  unfoldable pub object_to_record : Object p.Value → Result ObjectRecord
  object_to_record obj = do
    data_json ← canonical_json obj.properties
    provenance_json ← canonical_json obj.provenance
    ok (record {
      object_id = obj.id;
      object_type = obj.object_type;
      data_json = data_json;
      version = obj.version;
      provenance_json = provenance_json;
    })

  unfoldable pub object_from_record : ObjectRecord → Result (Object p.Value)
  object_from_record row = do
    properties ← p.loads row.data_json
    provenance ← p.loads row.provenance_json
    ok (record {
      id = row.object_id;
      object_type = row.object_type;
      properties = properties;
      version = row.version;
      provenance = provenance;
    })

  unfoldable pub relation_to_record : Relation p.Value → Result RelationRecord
  relation_to_record relation = do
    data_json ← canonical_json relation.properties
    provenance_json ← canonical_json relation.provenance
    ok (record {
      relation_id = relation.id;
      source = relation.source;
      target = relation.target;
      relation_type = relation.relation_type;
      data_json = data_json;
      provenance_json = provenance_json;
    })

  unfoldable pub record_to_relation : RelationRecord → Result (Relation p.Value)
  record_to_relation row = do
    properties ← p.loads row.data_json
    provenance ← p.loads row.provenance_json
    ok (record {
      id = row.relation_id;
      source = row.source;
      target = row.target;
      relation_type = row.relation_type;
      properties = properties;
      provenance = provenance;
    })

  unfoldable pub patch_to_record : Patch p.Value → Result PatchRecord
  patch_to_record patch = do
    value_json ← canonical_json patch.value
    evidence_json ← canonical_json patch.evidence
    provenance_json ← canonical_json patch.provenance
    ok (record {
      patch_id = patch.id;
      target = patch.target;
      op = patch.op;
      value_json = value_json;
      expected_version = patch.expected_version;
      proposed_by = patch.proposed_by;
      rationale = patch.rationale;
      evidence_json = evidence_json;
      status = patch.status;
      rejection_reason = patch.rejection_reason;
      provenance_json = provenance_json;
    })

  unfoldable pub patch_from_record : PatchRecord → Result (Patch p.Value)
  patch_from_record row = do
    value ← p.loads row.value_json
    loaded ← p.loads row.evidence_json
    evidence ← p.listed loaded
    provenance ← p.loads row.provenance_json
    ok (record {
      id = row.patch_id;
      target = row.target;
      op = row.op;
      value = value;
      expected_version = row.expected_version;
      proposed_by = row.proposed_by;
      rationale = row.rationale;
      evidence = evidence;
      status = row.status;
      rejection_reason = row.rejection_reason;
      provenance = provenance;
    })
