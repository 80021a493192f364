-- ===== src/Records.antt =====
-- python/src/isabelle_repair/records/store.py: the record factory and the stores.
use mathlib.Core.List.{append-nil, append_assoc}
use isabelle_repl.Base.{ℕ, suc, String, ◌<>◌, ◌≡◌, ◌∙◌, Option, List, [], ◌∷◌, ◌++◌, map}
use isabelle_repl.Model.{
  RunRecord, RecordPayload, run_metadata, task, artifact, policy_decision, intervention,
  continuation, provenance, patch_provenance, terminal,
}

-- What the factory takes from outside for the record with a given number: `uuid4().hex` and
-- `RunRecord.now_iso()`.
pub record Stamps : Type 0 where
  pub uuid_hex : ℕ → String
  pub now_iso : ℕ → String

pub record RunRecordFactory : Type 0 where
  pub theory_run_id : String
  pub schema_version : String
  pub seq : ℕ

-- `RunRecordFactory(theory_run_id=…)`
abbrev pub new_factory : String → RunRecordFactory
new_factory theory_run_id = record {
  theory_run_id = theory_run_id;
  schema_version = "v1.5";
  seq = 0;
}

module _ (stamps : Stamps) where
  -- `create`: the new record, and the factory with its sequence number.
  unfoldable pub create :
      RunRecordFactory → Option String → RecordPayload → RunRecord × RunRecordFactory
  create f task_id payload = (
    record {
      schema_version = f.schema_version;
      record_id = "rec-" <> stamps.uuid_hex (suc f.seq);
      theory_run_id = f.theory_run_id;
      timestamp = stamps.now_iso (suc f.seq);
      run_local_sequence_number = suc f.seq;
      task_id = task_id;
      payload = payload;
    },
    record f { seq = suc f.seq },
  )

-- `record_kind.value`
abbrev pub record_kind_value : RecordPayload → String
record_kind_value (run_metadata _ _ _ _) = "run_metadata"
record_kind_value (task _ _ _ _) = "task"
record_kind_value (artifact _ _ _ _) = "artifact"
record_kind_value (policy_decision _ _ _ _) = "policy_decision"
record_kind_value (intervention _ _ _ _) = "intervention"
record_kind_value (continuation _) = "continuation"
record_kind_value provenance = "provenance_link"
record_kind_value (patch_provenance _ _ _) = "provenance_link"
record_kind_value (terminal _ _ _ _ _) = "terminal"

-- The dict of `serialize_run_record`, its keys in the order of the source.
pub record SerializedRecord : Type 0 where
  pub schema_version : String
  pub record_id : String
  pub theory_run_id : String
  pub timestamp : String
  pub run_local_sequence_number : ℕ
  pub task_id : Option String
  pub record_kind : String
  pub payload : RecordPayload

unfoldable pub serialize_run_record : RunRecord → SerializedRecord
serialize_run_record r = record {
  schema_version = r.schema_version;
  record_id = r.record_id;
  theory_run_id = r.theory_run_id;
  timestamp = r.timestamp;
  run_local_sequence_number = r.run_local_sequence_number;
  task_id = r.task_id;
  record_kind = record_kind_value r.payload;
  payload = r.payload;
}

-- `InMemoryRecordStore` with its records, and `JsonlRecordSink` with the lines of its file.
pub data RecordStore : Type 0 where
  memory : List RunRecord → RecordStore
  jsonl : List String → RecordStore

-- `InMemoryRecordStore.list_records`; another store has none to list.
abbrev pub list_records : RecordStore → List RunRecord
list_records (memory records) = records
list_records (jsonl lines) = []

-- `dumps` stands for `json.dumps(…, ensure_ascii=True)`.
module _ (dumps : SerializedRecord → String) where
  -- The line that the sink writes, without the newline at its end.
  abbrev pub record_line : RunRecord → String
  record_line r = dumps (serialize_run_record r)

  abbrev pub append : RecordStore → RunRecord → RecordStore
  append (memory records) r = memory (records ++ r ∷ [])
  append (jsonl lines) r = jsonl (lines ++ record_line r ∷ [])

  -- `CompositeRecordStore.append`
  abbrev pub append_all : List RecordStore → RunRecord → List RecordStore
  append_all [] r = []
  append_all (s ∷ stores) r = append s r ∷ append_all stores r

  -- The stores after a sequence of calls.
  abbrev pub append_records : List RecordStore → List RunRecord → List RecordStore
  append_records stores [] = stores
  append_records stores (r ∷ rs) = append_records (append_all stores r) rs

  -- An in-memory store and a sink in one composite receive the same records in the same order: the
  -- store holds them after its own, and the file has a line for each after its own.
  pub append_records-agree :
      (records : List RunRecord) (lines : List String) (new : List RunRecord)
      → append_records (memory records ∷ jsonl lines ∷ []) new
        ≡ memory (records ++ new) ∷ jsonl (lines ++ map record_line new) ∷ []
  unfolding serialize_run_record
  append_records-agree records lines [] = cc (append-nil records, append-nil lines)
  append_records-agree records lines (r ∷ new) =
      append_records-agree (records ++ r ∷ []) (lines ++ record_line r ∷ []) new
      ∙ cc (
        append_assoc records (r ∷ []) new,
        append_assoc lines (record_line r ∷ []) (map record_line new),
      )
