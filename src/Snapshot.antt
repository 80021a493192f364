-- ===== src/Snapshot.antt =====
-- python/src/isabelle_repair/run/working_snapshot.py: the working snapshot of a theory, its anchor in
-- the replayed theory and its replacements. `difflib.unified_diff` is a parameter.
pub mod Patch
pub mod Edits
pub mod Rendering
pub mod Tasks
unfoldable pub use Patch.*
use mathlib.Core.List.{reverse}
use isabelle_repl.Base.{
  splitlines_keepends, join, ℕ, ℤ, pos, negsuc, ltb_ℤ, suc, String, ◌<>◌, Bool, true, false, ◌&&◌,
  Option, none, some, List, [], ◌∷◌, ◌++◌, map, length, contains, ◌==◌, string_eq, int_eq,
  option_eq, decimal, is_some, not, splitlines, Action, pure, throw, gets, modify, value_error,
  or_default, if◌then◌else◌,
}
use isabelle_repl.Model.{ArtifactKind, FailureDigest, SnapshotMetadata, PatchLink}

-- A dict of `applied_replacements`.
pub record Snapshot : Type 0 where
  pub theory_path : String
  pub original_text : String
  pub current_text : String
  pub applied_artifacts : List (ArtifactKind × String)
  pub current_anchor_state_id : Option String
  pub command_cursor : ℤ
  pub mode : Option String
  pub proof_level : Option ℤ
  pub applied_replacements : List Replacement
  pub last_failure_digest : Option FailureDigest

-- `WorkingTheorySnapshot(theory_path=…, original_text=…)`
abbrev pub new_snapshot : String → String → Snapshot
new_snapshot theory_path original_text = record {
  theory_path = theory_path;
  original_text = original_text;
  current_text = original_text;
  applied_artifacts = [];
  current_anchor_state_id = none;
  command_cursor = negsuc 0;
  mode = none;
  proof_level = none;
  applied_replacements = [];
  last_failure_digest = none;
}

unfoldable pub set_anchor : String → ℤ → String → ℤ → Action Snapshot (Unit {0})
set_anchor state_id command_cursor mode proof_level s =
    if ltb_ℤ command_cursor s.command_cursor
    then throw (value_error "command_cursor must be monotonic") s
    else modify
        (λ s. record s {
          current_anchor_state_id = some state_id;
          command_cursor = command_cursor;
          mode = some mode;
          proof_level = some proof_level;
        })
        s

abbrev pub set_last_failure_digest : Option FailureDigest → Snapshot → Snapshot
set_last_failure_digest digest s = record s { last_failure_digest = digest }

-- The branch of `apply_artifact` that has a line.
unfoldable pub apply_artifact_at :
    ArtifactKind → String → Option String → ℤ → Option String → Snapshot → Snapshot
unfolding render_patched_text
apply_artifact_at kind text task_id line original_text s =
    let replacements =
      s.applied_replacements
      ++ (record {
        patch_entry_id = "pe-" <> decimal (suc (length s.applied_replacements));
        task_id = task_id;
        command_line = line;
        artifact_kind = kind;
        replacement_text = text;
        original_text = original_text;
        artifact_record_id = none;
      })
        ∷ [] in
    record s {
      applied_artifacts = s.applied_artifacts ++ (kind, text) ∷ [];
      applied_replacements = replacements;
      current_text = render_patched_text s.original_text replacements;
    }

unfoldable pub apply_artifact :
    ArtifactKind → String → Option String → Option ℤ → Option String → Action Snapshot (Unit {0})
apply_artifact kind text task_id none original_text =
    throw (value_error "command_line is required for patchable artifacts")
apply_artifact kind text task_id (some line) original_text =
    modify (apply_artifact_at kind text task_id line original_text)

unfoldable pub replacement_for_line : Snapshot → ℤ → Option String
unfolding find_line
replacement_for_line s line = find_line line (reverse s.applied_replacements)

unfoldable pub to_metadata : Snapshot → SnapshotMetadata
to_metadata s = record {
  anchor_state_id = s.current_anchor_state_id;
  command_cursor = s.command_cursor;
  mode = s.mode;
  proof_level = s.proof_level;
  applied_replacement_count = length s.applied_replacements;
  last_failure_digest = s.last_failure_digest;
}

unfoldable pub attach_artifact_record_id : String → String → Snapshot → Snapshot
unfolding attach_first
attach_artifact_record_id task_id record_id s = record s {
  applied_replacements = reverse (attach_first task_id record_id (reverse s.applied_replacements));
}

-- `export_json_patch`: the dict with its fixed format name.
pub record JsonPatch : Type 0 where
  pub format : String
  pub theory_path : String
  pub entries : List Replacement

unfoldable pub export_json_patch : Snapshot → JsonPatch
export_json_patch s = record {
  format = "isabelle_repair_patch/v1";
  theory_path = s.theory_path;
  entries = s.applied_replacements;
}

unfoldable pub export_patch_provenance_links : Snapshot → List PatchLink
export_patch_provenance_links s =
    map
      (λ e. record {
        patch_entry_id = e.patch_entry_id;
        task_id = e.task_id;
        artifact_record_id = e.artifact_record_id;
      })
      s.applied_replacements

-- `difflib.unified_diff` on two lists of lines, with `fromfile`, `tofile` and `lineterm`: the pieces
-- that it yields.
abbrev pub UnifiedDiff : Type 0
UnifiedDiff = List String → List String → String → String → String → List String

-- `export_unified_diff`
unfoldable pub export_unified_diff : UnifiedDiff → Snapshot → String
export_unified_diff unified_diff s = join "" (
    unified_diff (splitlines_keepends s.original_text)
      (splitlines_keepends (render_patched_text s.original_text s.applied_replacements))
      ("a/" <> s.theory_path) ("b/" <> s.theory_path) "")
