-- ===== src/Snapshot/Patch.antt =====
-- The replacements of a snapshot and `_render_patched_text` of
-- python/src/isabelle_repair/run/working_snapshot.py.
use mathlib.Core.List.{foldl}
use isabelle_repl.Base.{
  ℤ, pos, negsuc, suc, zero, ltb_ℤ, String, ◌<>◌, ◌&&◌, not, Option, none, some, List, [], ◌∷◌, set,
  ◌==◌, string_eq, int_eq, option_eq, is_some, splitlines, join, ends_with_newline, if◌then◌else◌,
}
use isabelle_repl.Model.{ArtifactKind}

-- A dict of `applied_replacements`.
pub record Replacement : Type 0 where
  pub patch_entry_id : String
  pub task_id : Option String
  pub command_line : ℤ
  pub artifact_kind : ArtifactKind
  pub replacement_text : String
  pub original_text : Option String
  pub artifact_record_id : Option String

-- The first entry for a line.
unfoldable pub find_line : ℤ → List Replacement → Option String
find_line line [] = none
find_line line (e ∷ es) =
    if e.command_line == line then some e.replacement_text else find_line line es

-- The first entry of the task with no record id gets one.
unfoldable pub attach_first : String → String → List Replacement → List Replacement
attach_first task_id record_id [] = []
attach_first task_id record_id (e ∷ es) =
    let rest = attach_first task_id record_id es in
    if e.task_id == some task_id && not (is_some e.artifact_record_id)
    then record e { artifact_record_id = some record_id } ∷ es
    else e ∷ rest

-- `by_line`, a dict from line numbers.
abbrev pub Lines : Type 0
Lines = List (ℤ × String)

-- `by_line[line] = replacement`
unfoldable pub put_line : ℤ → String → Lines → Lines
put_line line t [] = (line, t) ∷ []
put_line line t ((l, u) ∷ d) = if l == line then (line, t) ∷ d else (l, u) ∷ put_line line t d

unfoldable pub add_entry : Lines → Replacement → Lines
unfolding put_line
add_entry d e =
    if ltb_ℤ (pos 0) e.command_line then put_line e.command_line e.replacement_text d else d

-- `sorted(by_line.items())`: the keys differ, so the texts are never compared.
unfoldable pub insert_sorted : ℤ → String → Lines → Lines
insert_sorted line t [] = (line, t) ∷ []
insert_sorted line t ((l, u) ∷ d) =
    if ltb_ℤ l line then (l, u) ∷ insert_sorted line t d else (line, t) ∷ (l, u) ∷ d

unfoldable pub sort_lines : Lines → Lines
unfolding insert_sorted
sort_lines [] = []
sort_lines ((l, t) ∷ d) = insert_sorted l t (sort_lines d)

-- `if 0 <= index < len(lines): lines[index] = replacement`, at `index = line - 1`
abbrev pub set_line : ℤ → String → List String → List String
set_line (pos zero) t lines = lines
set_line (pos (suc i)) t lines = set lines i t
set_line (negsuc n) t lines = lines

unfoldable pub patch_lines : List String → Lines → List String
patch_lines lines [] = lines
patch_lines lines ((l, t) ∷ d) = patch_lines (set_line l t lines) d

unfoldable pub patched_lines : String → List Replacement → List String
unfolding patch_lines sort_lines add_entry
patched_lines original es = patch_lines (splitlines original) (sort_lines (foldl add_entry [] es))

unfoldable pub render_patched_text : String → List Replacement → String
unfolding patched_lines
render_patched_text original es =
    join "\n" (patched_lines original es) <> (if ends_with_newline original then "\n" else "")
