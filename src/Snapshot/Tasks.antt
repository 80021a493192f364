-- ===== src/Snapshot/Tasks.antt =====
-- The tasks of the patch entries, across the operations that write entries.
use mathlib.Core.List.{reverse, reverse-reverse, reverse-append, reverse-cons, map-append}
use isabelle_repl.Base.{
  some, none, is_some, string_eq, option_eq, ◌≡◌, refl, ap, ◌∙◌, ℤ, String, Option, List, [], ◌∷◌,
  ◌++◌, map, map-reverse, arith,
}
use isabelle_repl.Model.{ArtifactKind}
use isabelle_repl.Snapshot.{Snapshot, apply_artifact_at, attach_artifact_record_id}
use isabelle_repl.Snapshot.Patch.{Replacement, attach_first}

abbrev pub entry_tasks : List Replacement → List (Option String)
entry_tasks = map (λ e. e.task_id)

-- The tasks of the patch entries, in order.
abbrev pub patch_tasks : Snapshot → List (Option String)
patch_tasks s = entry_tasks s.applied_replacements

entry_tasks-attach_first :
    (task_id record_id : String) (es : List Replacement)
    → entry_tasks (attach_first task_id record_id es) ≡ entry_tasks es
unfolding attach_first
entry_tasks-attach_first task_id record_id [] = refl
entry_tasks-attach_first task_id record_id (e ∷ es) =
    ground (arith, entry_tasks-attach_first task_id record_id es)

pub patch_tasks-attach :
    (task_id record_id : String) (s : Snapshot)
    → patch_tasks (attach_artifact_record_id task_id record_id s) ≡ patch_tasks s
unfolding attach_artifact_record_id
patch_tasks-attach task_id record_id s =
    let es = s.applied_replacements in
    map-reverse (λ (e : Replacement). e.task_id) (attach_first task_id record_id (reverse es))
    ∙ ap reverse (
        entry_tasks-attach_first task_id record_id (reverse es)
        ∙ map-reverse (λ (e : Replacement). e.task_id) es)
    ∙ reverse-reverse (entry_tasks es)

pub patch_tasks-apply :
    (kind : ArtifactKind) (text : String) (task_id : Option String) (line : ℤ)
    (original : Option String) (s : Snapshot)
    → patch_tasks (apply_artifact_at kind text task_id line original s)
      ≡ patch_tasks s ++ task_id ∷ []
unfolding apply_artifact_at
patch_tasks-apply kind text task_id line original s =
    map-append (λ (e : Replacement). e.task_id) s.applied_replacements _

attach_first-here :
    (task_id record_id : String) (e : Replacement) (es : List Replacement)
    → e.task_id ≡ some task_id
    → e.artifact_record_id ≡ none
    → attach_first task_id record_id (e ∷ es)
      ≡ record e { artifact_record_id = some record_id } ∷ es
unfolding attach_first
attach_first-here task_id record_id e es h n = ground (arith, ap is_some n)

pub attach_first-last :
    (task_id record_id : String) (es : List Replacement) (e : Replacement)
    → e.task_id ≡ some task_id
    → e.artifact_record_id ≡ none
    → reverse (attach_first task_id record_id (reverse (es ++ e ∷ [])))
      ≡ es ++ record e { artifact_record_id = some record_id } ∷ []
attach_first-last task_id record_id es e h n =
    ap reverse (
      ap (attach_first task_id record_id) (reverse-append es (e ∷ []))
      ∙ attach_first-here task_id record_id e (reverse es) h n)
    ∙ reverse-cons (record e { artifact_record_id = some record_id }) (reverse es)
    ∙ ap (λ l. l ++ record e { artifact_record_id = some record_id } ∷ []) (reverse-reverse es)
