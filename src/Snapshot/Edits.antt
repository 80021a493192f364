-- ===== src/Snapshot/Edits.antt =====
-- What the operations on a snapshot change.
use mathlib.Core.List.{reverse, reverse-append}
use isabelle_repl.Base.{
  ℤ, pos, suc, ltb_ℤ, ◌≡◌, ◌⊎◌, inl, inr, String, true, false, Option, some, List, [], ◌∷◌, ◌++◌,
  ◌==◌, int_eq, arith, if◌then◌else◌, get_elem?, splitlines, raise, value_error, Bool-cases, ℕ,
  return, throw, modify,
}
use isabelle_repl.Model.{ArtifactKind}
use isabelle_repl.Snapshot.{Snapshot, apply_artifact_at, set_anchor, replacement_for_line}
use isabelle_repl.Snapshot.Patch.{Replacement, find_line, patched_lines}
use isabelle_repl.Snapshot.Rendering.{over, get_elem?-patched_lines}

find_line-reverse-snoc :
    (l : ℤ) (es : List Replacement) (e : Replacement)
    → find_line l (reverse (es ++ e ∷ []))
      ≡ (if e.command_line == l then some e.replacement_text else find_line l (reverse es))
unfolding find_line
find_line-reverse-snoc l es e = rw (reverse-append es (e ∷ []))

-- After an artifact is applied at a line, the replacement for that line is its text, and that for any
-- other line is what it was.
pub replacement_for_line-apply_artifact_at :
    (kind : ArtifactKind) (text : String) (task_id : Option String) (line : ℤ)
    (original_text : Option String) (s : Snapshot) (l : ℤ)
    → replacement_for_line (apply_artifact_at kind text task_id line original_text s) l
      ≡ (if line == l then some text else replacement_for_line s l)
unfolding replacement_for_line apply_artifact_at
replacement_for_line-apply_artifact_at kind text task_id line original_text s l =
    find_line-reverse-snoc l s.applied_replacements _

-- `set_anchor` moves the cursor to the given place, unless that lies before it: then it raises, and
-- the snapshot stays as it was.
pub set_anchor_monotonic :
    (state_id mode : String) (cursor level : ℤ) (s : Snapshot)
    → let (r, s') = set_anchor state_id cursor mode level s in
      ((r ≡ return tt)
        × (s'.command_cursor ≡ cursor)
        × (s'.current_anchor_state_id ≡ some state_id)
        × (ltb_ℤ s'.command_cursor s.command_cursor ≡ false))
      ⊎ ((r ≡ raise (value_error "command_cursor must be monotonic"))
          × (s' ≡ s)
          × (ltb_ℤ cursor s.command_cursor ≡ true))
unfolding set_anchor throw modify
set_anchor_monotonic state_id mode cursor level s =
    elim (Bool-cases (ltb_ℤ cursor s.command_cursor)) [
      | inl back ↦ inr (ground arith, ground arith, back)
      | inr on ↦ inl (ground arith, ground arith, ground arith, ground arith)
    ]

-- The lines that the rendered text is joined from agree with the replacements that the localizer looks
-- up: for a line i + 1 of the original text, the element i of the list is the text that
-- `replacement_for_line` finds for it, or the original line where it finds none; the list has no
-- further elements.
pub patched_lines-replacement_for_line :
    (s : Snapshot) (i : ℕ)
    → get_elem? (patched_lines s.original_text s.applied_replacements) i
      ≡ over (replacement_for_line s (pos (suc i))) (get_elem? (splitlines s.original_text) i)
unfolding replacement_for_line
patched_lines-replacement_for_line s i =
    get_elem?-patched_lines s.original_text s.applied_replacements i
