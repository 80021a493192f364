-- ===== src/Engine/Budget.antt =====
-- The results of `ReplDeterministicTaskEngine.run` over all the block kinds that it falls back to.
use mathlib.Core.List.{append_assoc}
use isabelle_repl.Base.{
  String, return, ℕ, suc, ◌≤◌, length, length-append, ◌≡◌, refl, sym, ap, ◌∙◌, Bool, true, false,
  Option, some, List, [], ◌∷◌, ◌++◌, Returns, Returns-pure, Returns-if, Returns-bind, arith,
}
use isabelle_repl.Model.{
  accepted, escalated, TaskResult, TaskSpec, RepairBlockCandidate, ValidationResult,
}
use isabelle_repl.Client.{Stub}
use isabelle_repl.Engine.Attempts.{Proven, IsSound, controller_run-IsSound}
use isabelle_repl.Engine.Fallback.{
  Progress, no_progress, effective_spec, advance, accepted_result, exhausted_result,
  over_budget_result, is_accepted, is_exhausted, fallback_candidates, try_blocks, run,
}

accepted-escalates : (promote : Bool) → accepted ≡ escalated → promote ≡ true
accepted-escalates promote h = cc

module _ {W : Type 0} (stub : Stub W) (timeout_ms : ℕ) where
  -- A result of the engine stays in the task's budget, counts its attempts, asks for no rerun, and
  -- has a proof of what it accepts; only a promoting engine escalates.
  pub record IsRepair (promote : Bool) (spec : TaskSpec) (r : TaskResult) : Type 0 where
    pub within : length r.attempted_candidates ≤ spec.max_validations
    pub no_rerun : r.requires_rerun ≡ false
    pub counted : r.trace_counts.validate ≡ length r.attempted_candidates
    pub proven :
        is_accepted r.outcome ≡ true
        → (kind : String) × (r.selected_block_kind ≡ some kind) × Proven stub timeout_ms spec kind r
    pub escalates : r.outcome ≡ escalated → promote ≡ true

  -- The locals of the loop: what was attempted is counted and in the budget.
  record IsCounted (spec : TaskSpec) (p : Progress) : Type 0 where
    attempts : length p.attempted ≡ p.validation_count
    validations : p.trace_counts.validate ≡ length p.attempted
    below : p.validation_count ≤ spec.max_validations

  advance-IsCounted :
      (spec : TaskSpec) (p : Progress) (c : RepairBlockCandidate) (r : TaskResult)
      → IsCounted spec p
      → IsSound stub timeout_ms (effective_spec spec p c) r
      → IsCounted spec (advance p c.block_kind r)
  unfolding advance effective_spec
  advance-IsCounted spec p c r h sound =
      let more = length-append p.attempted r.attempted_candidates in
      record {
        attempts = omega (arith, more, h.attempts);
        validations = omega (arith, more, h.validations, sound.counted);
        below = omega (arith, h.below, sound.within);
      }

  accepted_result-Proven :
      (spec : TaskSpec) (p : Progress) (c : RepairBlockCandidate) (r : TaskResult)
      → Proven stub timeout_ms (effective_spec spec p c) c.block_kind r
      → Proven stub timeout_ms spec c.block_kind
          (accepted_result spec (advance p c.block_kind r) c r)
  unfolding advance effective_spec accepted_result
  accepted_result-Proven spec p c r h = record {
    text = h.text;
    before = p.attempted ++ h.before;
    v = h.v;
    world = h.world;
    execution = h.execution;
    artifact = h.artifact;
    last =
        ap (λ xs. p.attempted ++ xs) h.last ∙ sym (append_assoc p.attempted h.before (h.text ∷ []));
    validated = h.validated;
    has_passed = h.has_passed;
    executed = h.executed;
    closes = h.closes;
  }

  exhausted_result-IsRepair :
      (promote : Bool) (spec : TaskSpec) (candidates : List RepairBlockCandidate) (p : Progress)
      → IsCounted spec p
      → IsRepair promote spec (exhausted_result promote spec candidates p)
  unfolding exhausted_result
  exhausted_result-IsRepair true spec candidates p h = record {
    within = omega (arith, h.attempts, h.below);
    no_rerun = refl;
    counted = h.validations;
    proven = λ k. cc;
    escalates = λ k. refl;
  }
  exhausted_result-IsRepair false spec candidates p h = record {
    within = omega (arith, h.attempts, h.below);
    no_rerun = refl;
    counted = h.validations;
    proven = λ k. cc;
    escalates = λ k. cc;
  }

  over_budget_result-IsRepair :
      (promote : Bool) (spec : TaskSpec) (p : Progress) (validation : Option ValidationResult)
      → IsCounted spec p
      → IsRepair promote spec (over_budget_result spec p validation)
  unfolding over_budget_result
  over_budget_result-IsRepair promote spec p validation h = record {
    within = omega (arith, h.attempts, h.below);
    no_rerun = refl;
    counted = h.validations;
    proven = λ k. cc;
    escalates = λ k. cc;
  }

  try_blocks-IsRepair :
      (promote : Bool) (spec : TaskSpec) (candidates rest : List RepairBlockCandidate)
      (p : Progress)
      → IsCounted spec p
      → Returns (IsRepair promote spec) (try_blocks stub timeout_ms promote spec candidates rest p)
  unfolding try_blocks advance accepted_result effective_spec
  try_blocks-IsRepair promote spec candidates [] p h =
      Returns-pure _ _ (exhausted_result-IsRepair promote spec candidates p h)
  try_blocks-IsRepair promote spec candidates (c ∷ rest) p h = Returns-bind _ _ _ λ r s e.
      let sound =
        (controller_run-IsSound stub timeout_ms timeout_ms (effective_spec spec p c)).at s r e in
      let next = advance-IsCounted spec p c r h sound in
      Returns-if _ (is_accepted r.outcome) _ _
        (λ ok. Returns-pure _ _ (record {
          within = omega (arith, next.attempts, next.below);
          no_rerun = sound.no_rerun;
          counted = next.validations;
          proven = λ k. (c.block_kind, refl, accepted_result-Proven spec p c r (sound.proven ok));
          escalates = accepted-escalates promote;
        }))
        (λ _.
          Returns-if _ (is_exhausted r.validation) _ _
            (λ _. Returns-pure _ _ (over_budget_result-IsRepair promote spec _ r.validation next))
            (λ _.
              try_blocks-IsRepair promote spec candidates rest
                (record (advance p c.block_kind r) { index = suc p.index })
                (record {
                  attempts = next.attempts;
                  validations = next.validations;
                  below = next.below;
                })))

  -- Over all the block kinds that it falls back to, the engine validates no more candidates than the
  -- task's budget allows and counts each of them; it never asks for a rerun and escalates only if it
  -- promotes failures; what it accepts is the text validated last, and some execution of that text
  -- from the task's state fulfils the contract of the block kind that it reports.
  pub run-IsRepair :
      (promote : Bool) (spec : TaskSpec) (s : W) (r : TaskResult)
      → (run stub timeout_ms promote spec s).0 ≡ return r
      → IsRepair promote spec r
  unfolding run
  run-IsRepair promote spec s r e =
      (try_blocks-IsRepair promote spec (fallback_candidates spec) (fallback_candidates spec)
          no_progress (record { attempts = refl; validations = refl; below = omega arith })).at
        s r e
