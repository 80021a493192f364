-- ===== src/Engine/Attempts.antt =====
-- The results of the controller and of the engine: what is attempted, and when a repair is accepted.
use isabelle_repl.Base.{
  ℕ, suc, ◌≤◌, leb, length, length-append, ◌≡◌, refl, sym, String, truthy, or_default, true, false,
  some, List, [], ◌∷◌, ◌++◌, return, Returns, Returns-pure, Returns-if, Returns-bind, arith,
}
use isabelle_repl.Model.{TaskResult, TaskSpec, ValidationResult}
use isabelle_repl.Client.{StateResult, Stub, execute}
use isabelle_repl.Engine.Adapters.{default_registry}
use isabelle_repl.Engine.Controller.{
  source_state_of, CandidateSource, is_passed, judge, try_candidates, start_candidates,
  run_with_source, controller_run, annotate_validation, validate_execution, entry_level,
}
use isabelle_repl.Contracts.{contract_for_block_kind}
use isabelle_repl.Engine.Contracts.{fulfils_some, registry_validate-fulfils}
use isabelle_repl.Engine.Fallback.{is_accepted}

-- The artifact of `r` is the last text attempted, and some execution of it from the task's state
-- fulfils the contract of the block kind.
pub record Proven {W : Type 0} (stub : Stub W) (timeout_ms : ℕ) (spec : TaskSpec) (kind : String)
    (r : TaskResult) : Type 0 where
  pub text : String
  pub before : List String
  pub v : ValidationResult
  pub world : W
  pub execution : StateResult
  pub artifact : r.artifact_text ≡ some text
  pub last : r.attempted_candidates ≡ before ++ text ∷ []
  pub validated : r.validation ≡ some v
  pub has_passed : is_passed v.status ≡ true
  pub executed :
      (execute stub (source_state_of spec) text timeout_ms true world).0 ≡ return execution
  pub closes : fulfils_some (contract_for_block_kind kind) (entry_level spec) execution ≡ true

-- No more attempts than the budget, each counted as one validation, no request for a rerun, and a proof of what is accepted.
pub record IsSound {W : Type 0} (stub : Stub W) (timeout_ms : ℕ) (spec : TaskSpec) (r : TaskResult)
    : Type 0 where
  pub within : length r.attempted_candidates ≤ spec.max_validations
  pub no_rerun : r.requires_rerun ≡ false
  pub counted : r.trace_counts.validate ≡ length r.attempted_candidates
  pub proven : is_accepted r.outcome ≡ true → Proven stub timeout_ms spec spec.task.block_kind r

judge-passed :
    {W : Type 0} (stub : Stub W) (timeout_ms : ℕ) (spec : TaskSpec) (source : CandidateSource W)
    (candidate : String) (r : StateResult)
    → is_passed (judge stub default_registry timeout_ms spec source candidate r).status ≡ true
    → fulfils_some (contract_for_block_kind spec.task.block_kind) (entry_level spec) r ≡ true
unfolding annotate_validation validate_execution
judge-passed stub timeout_ms spec source candidate r h = ground (
  arith,
  registry_validate-fulfils (record {
    block_kind = spec.task.block_kind;
    block_contract = spec.block_contract;
    entry_mode = or_default spec.task.entry_checkpoint.mode "";
    entry_proof_level = entry_level spec;
    execution_result = r;
  }),
)

leb-false : (a b : ℕ) → leb a b ≡ false → suc b ≤ a
leb-false a b e = ground arith

length-snoc : {A : Type 0} (xs : List A) (x : A) → length (xs ++ x ∷ []) ≡ suc (length xs)
length-snoc xs x = omega (arith, length-append xs (x ∷ []))

module _ {W : Type 0} (stub : Stub W) (timeout_ms : ℕ) where
  try_candidates-IsSound :
      (spec : TaskSpec) (source : CandidateSource W) (count : ℕ) (attempted rest : List String)
      → length attempted ≡ count
      → count ≤ spec.max_validations
      → Returns
          (IsSound stub timeout_ms spec)
          (try_candidates stub default_registry timeout_ms spec source count attempted rest)
  unfolding try_candidates
  try_candidates-IsSound spec source count attempted [] e h =
      Returns-pure _ _ (record {
        within = omega (arith, e, h);
        no_rerun = refl;
        counted = sym e;
        proven = λ k. cc;
      })
  try_candidates-IsSound spec source count attempted (candidate ∷ rest) e h =
      Returns-if _ (leb spec.max_validations count) _ _
        (λ _. Returns-pure _ _ (record {
          within = omega (arith, e, h);
          no_rerun = refl;
          counted = sym e;
          proven = λ k. cc;
        }))
        (λ small. Returns-bind _ _ _ (λ r s ran.
          Returns-if _ _ _ _
            (λ ok. Returns-pure _ _ (record {
              within = omega (
                arith,
                e,
                length-snoc attempted candidate,
                leb-false spec.max_validations count small,
              );
              no_rerun = refl;
              counted = omega (arith, e, length-snoc attempted candidate);
              proven = λ _. record {
                text = candidate;
                before = attempted;
                v = _;
                world = s;
                execution = r;
                artifact = refl;
                last = refl;
                validated = refl;
                has_passed = ok;
                executed = ran;
                closes = judge-passed stub timeout_ms spec source candidate r ok;
              };
            }))
            (λ _.
              try_candidates-IsSound spec source (suc count) (attempted ++ candidate ∷ []) rest
                (omega (arith, e, length-snoc attempted candidate))
                (leb-false spec.max_validations count small))))

  run_with_source-IsSound :
      (spec : TaskSpec) (source : CandidateSource W)
      → Returns
          (IsSound stub timeout_ms spec)
          (run_with_source stub default_registry timeout_ms spec source)
  unfolding run_with_source
  run_with_source-IsSound spec source =
      Returns-if _ (truthy (source_state_of spec)) _ _
        (λ _. Returns-bind _ _ _ (λ candidates s e. started candidates))
        (λ _.
          Returns-pure _ _
            (record { within = omega arith; no_rerun = refl; counted = refl; proven = λ k. cc }))
    where
      started :
          (candidates : List String)
          → Returns
              (IsSound stub timeout_ms spec)
              (start_candidates stub default_registry timeout_ms spec source candidates)
      started [] =
          Returns-pure _ _
            (record { within = omega arith; no_rerun = refl; counted = refl; proven = λ k. cc })
      started (c ∷ cs) = try_candidates-IsSound spec source 0 [] (c ∷ cs) refl (omega arith)

  pub controller_run-IsSound :
      (generator_timeout_ms : ℕ) (spec : TaskSpec)
      → Returns
          (IsSound stub timeout_ms spec)
          (controller_run stub default_registry timeout_ms generator_timeout_ms spec)
  unfolding controller_run
  controller_run-IsSound generator_timeout_ms spec = run_with_source-IsSound spec _
