-- ===== src/Engine/Continuations.antt =====
-- What the orchestrator makes of the engine's results: python/src/isabelle_repair/repl/minimal.py and
-- `_requires_continuation_gate` of run/orchestrator.py.
use isabelle_repl.Base.{Action, pure, ◌>>=◌, ℕ, ◌≡◌, refl, Bool, false, return}
use isabelle_repl.Model.{TaskSpec, TaskResult}
use isabelle_repl.Client.{Stub}
use isabelle_repl.Engine.Fallback.{run}
use isabelle_repl.Engine.Budget.{run-IsRepair}
use isabelle_repl.Orchestrator.State.{Parts, Orchestrator}
use isabelle_repl.Orchestrator.Reviews.{choose_continuation, finalize_accepted_continuation}
use isabelle_repl.Orchestrator.Contexts.{continuation_for_result, requires_continuation_gate}

no_rerun-ungated :
    (r : TaskResult)
    → r.requires_rerun ≡ false
    → requires_continuation_gate r (continuation_for_result r) ≡ false
no_rerun-ungated r h = rw h refl

-- Whatever the engine returns for a task, once its artifact is applied the orchestrator accepts the
-- continuation at once, as `_finalize_accepted_continuation` does, and does nothing else: it neither
-- asks its policy about the continuation, whichever that is, nor enters a review of it.
pub run-choose_continuation :
    {W : Type 0} (stub : Stub W) (timeout_ms : ℕ) (promote : Bool) (spec : TaskSpec) (s : W)
    (r : TaskResult)
    → (run stub timeout_ms promote spec s).0 ≡ return r
    → {V : Type 0} (parts : Parts V) (again : Action (Orchestrator V) Bool) (task : TaskSpec)
      (o : Orchestrator V)
    → choose_continuation parts again task r o
      ≡ finalize_accepted_continuation parts r.task_id (continuation_for_result r) o
unfolding choose_continuation ◌>>=◌ pure
run-choose_continuation stub timeout_ms promote spec s r e parts again task o =
    rw (no_rerun-ungated r (run-IsRepair stub timeout_ms promote spec s r e).no_rerun) refl
