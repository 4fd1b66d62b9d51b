-- ===== src/Work/Worker.antt =====
-- The state that the work phases of crates/cao-core/src/run/executor/work_phases.rs thread through:
-- the evidence lent to them, the registry, the toolset and the disk, and the token.
use cao.Shared.{ℕ, ◌+◌, Bool, List, [], ◌∷◌, ◌++◌, Option, none, some, if◌then◌else◌}
use cao.Shared.Paths.{FilePath}
use cao.Run.Lifecycle.{RunDiagnostic}
use cao.Evidence.Sinks.{Evidence}
use cao.Evidence.Phases.{Violation}
use cao.Evidence.Operations.{Operation, keep_diagnostic, publish_pending, perform}
use cao.Selection.Overlap.{Token}
use cao.Executor.Services.{Stop, halted}
use cao.Work.Flow.{Outcome, value, stops, Action, pure, exit, ◌>>=◌, ◌>>◌}

-- `operations` is the trace of the recording steps, for the executor; `diagnosed` is that of the
-- walker `Discovery`.
pub record Worker (A W : Type 0) : Type 0 where
  pub evidence : Evidence
  pub operations : List Operation
  pub artifacts : A
  pub world : W
  pub clock : ℕ
  pub diagnosed : List FilePath

-- How a phase ends early: a `ControlFlow::Break`, or an `Err` with the invariant of the evidence.
pub data Exit : Type 0 where
  breaks : Stop → Exit
  refused : Violation → Exit

-- A phase's `PhaseFlow<B>`.
abbrev pub Phase : Type 0 → Type 0 → Type 0 → Type 0
Phase A W B = Action (Worker A W) Exit B

abbrev pub outcome_of : Option Violation → Outcome Exit (Unit {0})
outcome_of none = value tt
outcome_of (some v) = stops (refused v)

module _ {A W : Type 0} where
  abbrev pub tick : Worker A W → Worker A W
  tick w = record w { clock = w.clock + 1 }

  abbrev pub performed : Operation → Worker A W → Worker A W
  performed o w = record w {
    evidence = (perform o w.evidence).0;
    operations = w.operations ++ o ∷ [];
  }

  -- A recording step whose refusal ends the work.
  unfoldable pub step : Operation → Phase A W (Unit {0})
  step o w = (outcome_of (perform o w.evidence).1, performed o w)

  abbrev pub halt : {B : Type 0} → Phase A W B
  halt = exit (breaks halted)

  module _ (stop : Token) where
    unfoldable pub is_cancelled : Phase A W Bool
    is_cancelled w = (value (stop w.clock), tick w)

    -- `if stop.is_cancelled() { return Ok(ControlFlow::Break(Stop::Halted)); }`
    unfoldable pub unless_cancelled : Phase A W (Unit {0})
    unfolding is_cancelled
    unless_cancelled = do c ← is_cancelled; if c then halt else pure tt

  -- `record_diagnostic`, which cannot be refused.
  unfoldable pub diagnose : RunDiagnostic → Phase A W (Unit {0})
  unfolding step
  diagnose d = do step (keep_diagnostic d); step publish_pending
