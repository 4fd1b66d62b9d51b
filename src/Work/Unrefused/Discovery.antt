-- ===== src/Work/Unrefused/Discovery.antt =====
-- The recording steps of `discover_archives` of
-- crates/cao-core/src/run/executor/work_phases.rs.
use cao.Shared.{true, false, List, [], Option, none, some, refl, arith}
use cao.Shared.Paths.{FilePath}
use cao.Run.Lifecycle.{
  RunPhase, preparing, discovering_archives, RunPhaseStatus, RunProgress, executed, RunDiagnostic,
}
use cao.Run.Results.{RunPreparation}
use cao.Evidence.Storage.{Storage}
use cao.Evidence.Sinks.{Evidence}
use cao.Evidence.Operations.{
  executed_phase, skipped_counts, collisions, publish_failure, keep_diagnostic, perform,
}
use cao.Evidence.Standing.{OnceFacts, Standing}
use cao.Evidence.Accepted.{executed_phase-Accepts, keep_diagnostic-Accepts}
use cao.Evidence.Once.{collisions-Accepts, skipped_counts-Accepts}
use cao.Evidence.Uncleaned.{Standing-IsUncleaned, publish_failure-Accepts}
use cao.Selection.Overlap.{Token}
use cao.Work.Toolset.{Toolset, RootArchives, Preflight}
use cao.Work.Traced.{Traces, perform-Traces}
use cao.Work.Discover.{
  empty_pass, run_archive_pass, preflight_of, after_preflight, discover_archives,
}
use cao.Work.Ends.{
  Runs, Runs-bind, Runs-step, Runs-halt, Runs-pure, Runs-if, Runs-lift, Runs-diagnose,
}
use cao.Work.Unrefused.Walks.{archive_pass_keeps}

-- What is recorded before the work phases, after discovery, and after the definitive pass.
abbrev pub fresh_facts : OnceFacts
fresh_facts = record {
  collisions = false;
  skipped_counts = false;
  nested_count = false;
  failures = [];
  routed = false;
  finalized = false;
  based = false;
}

abbrev pub discovered_facts : OnceFacts
discovered_facts = record fresh_facts { collisions = true; skipped_counts = true }

-- A run that has executed Preparing and no more.
abbrev pub IsPrepared : Storage → Type 0
IsPrepared = Standing preparing executed none fresh_facts

abbrev pub HasDiscovered : Storage → Type 0
HasDiscovered = Standing discovering_archives executed none discovered_facts

abbrev counted_facts : OnceFacts
counted_facts = record fresh_facts { skipped_counts = true }

abbrev Discovering : OnceFacts → Storage → Type 0
Discovering = Standing discovering_archives executed none

pub Standing-keeps :
    {p : RunPhase} {status : RunPhaseStatus} {progress : Option RunProgress} {facts : OnceFacts}
    (d : RunDiagnostic) (e : Evidence)
    → Standing p status progress facts e.storage
    → Standing p status progress facts (perform (keep_diagnostic d) e).0.storage
Standing-keeps d e h = (keep_diagnostic-Accepts e h d).1

module _ {A W : Type 0} where
  after_preflight-Runs :
      (recognized : List FilePath) (decided : Preflight)
      → Runs {A = A} {W = W}
          (Discovering counted_facts)
          (after_preflight recognized decided)
          (λ a. HasDiscovered)
  unfolding after_preflight
  after_preflight-Runs recognized (Preflight.failed f) =
      Runs-bind
        (Runs-step (publish_failure f)
          (λ e h. publish_failure-Accepts f e (Standing-IsUncleaned refl h)))
        (λ u. Runs-halt (λ s h. h))
  after_preflight-Runs recognized Preflight.cancelled =
      Runs-halt (λ s h. Standing-IsUncleaned refl h)
  after_preflight-Runs recognized (Preflight.planned plans cs none) =
      Runs-bind (Runs-step (collisions cs) (λ e h. collisions-Accepts e h refl cs))
        (λ u. Runs-pure (λ s h. h))
  after_preflight-Runs recognized (Preflight.planned plans cs (some warning)) =
      Runs-bind (Runs-step (collisions cs) (λ e h. collisions-Accepts e h refl cs))
        (λ u. Runs-bind (Runs-diagnose warning) (λ v. Runs-pure (λ s h. h)))

module _ {A W : Type 0} (tools : Toolset A W) (stop : Token) (preparation : RunPreparation) where
  run_archive_pass-Runs :
      (facts : OnceFacts)
      → Runs (Discovering facts) (run_archive_pass tools stop preparation) (λ a. Discovering facts)
  unfolding run_archive_pass
  run_archive_pass-Runs facts =
      Runs-lift
        (λ lent.
          archive_pass_keeps (λ e os a w. Traces lent e os)
            (λ d e os a w k. perform-Traces lent (keep_diagnostic d) e os k) stop tools
            preparation.policy preparation.mod_roots empty_pass [])
        (archive_pass_keeps (λ e os a w. Discovering facts e.storage)
          (λ d e os a w k. Standing-keeps d e k) stop tools preparation.policy preparation.mod_roots
          empty_pass [])

  preflight_of-Runs :
      (facts : OnceFacts) (roots : List RootArchives)
      → Runs (Discovering facts) (preflight_of tools preparation roots) (λ a. Discovering facts)
  unfolding preflight_of
  preflight_of-Runs facts roots = Runs-lift (λ l w t. t) (λ w h. h)

  -- After Preparing, Archive discovery is recorded without a refusal.
  pub discover_archives-Runs :
      Runs IsPrepared (discover_archives tools stop preparation) (λ a. HasDiscovered)
  unfolding discover_archives
  discover_archives-Runs =
      Runs-bind
        (Runs-step (executed_phase discovering_archives none)
          (λ e h. executed_phase-Accepts e h discovering_archives (omega arith) refl))
        (λ u. Runs-bind (run_archive_pass-Runs fresh_facts) (λ passed.
          Runs-bind
            (Runs-step (skipped_counts passed.1.skipped)
              (λ e h. skipped_counts-Accepts e h refl passed.1.skipped))
            (λ v.
              Runs-if passed.0
                (Runs-bind (preflight_of-Runs counted_facts passed.2)
                  (λ decided. after_preflight-Runs passed.1.recognized decided))
                (Runs-halt (λ s h. Standing-IsUncleaned refl h)))))
