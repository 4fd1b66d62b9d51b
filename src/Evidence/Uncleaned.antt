-- ===== src/Evidence/Uncleaned.antt =====
-- The facts of crates/cao-core/src/run/evidence.rs that are recorded before Safety Cleanup.
use cao.Shared.{false, Option, ◌≡◌, refl, ap, ◌∙◌, List, arith}
use cao.Run.Lifecycle.{
  RunPhase, RunPhaseStatus, RunPhaseRecord, RunProgress, RunFailure, safety_cleanup,
  archive_finalization, executed,
}
use cao.Run.Results.{ArchiveFinalizationAccount}
use cao.Evidence.Storage.{Storage, latest, is_current, is_at, same_phase}
use cao.Evidence.Sinks.{Evidence}
use cao.Evidence.Attempts.{finish_archive_finalization}
use cao.Evidence.Operations.{perform, publish_failure, finish}
use cao.Evidence.Standing.{OnceFacts, Standing}
use cao.Evidence.Accepted.{Accepts}
use cao.Evidence.Noted.{finish-accepted}
use cao.Evidence.Unmoved.{record_failure-Alike}

-- Safety Cleanup is not the current phase.
abbrev pub IsUncleaned : Storage → Type 0
IsUncleaned s = is_current s safety_cleanup ≡ false

pub Standing-IsUncleaned :
    {p : RunPhase} {status : RunPhaseStatus} {progress : Option RunProgress} {facts : OnceFacts}
    {s : Storage}
    → same_phase p safety_cleanup ≡ false
    → Standing p status progress facts s
    → IsUncleaned s
Standing-IsUncleaned other h = rw h.shape other

pub publish_failure-Accepts :
    (f : RunFailure) (e : Evidence)
    → IsUncleaned e.storage
    → Accepts (publish_failure f) e IsUncleaned
unfolding perform
publish_failure-Accepts f e h = (
  refl,
  ap (λ (rs : List RunPhaseRecord). is_at safety_cleanup (latest rs))
        (record_failure-Alike f e).same_phases
      ∙ h,
)

finish-phases :
    (a : ArchiveFinalizationAccount) (e : Evidence)
    → (perform (finish a) e).0.storage.phases ≡ e.storage.phases
unfolding perform finish_archive_finalization
finish-phases a e = ground arith

pub finish-Accepts :
    {progress : Option RunProgress} {facts : OnceFacts} (e : Evidence)
    → Standing archive_finalization executed progress facts e.storage
    → facts.finalized ≡ false
    → (a : ArchiveFinalizationAccount) → Accepts (finish a) e IsUncleaned
finish-Accepts e h running a = (
  finish-accepted e h running a,
  ap (λ (rs : List RunPhaseRecord). is_at safety_cleanup (latest rs)) (finish-phases a e)
      ∙ Standing-IsUncleaned refl h,
)
