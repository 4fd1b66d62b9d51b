-- ===== src/Evidence/Noted.antt =====
-- The facts of crates/cao-core/src/run/evidence.rs that are accepted where a run stands: those that
-- are recorded once, Planned Archive Work, and the plan and the end of Archive Finalization.
use cao.Shared.{
  ℕ, true, false, List, [], ◌∷◌, Option, none, some, ◌≡◌, refl, ap, ◌∙◌, arith, is_some, ◌++◌,
}
use cao.Run.Lifecycle.{
  extracting_archives, archive_finalization, executed, planned, RunPhaseRecord, RunProgress,
  determinate,
}
use cao.Run.Results.{
  PlannedArchiveExtraction, OutputPlanBasis, PlannedOutputArchive, ArchiveFinalizationAccount,
  default_finalization_result,
}
use cao.Evidence.Storage.{latest, is_planning}
use cao.Evidence.Sinks.{Evidence}
use cao.Evidence.Phases.{accept_violation, validate_replacement, accept_phase, put_phase}
use cao.Evidence.Facts.{
  record_planned_extraction, record_output_plan_basis, record_planned_output, with_planned,
}
use cao.Evidence.Attempts.{
  unplanned, is_executing, current_of, plan_archive_finalization, finish_archive_finalization,
}
use cao.Evidence.Operations.{
  plan, finish, planned_extraction, output_basis, planned_output, perform,
}
use cao.Evidence.Standing.{OnceFacts, entered, Standing, accepted}
use cao.Evidence.Accepted.{Accepts}

-- The facts of a Planned phase.
module _ {facts : OnceFacts} (e : Evidence) where
  pub planned_extraction-Accepts :
      Standing extracting_archives planned none facts e.storage
      → (x : PlannedArchiveExtraction)
      → Accepts (planned_extraction x) e (Standing extracting_archives planned none facts)
  unfolding perform record_planned_extraction
  planned_extraction-Accepts h x =
      let there : is_planning e.storage extracting_archives ≡ true = rw h.shape refl in
      rw there (refl, record { rest = h.rest; shape = h.shape; below = h.below; once = h.once })

  pub output_basis-Accepts :
      Standing archive_finalization planned none facts e.storage
      → facts.based ≡ false
      → (b : OutputPlanBasis)
      → Accepts
          (output_basis b)
          e
          (Standing archive_finalization planned none (record facts { based = true }))
  unfolding perform record_output_plan_basis
  output_basis-Accepts h fresh b =
      let s = e.storage in
      let w = s.planned_archive_work in
      let there : is_planning s archive_finalization ≡ true = rw h.shape refl in
      let unrecorded : is_some w.output_basis ≡ false =
        ap (λ (f : OnceFacts). f.based) h.once ∙ fresh in
      let noted = record e { storage = with_planned s (record w { output_basis = some b }) } in
      let same : record_output_plan_basis b e ≡ (noted, none) = ground arith in
      rw same (
        refl,
        record {
          rest = h.rest;
          shape = h.shape;
          below = h.below;
          once = ap (λ (f : OnceFacts). record f { based = true }) h.once;
        },
      )

  pub planned_output-Accepts :
      Standing archive_finalization planned none facts e.storage
      → facts.based ≡ true
      → (o : PlannedOutputArchive)
      → Accepts (planned_output o) e (Standing archive_finalization planned none facts)
  unfolding perform record_planned_output
  planned_output-Accepts h based o =
      let s = e.storage in
      let w = s.planned_archive_work in
      let there : is_planning s archive_finalization ≡ true = rw h.shape refl in
      let recorded : is_some w.output_basis ≡ true =
        ap (λ (f : OnceFacts). f.based) h.once ∙ based in
      let noted = record e {
        storage = with_planned s (record w { outputs = w.outputs ++ o ∷ [] });
      } in
      let same : record_planned_output o e ≡ (noted, none) = ground arith in
      rw same (refl, record { rest = h.rest; shape = h.shape; below = h.below; once = h.once })

plan_fits :
    (n : ℕ) (rs : List RunPhaseRecord)
    → accept_violation
        (entered archive_finalization executed none ∷ rs)
        (entered archive_finalization executed (some (determinate n 0 0)))
      ≡ none
unfolding accept_violation validate_replacement
plan_fits n rs = ground arith

-- The plan and the end of an executed Archive Finalization.
pub plan-Accepts :
    {facts : OnceFacts} (e : Evidence)
    → Standing archive_finalization executed none facts e.storage
    → facts.finalized ≡ false
    → (n : ℕ)
    → Accepts (plan n) e (Standing archive_finalization executed (some (determinate n 0 0)) facts)
unfolding perform plan_archive_finalization put_phase
plan-Accepts e h running n =
    let s = e.storage in
    let next = entered archive_finalization executed (some (determinate n 0 0)) in
    let with_result = record e {
      storage = record s { archive_finalization = some default_finalization_result };
    } in
    let unfinished : s.archive_finalization_completed ≡ false =
      ap (λ (f : OnceFacts). f.finalized) h.once ∙ running in
    let here : current_of archive_finalization (latest s.phases) ≡ unplanned = rw h.shape refl in
    let plans : plan_archive_finalization n e ≡ accept_phase next with_result = ground arith in
    let (fine, same) = accepted next with_result (rw h.shape (plan_fits n h.rest)) in
    rw plans (
      fine,
      rw same (record { rest = h.rest; shape = rw h.shape refl; below = h.below; once = h.once }),
    )

executing_cases :
    (progress : Option RunProgress) (rs : List RunPhaseRecord)
    → is_executing (
        current_of archive_finalization
          (latest (entered archive_finalization executed progress ∷ rs)))
      ≡ true
executing_cases none rs = refl
executing_cases (some q) rs = refl

pub finish-accepted :
    {progress : Option RunProgress} {facts : OnceFacts} (e : Evidence)
    → Standing archive_finalization executed progress facts e.storage
    → facts.finalized ≡ false
    → (a : ArchiveFinalizationAccount) → (perform (finish a) e).1 ≡ none
unfolding perform finish_archive_finalization
finish-accepted {progress} e h running a =
    let unfinished : e.storage.archive_finalization_completed ≡ false =
      ap (λ (f : OnceFacts). f.finalized) h.once ∙ running in
    let executing : is_executing (current_of archive_finalization (latest e.storage.phases))
        ≡ true =
      rw h.shape (executing_cases progress h.rest) in
    rw (unfinished, executing) refl
