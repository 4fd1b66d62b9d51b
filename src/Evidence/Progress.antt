-- ===== src/Evidence/Progress.antt =====
-- The shared progress step of crates/cao-core/src/run/evidence.rs.
use cao.Shared.{
  ◌<◌, Bool, true, List, [], ◌∷◌, none, some, leb, ◌≡◌, ◌⊎◌, inl, inr, refl, sym, subst, arith,
  Bool-cases, is_some,
}
use cao.Run.Lifecycle.{
  RunPhase, extracting_archives, processing_assets, archive_finalization, executed, RunPhaseRecord,
  RunProgress, completed, executed_record,
}
use cao.Evidence.Storage.{same_phase, latest}
use cao.Evidence.Sinks.{Evidence}
use cao.Evidence.Phases.{accept_violation, accept_phase, put_phase}
use cao.Evidence.Transition.{same_phase_eq, Shaped, accept_phase_lem}
use cao.Evidence.Account.{
  flags, Accounts, Accounts-other, done, lost, done-put_phase, successes-concat,
}
use cao.Evidence.Attempts.{
  PhaseAttempt, Current, elsewhere, unplanned, at, current_of, advance, retain_in, record_in,
  record_attempt_progress,
}
use cao.Evidence.Preserved.{IsSound, accept-IsSound}
use cao.Evidence.Lawful.{Lawful}

-- What it means that the current phase is planned with this progress.
pub record IsAt (p : RunPhase) (q : RunProgress) (phases : List RunPhaseRecord) : Type 0 where
  pub first : RunPhaseRecord
  pub rest : List RunPhaseRecord
  pub shape : phases ≡ first ∷ rest
  pub is_phase : first.phase ≡ p
  pub is_executed : first.status ≡ executed
  pub has_progress : first.progress ≡ some q

pub current-IsAt :
    (p : RunPhase) (phases : List RunPhaseRecord) (q : RunProgress)
    → current_of p (latest phases) ≡ at q
    → IsAt p q phases
current-IsAt p [] q h = ground arith
current-IsAt p (r ∷ rs) q h = record {
  first = r;
  rest = rs;
  shape = refl;
  is_phase = same_phase_eq r.phase p (ground arith);
  is_executed = ground arith;
  has_progress = ground arith;
}

-- The record that counts one more attempt is always accepted while the total is not reached.
advance_accepted :
    (p : RunPhase) (phases : List RunPhaseRecord) (q : RunProgress) (ok : Bool)
    → IsAt p q phases
    → Shaped phases
    → completed q < q.total
    → accept_violation phases (executed_record p (some (advance q ok))) ≡ none
unfolding accept_violation
advance_accepted p phases q ok i s h =
    let shaped : Shaped (i.first ∷ i.rest) = rw i.shape at s in
    let reason = shaped.0 i.is_executed in rw i.shape (ground arith)

pub same_phase_refl : (p : RunPhase) → same_phase p p ≡ true
same_phase_refl p = ground arith

done-IsAt :
    (p : RunPhase) (q : RunProgress) (phases : List RunPhaseRecord)
    → IsAt p q phases
    → (done p phases ≡ q.succeeded) × (lost p phases ≡ q.failed)
unfolding done lost
done-IsAt p q phases i = rw i.shape (ground (arith, same_phase_refl p))

module _ {T : Type 0} (k : PhaseAttempt T) (law : Lawful k) (a : T) (e : Evidence)
    (i : IsSound e.storage) where
  abbrev advanced : RunProgress → RunPhaseRecord
  advanced q = executed_record k.phase (some (advance q (k.succeeded a)))

  Accounts-own :
      (q : RunProgress)
      → IsAt k.phase q e.storage.phases
      → Accounts k.phase (flags k.phase e.storage) e.storage.phases
      → Accounts k.phase
          (flags k.phase (k.retain a e.storage))
          (put_phase e.storage.phases (advanced q))
  Accounts-own q at_q acc =
      let (x, y) = done-put_phase k.phase e.storage.phases (advanced q) in
      let (u, v) = done-IsAt k.phase q e.storage.phases at_q in
      let (m, n) = successes-concat (flags k.phase e.storage) (k.succeeded a) in
      let same = same_phase_refl k.phase in rw (law.own a e.storage) (ground arith)

  Accounts-advanced :
      (p : RunPhase) (q : RunProgress)
      → IsAt k.phase q e.storage.phases
      → Accounts p (flags p e.storage) e.storage.phases
      → Accounts p (flags p (k.retain a e.storage)) (put_phase e.storage.phases (advanced q))
  Accounts-advanced p q at_q acc = elim (Bool-cases (same_phase k.phase p)) [
    | inr other ↦
        rw (law.other p a e.storage other)
          (Accounts-other p (flags p e.storage) e.storage.phases (advanced q) other acc)
    | inl same ↦
        let eq = same_phase_eq k.phase p same in
        subst
          (λ x.
            Accounts x (flags x (k.retain a e.storage)) (put_phase e.storage.phases (advanced q)))
          eq
          (Accounts-own q at_q
            (subst (λ x. Accounts x (flags x e.storage) e.storage.phases) (sym eq) acc))
  ]

  -- What the step has done: nothing, with an invariant reported, or the attempt is retained and
  -- the progress counts it.
  pub record Counted : Type 0 where
    pub before : RunProgress
    pub was_at : IsAt k.phase before e.storage.phases
    pub had_room : completed before < before.total
    pub accepted : (record_attempt_progress k a e).1 ≡ none
    pub entered : record_attempt_progress k a e ≡ accept_phase (advanced before) (retain_in k a e)
    pub becomes :
        let s = k.retain a e.storage in
        (record_attempt_progress k a e).0.storage ≡ record s {
          phases = put_phase s.phases (advanced before);
          diagnostics = (record_attempt_progress k a e).0.storage.diagnostics;
        }

  record_in-accepted :
      (q : RunProgress)
      → current_of k.phase (latest e.storage.phases) ≡ at q
      → completed q < q.total
      → record_attempt_progress k a e ≡ accept_phase (advanced q) (retain_in k a e)
  unfolding record_attempt_progress record_in
  record_in-accepted q h room = rw h (ground arith)

  advanced_accepted :
      (q : RunProgress)
      → IsAt k.phase q e.storage.phases
      → completed q < q.total
      → accept_violation (k.retain a e.storage).phases (advanced q) ≡ none
  advanced_accepted q at_q room =
      rw (law.keeps_phases a e.storage)
        (advance_accepted k.phase e.storage.phases q (k.succeeded a) at_q i.shaped room)

  pub counts :
      (q : RunProgress)
      → current_of k.phase (latest e.storage.phases) ≡ at q
      → completed q < q.total
      → Counted
  counts q h room =
      let at_q = current-IsAt k.phase e.storage.phases q h in
      let same = record_in-accepted q h room in
      elim (accept_phase_lem (advanced q) (retain_in k a e)) [
        | inr (refused, _) ↦
            absurd (unfold accept_phase in ground (arith, advanced_accepted q at_q room))
        | inl (ok, _, becomes) ↦ record {
          before = q;
          was_at = at_q;
          had_room = room;
          accepted = rw same ok;
          entered = same;
          becomes = rw same becomes;
        }
      ]

  abbrev pub Refused : Type 0
  Refused =
      ((record_attempt_progress k a e).0 ≡ e) × (is_some (record_attempt_progress k a e).1 ≡ true)

  record_cases :
      (c : Current) → current_of k.phase (latest e.storage.phases) ≡ c → Counted ⊎ Refused
  unfolding record_attempt_progress record_in
  record_cases elsewhere h = inr (rw h, rw h)
  record_cases unplanned h = inr (rw h, rw h)
  record_cases (at q) h = elim (Bool-cases (leb q.total (completed q))) [
    | inl full ↦ inr (rw h (ground arith), rw h (ground arith))
    | inr room ↦ inl (counts q h (ground arith))
  ]

  -- An attempt is either retained, behind the earlier ones of its kind, with the current phase's
  -- progress advanced by it, or refused with an invariant and no change at all.
  pub record_attempt_progress_lem : Counted ⊎ Refused
  record_attempt_progress_lem = record_cases (current_of k.phase (latest e.storage.phases)) refl

  Counted-IsSound : Counted → IsSound (record_attempt_progress k a e).0.storage
  Counted-IsSound c =
      let kept = law.keeps_phases a e.storage in
      let account = λ (p : RunPhase) (x : Accounts p (flags p e.storage) e.storage.phases).
        Accounts-advanced p c.before c.was_at x in
      rw c.entered (
        accept-IsSound (advanced c.before) (retain_in k a e) (rw kept i.ordered) (rw kept i.bounded)
          (rw kept i.shaped) (λ h. refl) (advanced_accepted c.before c.was_at c.had_room)
          (rw kept (record {
            extracting = account extracting_archives i.extracting;
            processing = account processing_assets i.processing;
            finalizing = account archive_finalization i.finalizing;
          })))

  pub record_attempt_progress-IsSound : IsSound (record_attempt_progress k a e).0.storage
  record_attempt_progress-IsSound = elim record_attempt_progress_lem [
    | inr (same, _) ↦ rw same i
    | inl c ↦ Counted-IsSound c
  ]
