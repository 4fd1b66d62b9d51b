-- ===== src/Evidence/Account.antt =====
-- The progress of an attempt-bearing phase against the attempts that the evidence retains.
use cao.Shared.{
  ℕ, ◌+◌, ◌<◌, Bool, false, List, [], ◌∷◌, ◌++◌, map, Option, none, some, if◌then◌else◌, ◌≡◌, inl,
  inr, sym, ◌∙◌, arith, Bool-cases, is_some,
}
use cao.Run.Attempt.{succeeded}
use cao.Run.Lifecycle.{
  RunPhase, extracting_archives, processing_assets, archive_finalization, phase_index,
  RunPhaseRecord, RunProgress,
}
use cao.Evidence.Storage.{Storage, same_phase, find_phase}
use cao.Evidence.Phases.{accept_violation, put_phase}
use cao.Evidence.Transition.{Descends, same_phase_eq}
use cao.Evidence.Attempts.{streamed}

abbrev pub successes : List Bool → ℕ
successes [] = 0
successes (b ∷ bs) = (if b then 1 else 0) + successes bs

abbrev pub losses : List Bool → ℕ
losses [] = 0
losses (b ∷ bs) = (if b then 0 else 1) + losses bs

-- Whether each retained attempt of a phase succeeded.
abbrev pub flags : RunPhase → Storage → List Bool
flags extracting_archives s = map (λ a. succeeded a.outcome) s.archive_extraction_attempts
flags processing_assets s = map (λ a. succeeded a.result.outcome) s.asset_attempts
flags archive_finalization s = map (λ a. succeeded a.outcome) (streamed s.archive_finalization)
flags _ s = []

abbrev pub done_of : Option RunProgress → ℕ
done_of none = 0
done_of (some p) = p.succeeded

abbrev pub lost_of : Option RunProgress → ℕ
lost_of none = 0
lost_of (some p) = p.failed

-- What the record of a phase says is done, 0 where there is none.
unfoldable pub done : RunPhase → List RunPhaseRecord → ℕ
done p [] = 0
done p (r ∷ rs) = let rest = done p rs in if same_phase r.phase p then done_of r.progress else rest

unfoldable pub lost : RunPhase → List RunPhaseRecord → ℕ
lost p [] = 0
lost p (r ∷ rs) = let rest = lost p rs in if same_phase r.phase p then lost_of r.progress else rest

abbrev pub Accounts : RunPhase → List Bool → List RunPhaseRecord → Type 0
Accounts p fs phases = (successes fs ≡ done p phases) × (losses fs ≡ lost p phases)

pub successes-concat :
    (fs : List Bool) (b : Bool)
    → (successes (fs ++ b ∷ []) ≡ successes fs + (if b then 1 else 0))
      × (losses (fs ++ b ∷ []) ≡ losses fs + (if b then 0 else 1))
successes-concat [] b = ground arith
successes-concat (x ∷ fs) b = let (s, l) = successes-concat fs b in ground arith

pub done-put_phase :
    (p : RunPhase) (phases : List RunPhaseRecord) (r : RunPhaseRecord)
    → (done p (put_phase phases r)
        ≡ (if same_phase r.phase p then done_of r.progress else done p phases))
      × (lost p (put_phase phases r)
          ≡ (if same_phase r.phase p then lost_of r.progress else lost p phases))
unfolding done lost put_phase
done-put_phase p [] r = ground arith
done-put_phase p (l ∷ ls) r = elim (Bool-cases (same_phase l.phase r.phase)) [
  | inl e ↦ rw e (rw (same_phase_eq l.phase r.phase e) (ground arith))
  | inr e ↦ rw e (ground arith)
]

-- A phase behind the latest one has no record.
done_later :
    (p : RunPhase) (r : RunPhaseRecord) (rs : List RunPhaseRecord)
    → phase_index r.phase < phase_index p
    → Descends (r ∷ rs)
    → (done p (r ∷ rs) ≡ 0) × (lost p (r ∷ rs) ≡ 0)
unfolding done lost
done_later p r [] h d = ground arith
done_later p r (l ∷ ls) h d = let ih = done_later p l ls (omega arith) d.1 in ground arith

pub done_of_find_phase :
    (p : RunPhase) (phases : List RunPhaseRecord)
    → is_some (find_phase p phases) ≡ false
    → (done p phases ≡ 0) × (lost p phases ≡ 0)
unfolding done lost find_phase
done_of_find_phase p [] h = ground arith
done_of_find_phase p (r ∷ rs) h = ground (arith, done_of_find_phase p rs)

-- An accepted record without progress says as little as the phase's old one.
done_unplanned :
    (phases : List RunPhaseRecord) (r : RunPhaseRecord)
    → accept_violation phases r ≡ none
    → r.progress ≡ none
    → Descends phases
    → (done r.phase phases ≡ 0) × (lost r.phase phases ≡ 0)
unfolding accept_violation
done_unplanned [] r h e d = unfold done lost in ground arith
done_unplanned (l ∷ ls) r h e d = elim (Bool-cases (same_phase l.phase r.phase)) [
  | inl same ↦ unfold done lost in ground arith
  | inr other ↦ done_later r.phase l ls (ground arith) d
]

module _ (p : RunPhase) (fs : List Bool) (phases : List RunPhaseRecord) (r : RunPhaseRecord) where
  pub Accounts-other :
      same_phase r.phase p ≡ false → Accounts p fs phases → Accounts p fs (put_phase phases r)
  Accounts-other h a = let (s, l) = done-put_phase p phases r in ground arith

  pub Accounts-unplanned :
      accept_violation phases r ≡ none
      → r.progress ≡ none
      → Descends phases
      → Accounts p fs phases
      → Accounts p fs (put_phase phases r)
  Accounts-unplanned h e d a = elim (Bool-cases (same_phase r.phase p)) [
    | inr other ↦ Accounts-other other a
    | inl same ↦
        let (s, l) = done-put_phase p phases r in
        let none_done = done_unplanned phases r h e d in
        let eq = same_phase_eq r.phase p same in
        (
          a.0 ∙ rw eq at none_done.0 ∙ sym (s ∙ rw (same, e)),
          a.1 ∙ rw eq at none_done.1 ∙ sym (l ∙ rw (same, e)),
        )
  ]
