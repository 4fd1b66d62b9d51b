-- ===== src/Evidence/Transition.antt =====
-- The phase record that `accept_phase` of crates/cao-core/src/run/evidence.rs puts into the storage.
use cao.Shared.{
  ◌<◌, true, false, List, [], ◌∷◌, none, ◌≡◌, ◌⊎◌, inl, inr, arith, Bool-cases, Option-cases,
  is_some,
}
use cao.Run.Lifecycle.{RunPhase, preparing, safety_cleanup, phase_index, executed, RunPhaseRecord}
use cao.Evidence.Storage.{same_phase}
use cao.Evidence.Sinks.{Evidence, Publication, publish}
use cao.Evidence.Phases.{exceeds, accept_violation, accept_phase, put_phase, with_phases}

-- The part of the storage that a publication leaves alone is all but the diagnostics.
pub publish-storage :
    (p : RunPhase) (x : Publication) (e : Evidence)
    → let s = e.storage in
      (publish p x e).storage ≡ record s { diagnostics = (publish p x e).storage.diagnostics }
unfolding publish
publish-storage p x e = ground arith

-- Latest first, the phases strictly descend to one that a run may start with.
abbrev Starts : RunPhase → Type 0
Starts p = (p ≡ preparing) ⊎ (p ≡ safety_cleanup)

abbrev pub Descends : List RunPhaseRecord → Type 0
Descends [] = Unit
Descends (r ∷ []) = Starts r.phase
Descends (r ∷ l ∷ ls) = (phase_index l.phase < phase_index r.phase) × Descends (l ∷ ls)

pub same_phase_eq : (a b : RunPhase) → same_phase a b ≡ true → a ≡ b
same_phase_eq preparing b h = ground arith
same_phase_eq _ b h = ground arith

-- No record claims more completed attempts than its total.
abbrev pub Bounded : List RunPhaseRecord → Type 0
Bounded [] = Unit
Bounded (r ∷ rs) = (exceeds r.progress ≡ false) × Bounded rs

pub put_phase-Descends :
    (phases : List RunPhaseRecord) (r : RunPhaseRecord)
    → accept_violation phases r ≡ none
    → Descends phases
    → Descends (put_phase phases r)
unfolding put_phase accept_violation
put_phase-Descends [] r h d = ground arith
put_phase-Descends (l ∷ []) r h d = elim (Bool-cases (same_phase l.phase r.phase)) [
  | inl e ↦ rw e (ground (arith, same_phase_eq l.phase r.phase))
  | inr e ↦ rw e (ground arith, d)
]
put_phase-Descends (l ∷ m ∷ ls) r h d = elim (Bool-cases (same_phase l.phase r.phase)) [
  | inl e ↦ rw e (ground arith, d.1)
  | inr e ↦ rw e (ground arith, d)
]

pub put_phase-Bounded :
    (phases : List RunPhaseRecord) (r : RunPhaseRecord)
    → accept_violation phases r ≡ none
    → Bounded phases
    → Bounded (put_phase phases r)
unfolding put_phase accept_violation
put_phase-Bounded [] r h b = ground arith
put_phase-Bounded (l ∷ ls) r h b = ground arith

-- An executed record gives no reason to skip, as its constructor makes it.
abbrev pub IsShaped : RunPhaseRecord → Type 0
IsShaped r = r.status ≡ executed → r.skip_reason ≡ none

abbrev pub Shaped : List RunPhaseRecord → Type 0
Shaped [] = Unit
Shaped (r ∷ rs) = IsShaped r × Shaped rs

pub put_phase-Shaped :
    (phases : List RunPhaseRecord) (r : RunPhaseRecord)
    → IsShaped r
    → Shaped phases
    → Shaped (put_phase phases r)
unfolding put_phase
put_phase-Shaped [] r h s = (h, tt)
put_phase-Shaped (l ∷ ls) r h s = elim (Bool-cases (same_phase l.phase r.phase)) [
  | inl e ↦ rw e (h, s.1)
  | inr e ↦ rw e (h, s)
]

-- An accepted record changes the phases and nothing else but the diagnostics; a refused one
-- changes nothing.
pub accept_phase_lem :
    (r : RunPhaseRecord) (e : Evidence)
    → let s = e.storage in
      let e' = (accept_phase r e).0 in
      (((accept_phase r e).1 ≡ none)
        × (accept_violation s.phases r ≡ none)
        × (e'.storage
            ≡ record s { phases = put_phase s.phases r; diagnostics = e'.storage.diagnostics }))
      ⊎ ((is_some (accept_phase r e).1 ≡ true) × (e' ≡ e))
unfolding accept_phase
accept_phase_lem r e = elim (Option-cases (accept_violation e.storage.phases r)) [
  | inr (v, f) ↦ inr (rw f, rw f)
  | inl f ↦ inl (
    rw f,
    f,
    rw f (
        publish-storage r.phase (Publication.phase r)
          (record e { storage = with_phases e.storage (put_phase e.storage.phases r) })),
  )
]
