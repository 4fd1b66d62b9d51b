-- ===== src/Work/DryRun/Frames.antt =====
-- The rules for phases of crates/cao-core/src/run/executor/work_phases.rs that leave the Temporary
-- Ownership registry and the disk as they are.
use cao.Shared.{Bool, true, false, none, some, ◌≡◌, inl, inr, Bool-cases, if◌then◌else◌}
use cao.Run.Lifecycle.{RunDiagnostic}
use cao.Evidence.Operations.{Operation, keep_diagnostic, publish_pending, perform}
use cao.Selection.Overlap.{Token}
use cao.Work.Flow.{Leaves, Leaves-bind, pure, ◌>>=◌}
use cao.Work.Worker.{
  Worker, Phase, step, unless_cancelled, is_cancelled, diagnose, halt, performed, outcome_of,
}

abbrev pub IsAsBefore : {A W : Type 0} → A → W → Worker A W → Type 0
IsAsBefore artifacts world w = (w.artifacts ≡ artifacts) × (w.world ≡ world)

-- The registry and the disk stay as they are, and `Q` holds of the phase's value.
pub record Frames {A W B : Type 0} (artifacts : A) (world : W) (m : Phase A W B) (Q : B → Type 0)
    : Type 0 where
  pub at :
      (w : Worker A W)
      → IsAsBefore artifacts world w
      → Leaves
          (λ b t. Q b × IsAsBefore artifacts world t)
          (λ x t. IsAsBefore artifacts world t)
          (m w)

abbrev pub Any : {B : Type 0} → B → Type 0
Any b = Unit

module _ {A W : Type 0} {a : A} {o : W} where
  pub Frames-bind :
      {B C : Type 0} {Q : B → Type 0} {R : C → Type 0} {m : Phase A W B} {f : B → Phase A W C}
      → Frames a o m Q
      → ((b : B) → Q b → Frames a o (f b) R)
      → Frames a o (m >>= f) R
  Frames-bind {Q = Q} {R = R} {m = m} {f = f} h k = record {
    at = λ w u.
        Leaves-bind (λ x t. IsAsBefore a o t) (λ b t. Q b × IsAsBefore a o t)
          (λ b t. R b × IsAsBefore a o t) m f w (h.at w u) (λ b t q. (k b q.0).at t q.1);
  }

  pub Frames-step : (p : Operation) → Frames a o (step p) Any
  unfolding step
  Frames-step p = record {
    at = λ w u.
        elim (perform p w.evidence).1
          as (λ v.
            Leaves (λ b t. Unit {0} × IsAsBefore a o t) (λ x t. IsAsBefore a o t)
              (outcome_of v, performed p w)) [ none ↦ (tt, u) | some v ↦ u ];
  }

  pub Frames-unless_cancelled : (stop : Token) → Frames a o (unless_cancelled stop) Any
  unfolding unless_cancelled is_cancelled
  Frames-unless_cancelled stop = record {
    at = λ w u. elim (Bool-cases (stop w.clock)) [ inl c ↦ rw c u | inr c ↦ rw c (tt, u) ];
  }

  pub Frames-diagnose : (d : RunDiagnostic) → Frames a o (diagnose d) Any
  unfolding diagnose
  Frames-diagnose d =
      Frames-bind (Frames-step (keep_diagnostic d)) (λ u q. Frames-step publish_pending)

  pub Frames-halt : {B : Type 0} {Q : B → Type 0} → Frames a o (halt {A = A} {W = W} {B = B}) Q
  Frames-halt = record { at = λ w u. u }

  pub Frames-pure :
      {B : Type 0} {Q : B → Type 0} (b : B) → Q b → Frames {A = A} {W = W} a o (pure b) Q
  Frames-pure b q = record { at = λ w u. (q, u) }

  pub Frames-if :
      {B : Type 0} {Q : B → Type 0} (b : Bool) {m n : Phase A W B}
      → Frames a o m Q
      → Frames a o n Q
      → Frames a o (if b then m else n) Q
  Frames-if true h k = h
  Frames-if false h k = k
