-- ===== src/Work/Ends.antt =====
-- The rules for phases of crates/cao-core/src/run/executor/work_phases.rs whose recording steps are
-- accepted.
use cao.Shared.{Bool, Option, true, false, inl, inr, Bool-cases, if◌then◌else◌}
use cao.Run.Lifecycle.{RunPhase, RunPhaseStatus, RunProgress, RunDiagnostic}
use cao.Evidence.Storage.{Storage}
use cao.Evidence.Sinks.{Evidence}
use cao.Evidence.Operations.{Operation, keep_diagnostic, publish_pending}
use cao.Evidence.Standing.{OnceFacts, Standing}
use cao.Evidence.Accepted.{Accepts, keep_diagnostic-Accepts, publish_pending-Accepts}
use cao.Evidence.Uncleaned.{IsUncleaned}
use cao.Selection.Overlap.{Token}
use cao.Work.Flow.{Outcome, Leaves, Leaves-bind, Leaves-weaken, pure, ◌>>=◌}
use cao.Work.Traced.{Traced, perform-Traces, bind_keeps}
use cao.Work.Worker.{
  Worker, Exit, breaks, refused, Phase, step, unless_cancelled, is_cancelled, diagnose, halt,
}

-- No invariant of the evidence was violated, and Safety Cleanup is yet to come.
abbrev pub Unrefused : Exit → Storage → Type 0
Unrefused (breaks why) s = IsUncleaned s
Unrefused (refused v) s = ⊥

-- A phase goes on with a value and a storage of which `P` holds, or it stops unrefused.
abbrev pub Ends : {A W B : Type 0} → (B → Storage → Type 0) → Outcome Exit B × Worker A W → Type 0
Ends P = Leaves (λ b w. P b w.evidence.storage) (λ x w. Unrefused x w.evidence.storage)

-- From a storage of which `P` holds, the phase `m` leaves one of which `Q` holds, by the steps that
-- the worker has traced.
pub record Runs {A W B : Type 0} (P : Storage → Type 0) (m : Phase A W B) (Q : B → Storage → Type 0)
    : Type 0 where
  pub at : (w : Worker A W) → P w.evidence.storage → Ends Q (m w)
  pub traces : (lent : Evidence) (w : Worker A W) → Traced lent w → Traced lent (m w).1

module _ {A W : Type 0} {P : Storage → Type 0} where
  -- The rule for two phases one after the other.
  pub Runs-bind :
      {B C : Type 0} {Q : B → Storage → Type 0} {R : C → Storage → Type 0} {m : Phase A W B}
      {f : B → Phase A W C}
      → Runs P m Q
      → ((b : B) → Runs (Q b) (f b) R)
      → Runs P (m >>= f) R
  Runs-bind {Q = Q} {R = R} {m = m} {f = f} h k = record {
    at = λ w p.
        Leaves-bind (λ x t. Unrefused x t.evidence.storage) (λ b t. Q b t.evidence.storage)
          (λ b t. R b t.evidence.storage) m f w (h.at w p) (λ b t q. (k b).at t q);
    traces = λ lent w t.
        bind_keeps (Traced lent) m f w (h.traces lent w t) (λ b s u. (k b).traces lent s u);
  }

  pub Runs-step :
      {Q : Storage → Type 0} (o : Operation)
      → ((e : Evidence) → P e.storage → Accepts o e Q)
      → Runs P (step {A = A} {W = W} o) (λ u. Q)
  unfolding step
  Runs-step {Q = Q} o h = record {
    at = λ w p. let (fine, after) = h w.evidence p in rw fine after;
    traces = λ lent w t. perform-Traces lent o w.evidence w.operations t;
  }

  pub Runs-unless_cancelled :
      (stop : Token)
      → ((s : Storage) → P s → IsUncleaned s)
      → Runs P (unless_cancelled {A = A} {W = W} stop) (λ u. P)
  unfolding unless_cancelled is_cancelled
  Runs-unless_cancelled stop uncleaned = record {
    at = λ w p. elim (Bool-cases (stop w.clock)) [
      | inl c ↦ rw c (uncleaned w.evidence.storage p)
      | inr c ↦ rw c p
    ];
    traces = λ lent w t. elim (Bool-cases (stop w.clock)) [ inl c ↦ rw c t | inr c ↦ rw c t ];
  }

  pub Runs-halt :
      {B : Type 0} {Q : B → Storage → Type 0}
      → ((s : Storage) → P s → IsUncleaned s)
      → Runs P (halt {A = A} {W = W} {B = B}) Q
  Runs-halt uncleaned = record {
    at = λ w p. uncleaned w.evidence.storage p;
    traces = λ lent w t. t;
  }

  pub Runs-pure :
      {B : Type 0} {b : B} {Q : B → Storage → Type 0}
      → ((s : Storage) → P s → Q b s)
      → Runs {A = A} {W = W} P (pure b) Q
  Runs-pure h = record { at = λ w p. h w.evidence.storage p; traces = λ lent w t. t }

  pub Runs-if :
      {B : Type 0} {Q : B → Storage → Type 0} (b : Bool) {m n : Phase A W B}
      → Runs P m Q
      → Runs P n Q
      → Runs P (if b then m else n) Q
  Runs-if true h k = h
  Runs-if false h k = k

  -- A weaker postcondition.
  pub Runs-weaken :
      {B : Type 0} {m : Phase A W B} {Q R : B → Storage → Type 0}
      → ((b : B) (s : Storage) → Q b s → R b s)
      → Runs P m Q
      → Runs P m R
  Runs-weaken {m = m} {Q = Q} {R = R} k h = record {
    at = λ w p.
        Leaves-weaken (λ x t. Unrefused x t.evidence.storage) (λ b t. Q b t.evidence.storage)
          (λ b t. R b t.evidence.storage) (m w) (λ b t. k b t.evidence.storage) (h.at w p);
    traces = h.traces;
  }

  -- A value and a state that keeps the evidence.
  pub Runs-lift :
      {B : Type 0} {m : Phase A W B} {Q : B → Storage → Type 0}
      → ((lent : Evidence) (w : Worker A W) → Traced lent w → Traced lent (m w).1)
      → ((w : Worker A W) → P w.evidence.storage → Ends Q (m w))
      → Runs P m Q
  Runs-lift traced h = record { at = h; traces = traced }

module _ {A W : Type 0} {p : RunPhase} {status : RunPhaseStatus} {progress : Option RunProgress}
    {facts : OnceFacts} where
  pub Runs-keep_diagnostic :
      (d : RunDiagnostic)
      → Runs
          (Standing p status progress facts)
          (step {A = A} {W = W} (keep_diagnostic d))
          (λ u. Standing p status progress facts)
  Runs-keep_diagnostic d = Runs-step (keep_diagnostic d) (λ e h. keep_diagnostic-Accepts e h d)

  pub Runs-publish_pending :
      Runs
        (Standing p status progress facts)
        (step {A = A} {W = W} publish_pending)
        (λ u. Standing p status progress facts)
  Runs-publish_pending = Runs-step publish_pending (λ e h. publish_pending-Accepts e h)

  pub Runs-diagnose :
      (d : RunDiagnostic)
      → Runs
          (Standing p status progress facts)
          (diagnose {A = A} {W = W} d)
          (λ u. Standing p status progress facts)
  unfolding diagnose
  Runs-diagnose d = Runs-bind (Runs-keep_diagnostic d) (λ u. Runs-publish_pending)
