-- ===== src/Finalization/Keeps.antt =====
-- The rules for the actions of crates/cao-core/src/run/finalization/mod.rs whose recording steps are
-- accepted.
use cao.Shared.{Bool, true, false, Option, none, some, if◌then◌else◌}
use cao.Run.Lifecycle.{archive_finalization, executed, RunProgress}
use cao.Run.Results.{ArchiveFinalizationAccount}
use cao.Evidence.Storage.{Storage}
use cao.Evidence.Sinks.{Evidence}
use cao.Evidence.Operations.{Operation}
use cao.Evidence.Standing.{OnceFacts, Standing}
use cao.Evidence.Accepted.{Accepts}
use cao.Selection.Overlap.{Token}
use cao.Finalization.Account.{Finalizer, Escape, evidence_escape, work_escape, Finalizing}
use cao.Finalization.Phase.{with_account, sample, record_fact}
use cao.Work.Flow.{Leaves, Leaves-bind, Leaves-weaken, pure, ◌>>=◌}
use cao.Work.Traced.{Traced, perform-Traces, bind_keeps}

-- The phase is executed, with or without a plan.
abbrev pub Open : OnceFacts → Storage → Type 0
Open facts s =
    (progress : Option RunProgress) × Standing archive_finalization executed progress facts s

-- An early end that no refusal made, with the phase still open.
abbrev pub Contained : {A W : Type 0} → OnceFacts → Escape → Finalizer A W → Type 0
Contained facts (evidence_escape v) s = ⊥
Contained facts (work_escape m) s = Open facts s.worker.evidence.storage

-- From a storage of which `P` holds, the action leaves one of which `Q` holds, or escapes as it may.
pub record Keeps {A W B : Type 0} (facts : OnceFacts) (P : Storage → Type 0) (m : Finalizing A W B)
    (Q : B → Storage → Type 0) : Type 0 where
  pub at :
      (s : Finalizer A W)
      → P s.worker.evidence.storage
      → Leaves (λ b t. Q b t.worker.evidence.storage) (Contained facts) (m s)
  pub traces :
      (lent : Evidence) (s : Finalizer A W) → Traced lent s.worker → Traced lent (m s).1.worker

module _ {A W : Type 0} {facts : OnceFacts} {P : Storage → Type 0} where
  pub Keeps-bind :
      {B C : Type 0} {Q : B → Storage → Type 0} {R : C → Storage → Type 0} {m : Finalizing A W B}
      {f : B → Finalizing A W C}
      → Keeps facts P m Q
      → ((b : B) → Keeps facts (Q b) (f b) R)
      → Keeps facts P (m >>= f) R
  Keeps-bind {Q = Q} {R = R} {m = m} {f = f} h k = record {
    at = λ s p.
        Leaves-bind (Contained facts) (λ b t. Q b t.worker.evidence.storage)
          (λ b t. R b t.worker.evidence.storage) m f s (h.at s p) (λ b t q. (k b).at t q);
    traces = λ lent s t.
        bind_keeps (λ x. Traced lent x.worker) m f s (h.traces lent s t)
          (λ b x u. (k b).traces lent x u);
  }

  pub Keeps-fact :
      {Q : Storage → Type 0} (o : Operation)
      → ((e : Evidence) → P e.storage → Accepts o e Q)
      → Keeps facts P (record_fact {A = A} {W = W} o) (λ u. Q)
  unfolding record_fact
  Keeps-fact {Q = Q} o h = record {
    at = λ s p. let (fine, after) = h s.worker.evidence p in rw fine after;
    traces = λ lent s t. perform-Traces lent o s.worker.evidence s.worker.operations t;
  }

  -- An action that leaves the evidence alone.
  pub Keeps-quiet :
      {B : Type 0} {m : Finalizing A W B} {Q : B → Storage → Type 0}
      → ((lent : Evidence) (s : Finalizer A W) → Traced lent s.worker → Traced lent (m s).1.worker)
      → ((s : Finalizer A W)
          → P s.worker.evidence.storage
          → Leaves (λ b t. Q b t.worker.evidence.storage) (Contained facts) (m s))
      → Keeps facts P m Q
  Keeps-quiet traced h = record { at = h; traces = traced }

  pub Keeps-pure :
      {B : Type 0} (b : B) {Q : B → Storage → Type 0}
      → ((s : Storage) → P s → Q b s)
      → Keeps {A = A} {W = W} facts P (pure b) Q
  Keeps-pure b h = record { at = λ s p. h s.worker.evidence.storage p; traces = λ lent s t. t }

  pub Keeps-if :
      {B : Type 0} {Q : B → Storage → Type 0} (b : Bool) {m n : Finalizing A W B}
      → Keeps facts P m Q
      → Keeps facts P n Q
      → Keeps facts P (if b then m else n) Q
  Keeps-if true h k = h
  Keeps-if false h k = k

  pub Keeps-weaken :
      {B : Type 0} {m : Finalizing A W B} {Q R : B → Storage → Type 0}
      → ((b : B) (s : Storage) → Q b s → R b s)
      → Keeps facts P m Q
      → Keeps facts P m R
  Keeps-weaken {m = m} {Q = Q} {R = R} k h = record {
    at = λ s p.
        Leaves-weaken (Contained facts) (λ b t. Q b t.worker.evidence.storage)
          (λ b t. R b t.worker.evidence.storage) (m s) (λ b t. k b t.worker.evidence.storage)
          (h.at s p);
    traces = h.traces;
  }

  pub Keeps-sample : (stop : Token) → Keeps facts P (sample {A = A} {W = W} stop) (λ c. P)
  unfolding sample
  Keeps-sample stop = Keeps-quiet (λ lent s t. t) (λ s p. p)

  pub Keeps-account :
      (f : ArchiveFinalizationAccount → ArchiveFinalizationAccount)
      → Keeps facts P (with_account {A = A} {W = W} f) (λ u. P)
  Keeps-account f = Keeps-quiet (λ lent s t. t) (λ s p. p)

  pub Keeps-option :
      {X B : Type 0} {Q : B → Storage → Type 0} (o : Option X) {m : Finalizing A W B}
      {f : X → Finalizing A W B}
      → Keeps facts P m Q
      → ((x : X) → Keeps facts P (f x) Q)
      → Keeps facts P (elim o [ none ↦ m | some x ↦ f x ]) Q
  Keeps-option none h k = h
  Keeps-option (some x) h k = k x
