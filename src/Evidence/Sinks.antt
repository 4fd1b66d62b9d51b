-- ===== src/Evidence/Sinks.antt =====
-- `MutableRunEvidence` of crates/cao-core/src/run/evidence.rs and what it gives to a
-- `RunObservationSink`.
use cao.Shared.{
  ℕ, zero, suc, ◌+◌, ◌-◌, List, [], ◌∷◌, ◌++◌, Option, none, some, Text, length, ◌≡◌, ◌⊎◌, inl, inr,
  refl, arith, ◌≤◌, length-append, Option-cases,
}
use cao.Run.Lifecycle.{RunPhase, RunPhaseRecord, RunDiagnostic, observer_failed, RunFailure}
use cao.Evidence.Storage.{Storage, default_storage}

-- What a `RunObservationSink` is called with.
pub data Publication : Type 0 where
  phase : RunPhaseRecord → Publication
  failure : RunFailure → Publication
  diagnostic : RunDiagnostic → Publication

-- A sink: from the publications it has seen and the new one, the message that it panics with.
abbrev pub Sink : Type 0
Sink = List Publication → Publication → Option Text

-- `seen` is the trace of the calls that the sink got, for the theorems.
pub record Evidence : Type 0 where
  pub storage : Storage
  pub observations : Option Sink
  pub published_diagnostics : ℕ
  pub diagnostic_publications : List ℕ
  pub seen : List Publication

abbrev pub new_evidence : Option Sink → Evidence
new_evidence sink = record {
  storage = default_storage;
  observations = sink;
  published_diagnostics = 0;
  diagnostic_publications = [];
  seen = [];
}

-- `retain_observer_failure`, after a panic.
abbrev settle : RunPhase → Option Text → Evidence → Evidence
settle p none e = e
settle p (some detail) e =
    let s = e.storage in
    record e {
      storage = record s {
        diagnostics =
            s.diagnostics
            ++ (record {
              code = observer_failed;
              phase = p;
              detail = detail;
              path = [];
              capacity_shortage = none;
            })
              ∷ [];
      };
    }

publish_to : Option Sink → RunPhase → Publication → Evidence → Evidence
publish_to none p x e = e
publish_to (some sink) p x e = settle p (sink e.seen x) (record e { seen = e.seen ++ x ∷ [] })

-- `report_safely` around one call of the sink.
unfoldable pub publish : RunPhase → Publication → Evidence → Evidence
unfolding publish_to
publish p x e = publish_to e.observations p x e

abbrev pub Undisturbed : Evidence → Evidence → Type 0
Undisturbed e e' =
    (e'.published_diagnostics ≡ e.published_diagnostics)
    × (e'.diagnostic_publications ≡ e.diagnostic_publications)
    × (length e.storage.diagnostics ≤ length e'.storage.diagnostics)

settle_quiet : (p : RunPhase) (o : Option Text) (e : Evidence) → Undisturbed e (settle p o e)
settle_quiet p none e = (refl, refl, omega arith)
settle_quiet p (some detail) e = (
  refl,
  refl,
  omega (
    arith,
    length-append e.storage.diagnostics (
        record {
          code = observer_failed;
          phase = p;
          detail = detail;
          path = [];
          capacity_shortage = none;
        }
        ∷ []),
  ),
)

publish_to_quiet :
    (o : Option Sink) (p : RunPhase) (x : Publication) (e : Evidence)
    → Undisturbed e (publish_to o p x e)
unfolding publish_to
publish_to_quiet none p x e = (refl, refl, omega arith)
publish_to_quiet (some sink) p x e =
    settle_quiet p (sink e.seen x) (record e { seen = e.seen ++ x ∷ [] })

-- A call of the sink retains at most diagnostics that are not queued for publication.
pub publish_quiet : (p : RunPhase) (x : Publication) (e : Evidence) → Undisturbed e (publish p x e)
unfolding publish
publish_quiet p x e = publish_to_quiet e.observations p x e

unfoldable pub retain_diagnostic : RunDiagnostic → Evidence → Evidence
retain_diagnostic d e =
    let s = e.storage in
    record e {
      storage = record s { diagnostics = s.diagnostics ++ d ∷ [] };
      diagnostic_publications = e.diagnostic_publications ++ length s.diagnostics ∷ [];
    }

abbrev pub get_elem? {ℓ} : {A : Type ℓ} → List A → ℕ → Option A
get_elem? [] i = none
get_elem? (x ∷ xs) zero = some x
get_elem? (x ∷ xs) (suc i) = get_elem? xs i

publish_at : Option RunDiagnostic → Evidence → Option Evidence
unfolding publish
publish_at none e = none
publish_at (some d) e = some (
    publish d.phase (Publication.diagnostic d)
      (record e { published_diagnostics = e.published_diagnostics + 1 }))

diagnostic_at : Evidence → Option ℕ → Option RunDiagnostic
diagnostic_at e none = none
diagnostic_at e (some i) = get_elem? e.storage.diagnostics i

-- One round of the loop of `publish_diagnostics`; `none` is an index out of range, a panic.
unfoldable pub publish_next : Evidence → Option Evidence
unfolding publish_at diagnostic_at
publish_next e =
    publish_at (diagnostic_at e (get_elem? e.diagnostic_publications e.published_diagnostics)) e

pub publish_next-cases :
    (e : Evidence)
    → (publish_next e ≡ none)
      ⊎ ((d : RunDiagnostic) × (publish_next e
            ≡ some (
                publish d.phase
                  (Publication.diagnostic d)
                  (record e { published_diagnostics = e.published_diagnostics + 1 }))))
unfolding publish_next publish_at
publish_next-cases e =
    elim (Option-cases
      (diagnostic_at e (get_elem? e.diagnostic_publications e.published_diagnostics))) [
        | inl h ↦ inl (rw h)
        | inr (d, h) ↦ inr (d, rw h)
      ]

pub publish_next_at :
    (e : Evidence) (i : ℕ) (d : RunDiagnostic)
    → get_elem? e.diagnostic_publications e.published_diagnostics ≡ some i
    → get_elem? e.storage.diagnostics i ≡ some d
    → publish_next e
      ≡ some (
          publish d.phase
            (Publication.diagnostic d)
            (record e { published_diagnostics = e.published_diagnostics + 1 }))
unfolding publish_next publish_at diagnostic_at
publish_next_at e i d h k = rw h (rw k refl)

-- The loop of `publish_diagnostics`, on as many rounds as are left.
unfoldable pub publish_rounds : ℕ → Evidence → Option Evidence
publish_rounds zero e = some e
publish_rounds (suc n) e = elim (publish_next e) [ none ↦ none | some e' ↦ publish_rounds n e' ]

unfoldable pub publish_diagnostics : Evidence → Option Evidence
unfolding publish_rounds
publish_diagnostics e =
    publish_rounds (length e.diagnostic_publications - e.published_diagnostics) e

-- `retain_failure`: no publication.
unfoldable pub retain_failure : RunFailure → Evidence → Evidence
retain_failure f e =
    let s = e.storage in record e { storage = record s { failures = s.failures ++ f ∷ [] } }

unfoldable pub record_failure : RunFailure → Evidence → Evidence
unfolding retain_failure publish
record_failure f e = publish f.phase (Publication.failure f) (retain_failure f e)
