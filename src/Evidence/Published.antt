-- ===== src/Evidence/Published.antt =====
-- The storage of crates/cao-core/src/run/evidence.rs under the publication of facts.
use cao.Shared.{
  ℕ, zero, suc, ◌+◌, ◌-◌, [], some, ◌≡◌, inl, inr, refl, ◌∙◌, ap, arith, Option-cases, length,
}
use cao.Evidence.Storage.{Storage}
use cao.Evidence.Sinks.{
  Evidence, Publication, publish, publish_diagnostics, publish_rounds, publish_next,
  publish_next-cases,
}
use cao.Evidence.Transition.{publish-storage}
use cao.Evidence.Operations.{publish_pending, perform}

-- A storage without its diagnostics.
abbrev pub undiagnosed : Storage → Storage
undiagnosed s = record s { diagnostics = [] }

-- Two states that differ in diagnostics and publications only.
abbrev pub Undiagnosed : Evidence → Evidence → Type 0
Undiagnosed e e' = undiagnosed e'.storage ≡ undiagnosed e.storage

publish_next-Undiagnosed : (e e' : Evidence) → publish_next e ≡ some e' → Undiagnosed e e'
publish_next-Undiagnosed e e' h = elim (publish_next-cases e) [
  | inl stops ↦ absurd (ground arith)
  | inr (d, goes) ↦
      let claimed = record e { published_diagnostics = e.published_diagnostics + 1 } in
      let same : e' ≡ publish d.phase (Publication.diagnostic d) claimed = ground arith in
      rw same (ap undiagnosed (publish-storage d.phase (Publication.diagnostic d) claimed))
]

publish_rounds-Undiagnosed :
    (n : ℕ) (e e' : Evidence) → publish_rounds n e ≡ some e' → Undiagnosed e e'
unfolding publish_rounds
publish_rounds-Undiagnosed zero e e' h = let same : e ≡ e' = ground arith in rw same refl
publish_rounds-Undiagnosed (suc n) e e' h = elim (Option-cases (publish_next e)) [
  | inl stops ↦ absurd (ground arith)
  | inr (f, goes) ↦
      publish_rounds-Undiagnosed n f e' (ground arith) ∙ publish_next-Undiagnosed e f goes
]

-- The loop over the waiting diagnostics adds diagnostics only.
pub pending-Undiagnosed : (e : Evidence) → Undiagnosed e (perform publish_pending e).0
unfolding perform publish_diagnostics
pending-Undiagnosed e = elim (Option-cases (publish_diagnostics e)) [
  | inl h ↦ rw h refl
  | inr (f, h) ↦ rw h (
      publish_rounds-Undiagnosed (length e.diagnostic_publications - e.published_diagnostics) e f h)
]
