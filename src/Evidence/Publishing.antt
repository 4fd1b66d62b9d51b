-- ===== src/Evidence/Publishing.antt =====
-- The publication loop of crates/cao-core/src/run/evidence.rs and the indices it reads.
use cao.Shared.{
  ℕ, zero, suc, ◌+◌, ◌-◌, ◌≤◌, ◌<◌, List, [], ◌∷◌, some, ◌≡◌, refl, arith, length, All,
}
use cao.Run.Lifecycle.{RunPhase, RunDiagnostic}
use cao.Evidence.Sinks.{
  Evidence, Publication, publish, publish_quiet, publish_next_at, get_elem?, publish_next,
  publish_rounds, publish_diagnostics,
}

-- Every queued index is that of a diagnostic, and no more are published than queued.
abbrev pub Queued : ℕ → ℕ → List ℕ → Type 0
Queued diagnostics done queue = (done ≤ length queue) × All (λ i. i < diagnostics) queue

abbrev pub IsPublishable : Evidence → Type 0
IsPublishable e =
    Queued (length e.storage.diagnostics) e.published_diagnostics e.diagnostic_publications

-- A step that retains diagnostics at most, and queues none.
pub record Quiet (e e' : Evidence) : Type 0 where
  pub same_done : e'.published_diagnostics ≡ e.published_diagnostics
  pub same_queue : e'.diagnostic_publications ≡ e.diagnostic_publications
  pub grows : length e.storage.diagnostics ≤ length e'.storage.diagnostics

pub All-grows : (n m : ℕ) (q : List ℕ) → n ≤ m → All (λ i. i < n) q → All (λ i. i < m) q
All-grows n m [] h a = tt
All-grows n m (i ∷ q) h a = (omega arith, All-grows n m q h a.1)

pub Quiet-IsPublishable : (e e' : Evidence) → Quiet e e' → IsPublishable e → IsPublishable e'
Quiet-IsPublishable e e' q h =
    rw (q.same_done, q.same_queue)
      (
        h.0,
        All-grows (length e.storage.diagnostics) (length e'.storage.diagnostics)
            e.diagnostic_publications q.grows h.1,
      )

pub Quiet-refl : (e : Evidence) → Quiet e e
Quiet-refl e = record { same_done = refl; same_queue = refl; grows = omega arith }

pub publish-Quiet : (p : RunPhase) (x : Publication) (e : Evidence) → Quiet e (publish p x e)
publish-Quiet p x e =
    let (d, q, g) = publish_quiet p x e in record { same_done = d; same_queue = q; grows = g }

element_found :
    (n : ℕ) (q : List ℕ) (k : ℕ)
    → k < length q
    → All (λ i. i < n) q
    → (i : ℕ) × (get_elem? q k ≡ some i) × (i < n)
element_found n [] k h a = absurd (omega arith)
element_found n (i ∷ q) zero h a = (i, refl, a.0)
element_found n (i ∷ q) (suc k) h a = element_found n q k (omega arith) a.1

get_elem_found :
    (ds : List RunDiagnostic) (k : ℕ)
    → k < length ds
    → (d : RunDiagnostic) × (get_elem? ds k ≡ some d)
get_elem_found [] k h = absurd (omega arith)
get_elem_found (d ∷ ds) zero h = (d, refl)
get_elem_found (d ∷ ds) (suc k) h = get_elem_found ds k (omega arith)

-- One round, on evidence with a diagnostic left in the queue.
next_found :
    (e : Evidence)
    → IsPublishable e
    → e.published_diagnostics < length e.diagnostic_publications
    → (d : RunDiagnostic) × (publish_next e
        ≡ some (
            publish d.phase
              (Publication.diagnostic d)
              (record e { published_diagnostics = e.published_diagnostics + 1 })))
next_found e h room =
    let (i, found, small) =
      element_found (length e.storage.diagnostics) e.diagnostic_publications e.published_diagnostics
        room h.1 in
    let (d, there) = get_elem_found e.storage.diagnostics i small in
    (d, publish_next_at e i d found there)

rounds_total :
    (n : ℕ) (e : Evidence)
    → IsPublishable e
    → n + e.published_diagnostics ≡ length e.diagnostic_publications
    → (e' : Evidence) × (publish_rounds n e ≡ some e')
      × IsPublishable e'
      × (e'.published_diagnostics ≡ length e'.diagnostic_publications)
unfolding publish_rounds
rounds_total zero e h k = (e, refl, h, omega arith)
rounds_total (suc n) e h k =
    let (d, goes) = next_found e h (omega arith) in
    let claimed = record e { published_diagnostics = e.published_diagnostics + 1 } in
    let e' = publish d.phase (Publication.diagnostic d) claimed in
    let q = publish-Quiet d.phase (Publication.diagnostic d) claimed in
    let ready : IsPublishable claimed = (omega arith, h.1) in
    let (f, same, ok, all) =
      rounds_total n e' (Quiet-IsPublishable claimed e' q ready)
        (rw (q.same_done, q.same_queue) (omega arith)) in
    (f, rw (goes, publish_rounds) same, ok, all)

pub publish_total :
    (e : Evidence)
    → IsPublishable e
    → (e' : Evidence) × (publish_diagnostics e ≡ some e')
      × IsPublishable e'
      × (e'.published_diagnostics ≡ length e'.diagnostic_publications)
unfolding publish_diagnostics
publish_total e h =
    rounds_total (length e.diagnostic_publications - e.published_diagnostics) e h (omega arith)
