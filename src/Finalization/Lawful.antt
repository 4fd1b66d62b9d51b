-- ===== src/Finalization/Lawful.antt =====
-- The recording steps of the phase of crates/cao-core/src/run/finalization/mod.rs.
use cao.Shared.{
  ℕ, ◌+◌, ◌≤◌, true, false, not, ◌&&◌, List, [], ◌∷◌, Option, none, some, ◌≡◌, refl, arith, length,
  subst,
}
use cao.Shared.Paths.{FilePath}
use cao.Shared.Prefixes.{same_path}
use cao.Run.Attempt.{CapacityShortage}
use cao.Run.Lifecycle.{archive_finalization}
use cao.Run.Results.{ArchiveFinalizationAttempt}
use cao.Evidence.Storage.{Storage}
use cao.Evidence.Sinks.{Evidence}
use cao.Evidence.Operations.{perform, output}
use cao.Evidence.Attempts.{finalization_attempt}
use cao.Evidence.Standing.{OnceFacts}
use cao.Evidence.Accepted.{Accepts}
use cao.Selection.Overlap.{Token}
use cao.Finalization.Plan.{FinalizationOutput, FinalizationPlan, Seams}
use cao.Finalization.Account.{Finalizer, capacity_rejected, find_output}
use cao.Finalization.Phase.{
  mark_cancelled, record_shortage, prune_empty_directories, delete_empty, call_output, account,
  attempt_outputs,
}
use cao.Finalization.Finalize.{maintain_root, recheck_dummies, maintain_roots, maintain_and_prune}
use cao.Work.Flow.{Leaves}
use cao.Work.Unrefused.Extraction.{HasRoom, record_attempt_progress-HasRoom}
use cao.Executor.Services.{Caught, returned, panicked}
use cao.Finalization.Plan.{Maintenance, maintained, maintenance_failed}
use cao.Finalization.Phase.{caught, note_safety, push_pruning}
use cao.Finalization.Finalize.{maintained_to}
use cao.Finalization.Keeps.{
  Open, Contained, Keeps, Keeps-bind, Keeps-fact, Keeps-quiet, Keeps-pure, Keeps-if, Keeps-sample,
  Keeps-account, Keeps-option,
}

abbrev pub Room : OnceFacts → ℕ → Storage → Type 0
Room = HasRoom archive_finalization

pub Room-Open : (facts : OnceFacts) (n : ℕ) (s : Storage) → Room facts n s → Open facts s
Room-Open facts n s (q, room, h) = (some q, h)

module _ {A W : Type 0} (seams : Seams A W) (stop : Token) (facts : OnceFacts) where
  output-Accepts :
      (n : ℕ) (a : ArchiveFinalizationAttempt) (e : Evidence)
      → Room facts (n + 1) e.storage
      → Accepts (output a) e (Room facts n)
  unfolding perform
  output-Accepts n a e h =
      record_attempt_progress-HasRoom finalization_attempt (λ x s. refl) (λ x s. refl) n a e h

  delete_empty-Keeps :
      (P : Storage → Type 0) (root : FilePath) → Keeps facts P (delete_empty seams root) (λ n. P)
  unfolding delete_empty
  delete_empty-Keeps P root = Keeps-quiet (λ l s t. t) (λ s h. h)

  pub cancels : (P : Storage → Type 0) → Keeps facts P (mark_cancelled {A = A} {W = W}) (λ u. P)
  cancels P = Keeps-quiet (λ l s t. t) (λ s h. h)

  pub prune-Keeps :
      (P : Storage → Type 0) (roots : List FilePath)
      → Keeps facts P (prune_empty_directories seams stop roots) (λ u. P)
  unfolding prune_empty_directories
  prune-Keeps P [] = Keeps-pure tt (λ s h. h)
  prune-Keeps P (root ∷ roots) = Keeps-bind (Keeps-sample stop) (λ c. Keeps-if c (cancels P) (
      Keeps-bind (delete_empty-Keeps P root)
        (λ n. Keeps-bind (Keeps-account (push_pruning root n)) (λ u. prune-Keeps P roots))))

  caught-Leaves :
      (n : ℕ) (c : Caught ArchiveFinalizationAttempt) (s : Finalizer A W)
      → Room facts n s.worker.evidence.storage
      → Leaves (λ b t. Room facts n t.worker.evidence.storage) (Contained facts) (caught c, s)
  caught-Leaves n (returned a) s h = h
  caught-Leaves n (panicked m) s h = Room-Open facts n s.worker.evidence.storage h

  call_output-Keeps :
      (n : ℕ) (p : FinalizationPlan) (i : ℕ)
      → Keeps facts (Room facts n) (call_output seams p i) (λ a. Room facts n)
  unfolding call_output
  call_output-Keeps n p i = Keeps-quiet (λ l s t. t) (λ s h. caught-Leaves n _ _ h)

  pub account-Keeps : (P : Storage → Type 0) → Keeps facts P (account {A = A} {W = W}) (λ a. P)
  account-Keeps P = Keeps-quiet (λ l s t. t) (λ s h. h)

  pub attempt_outputs-Keeps :
      (p : FinalizationPlan) (i : ℕ) (os : List FinalizationOutput)
      → Keeps facts (Room facts (length os)) (attempt_outputs seams stop p i os) (λ b. Open facts)
  unfolding attempt_outputs
  attempt_outputs-Keeps p i [] = Keeps-pure true (λ s h. Room-Open facts 0 s h)
  attempt_outputs-Keeps p i (o ∷ os) =
      let n = length os in
      Keeps-bind (Keeps-sample stop) (λ c.
        Keeps-if c
          (Keeps-bind (cancels (Room facts (length (o ∷ os))))
            (λ u. Keeps-pure true (λ s h. Room-Open facts (length (o ∷ os)) s h)))
          (Keeps-bind (call_output-Keeps (length (o ∷ os)) p i) (λ a.
            Keeps-bind (Keeps-account (note_safety a)) (λ u.
              Keeps-bind
                (Keeps-fact (output a) (λ e h.
                  output-Accepts n a e (subst (λ (m : ℕ). Room facts m e.storage) (omega arith) h)))
                (λ v. Keeps-bind (account-Keeps (Room facts n)) (λ b.
                  Keeps-if (capacity_rejected a) (Keeps-pure false (λ s h. Room-Open facts n s h)) (
                    Keeps-if b.safe_to_continue (attempt_outputs-Keeps p (i + 1) os)
                      (Keeps-pure true (λ s h. Room-Open facts n s h)))))))))

  pub find_output-length :
      (root archive : FilePath) (os : List FinalizationOutput)
      → find_output root os ≡ some archive
      → 1 ≤ length os
  unfolding same_path
  find_output-length root archive [] h = ground arith
  find_output-length root archive (o ∷ os) h = omega arith

  pub record_shortage-Keeps :
      (sh : CapacityShortage) (n : ℕ) (archive : Option FilePath)
      → ((a : FilePath) → archive ≡ some a → 1 ≤ n)
      → Keeps facts (Room facts n) (record_shortage seams sh archive) (λ u. Open facts)
  unfolding record_shortage
  record_shortage-Keeps sh n none some_room =
      Keeps-quiet (λ l s t. t) (λ s h. Room-Open facts n s.worker.evidence.storage h)
  record_shortage-Keeps sh n (some a) some_room = Keeps-fact _ (λ e (q, room, h).
      let fits_one = some_room a refl in
      let (fine, after) = output-Accepts 0 _ e (q, omega arith, h) in
      (fine, Room-Open facts 0 _ after))

  quiet_shortage-Keeps :
      (sh : CapacityShortage)
      → Keeps facts (Open facts) (record_shortage seams sh none) (λ u. Open facts)
  unfolding record_shortage
  quiet_shortage-Keeps sh = Keeps-quiet (λ l s t. t) (λ s h. h)

  maintained_to-Leaves :
      (m : Maintenance) (s : Finalizer A W)
      → Open facts s.worker.evidence.storage
      → Leaves
          (λ b t. Open facts t.worker.evidence.storage)
          (Contained facts)
          (maintained_to seams stop m, s)
  maintained_to-Leaves (maintained b) s h = h
  maintained_to-Leaves (maintenance_failed m) s h = h

  maintain_root-Keeps :
      (p : FinalizationPlan) (root : FilePath)
      → Keeps facts (Open facts) (maintain_root seams stop p root) (λ b. Open facts)
  unfolding maintain_root
  maintain_root-Keeps p root = Keeps-quiet (λ l s t. t) (λ s h. maintained_to-Leaves _ _ h)

  recheck-Keeps :
      (p : FinalizationPlan) (root : FilePath) (later : List FilePath)
      → Keeps facts (Open facts) (recheck_dummies seams stop p root later) (λ o. Open facts)
  unfolding recheck_dummies
  recheck-Keeps p root later = Keeps-quiet (λ l s t. t) (λ s h. h)

  maintain_roots-Keeps :
      (p : FinalizationPlan) (roots : List FilePath)
      → Keeps facts (Open facts) (maintain_roots seams stop p roots) (λ b. Open facts)
  unfolding maintain_roots
  maintain_roots-Keeps p [] = Keeps-pure true (λ s h. h)
  maintain_roots-Keeps p (root ∷ later) =
      let ends = Keeps-bind (cancels (Open facts)) (λ u. Keeps-pure true (λ s h. h)) in
      Keeps-bind (Keeps-sample stop) (λ c. Keeps-if c ends (
        Keeps-bind (recheck-Keeps p root later) (λ o.
          Keeps-option o
            (Keeps-bind (Keeps-sample stop) (λ d. Keeps-if d ends (
              Keeps-bind (maintain_root-Keeps p root)
                (λ g. Keeps-if g (maintain_roots-Keeps p later) (Keeps-pure false (λ s h. h))))))
            (λ sh. Keeps-bind (quiet_shortage-Keeps sh) (λ u. Keeps-pure false (λ s h. h))))))

  pub maintain_and_prune-Keeps :
      (p : FinalizationPlan)
      → Keeps facts (Open facts) (maintain_and_prune seams stop p) (λ u. Open facts)
  unfolding maintain_and_prune
  maintain_and_prune-Keeps p = Keeps-bind (maintain_roots-Keeps p p.roots) (λ b.
      Keeps-bind (account-Keeps (Open facts)) (λ a.
        Keeps-if (b && not a.cancelled) (prune-Keeps (Open facts) p.roots)
          (Keeps-pure tt (λ s h. h))))
