-- ===== src/Work/Completing.antt =====
-- When `process_assets` of crates/cao-core/src/run/executor/work_phases.rs attempts every Asset.
use cao.Shared.{ℕ, true, false, List, [], ◌∷◌, All, some, ◌≡◌, refl, subst, arith, length}
use cao.Shared.Paths.{FilePath}
use cao.Routing.Route.{RoutedAsset, RoutingLedger}
use cao.Run.Attempt.{safe_to_continue}
use cao.Run.Lifecycle.{RunDiagnostic, determinate}
use cao.Run.Results.{RunPreparation, AssetExecutionResult, RoutedAssetAttempt}
use cao.Evidence.Storage.{Storage}
use cao.Evidence.Sinks.{Evidence}
use cao.Evidence.Operations.{Operation, open_processing, asset, keep_diagnostic}
use cao.Evidence.Accepted.{Accepts, open_processing-Accepts}
use cao.Executor.Services.{returned}
use cao.Selection.Overlap.{Token}
use cao.Work.Flow.{Outcome, value, stops, Leaves, Leaves-bind, ◌>>=◌}
use cao.Work.Toolset.{Toolset, attempted}
use cao.Work.Worker.{Worker, Exit, Phase, step, unless_cancelled, is_cancelled}
use cao.Work.Process.{
  offered, result_of, retain_all, or_cancelled, call_attempt, attempt_in, attempt_asset,
  attributed_mod_root, process_each, process_assets,
}
use cao.Work.Followed.{IsSafe, Completed, Interrupted, asset_attempts}
use cao.Work.Attempts.{process_assets_lem}
use cao.Work.Unrefused.Extraction.{HasTree}
use cao.Work.Unrefused.Processing.{Processing, asset-Accepts, keep-Accepts, offered-le}

-- From a storage of which `P` holds, the phase goes on, with one of which `Q` holds.
record Completes {A W B : Type 0} (P : Storage → Type 0) (m : Phase A W B)
    (Q : B → Storage → Type 0) : Type 0 where
  at :
      (w : Worker A W)
      → P w.evidence.storage
      → Leaves (λ b t. Q b t.evidence.storage) (λ x t. ⊥) (m w)

module _ {A W : Type 0} {P : Storage → Type 0} where
  Completes-bind :
      {B C : Type 0} {Q : B → Storage → Type 0} {R : C → Storage → Type 0} {m : Phase A W B}
      {f : B → Phase A W C}
      → Completes P m Q
      → ((b : B) → Completes (Q b) (f b) R)
      → Completes P (m >>= f) R
  Completes-bind {Q = Q} {R = R} {m = m} {f = f} h k = record {
    at = λ w p.
        Leaves-bind (λ x t. ⊥) (λ b t. Q b t.evidence.storage) (λ b t. R b t.evidence.storage) m f w
          (h.at w p) (λ b t q. (k b).at t q);
  }

  Completes-step :
      {Q : Storage → Type 0} (o : Operation)
      → ((e : Evidence) → P e.storage → Accepts o e Q)
      → Completes P (step {A = A} {W = W} o) (λ u. Q)
  unfolding step
  Completes-step o h = record { at = λ w p. let (fine, after) = h w.evidence p in rw fine after }

  Completes-unless_cancelled :
      (stop : Token)
      → ((n : ℕ) → stop n ≡ false)
      → Completes P (unless_cancelled {A = A} {W = W} stop) (λ u. P)
  unfolding unless_cancelled is_cancelled
  Completes-unless_cancelled stop never = record { at = λ w p. rw (never w.clock) p }

-- Every attempt returns a result that is safe to continue after.
abbrev pub AttemptsSafely : {A W : Type 0} → Toolset A W → Type 0
AttemptsSafely {A} {W} tools =
    (a : RoutedAsset) (root : FilePath) (artifacts : A) (world : W) (clock : ℕ)
    → (r : AssetExecutionResult) × ((tools.attempt a root artifacts world clock).end_of_attempt
        ≡ returned (attempted r))
      × (safe_to_continue r.outcome ≡ true)

-- The Asset lies in one of the Mod Roots, whatever attempts do to the disk.
abbrev pub IsAttributed : {A W : Type 0} → Toolset A W → List FilePath → RoutedAsset → Type 0
IsAttributed {A} {W} tools roots a =
    (world : W)
    → (root : FilePath) × (attributed_mod_root tools world a.execution_path roots ≡ some root)

module _ {A W : Type 0} (tools : Toolset A W) (stop : Token) (roots : List FilePath)
    (never : (n : ℕ) → stop n ≡ false) (safely : AttemptsSafely tools) where
  retain_all-Completes :
      (n : ℕ) (ds : List RunDiagnostic)
      → Completes {A = A} {W = W} (Processing n) (retain_all ds) (λ u. Processing n)
  unfolding retain_all
  retain_all-Completes n [] = record { at = λ w p. p }
  retain_all-Completes n (d ∷ ds) =
      Completes-bind (Completes-step (keep_diagnostic d) (λ e h. keep-Accepts n d e h))
        (λ u. retain_all-Completes n ds)

  abbrev Attempted : ℕ → RoutedAssetAttempt → Storage → Type 0
  Attempted n x s = IsSafe x × Processing n s

  attempt_in-Completes :
      (n : ℕ) (a : RoutedAsset) (root : FilePath)
      → Completes (Processing n) (attempt_in tools a (some root)) (Attempted n)
  unfolding attempt_in call_attempt
  attempt_in-Completes n a root = record {
    at = λ w p.
        let called = tools.attempt a root w.artifacts w.world w.clock in
        let (r, same, safe) = safely a root w.artifacts w.world w.clock in
        let after = record w {
          artifacts = called.artifacts;
          world = called.world;
          clock = called.clock;
        } in
        Leaves-bind (λ x t. ⊥) (λ u t. Processing n t.evidence.storage)
          (λ x t. Attempted n x t.evidence.storage) (retain_all called.diagnostics)
          (λ u. or_cancelled (result_of a.execution_path root a called.end_of_attempt)) after
          ((retain_all-Completes n called.diagnostics).at after p) (λ u t h. rw same (safe, h));
  }

  attempt_asset-Completes :
      (n : ℕ) (a : RoutedAsset)
      → IsAttributed tools roots a
      → Completes (Processing n) (attempt_asset tools roots a) (Attempted n)
  unfolding attempt_asset
  attempt_asset-Completes n a inside = record {
    at = λ w p.
        let (root, same) = inside w.world in rw same ((attempt_in-Completes n a root).at w p);
  }

  process_each-Completes :
      (rest : List RoutedAsset)
      → All (IsAttributed tools roots) rest
      → Completes
          (Processing (length rest))
          (process_each tools stop roots rest)
          (λ u. Processing 0)
  unfolding process_each
  process_each-Completes [] inside = record { at = λ w p. p }
  process_each-Completes (a ∷ rest) (inside, others) =
      let n = length rest in
      Completes-bind (Completes-unless_cancelled stop never) (λ u.
        Completes-bind (attempt_asset-Completes (length (a ∷ rest)) a inside) (λ x.
          Completes-bind
            (Completes-step {Q = λ s. IsSafe x × Processing n s} (asset x) (λ e (safe, h).
              let (fine, after) =
                asset-Accepts n x e (subst (λ (m : ℕ). Processing m e.storage) (omega arith) h) in
              (fine, (safe, after))))
            (λ v. record {
              at = λ w (safe, h). rw safe ((process_each-Completes rest others).at w h);
            })))

module _ {A W : Type 0} (tools : Toolset A W) (stop : Token) (preparation : RunPreparation)
    (never : (n : ℕ) → stop n ≡ false) (safely : AttemptsSafely tools) where
  process_assets-Completes :
      (ledger : RoutingLedger)
      → All (IsAttributed tools preparation.mod_roots) (offered ledger)
      → Completes HasTree (process_assets tools stop preparation ledger) (λ u. Processing 0)
  unfolding process_assets
  process_assets-Completes ledger inside =
      let total = length ledger.routed_assets in
      Completes-bind
        (Completes-step {Q = Processing (length (offered ledger))} (open_processing ledger) (λ e h.
          let (fine, after) = open_processing-Accepts e h refl refl refl refl ledger in
          (fine, (determinate total 0 0, omega (arith, offered-le ledger), after))))
        (λ u.
          Completes-bind
            (process_each-Completes tools stop preparation.mod_roots never safely (offered ledger)
              inside)
            (λ v. Completes-unless_cancelled stop never))

  both_hold :
      (assets : List RoutedAsset) (before : List RoutedAssetAttempt)
      (o : Outcome Exit (Unit {0}) × Worker A W)
      → Leaves (λ u t. Processing 0 t.evidence.storage) (λ x t. ⊥) o
      → Leaves (λ u t. Completed assets before t) (λ x t. Interrupted assets before t) o
      → (o.0 ≡ value tt) × Completed assets before o.1
  both_hold assets before (value u, t) h k = (refl, k)
  both_hold assets before (stops x, t) h k = absurd h

  -- After a complete discovery, if the token is never cancelled, every attempt returns a result that
  -- is safe to continue after and every offered Asset lies in a Mod Root, Processing Assets goes on, after
  -- an attempt on each of the offered Assets, in their order and all of them safe.
  pub process_assets_completes :
      (ledger : RoutingLedger) (w : Worker A W)
      → All (IsAttributed tools preparation.mod_roots) (offered ledger)
      → HasTree w.evidence.storage
      → let o = process_assets tools stop preparation ledger w in
        (o.0 ≡ value tt) × Completed (offered ledger) (asset_attempts w.operations) o.1
  process_assets_completes ledger w inside h =
      both_hold (offered ledger) (asset_attempts w.operations)
        (process_assets tools stop preparation ledger w)
        ((process_assets-Completes ledger inside).at w h)
        (process_assets_lem tools stop preparation ledger w)
