-- ===== src/Work/Unrefused/Processing.antt =====
-- The recording steps of `process_assets` of crates/cao-core/src/run/executor/work_phases.rs.
use cao.Shared.{
  ℕ, ◌≤◌, ◌+◌, true, List, [], ◌∷◌, Option, none, some, refl, subst, arith, length, length-append,
  ◌++◌,
}
use cao.Shared.Paths.{FilePath}
use cao.Routing.Route.{RoutingLedger}
use cao.Run.Attempt.{safe_to_continue}
use cao.Run.Lifecycle.{processing_assets, determinate, executed, RunDiagnostic}
use cao.Run.Results.{RunPreparation}
use cao.Evidence.Storage.{Storage}
use cao.Evidence.Sinks.{Evidence}
use cao.Evidence.Operations.{keep_diagnostic, perform}
use cao.Evidence.Standing.{OnceFacts}
use cao.Evidence.Accepted.{keep_diagnostic-Accepts}
use cao.Evidence.Uncleaned.{Standing-IsUncleaned}
use cao.Selection.Overlap.{Token}
use cao.Work.Toolset.{Toolset}
use cao.Work.Worker.{Worker}
use cao.Work.Ends.{
  Runs, Runs-bind, Runs-step, Runs-unless_cancelled, Runs-halt, Runs-pure, Runs-if, Runs-lift,
  Runs-weaken,
}
use cao.Evidence.Accepted.{Accepts}
use cao.Routing.Route.{RoutedAsset}
use cao.Routing.Kinds.{OptimizerTarget}
use cao.Run.Results.{RoutedAssetAttempt}
use cao.Evidence.Operations.{open_processing, asset}
use cao.Evidence.Attempts.{asset_attempt}
use cao.Evidence.Accepted.{open_processing-Accepts}
use cao.Work.Process.{
  offered, routed_assets_for, result_of, retain_all, call_attempt, attempt_in, attempt_asset,
  attributed_mod_root, process_each, process_assets, or_cancelled,
}
use cao.Work.Unrefused.Extraction.{
  AtPhase, HasRoom, record_attempt_progress-HasRoom, counted_facts, HasTree,
}

abbrev with_assets : List RoutedAsset → RoutingLedger
with_assets assets = record { routed_assets = assets; skipped_asset_counts = λ r. 0 }

offered_shares :
    (assets : List RoutedAsset)
    → length (routed_assets_for OptimizerTarget.texture (with_assets assets))
        + (length (routed_assets_for OptimizerTarget.mesh (with_assets assets))
            + length (routed_assets_for OptimizerTarget.animation (with_assets assets)))
      ≤ length assets
offered_shares [] = omega arith
offered_shares (a ∷ rest) = ground (arith, offered_shares rest)

-- No more Assets are offered than routed.
pub offered-le : (ledger : RoutingLedger) → length (offered ledger) ≤ length ledger.routed_assets
offered-le ledger =
    let textures = routed_assets_for OptimizerTarget.texture ledger in
    let meshes = routed_assets_for OptimizerTarget.mesh ledger in
    let animations = routed_assets_for OptimizerTarget.animation ledger in
    omega (
      arith,
      offered_shares ledger.routed_assets,
      length-append textures (meshes ++ animations),
      length-append meshes animations,
    )

abbrev pub routed_facts : OnceFacts
routed_facts = record counted_facts { routed = true }

abbrev pub Processing : ℕ → Storage → Type 0
Processing = HasRoom processing_assets routed_facts

abbrev pub HasProcessed : Storage → Type 0
HasProcessed = AtPhase processing_assets routed_facts

pub asset-Accepts :
    (n : ℕ) (a : RoutedAssetAttempt) (e : Evidence)
    → Processing (n + 1) e.storage
    → Accepts (asset a) e (Processing n)
unfolding perform
asset-Accepts n a e h =
    record_attempt_progress-HasRoom asset_attempt (λ x s. refl) (λ x s. refl) n a e h

pub keep-Accepts :
    (n : ℕ) (d : RunDiagnostic) (e : Evidence)
    → Processing n e.storage
    → Accepts (keep_diagnostic d) e (Processing n)
keep-Accepts n d e (q, room, h) =
    let (fine, after) = keep_diagnostic-Accepts e h d in (fine, (q, room, after))

module _ {A W : Type 0} where
  retain_all-Runs :
      (n : ℕ) (ds : List RunDiagnostic)
      → Runs {A = A} {W = W} (Processing n) (retain_all ds) (λ u. Processing n)
  unfolding retain_all
  retain_all-Runs n [] = Runs-pure (λ s h. h)
  retain_all-Runs n (d ∷ ds) =
      Runs-bind (Runs-step (keep_diagnostic d) (λ e h. keep-Accepts n d e h))
        (λ u. retain_all-Runs n ds)

  or_cancelled-Runs :
      (n : ℕ) (o : Option RoutedAssetAttempt)
      → Runs {A = A} {W = W} (Processing n) (or_cancelled o) (λ a. Processing n)
  or_cancelled-Runs n none = Runs-lift (λ l w t. t) (λ w h. Standing-IsUncleaned refl h.2)
  or_cancelled-Runs n (some a) = Runs-pure (λ s h. h)

module _ {A W : Type 0} (tools : Toolset A W) where
  attempt_in-Runs :
      (n : ℕ) (a : RoutedAsset) (root : Option FilePath)
      → Runs (Processing n) (attempt_in tools a root) (λ x. Processing n)
  unfolding attempt_in call_attempt
  attempt_in-Runs n a none = Runs-pure (λ s h. h)
  attempt_in-Runs n a (some root) =
      Runs-bind {m = call_attempt tools root a} (Runs-lift (λ l w t. t) (λ w h. h)) (λ called.
        Runs-bind (retain_all-Runs n called.diagnostics)
          (λ u. or_cancelled-Runs n (result_of a.execution_path root a called.end_of_attempt)))

  attempt_asset-Runs :
      (n : ℕ) (roots : List FilePath) (a : RoutedAsset)
      → Runs (Processing n) (attempt_asset tools roots a) (λ x. Processing n)
  unfolding attempt_asset
  attempt_asset-Runs n roots a =
      let here = λ (w : Worker A W).
        attempt_in-Runs n a (attributed_mod_root tools w.world a.execution_path roots) in
      Runs-lift (λ lent w t. (here w).traces lent w t) (λ w h. (here w).at w h)

module _ {A W : Type 0} (tools : Toolset A W) (stop : Token) where
  process_each-Runs :
      (roots : List FilePath) (rest : List RoutedAsset)
      → Runs (Processing (length rest)) (process_each tools stop roots rest) (λ u. Processing 0)
  unfolding process_each
  process_each-Runs roots [] = Runs-pure (λ s h. h)
  process_each-Runs roots (a ∷ rest) =
      Runs-bind (Runs-unless_cancelled stop (λ s h. Standing-IsUncleaned refl h.2)) (λ u.
        Runs-bind (attempt_asset-Runs tools (length (a ∷ rest)) roots a) (λ x.
          Runs-bind
            (Runs-step (asset x) (λ e h.
              asset-Accepts (length rest) x e
                (subst (λ (m : ℕ). Processing m e.storage) (omega arith) h)))
            (λ v.
              Runs-if (safe_to_continue x.result.outcome) (process_each-Runs roots rest)
                (Runs-halt (λ s h. Standing-IsUncleaned refl h.2)))))

  -- After the definitive pass, the Asset attempts are recorded without a refusal.
  pub process_assets-Runs :
      (preparation : RunPreparation) (ledger : RoutingLedger)
      → Runs HasTree (process_assets tools stop preparation ledger) (λ u. HasProcessed)
  unfolding process_assets
  process_assets-Runs preparation ledger =
      let total = length ledger.routed_assets in
      Runs-bind
        (Runs-step {Q = Processing (length (offered ledger))} (open_processing ledger) (λ e h.
          let (fine, after) = open_processing-Accepts e h refl refl refl refl ledger in
          (fine, (determinate total 0 0, omega (arith, offered-le ledger), after))))
        (λ u. Runs-bind (process_each-Runs preparation.mod_roots (offered ledger)) (λ v.
          Runs-weaken {Q = λ x. Processing 0} (λ x s room. (executed, some room.0, room.2))
            (Runs-unless_cancelled stop (λ s h. Standing-IsUncleaned refl h.2))))
