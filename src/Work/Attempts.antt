-- ===== src/Work/Attempts.antt =====
-- The order of the Asset attempts that `process_assets` of
-- crates/cao-core/src/run/executor/work_phases.rs makes.
use cao.Shared.{
  List, [], ◌∷◌, ◌++◌, Option, none, some, ◌≡◌, refl, sym, ◌∙◌, inl, inr, Bool-cases, append-nil,
  append_assoc, if◌then◌else◌, subst,
}
use cao.Shared.Paths.{FilePath}
use cao.Routing.Route.{RoutedAsset, RoutingLedger}
use cao.Run.Attempt.{safe_to_continue}
use cao.Run.Results.{RunPreparation, RoutedAssetAttempt}
use cao.Evidence.Operations.{asset, open_processing}
use cao.Executor.Services.{Caught, returned, panicked}
use cao.Selection.Overlap.{Token}
use cao.Work.Flow.{Outcome, value, stops, Leaves, Leaves-bind, ◌>>=◌, ◌>>◌}
use cao.Work.Toolset.{Toolset, AttemptEnd, attempted, initialization_cancelled}
use cao.Work.Worker.{Worker, Exit, step, unless_cancelled, is_cancelled, halt, performed}
use cao.Work.Process.{
  offered, result_of, retain_all, or_cancelled, call_attempt, attempt_in, attempt_asset,
  attributed_mod_root, process_each, process_assets,
}
use cao.Work.Followed.{
  asset_attempts, IsSafe, Follows, Seen, Interrupted, Completed, Seen-Interrupted, performed-Seen,
  step-Leaves, Stops, unless_cancelled-Leaves, retain_all-Leaves, map-Follows,
}

module _ {A W : Type 0} (tools : Toolset A W) (a : RoutedAsset) (rest : List RoutedAsset)
    (before : List RoutedAssetAttempt) where
  abbrev Early : Exit → Worker A W → Type 0
  Early = Stops (a ∷ rest) before

  abbrev Attempted : RoutedAssetAttempt → Worker A W → Type 0
  Attempted x t = (x.asset ≡ a) × Seen before t

  or_cancelled-Leaves :
      (root : FilePath) (c : Caught AttemptEnd) (w : Worker A W)
      → Seen before w
      → Leaves Attempted Early (or_cancelled (result_of a.execution_path root a c) w)
  or_cancelled-Leaves root (returned (attempted r)) w h = (refl, h)
  or_cancelled-Leaves root (returned initialization_cancelled) w h =
      Seen-Interrupted (a ∷ rest) before w h
  or_cancelled-Leaves root (panicked m) w h = (refl, h)

  attempt_in-Leaves :
      (root : Option FilePath) (w : Worker A W)
      → Seen before w
      → Leaves Attempted Early (attempt_in tools a root w)
  unfolding attempt_in call_attempt
  attempt_in-Leaves none w h = (refl, h)
  attempt_in-Leaves (some root) w h =
      let called = tools.attempt a root w.artifacts w.world w.clock in
      let after = record w {
        artifacts = called.artifacts;
        world = called.world;
        clock = called.clock;
      } in
      Leaves-bind Early (λ u t. Seen before t) Attempted (retain_all called.diagnostics)
        (λ u. or_cancelled (result_of a.execution_path root a called.end_of_attempt)) after
        (retain_all-Leaves (a ∷ rest) before called.diagnostics after h)
        (λ u t k. or_cancelled-Leaves root called.end_of_attempt t k)

module _ {A W : Type 0} (tools : Toolset A W) (stop : Token) (roots : List FilePath) where
  -- The attempts after the first one follow it.
  Follows-cons :
      (a : RoutedAsset) (rest : List RoutedAsset) (x : RoutedAssetAttempt)
      (before : List RoutedAssetAttempt) (t : Worker A W)
      → x.asset ≡ a
      → IsSafe x
      → Interrupted rest (before ++ x ∷ []) t
      → Interrupted (a ∷ rest) before t
  Follows-cons a rest x before t same safe (xs, seen, follows) =
      (x ∷ xs, seen ∙ append_assoc before (x ∷ []) xs, (same, inr safe, follows))

  Completed-cons :
      (a : RoutedAsset) (rest : List RoutedAsset) (x : RoutedAssetAttempt)
      (before : List RoutedAssetAttempt) (t : Worker A W)
      → x.asset ≡ a
      → IsSafe x
      → Completed rest (before ++ x ∷ []) t
      → Completed (a ∷ rest) before t
  Completed-cons a rest x before t same safe (xs, seen, all_made, all_safe) =
      (x ∷ xs, seen ∙ append_assoc before (x ∷ []) xs, rw (same, all_made) refl, (safe, all_safe))

  cons-Leaves :
      (a : RoutedAsset) (rest : List RoutedAsset) (x : RoutedAssetAttempt)
      (before : List RoutedAssetAttempt)
      → x.asset ≡ a
      → IsSafe x
      → (o : Outcome Exit (Unit {0}) × Worker A W)
      → Leaves
          (λ u t. Completed rest (before ++ x ∷ []) t)
          (λ e t. Interrupted rest (before ++ x ∷ []) t)
          o
      → Leaves (λ u t. Completed (a ∷ rest) before t) (λ e t. Interrupted (a ∷ rest) before t) o
  cons-Leaves a rest x before same safe (value u, t) h =
      Completed-cons a rest x before t same safe h
  cons-Leaves a rest x before same safe (stops e, t) h = Follows-cons a rest x before t same safe h

  process_each-Leaves :
      (assets : List RoutedAsset) (before : List RoutedAssetAttempt) (w : Worker A W)
      → Seen before w
      → Leaves
          (λ u t. Completed assets before t)
          (λ e t. Interrupted assets before t)
          (process_each tools stop roots assets w)
  unfolding process_each attempt_asset
  process_each-Leaves [] before w h = ([], h ∙ sym (append-nil before), refl, tt)
  process_each-Leaves (a ∷ rest) before w h =
      let R = Stops (a ∷ rest) before in
      let Done = λ (u : Unit {0}) (t : Worker A W). Completed (a ∷ rest) before t in
      let go_on = λ (x : RoutedAssetAttempt).
        if safe_to_continue x.result.outcome then process_each tools stop roots rest else halt in
      let record_it = λ (x : RoutedAssetAttempt). step (asset x) >> go_on x in
      Leaves-bind R (λ u t. Seen before t) Done (unless_cancelled stop)
        (λ u. attempt_asset tools roots a >>= record_it) w
        (unless_cancelled-Leaves (a ∷ rest) before stop w h)
        (λ u v k.
          Leaves-bind R (λ x t. (x.asset ≡ a) × Seen before t) Done (attempt_asset tools roots a)
            record_it v
            (attempt_in-Leaves tools a rest before
              (attributed_mod_root tools v.world a.execution_path roots) v k)
            (λ x t (same, seen).
              let noted = performed-Seen before (asset x) t seen in
              Leaves-bind R (λ y s. Seen (before ++ x ∷ []) s) Done (step (asset x)) (λ y. go_on x)
                t
                (step-Leaves (Seen (before ++ x ∷ [])) (Interrupted (a ∷ rest) before) (asset x) t
                  noted (x ∷ [], noted, (same, inl refl, tt)))
                (λ y s told. elim (Bool-cases (safe_to_continue x.result.outcome)) [
                  | inr c ↦ rw c (x ∷ [], told, (same, inl refl, tt))
                  | inl c ↦ rw c (
                      cons-Leaves a rest x before same c (process_each tools stop roots rest s)
                        (process_each-Leaves rest (before ++ x ∷ []) s told))
                ])))

module _ {A W : Type 0} (tools : Toolset A W) (stop : Token) where
  Completed-Leaves :
      (assets : List RoutedAsset) (before : List RoutedAssetAttempt) (t : Worker A W)
      → Completed assets before t
      → Leaves
          (λ u s. Completed assets before s)
          (λ e s. Interrupted assets before s)
          (unless_cancelled stop t)
  unfolding unless_cancelled is_cancelled
  Completed-Leaves assets before t (xs, seen, all_made, all_safe) =
      elim (Bool-cases (stop t.clock)) [
        | inl c ↦ rw c (xs, seen, subst (λ ys. Follows ys xs) all_made (map-Follows xs all_safe))
        | inr c ↦ rw c (xs, seen, all_made, all_safe)
      ]

  -- Whatever its toolset does, Processing Assets attempts the offered Assets in their order, each at
  -- most once: it goes on exactly after a safe attempt on every one of them, and what it attempted
  -- before an early end are first ones of them, of which only the last can be unsafe.
  pub process_assets_lem :
      (preparation : RunPreparation) (ledger : RoutingLedger) (w : Worker A W)
      → Leaves
          (λ u t. Completed (offered ledger) (asset_attempts w.operations) t)
          (λ e t. Interrupted (offered ledger) (asset_attempts w.operations) t)
          (process_assets tools stop preparation ledger w)
  unfolding process_assets
  process_assets_lem preparation ledger w =
      let assets = offered ledger in
      let before = asset_attempts w.operations in
      let R = Stops assets before in
      let Done = λ (u : Unit {0}) (t : Worker A W). Completed assets before t in
      let o = open_processing ledger in
      let opened = performed-Seen before o w refl ∙ append-nil before in
      let each = process_each tools stop preparation.mod_roots assets in
      Leaves-bind R (λ u t. Seen before t) Done (step o) (λ u. each >> unless_cancelled stop) w
        (step-Leaves (Seen before) (Interrupted assets before) o w opened
          (Seen-Interrupted assets before (performed o w) opened))
        (λ u t k.
          Leaves-bind R Done Done each (λ v. unless_cancelled stop) t
            (process_each-Leaves tools stop preparation.mod_roots assets before t k)
            (λ v s done. Completed-Leaves assets before s done))
