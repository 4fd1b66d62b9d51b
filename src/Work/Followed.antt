-- ===== src/Work/Followed.antt =====
-- The Asset attempts among the recording steps of
-- crates/cao-core/src/run/executor/work_phases.rs.
use cao.Shared.{
  true, List, [], ◌∷◌, ◌++◌, map, All, none, some, ◌≡◌, refl, sym, ap, ◌∙◌, inl, inr, ◌⊎◌,
  Bool-cases, append-nil, append_assoc,
}
use cao.Routing.Route.{RoutedAsset}
use cao.Run.Attempt.{safe_to_continue}
use cao.Run.Lifecycle.{RunDiagnostic}
use cao.Run.Results.{RoutedAssetAttempt}
use cao.Evidence.Operations.{Operation, asset, keep_diagnostic, perform}
use cao.Selection.Overlap.{Token}
use cao.Work.Flow.{Leaves, Leaves-bind}
use cao.Work.Worker.{
  Worker, Exit, step, tick, unless_cancelled, is_cancelled, performed, outcome_of,
}
use cao.Work.Process.{retain_all}

abbrev pub attempts_in : Operation → List RoutedAssetAttempt
attempts_in (asset x) = x ∷ []
attempts_in _ = []

-- The Asset attempts among the recording steps.
abbrev pub asset_attempts : List Operation → List RoutedAssetAttempt
asset_attempts [] = []
asset_attempts (o ∷ os) = attempts_in o ++ asset_attempts os

asset_attempts-append :
    (os : List Operation) (o : Operation)
    → asset_attempts (os ++ o ∷ []) ≡ asset_attempts os ++ attempts_in o
asset_attempts-append [] o = append-nil (attempts_in o)
asset_attempts-append (p ∷ os) o =
    ap (λ xs. attempts_in p ++ xs) (asset_attempts-append os o)
    ∙ sym (append_assoc (attempts_in p) (asset_attempts os) (attempts_in o))

abbrev pub IsSafe : RoutedAssetAttempt → Type 0
IsSafe x = safe_to_continue x.result.outcome ≡ true

-- Attempts on the first of the Assets, in order; only the last of them may be unsafe.
abbrev pub Follows : List RoutedAsset → List RoutedAssetAttempt → Type 0
Follows assets [] = Unit
Follows [] (x ∷ xs) = ⊥
Follows (a ∷ rest) (x ∷ xs) = (x.asset ≡ a) × ((xs ≡ []) ⊎ IsSafe x) × Follows rest xs

pub map-Follows :
    (xs : List RoutedAssetAttempt) → All IsSafe xs → Follows (map (λ x. x.asset) xs) xs
map-Follows [] h = tt
map-Follows (x ∷ xs) (safe, h) = (refl, inr safe, map-Follows xs h)

module _ {A W : Type 0} where
  abbrev pub Seen : List RoutedAssetAttempt → Worker A W → Type 0
  Seen xs w = asset_attempts w.operations ≡ xs

  -- What an early end leaves, and what a phase that goes on does.
  abbrev pub Interrupted : List RoutedAsset → List RoutedAssetAttempt → Worker A W → Type 0
  Interrupted assets before w =
      (xs : List RoutedAssetAttempt) × Seen (before ++ xs) w × Follows assets xs

  abbrev pub Completed : List RoutedAsset → List RoutedAssetAttempt → Worker A W → Type 0
  Completed assets before w =
      (xs : List RoutedAssetAttempt) × Seen (before ++ xs) w
      × (map (λ x. x.asset) xs ≡ assets)
      × All IsSafe xs

  pub Seen-Interrupted :
      (assets : List RoutedAsset) (before : List RoutedAssetAttempt) (w : Worker A W)
      → Seen before w
      → Interrupted assets before w
  Seen-Interrupted assets before w h = ([], h ∙ sym (append-nil before), tt)

  pub performed-Seen :
      (before : List RoutedAssetAttempt) (o : Operation) (w : Worker A W)
      → Seen before w
      → Seen (before ++ attempts_in o) (performed o w)
  performed-Seen before o w h =
      asset_attempts-append w.operations o ∙ ap (λ ys. ys ++ attempts_in o) h

  -- A step that goes on or is refused leaves the same trace.
  pub step-Leaves :
      (Q R : Worker A W → Type 0) (o : Operation) (w : Worker A W)
      → Q (performed o w)
      → R (performed o w)
      → Leaves (λ u t. Q t) (λ x t. R t) (step o w)
  unfolding step
  step-Leaves Q R o w q r =
      elim (perform o w.evidence).1
        as (λ v. Leaves (λ u t. Q t) (λ x t. R t) (outcome_of v, performed o w)) [
          | none ↦ q
          | some v ↦ r
        ]

  module _ (assets : List RoutedAsset) (before : List RoutedAssetAttempt) where
    abbrev pub Stops : Exit → Worker A W → Type 0
    Stops x t = Interrupted assets before t

    pub unless_cancelled-Leaves :
        (stop : Token) (w : Worker A W)
        → Seen before w
        → Leaves (λ u t. Seen before t) Stops (unless_cancelled stop w)
    unfolding unless_cancelled is_cancelled
    unless_cancelled-Leaves stop w h = elim (Bool-cases (stop w.clock)) [
      | inl c ↦ rw c (Seen-Interrupted assets before (tick w) h)
      | inr c ↦ rw c h
    ]

    pub retain_all-Leaves :
        (ds : List RunDiagnostic) (w : Worker A W)
        → Seen before w
        → Leaves (λ u t. Seen before t) Stops (retain_all ds w)
    unfolding retain_all
    retain_all-Leaves [] w h = h
    retain_all-Leaves (d ∷ ds) w h =
        let after : Seen before (performed (keep_diagnostic d) w) =
          performed-Seen before (keep_diagnostic d) w h ∙ append-nil before in
        Leaves-bind Stops (λ u t. Seen before t) (λ u t. Seen before t) (step (keep_diagnostic d))
          (λ u. retain_all ds) w
          (step-Leaves (Seen before) (Interrupted assets before) (keep_diagnostic d) w after
            (Seen-Interrupted assets before (performed (keep_diagnostic d) w) after))
          (λ u t k. retain_all-Leaves ds t k)
