-- ===== src/Routing/Ledger.antt =====
-- What `AssetRouter::route_all` keeps of its paths.
use cao.Shared.{
  ℕ, suc, ◌+◌, List, [], ◌∷◌, ◌++◌, ◌≡◌, refl, sym, ap, ◌∙◌, arith, ◌==◌, if◌then◌else◌, length,
  append_assoc, append-nil,
}
use cao.Shared.Paths.{FilePath}
use cao.Routing.Kinds.{SkipReason, disabled_asset_kind, excluded_asset_variant}
use cao.Routing.Policy.{RoutingPolicy}
use cao.Routing.Route.{
  RoutedAsset, RoutingDecision, routed, skipped, unsupported, RoutingLedger, empty_ledger,
  reason_index, record_decision, route_from, route_all, route,
}

-- The routed decisions of a list of paths, in its order.
abbrev pub assets_of : RoutingDecision → List RoutedAsset
assets_of (routed a) = a ∷ []
assets_of _ = []

abbrev pub skip_of : SkipReason → RoutingDecision → ℕ
skip_of r (skipped s) = if reason_index r == reason_index s.reason then 1 else 0
skip_of r _ = 0

abbrev pub unsupported_of : RoutingDecision → ℕ
unsupported_of unsupported = 1
unsupported_of _ = 0

module _ (policy : RoutingPolicy) where
  abbrev pub routed_of : List FilePath → List RoutedAsset
  routed_of [] = []
  routed_of (p ∷ ps) = assets_of (route policy p) ++ routed_of ps

  abbrev pub skips : SkipReason → List FilePath → ℕ
  skips r [] = 0
  skips r (p ∷ ps) = skip_of r (route policy p) + skips r ps

  abbrev pub unsupported_count : List FilePath → ℕ
  unsupported_count [] = 0
  unsupported_count (p ∷ ps) = unsupported_of (route policy p) + unsupported_count ps

  record_decision-routed :
      (l : RoutingLedger) (d : RoutingDecision)
      → (record_decision l d).routed_assets ≡ l.routed_assets ++ assets_of d
  unfolding record_decision
  record_decision-routed l (routed a) = refl
  record_decision-routed l (skipped s) = sym (append-nil _)
  record_decision-routed l unsupported = sym (append-nil _)

  record_decision-skips :
      (l : RoutingLedger) (d : RoutingDecision) (r : SkipReason)
      → (record_decision l d).skipped_asset_counts r ≡ l.skipped_asset_counts r + skip_of r d
  unfolding record_decision
  record_decision-skips l d r = ground arith

  route_from-ledger :
      (l : RoutingLedger) (ps : List FilePath)
      → ((route_from policy l ps).routed_assets ≡ l.routed_assets ++ routed_of ps)
        × ((r : SkipReason)
            → (route_from policy l ps).skipped_asset_counts r
              ≡ l.skipped_asset_counts r + skips r ps)
  unfolding route_from
  route_from-ledger l [] = (sym (append-nil _), (λ r. omega arith))
  route_from-ledger l (p ∷ ps) =
      let step = route_from-ledger (record_decision l (route policy p)) ps in
      (
        step.0
            ∙ rw record_decision-routed
                (append_assoc l.routed_assets (assets_of (route policy p)) (routed_of ps)),
        (λ r. omega (arith, step.1 r, record_decision-skips l (route policy p) r)),
      )

  each-once :
      (ps : List FilePath)
      → length (routed_of ps)
          + skips disabled_asset_kind ps
          + skips excluded_asset_variant ps
          + unsupported_count ps
        ≡ length ps
  each-once [] = refl
  each-once (p ∷ ps) = one (each-once ps) (route policy p)
    where
      one :
          length (routed_of ps)
              + skips disabled_asset_kind ps
              + skips excluded_asset_variant ps
              + unsupported_count ps
            ≡ length ps
          → (d : RoutingDecision)
          → length (assets_of d ++ routed_of ps)
              + (skip_of disabled_asset_kind d + skips disabled_asset_kind ps)
              + (skip_of excluded_asset_variant d + skips excluded_asset_variant ps)
              + (unsupported_of d + unsupported_count ps)
            ≡ suc (length ps)
      one e d = ground arith

  -- The ledger keeps the Routed Assets in caller order, duplicates included, counts every skipped
  -- path under its Skip Reason, and so accounts for every path but the unsupported ones.
  pub route_all_lem :
      (ps : List FilePath)
      → let l = route_all policy ps in
        (l.routed_assets ≡ routed_of ps)
        × ((r : SkipReason) → l.skipped_asset_counts r ≡ skips r ps)
        × (length l.routed_assets
              + l.skipped_asset_counts disabled_asset_kind
              + l.skipped_asset_counts excluded_asset_variant
              + unsupported_count ps
            ≡ length ps)
  unfolding route_all
  route_all_lem ps =
      let (kept, counted) = route_from-ledger empty_ledger ps in
      (
        kept,
        (λ r. omega (arith, counted r)),
        omega (
          arith,
          each-once ps,
          ap length kept,
          counted disabled_asset_kind,
          counted excluded_asset_variant,
        ),
      )
