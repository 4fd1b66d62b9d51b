-- ===== src/Routing/Skips.antt =====
-- Why `AssetRouter::route` skips an Asset, and what its decisions depend on.
use cao.Shared.{
  Bool, true, false, not, ◌||◌, [], ◌∷◌, Option, none, some, Text, codes, ◌≡◌, inl, inr, ◌∙◌, arith,
  if◌then◌else◌, Option-cases, lowercase, all-is_ascii-lowercase,
}
use cao.Shared.Paths.{FilePath, normal, extension}
use cao.Routing.Kinds.{
  native, convertible, standard, terrain, RequestedWork, disabled_asset_kind,
  excluded_asset_variant,
}
use cao.Routing.Policy.{RoutingPolicy, kind_has_work, requests}
use cao.Routing.Route.{
  AssetIdentity, kind, is_empty, SkippedAsset, RoutingDecision, routed, skipped, unsupported,
  normalized_terminal_extension, Recognized, recognize, decide_recognized, route, is_routed,
}

-- A decision without the path that it was made for.
abbrev pub on_path : FilePath → RoutingDecision → RoutingDecision
on_path path (routed a) = routed (record a { execution_path = path })
on_path path (skipped s) = skipped (record s { execution_path = path })
on_path path unsupported = unsupported

route-normalized :
    (policy : RoutingPolicy) (p q : FilePath)
    → normalized_terminal_extension p ≡ normalized_terminal_extension q
    → route policy q ≡ on_path q (route policy p)
unfolding route decide_recognized
route-normalized policy p q e =
    rw e (elim (Option-cases (recognize policy (normalized_terminal_extension q))) [
      | inl f ↦ rw f
      | inr (x, f) ↦ rw f (ground arith)
    ])

normalized-fold :
    (p q : FilePath) (s t : Text)
    → extension p ≡ some s
    → extension q ≡ some t
    → lowercase s ≡ lowercase t
    → normalized_terminal_extension p ≡ normalized_terminal_extension q
unfolding normalized_terminal_extension
normalized-fold p q s t e f h =
    rw (e, f) (ground (arith, all-is_ascii-lowercase s, all-is_ascii-lowercase t))

-- Routing depends on a path only through its extension, without regard to ASCII case: two paths
-- whose extensions fold to the same text get the same decision, each for its own path.
pub route_ignores_case :
    (policy : RoutingPolicy) (p q : FilePath) (s t : Text)
    → extension p ≡ some s
    → extension q ≡ some t
    → lowercase s ≡ lowercase t
    → route policy q ≡ on_path q (route policy p)
route_ignores_case policy p q s t e f h =
    route-normalized policy p q (normalized-fold p q s t e f h)

-- Whether an Asset of this identity has an operation under a policy.
abbrev identity_has_work : RoutingPolicy → AssetIdentity → Bool
identity_has_work q (AssetIdentity.texture native) =
    requests q RequestedWork.native_texture_optimization
identity_has_work q (AssetIdentity.texture convertible) = q.converts_textures
identity_has_work q (AssetIdentity.mesh standard) =
    requests q RequestedWork.standard_mesh_optimization || q.converts_textures
identity_has_work q (AssetIdentity.mesh terrain) =
    requests q RequestedWork.terrain_mesh_optimization || q.converts_textures
identity_has_work q AssetIdentity.animation = requests q RequestedWork.animation_optimization
identity_has_work q AssetIdentity.archive = requests q RequestedWork.archive_extraction

recognize-work :
    (policy : RoutingPolicy) (ext : Text) (x : Recognized)
    → recognize policy ext ≡ some x
    → is_empty x.operations ≡ not (identity_has_work policy x.identity)
unfolding recognize
recognize-work policy ext x h = ground arith

-- What a decision recognizes the path as.
abbrev pub identity? : RoutingDecision → Option AssetIdentity
identity? (routed a) = some a.identity
identity? (skipped s) = some s.identity
identity? unsupported = none

route_cases :
    (policy : RoutingPolicy) (path : FilePath) (i : AssetIdentity)
    → identity? (route policy path) ≡ some i
    → is_routed (route policy path) ≡ identity_has_work policy i
unfolding route decide_recognized
route_cases policy path i h =
    elim (Option-cases (recognize policy (normalized_terminal_extension path))) [
      | inl e ↦ ground arith
      | inr (x, e) ↦ ground (arith, recognize-work policy (normalized_terminal_extension path) x e)
    ]

route-reason :
    (policy : RoutingPolicy) (path : FilePath) (s : SkippedAsset)
    → route policy path ≡ skipped s
    → s.reason ≡ (
        if kind_has_work policy (kind s.identity)
        then excluded_asset_variant
        else disabled_asset_kind)
unfolding route decide_recognized
route-reason policy path s h =
    elim (Option-cases (recognize policy (normalized_terminal_extension path))) [
      | inl e ↦ ground arith
      | inr (x, e) ↦ ground arith
    ]

identity_has_work-kind :
    (policy : RoutingPolicy) (i : AssetIdentity)
    → identity_has_work policy i ≡ true
    → kind_has_work policy (kind i) ≡ true
unfolding kind_has_work
identity_has_work-kind policy (AssetIdentity.texture native) h = ground arith
identity_has_work-kind policy (AssetIdentity.texture convertible) h = ground arith
identity_has_work-kind policy (AssetIdentity.mesh standard) h = ground arith
identity_has_work-kind policy (AssetIdentity.mesh terrain) h = ground arith
identity_has_work-kind policy _ h = ground arith

-- An Asset skipped as a disabled Kind: no path at all whose Asset has this Kind is routed under
-- the policy.
pub route-disabled :
    (policy : RoutingPolicy) (path : FilePath) (s : SkippedAsset) (other : FilePath)
    (i : AssetIdentity)
    → route policy path ≡ skipped s
    → s.reason ≡ disabled_asset_kind
    → identity? (route policy other) ≡ some i
    → kind i ≡ kind s.identity
    → is_routed (route policy other) ≡ false
route-disabled policy path s other i h d k same =
    route_cases policy other i k
    ∙ ground (arith, identity_has_work-kind policy i, route-reason policy path s h)

-- A path of each Variant that a Kind may exclude.
abbrev pub named : Text → FilePath
named name = normal name ∷ []

abbrev sibling : AssetIdentity → FilePath
sibling (AssetIdentity.texture native) = named (codes "a.tga")
sibling (AssetIdentity.texture convertible) = named (codes "a.dds")
sibling (AssetIdentity.mesh standard) = named (codes "a.btr")
sibling _ = named (codes "a.nif")

abbrev other_variant : AssetIdentity → AssetIdentity
other_variant (AssetIdentity.texture native) = AssetIdentity.texture convertible
other_variant (AssetIdentity.texture convertible) = AssetIdentity.texture native
other_variant (AssetIdentity.mesh standard) = AssetIdentity.mesh terrain
other_variant (AssetIdentity.mesh terrain) = AssetIdentity.mesh standard
other_variant i = i

record HasSibling (policy : RoutingPolicy) (i : AssetIdentity) : Type 0 where
  works : identity_has_work policy (other_variant i) ≡ true
  recognized : identity? (route policy (sibling i)) ≡ some (other_variant i)
  same_kind : kind (other_variant i) ≡ kind i

kind_has_work-HasSibling :
    (policy : RoutingPolicy) (i : AssetIdentity)
    → identity_has_work policy i ≡ false
    → kind_has_work policy (kind i) ≡ true
    → HasSibling policy i
unfolding kind_has_work route recognize decide_recognized normalized_terminal_extension extension
kind_has_work-HasSibling policy (AssetIdentity.texture native) e k = ground arith
kind_has_work-HasSibling policy (AssetIdentity.texture convertible) e k = ground arith
kind_has_work-HasSibling policy (AssetIdentity.mesh standard) e k = ground arith
kind_has_work-HasSibling policy (AssetIdentity.mesh terrain) e k = ground arith
kind_has_work-HasSibling policy _ e k = ground arith

-- An Asset skipped as an excluded Variant: the policy does route another Asset of the same Kind.
pub route-excluded :
    (policy : RoutingPolicy) (path : FilePath) (s : SkippedAsset)
    → route policy path ≡ skipped s
    → s.reason ≡ excluded_asset_variant
    → (other : FilePath) × (i : AssetIdentity) × (is_routed (route policy other) ≡ true)
      × (identity? (route policy other) ≡ some i)
      × (kind i ≡ kind s.identity)
route-excluded policy path s h d =
    let idle = route_cases policy path s.identity (ground arith) in
    let found =
      kind_has_work-HasSibling policy s.identity (ground arith)
        (ground (arith, route-reason policy path s h)) in
    (
      sibling s.identity,
      other_variant s.identity,
      route_cases policy (sibling s.identity) (other_variant s.identity) found.recognized
          ∙ found.works,
      found.recognized,
      found.same_kind,
    )
