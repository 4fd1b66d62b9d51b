-- ===== src/Routing/Conflicts.antt =====
-- The conflicts that `RoutingPolicy::compile` reports: which ones, and in which order.
use cao.Shared.{
  ℕ, suc, ◌≤◌, ◌<◌, Bool, false, not, ◌&&◌, ◌||◌, List, [], ◌∷◌, ◌++◌, Option, none, some, Text,
  ◌≡◌, ◌≢◌, refl, ◌∙◌, arith, ◌==◌, All,
}
use cao.Routing.Kinds.{
  RequestedWork, ProfileCapability, WorkSet, requested_work_definitions, work_index,
}
use cao.Routing.Policy.{
  RoutingPolicyRequest, ProfileCapabilities, supports, PolicyValidationError,
  missing_archive_extension, malformed_archive_extension, ambiguous_archive_extension,
  unsupported_requested_asset_kind, unsupported_requested_asset_variant,
  unsupported_derived_operation, check_extension, derived_errors, derives_conversion, work_errors,
  all_errors, CompileResult, compiled, conflicts, compile, finish_compile, RoutingPolicy,
}
use cao.Routing.Compilation.{needed_capability}

-- The place of a conflict in compiler order.
abbrev pub place : PolicyValidationError → ℕ
place missing_archive_extension = 0
place (malformed_archive_extension _ _) = 0
place (ambiguous_archive_extension _ _ _) = 0
place (unsupported_requested_asset_kind w _) = suc (work_index w)
place (unsupported_requested_asset_variant w _) = suc (work_index w)
place (unsupported_derived_operation _ _) = 7

-- The places strictly climb, so no two conflicts share one.
abbrev pub Climbs : ℕ → List PolicyValidationError → Type 0
Climbs n [] = Unit
Climbs n (e ∷ es) = (n ≤ place e) × Climbs (suc (place e)) es

-- The conflict is attributed to this piece of requested work.
abbrev pub concerns : RequestedWork → PolicyValidationError → Bool
concerns w (unsupported_requested_asset_kind v _) = work_index v == work_index w
concerns w (unsupported_requested_asset_variant v _) = work_index v == work_index w
concerns w (unsupported_derived_operation cause _) = work_index cause == work_index w
concerns w _ = false

abbrev pub concerned : RequestedWork → List PolicyValidationError → Bool
concerned w [] = false
concerned w (e ∷ es) = concerns w e || concerned w es

-- The work whose preferred conversion needs Mesh Reference Maintenance that the profile does not
-- support; conversion rides on native Texture work.
abbrev pub converts_unmaintained : ProfileCapabilities → Bool → RequestedWork → Bool
converts_unmaintained p prefers RequestedWork.native_texture_optimization =
    prefers
    && supports p ProfileCapability.convertible_texture_conversion
    && not (supports p ProfileCapability.mesh_reference_maintenance)
converts_unmaintained p prefers _ = false

-- The profile cannot do the work, or not what the work derives.
abbrev pub beyond : ProfileCapabilities → Bool → RequestedWork → Bool
beyond p prefers w = not (supports p (needed_capability w)) || converts_unmaintained p prefers w

Climbs-weaken : (m n : ℕ) (es : List PolicyValidationError) → m ≤ n → Climbs n es → Climbs m es
Climbs-weaken m n [] h c = tt
Climbs-weaken m n (e ∷ es) h c = (omega arith, c.1)

-- A list that keeps below a place may stand before one that starts there.
Climbs-append :
    (n m : ℕ) (es fs : List PolicyValidationError)
    → n ≤ m
    → Climbs n es
    → All (λ e. place e < m) es
    → Climbs m fs
    → Climbs n (es ++ fs)
Climbs-append n m [] fs h c b d = Climbs-weaken n m fs h d
Climbs-append n m (e ∷ es) fs h c b d = (c.0, Climbs-append (suc (place e)) m es fs b.0 c.1 b.1 d)

concerned-append :
    (w : RequestedWork) (es fs : List PolicyValidationError)
    → concerned w (es ++ fs) ≡ concerned w es || concerned w fs
concerned-append w [] fs = refl
concerned-append w (e ∷ es) fs = ground (arith, concerned-append w es fs)

work_errors-place :
    (work : WorkSet) (p : ProfileCapabilities)
    → Climbs 1 (work_errors work p requested_work_definitions)
      × All (λ e. place e < 7) (work_errors work p requested_work_definitions)
unfolding work_errors
work_errors-place work p = ground arith

work_errors-concerned :
    (work : WorkSet) (p : ProfileCapabilities) (w : RequestedWork)
    → concerned w (work_errors work p requested_work_definitions)
      ≡ work w && not (supports p (needed_capability w))
unfolding work_errors
work_errors-concerned work p RequestedWork.native_texture_optimization = ground arith
work_errors-concerned work p _ = ground arith

check_extension-place :
    (o : Option Text)
    → Climbs 0 (check_extension o).errors × All (λ e. place e < 1) (check_extension o).errors
unfolding check_extension
check_extension-place none = ground arith
check_extension-place (some []) = ground arith
check_extension-place (some (c ∷ t)) = ground arith

check_extension-concerned :
    (o : Option Text) (w : RequestedWork) → concerned w (check_extension o).errors ≡ false
unfolding check_extension
check_extension-concerned none w = refl
check_extension-concerned (some []) w = refl
check_extension-concerned (some (c ∷ t)) w = ground arith

all_errors-Climbs :
    (work : WorkSet) (p : ProfileCapabilities) (prefers : Bool)
    → Climbs 0 (all_errors work p prefers)
unfolding all_errors
all_errors-Climbs work p prefers =
    let ext = check_extension-place p.archive_extension in
    let explicit = work_errors-place work p in
    Climbs-append 0 1 _ _ (omega arith) ext.0 ext.1
      (Climbs-append 1 7 _ _ (omega arith) explicit.0 explicit.1 (ground arith))

derived_errors-concerned :
    (work : WorkSet) (p : ProfileCapabilities) (prefers : Bool) (w : RequestedWork)
    → concerned w (derived_errors (derives_conversion work p prefers) p)
      ≡ work w && converts_unmaintained p prefers w
unfolding derived_errors
derived_errors-concerned work p prefers RequestedWork.native_texture_optimization = ground arith
derived_errors-concerned work p prefers _ = ground arith

all_errors-concerned :
    (work : WorkSet) (p : ProfileCapabilities) (prefers : Bool) (w : RequestedWork)
    → concerned w (all_errors work p prefers) ≡ work w && beyond p prefers w
unfolding all_errors
all_errors-concerned work p prefers w =
    rw
      (
        concerned-append, check_extension-concerned, concerned-append, work_errors-concerned,
        derived_errors-concerned,
      )
      (ground arith)

compile-conflicts :
    (r : RoutingPolicyRequest) (p : ProfileCapabilities) (prefers : Bool)
    (es : List PolicyValidationError)
    → compile r p prefers ≡ conflicts es
    → es ≡ all_errors r.work p prefers
unfolding compile
compile-conflicts r p prefers es h = ground arith

-- A refused compilation reports at least one conflict, in compiler order with no place twice (the
-- Archive extension first, then the work in enumeration order, then derived work), and attributes
-- one to a piece of work exactly if it is requested and either the profile does not support it, or it
-- is native Texture work whose preferred and supported conversion needs Mesh Reference Maintenance
-- that the profile does not support.
pub compile-conflicts_complete :
    (r : RoutingPolicyRequest) (p : ProfileCapabilities) (prefers : Bool)
    (es : List PolicyValidationError)
    → compile r p prefers ≡ conflicts es
    → (es ≢ [])
      × Climbs 0 es
      × ((w : RequestedWork) → concerned w es ≡ r.work w && beyond p prefers w)
compile-conflicts_complete r p prefers es h =
    let same = compile-conflicts r p prefers es h in
    (
      (λ e. unfold compile in ground arith),
      rw same (all_errors-Climbs r.work p prefers),
      (λ w. rw same (all_errors-concerned r.work p prefers w)),
    )

-- Whether compilation attributes a conflict to the work.
abbrev pub blames : RequestedWork → CompileResult → Bool
blames w (compiled policy) = false
blames w (conflicts es) = concerned w es

finish-blames :
    (w : RequestedWork) (es : List PolicyValidationError) (policy : RoutingPolicy)
    → blames w (finish_compile es policy) ≡ concerned w es
unfolding finish_compile
finish-blames w [] policy = refl
finish-blames w (e ∷ es) policy = refl

pub compile-blames :
    (r : RoutingPolicyRequest) (p : ProfileCapabilities) (prefers : Bool) (w : RequestedWork)
    → blames w (compile r p prefers) ≡ r.work w && beyond p prefers w
unfolding compile
compile-blames r p prefers w =
    finish-blames w (all_errors r.work p prefers) (record {
      execution_mode = r.execution_mode;
      work = r.work;
      converts_textures = derives_conversion r.work p prefers;
      archive_extension = (check_extension p.archive_extension).folded;
    })
    ∙ all_errors-concerned r.work p prefers w
