-- ===== src/Routing/Compilation.antt =====
-- What `RoutingPolicy::compile` accepts, and every conflict that it reports.
use cao.Shared.{
  Bool, true, List, [], ◌∷◌, ◌++◌, Option, none, some, Text, ◌≡◌, ◌≢◌, ◌↔◌, inl, inr, refl, sym, ap,
  ◌∙◌, arith, Option-cases, all, All, text_eq_iff, lowercase, is_ascii_alphanumeric,
}
use cao.Routing.Kinds.{
  RequestedWork, ProfileCapability, WorkSet, requested_work_definitions, BuiltIn,
  built_in_extensions,
}
use cao.Routing.Policy.{
  RoutingPolicyRequest, ProfileCapabilities, supports, malformed_reason, find_built_in,
  check_extension, work_errors, derives_conversion, all_errors, RoutingPolicy, compiled, compile,
}

-- The capability that each piece of requested work stands for.
abbrev pub needed_capability : RequestedWork → ProfileCapability
needed_capability RequestedWork.native_texture_optimization =
    ProfileCapability.native_texture_optimization
needed_capability RequestedWork.standard_mesh_optimization =
    ProfileCapability.standard_mesh_optimization
needed_capability RequestedWork.terrain_mesh_optimization =
    ProfileCapability.terrain_mesh_optimization
needed_capability RequestedWork.animation_optimization = ProfileCapability.animation_optimization
needed_capability RequestedWork.archive_extraction = ProfileCapability.archive_extraction
needed_capability RequestedWork.archive_creation = ProfileCapability.archive_creation

-- A period and at least one ASCII letter or digit, folding to no built-in extension.
pub record IsArchiveExtension (o : Option Text) : Type 0 where
  pub suffix : Text
  pub declared : o ≡ some (b'.' ∷ suffix)
  pub nonempty : suffix ≢ []
  pub alphanumeric : all is_ascii_alphanumeric suffix ≡ true
  pub fresh : All (λ b. b.spelling ≢ lowercase (b'.' ∷ suffix)) built_in_extensions

pub record IsCompatible (r : RoutingPolicyRequest) (p : ProfileCapabilities) (prefers : Bool)
    : Type 0 where
  pub extension_valid : IsArchiveExtension p.archive_extension
  pub work_supported :
      (w : RequestedWork) → r.work w ≡ true → supports p (needed_capability w) ≡ true
  pub derived_supported :
      derives_conversion r.work p prefers ≡ true
      → supports p ProfileCapability.mesh_reference_maintenance ≡ true

find_built_in-none :
    (ext : Text) (bs : List BuiltIn)
    → (find_built_in ext bs ≡ none) ↔ All (λ b. b.spelling ≢ ext) bs
unfolding find_built_in
find_built_in-none ext [] = ((λ h. tt), (λ h. refl))
find_built_in-none ext (b ∷ bs) = (
  (λ h. (
    (λ e. ground (arith, text_eq_iff b.spelling ext)),
    (find_built_in-none ext bs).0 (ground arith),
  )),
  (λ h. ground (arith, text_eq_iff b.spelling ext, (find_built_in-none ext bs).1 h.1, h.0)),
)

malformed_reason-none :
    (t : Text)
    → malformed_reason t ≡ none
    → (s : Text) × (t ≡ b'.' ∷ s) × (s ≢ []) × (all is_ascii_alphanumeric s ≡ true)
unfolding malformed_reason
malformed_reason-none [] h = cc
malformed_reason-none (c ∷ []) h = ground arith
malformed_reason-none (c ∷ d ∷ t) h = (d ∷ t, ground arith, (λ e. cc), ground arith)

-- The extension check passes exactly the valid extensions, and keeps them folded.
pub check_extension-valid :
    (o : Option Text) → (check_extension o).errors ≡ [] → IsArchiveExtension o
unfolding check_extension
check_extension-valid none h = cc
check_extension-valid (some []) h = cc
check_extension-valid (some (c ∷ t)) h = elim (Option-cases (malformed_reason (c ∷ t))) [
  | inr (r, e) ↦ ground arith
  | inl e ↦
      let (s, shape, ne, alnum) = malformed_reason-none (c ∷ t) e in
      elim (Option-cases (find_built_in (lowercase (c ∷ t)) built_in_extensions)) [
        | inr (b, f) ↦ ground arith
        | inl f ↦ record {
          suffix = s;
          declared = ap some shape;
          nonempty = ne;
          alphanumeric = alnum;
          fresh = (find_built_in-none (lowercase (b'.' ∷ s)) built_in_extensions).0 (rw shape at f);
        }
      ]
]

malformed_reason_valid :
    (s : Text) → s ≢ [] → all is_ascii_alphanumeric s ≡ true → malformed_reason (b'.' ∷ s) ≡ none
unfolding malformed_reason
malformed_reason_valid [] ne h = absurd (ne refl)
malformed_reason_valid (c ∷ t) ne h = ground arith

check_extension_passes :
    (s : Text)
    → s ≢ []
    → all is_ascii_alphanumeric s ≡ true
    → All (λ b. b.spelling ≢ lowercase (b'.' ∷ s)) built_in_extensions
    → check_extension (some (b'.' ∷ s)) ≡ record { folded = lowercase (b'.' ∷ s); errors = [] }
unfolding check_extension
check_extension_passes s ne h f = ground (
  arith,
  malformed_reason_valid s ne h,
  (find_built_in-none (lowercase (b'.' ∷ s)) built_in_extensions).1 f,
)

pub check_extension_of_valid :
    (o : Option Text) (v : IsArchiveExtension o)
    → check_extension o ≡ record { folded = lowercase (b'.' ∷ v.suffix); errors = [] }
check_extension_of_valid o v =
    rw v.declared (check_extension_passes v.suffix v.nonempty v.alphanumeric v.fresh)

-- No conflict about requested work exactly if everything requested is supported.
pub work_errors-nil :
    (work : WorkSet) (p : ProfileCapabilities)
    → (work_errors work p requested_work_definitions ≡ [])
      ↔ ((w : RequestedWork) → work w ≡ true → supports p (needed_capability w) ≡ true)
unfolding work_errors
work_errors-nil work p = (fits, collect)
  where
    fits :
        work_errors work p requested_work_definitions ≡ []
        → (w : RequestedWork) → work w ≡ true
        → supports p (needed_capability w) ≡ true
    fits e RequestedWork.native_texture_optimization h = ground arith
    fits e RequestedWork.standard_mesh_optimization h = ground arith
    fits e RequestedWork.terrain_mesh_optimization h = ground arith
    fits e RequestedWork.animation_optimization h = ground arith
    fits e RequestedWork.archive_extraction h = ground arith
    fits e RequestedWork.archive_creation h = ground arith

    collect :
        ((w : RequestedWork) → work w ≡ true → supports p (needed_capability w) ≡ true)
        → work_errors work p requested_work_definitions ≡ []
    collect f = ground (
      arith,
      f RequestedWork.native_texture_optimization,
      f RequestedWork.standard_mesh_optimization,
      f RequestedWork.terrain_mesh_optimization,
      f RequestedWork.animation_optimization,
      f RequestedWork.archive_extraction,
      f RequestedWork.archive_creation,
    )

append-nil-parts {ℓ} : {A : Type ℓ} (xs ys : List A) → xs ++ ys ≡ [] → (xs ≡ []) × (ys ≡ [])
append-nil-parts [] ys h = (refl, h)
append-nil-parts (x ∷ xs) ys h = cc

compile-all_errors :
    (r : RoutingPolicyRequest) (p : ProfileCapabilities) (prefers : Bool) (policy : RoutingPolicy)
    → compile r p prefers ≡ compiled policy
    → all_errors r.work p prefers ≡ []
unfolding compile
compile-all_errors r p prefers policy h = ground arith

-- A Routing Policy is compiled exactly from what is compatible.
pub compile-IsCompatible :
    (r : RoutingPolicyRequest) (p : ProfileCapabilities) (prefers : Bool) (policy : RoutingPolicy)
    → compile r p prefers ≡ compiled policy
    → IsCompatible r p prefers
unfolding all_errors
compile-IsCompatible r p prefers policy h =
    let e = compile-all_errors r p prefers policy h in
    let first = append-nil-parts _ _ e in
    let second = append-nil-parts _ _ first.1 in
    record {
      extension_valid = check_extension-valid p.archive_extension first.0;
      work_supported = (work_errors-nil r.work p).0 second.0;
      derived_supported = λ d. ground (arith, second.1);
    }

-- The policy that a compatible request is compiled into.
abbrev pub policy_of : RoutingPolicyRequest → ProfileCapabilities → Bool → Text → RoutingPolicy
policy_of r p prefers suffix = record {
  execution_mode = r.execution_mode;
  work = r.work;
  converts_textures = derives_conversion r.work p prefers;
  archive_extension = lowercase (b'.' ∷ suffix);
}

-- A compatible request compiles into the policy that keeps its mode and its work, converts
-- exactly where conversion is preferred, requested and supported, and folds the extension.
pub compile_of_IsCompatible :
    (r : RoutingPolicyRequest) (p : ProfileCapabilities) (prefers : Bool)
    (c : IsCompatible r p prefers)
    → compile r p prefers ≡ compiled (policy_of r p prefers c.extension_valid.suffix)
unfolding compile all_errors
compile_of_IsCompatible r p prefers c =
    rw
      (
        check_extension_of_valid p.archive_extension c.extension_valid,
        (work_errors-nil r.work p).1 c.work_supported,
      )
      (ground (arith, c.derived_supported))

compiled-injective : {a b : RoutingPolicy} → compiled a ≡ compiled b → a ≡ b
compiled-injective h = cc

-- Compilation succeeds with a policy exactly if the request is compatible with the profile (its
-- Archive extension is valid and shadows no built-in one, everything requested is supported, and
-- derived conversion has Mesh Reference Maintenance) and the policy keeps the request's mode and
-- work, converts exactly where conversion is preferred, requested and supported, and holds the
-- extension folded.
pub compile_iff :
    (r : RoutingPolicyRequest) (p : ProfileCapabilities) (prefers : Bool) (policy : RoutingPolicy)
    → (compile r p prefers ≡ compiled policy)
      ↔ ((c : IsCompatible r p prefers) × (policy ≡ policy_of r p prefers c.extension_valid.suffix))
compile_iff r p prefers policy = (
  (λ h.
      let c = compile-IsCompatible r p prefers policy h in
      (c, compiled-injective (sym h ∙ compile_of_IsCompatible r p prefers c))),
  (λ h. compile_of_IsCompatible r p prefers h.0 ∙ ap compiled (sym h.1)),
)
