-- ===== src/Request/Admitted.antt =====
-- The Admission Rules (crates/cao-core/src/admission.rs) against Routing Policy compilation
-- (crates/cao-core/src/routing.rs).
use cao.Shared.{
  Bool, true, List, [], ◌∷◌, none, some, ◌≡◌, ◌↔◌, inl, inr, sym, refl, ◌&&◌, ◌∙◌, arith, ◌==◌,
  Bool-cases, In, here, there, In-filter,
}
use cao.Routing.Kinds.{RequestedWork, ExecutionMode, work_index, work_eq_iff}
use cao.Routing.Policy.{ProfileCapabilities, supports, for_work, work_set, compile}
use cao.Routing.Compilation.{needed_capability}
use cao.Routing.Conflicts.{blames, converts_unmaintained, compile-blames}
use cao.Request.Admission.{new, admits, admitted_work}

-- With the Selected Profile's capabilities known, work is admitted exactly if the profile supports
-- the capability it needs; with none known, all work is.
pub new-admits :
    (several : Bool) (p : ProfileCapabilities) (w : RequestedWork)
    → (admits (new several (some p)) w ≡ supports p (needed_capability w))
      × (admits (new several none) w ≡ true)
unfolding new admits
new-admits several p RequestedWork.native_texture_optimization = ground arith
new-admits several p _ = ground arith

work_set-In : (ws : List RequestedWork) (w : RequestedWork) → work_set ws w ≡ true → In w ws
work_set-In [] w h = cc
work_set-In (x ∷ xs) w h = elim (Bool-cases (work_index x == work_index w)) [
  | inl e ↦ rw ((work_eq_iff x w).0 e) here
  | inr e ↦ there (work_set-In xs w (rw e at h))
]

-- The admitted part of the chosen work is the chosen work that the profile supports, and a Routing
-- Policy compiled from it against the same profile attributes a conflict to a piece of work exactly
-- if it is admitted native Texture work whose preferred and supported conversion needs Mesh
-- Reference Maintenance that the profile does not support.
pub admitted_work-compile :
    (several : Bool) (p : ProfileCapabilities) (ws : List RequestedWork) (mode : ExecutionMode)
    (prefers : Bool) (w : RequestedWork)
    → let kept = admitted_work (new several (some p)) ws in
      (In w kept ↔ (In w ws × (supports p (needed_capability w) ≡ true)))
      × (blames w (compile (for_work mode kept) p prefers)
          ≡ work_set kept w && converts_unmaintained p prefers w)
unfolding admitted_work
admitted_work-compile several p ws mode prefers w =
    let a = new several (some p) in
    let capable = (new-admits several p w).0 in
    (
      (
        (λ i. let (j, k) = (In-filter (admits a) w ws).0 i in (j, sym capable ∙ k)),
        (λ k. (In-filter (admits a) w ws).1 (k.0, capable ∙ k.1)),
      ),
      compile-blames (for_work mode (admitted_work a ws)) p prefers w
          ∙ (elim (Bool-cases (work_set (admitted_work a ws) w)) [
            | inr e ↦ rw e refl
            | inl e ↦
                let (j, k) = (In-filter (admits a) w ws).0 (work_set-In (admitted_work a ws) w e) in
                rw (e, sym capable ∙ k) refl
          ]),
    )
