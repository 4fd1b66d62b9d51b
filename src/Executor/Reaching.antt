-- ===== src/Executor/Reaching.antt =====
-- The recording steps that Preparing takes on the evidence.
use cao.Shared.{ℕ, ◌+◌, List, [], ◌∷◌, ◌++◌, map, Option, inl, inr, Bool-cases, Option-cases, Text}
use cao.Shared.Paths.{FilePath}
use cao.Shared.Ancestors.{parent}
use cao.Routing.Policy.{RoutingPolicy, CompileResult, compiled, conflicts, for_work}
use cao.Run.Lifecycle.{RunDiagnostic}
use cao.Run.Results.{SelectedProfile, compile_policy}
use cao.Request.RunRequest.{RunRequest, ModSelection, single_mod_root, child_mod_roots}
use cao.Evidence.Sinks.{Evidence, Sink}
use cao.Evidence.Operations.{
  Operation, keep_diagnostic, publish_pending, perform, perform_all, Reached, step,
  record_diagnostic,
}
use cao.Selection.Names.{folded_name, sort_children, Child, mod_exclusion}
use cao.Selection.Overlap.{
  ChildRoot-cases, Io-cases, Filesystem, Token, Lent, directory, has_no_parent, resolve_child,
  Resolution, resolved, unresolved,
}
use cao.Selection.Resolve.{
  diagnosed, resolve_children, Listing, listed, stopped, broken, after_listing, of_directory,
  of_selection, of_root, resolve_mod_roots, list_children,
}
use cao.Executor.Services.{Services, Loading, loaded, not_loaded, load_selected_profile}
use cao.Executor.Preparing.{Prepared, after_roots, after_policy, after_loading, prepare_run}

pub perform_all-Reached :
    (sink : Option Sink) (os : List Operation) (e : Evidence)
    → Reached sink e
    → Reached sink (perform_all os e)
unfolding perform_all
perform_all-Reached sink [] e r = r
perform_all-Reached sink (o ∷ os) e r = perform_all-Reached sink os (perform o e).0 (step o r)

pub record_diagnostic-Reached :
    (sink : Option Sink) (d : RunDiagnostic) (e : Evidence)
    → Reached sink e
    → Reached sink (record_diagnostic d e)
unfolding record_diagnostic perform
record_diagnostic-Reached sink d e r = step publish_pending (step (keep_diagnostic d) r)

-- What a diagnostic keeps, Preparing keeps.
module _ (P : Evidence → Type 0)
    (keeps : (d : RunDiagnostic) (e : Evidence) → P e → P (record_diagnostic d e)) where
  module _ (fs : Filesystem) (stop : Token) where
    resolve_children_keeps :
        (root : FilePath) (ignored : List Text) (cs : List Child) (roots : List FilePath) (l : Lent)
        → P l.evidence
        → P (resolve_children fs stop root ignored cs roots l).1.evidence
    unfolding resolve_children
    resolve_children_keeps root ignored [] roots l r = r
    resolve_children_keeps root ignored (c ∷ cs) roots l r = elim (Bool-cases (stop l.clock)) [
      | inl q ↦ rw q r
      | inr q ↦ elim (Option-cases (mod_exclusion c ignored)) [
        | inr (d, k) ↦
            rw (q, k)
              (resolve_children_keeps root ignored cs roots
                (diagnosed (record_diagnostic d l.evidence) (l.clock + 1)) (keeps d l.evidence r))
        | inl k ↦ elim (ChildRoot-cases (resolve_child fs c root roots)) [
          | inl (f, m) ↦ rw (q, k, m) r
          | inr (found, m) ↦
              rw (q, k, m)
                (resolve_children_keeps root ignored cs (roots ++ found ∷ [])
                  (record l { clock = l.clock + 1 }) r)
        ]
      ]
    ]

    after_listing_keeps :
        (root : FilePath) (profile : SelectedProfile) (x : Listing × ℕ) (l : Lent)
        → P l.evidence
        → P (after_listing fs stop root profile x l).1.evidence
    unfolding after_listing
    after_listing_keeps root profile (listed cs, clock) l r =
        resolve_children_keeps root (map (folded_name fs.to_lowercase) profile.ignored_mods)
          (sort_children cs) [] (record l { clock = clock }) r
    after_listing_keeps root profile (stopped, clock) l r = r
    after_listing_keeps root profile (broken f, clock) l r = r

    of_directory_keeps :
        (root : FilePath) (profile : SelectedProfile) (l : Lent)
        → P l.evidence
        → P (of_directory fs stop root profile l).1.evidence
    unfolding of_directory
    of_directory_keeps root profile l r = elim (Io-cases (fs.read_dir root)) [
      | inl (e, q) ↦ rw (q, of_directory) r
      | inr (es, q) ↦
          rw (q, of_directory)
            (after_listing_keeps root profile (list_children fs stop l.clock es) l r)
    ]

    of_selection_keeps :
        (selection : ModSelection) (root : FilePath) (profile : SelectedProfile) (l : Lent)
        → P l.evidence
        → P (of_selection fs stop selection root profile l).1.evidence
    unfolding of_selection
    of_selection_keeps (single_mod_root d) root profile l r = r
    of_selection_keeps (child_mod_roots d) root profile l r = of_directory_keeps root profile l r

    resolve_mod_roots_keeps :
        (selection : ModSelection) (profile : SelectedProfile) (l : Lent)
        → P l.evidence
        → P (resolve_mod_roots fs stop selection profile l).1.evidence
    unfolding resolve_mod_roots of_root
    resolve_mod_roots_keeps selection profile l r =
        elim (Io-cases (fs.canonical (directory selection))) [
          | inl (e, q) ↦ rw q r
          | inr (root, q) ↦ elim (Bool-cases (fs.is_dir root)) [
            | inr d ↦ rw (q, d) r
            | inl d ↦ elim (Bool-cases (has_no_parent (parent root))) [
              | inl n ↦ rw (q, d, n) r
              | inr n ↦ rw (q, d, n) (of_selection_keeps selection root profile l r)
            ]
          ]
        ]

  module _ {A T : Type 0} (services : Services A T) (stop : Token) (request : RunRequest) where
    abbrev KeepsLent : Prepared T × Lent → Type 0
    KeepsLent x = P x.1.evidence

    after_roots_keeps :
        (profile : SelectedProfile) (t : T) (policy : RoutingPolicy) (x : Resolution × Lent)
        → P x.1.evidence
        → KeepsLent (after_roots services stop request profile t policy x)
    unfolding after_roots
    after_roots_keeps profile t policy (unresolved f, l) r = r
    after_roots_keeps profile t policy (resolved roots, l) r = r

    after_policy_keeps :
        (profile : SelectedProfile) (t : T) (c : CompileResult) (l : Lent)
        → P l.evidence
        → KeepsLent (after_policy services stop request profile t c l)
    unfolding after_policy
    after_policy_keeps profile t (conflicts cs) l r = r
    after_policy_keeps profile t (compiled policy) l r =
        after_roots_keeps profile t policy
          (resolve_mod_roots services.filesystem stop request.mod_selection profile l)
          (resolve_mod_roots_keeps services.filesystem stop request.mod_selection profile l r)

    after_loading_keeps :
        (x : Loading T) (l : Lent)
        → P l.evidence
        → KeepsLent (after_loading services stop request x l)
    unfolding after_loading
    after_loading_keeps (not_loaded f) l r = r
    after_loading_keeps (loaded profile t) l r = elim (Bool-cases (stop l.clock)) [
      | inl q ↦ rw q r
      | inr q ↦ rw q (
          after_policy_keeps profile t
            (compile_policy profile (for_work request.execution_mode request.requested_work))
            (record l { clock = l.clock + 1 }) r)
    ]

    pub prepare_run_keeps :
        (l : Lent) → P l.evidence → KeepsLent (prepare_run services stop request l)
    unfolding prepare_run
    prepare_run_keeps l r =
        after_loading_keeps (load_selected_profile request services.configuration) l r
