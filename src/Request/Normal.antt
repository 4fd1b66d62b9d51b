-- ===== src/Request/Normal.antt =====
-- What every Run Request satisfies, however it is built.
use cao.Shared.{
  ℕ, suc, ◌≤◌, Bool, true, ◌||◌, List, [], ◌∷◌, ◌≡◌, inl, inr, refl, ◌∙◌, arith, ◌==◌, leb,
  Bool-cases, any, Text,
}
use cao.Routing.Kinds.{RequestedWork, ExecutionMode, work_index}
use cao.Request.Choices.{WorkChoices, necessary_level, full_level}
use cao.Request.Admission.{new, admitted_work_choices}
use cao.Request.RunRequest.{
  ModSelection, is_several_mods, ArchivePrecedence, RunRequest, insert, sort, dedup, run_request,
  with_archive_precedence, with_work_choices, requests,
}

-- Strictly ascending in enumeration order, from a place on.
abbrev pub Ascends : ℕ → List RequestedWork → Type 0
Ascends n [] = Unit
Ascends n (w ∷ ws) = (n ≤ work_index w) × Ascends (suc (work_index w)) ws

abbrev Weakly : ℕ → List RequestedWork → Type 0
Weakly n [] = Unit
Weakly n (w ∷ ws) = (n ≤ work_index w) × Weakly (work_index w) ws

insert-Weakly :
    (n : ℕ) (w : RequestedWork) (ws : List RequestedWork)
    → n ≤ work_index w
    → Weakly n ws
    → Weakly n (insert w ws)
unfolding insert
insert-Weakly n w [] h a = (h, tt)
insert-Weakly n w (x ∷ xs) h a = elim (Bool-cases (leb (work_index w) (work_index x))) [
  | inl e ↦ rw e (h, (ground arith, a.1))
  | inr e ↦ rw e (a.0, insert-Weakly (work_index x) w xs (ground arith) a.1)
]

sort-Weakly : (ws : List RequestedWork) → Weakly 0 (sort ws)
unfolding sort
sort-Weakly [] = tt
sort-Weakly (w ∷ ws) = insert-Weakly 0 w (sort ws) (omega arith) (sort-Weakly ws)

dedup-Ascends : (n : ℕ) (ws : List RequestedWork) → Weakly n ws → Ascends n (dedup ws)
unfolding dedup
dedup-Ascends n [] a = tt
dedup-Ascends n (x ∷ []) a = (a.0, tt)
dedup-Ascends n (x ∷ y ∷ r) a =
    let ih = λ (m : ℕ). dedup-Ascends m (y ∷ r) in
    elim (Bool-cases (work_index x == work_index y)) [
      | inl e ↦ rw e (ih n (ground arith, a.1.1))
      | inr e ↦ rw e (a.0, ih (suc (work_index x)) (ground arith, a.1.1))
    ]

abbrev pub contains : RequestedWork → List RequestedWork → Bool
contains w = any (λ x. work_index x == work_index w)

contains-insert :
    (v w : RequestedWork) (ws : List RequestedWork)
    → contains v (insert w ws) ≡ (work_index w == work_index v || contains v ws)
unfolding insert
contains-insert v w [] = refl
contains-insert v w (x ∷ xs) = ground (arith, contains-insert v w xs)

contains-sort : (v : RequestedWork) (ws : List RequestedWork) → contains v (sort ws) ≡ contains v ws
unfolding sort
contains-sort v [] = refl
contains-sort v (w ∷ ws) = contains-insert v w (sort ws) ∙ rw (contains-sort v ws)

contains-dedup :
    (v : RequestedWork) (ws : List RequestedWork) → contains v (dedup ws) ≡ contains v ws
unfolding dedup
contains-dedup v [] = refl
contains-dedup v (x ∷ []) = refl
contains-dedup v (x ∷ y ∷ r) = ground (arith, contains-dedup v (y ∷ r))

-- The ways to build a request.
pub data Built : RunRequest → Type 0 where
  fresh :
      (identity : Text) (mode : ExecutionMode) (selection : ModSelection)
      (work : List RequestedWork)
      → Built (run_request identity mode selection work)
  ordered : {r : RunRequest} (a : ArchivePrecedence) → Built r → Built (with_archive_precedence a r)
  chosen : {r : RunRequest} (c : WorkChoices) → Built r → Built (with_work_choices c r)

pub record IsNormal (r : RunRequest) : Type 0 where
  pub ascending : Ascends 0 r.requested_work
  pub capped :
      is_several_mods r.mod_selection ≡ true → r.work_choices.meshes.level ≤ necessary_level
  pub in_range : r.work_choices.meshes.level ≤ full_level

-- However a request is built, its work is in enumeration order with no choice twice, its Mesh level
-- is at most Full, and under Several Mods at most Necessary.
pub Built-IsNormal : {r : RunRequest} → Built r → IsNormal r
unfolding run_request with_archive_precedence with_work_choices new admitted_work_choices
Built-IsNormal (fresh identity mode selection work) = record {
  ascending = dedup-Ascends 0 (sort work) (sort-Weakly work);
  capped = λ h. omega arith;
  in_range = omega arith;
}
Built-IsNormal (ordered a b) = ground (arith, Built-IsNormal b)
Built-IsNormal (chosen {r} c b) = record {
  ascending = (Built-IsNormal b).ascending;
  capped = λ h. ground arith;
  in_range = ground arith;
}

-- A new request requests exactly the work it was given.
pub run_request-requests :
    (identity : Text) (mode : ExecutionMode) (selection : ModSelection) (work : List RequestedWork)
    (w : RequestedWork)
    → requests (run_request identity mode selection work) w ≡ contains w work
unfolding run_request requests
run_request-requests identity mode selection work w =
    contains-dedup w (sort work) ∙ contains-sort w work
