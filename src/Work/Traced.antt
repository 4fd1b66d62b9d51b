-- ===== src/Work/Traced.antt =====
-- The recording steps that a worker of crates/cao-core/src/run/executor/work_phases.rs has made on
-- the evidence that is lent to it.
use cao.Shared.{List, [], ◌∷◌, ◌++◌, ◌≡◌, refl, ap, ◌∙◌}
use cao.Evidence.Sinks.{Evidence}
use cao.Evidence.Operations.{Operation, perform, perform_all}
use cao.Work.Flow.{Outcome, value, stops, Action, ◌>>=◌, continue_with}
use cao.Work.Worker.{Worker}

-- The steps lead from the lent evidence to the given one.
abbrev pub Traces : Evidence → Evidence → List Operation → Type 0
Traces lent e operations = perform_all operations lent ≡ e

abbrev pub Traced : {A W : Type 0} → Evidence → Worker A W → Type 0
Traced lent w = Traces lent w.evidence w.operations

perform_all-append :
    (os : List Operation) (o : Operation) (e : Evidence)
    → perform_all (os ++ o ∷ []) e ≡ (perform o (perform_all os e)).0
unfolding perform_all
perform_all-append [] o e = refl
perform_all-append (p ∷ os) o e = perform_all-append os o (perform p e).0

pub perform-Traces :
    (lent : Evidence) (o : Operation) (e : Evidence) (operations : List Operation)
    → Traces lent e operations
    → Traces lent (perform o e).0 (operations ++ o ∷ [])
perform-Traces lent o e operations h =
    perform_all-append operations o lent ∙ ap (λ x. (perform o x).0) h

-- What both parts keep whatever they give, their composition keeps.
continue_with_keeps :
    {S X B C : Type 0} (P : S → Type 0) (f : B → Action S X C) (o : Outcome X B × S)
    → P o.1
    → ((b : B) (t : S) → P t → P (f b t).1)
    → P (continue_with f o).1
continue_with_keeps P f (value b, s) h k = k b s h
continue_with_keeps P f (stops x, s) h k = h

pub bind_keeps :
    {S X B C : Type 0} (P : S → Type 0) (m : Action S X B) (f : B → Action S X C) (s : S)
    → P (m s).1
    → ((b : B) (t : S) → P t → P (f b t).1)
    → P ((m >>= f) s).1
bind_keeps P m f s h k = continue_with_keeps P f (m s) h k
