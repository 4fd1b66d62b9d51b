-- ===== src/Work/Flow.antt =====
-- Code that may end early: `?` on a `Result`, and the returns by hand on a `ControlFlow`, of
-- crates/cao-core/src/run/executor/work_phases.rs and run/finalization/mod.rs.

-- A value to go on with, or how the computation ends early.
pub data Outcome (X B : Type 0) : Type 0 where
  value : B → Outcome X B
  stops : X → Outcome X B

-- A computation over a state.
abbrev pub Action : Type 0 → Type 0 → Type 0 → Type 0
Action S X B = S → Outcome X B × S

abbrev pub pure : {S X B : Type 0} → B → Action S X B
pure b s = (value b, s)

abbrev pub exit : {S X B : Type 0} → X → Action S X B
exit x s = (stops x, s)

abbrev pub continue_with :
    {S X B C : Type 0} → (B → Action S X C) → Outcome X B × S → Outcome X C × S
continue_with f (value b, s) = f b s
continue_with f (stops x, s) = (stops x, s)

infixl 5 ◌>>=◌ ◌>>◌
abbrev pub ◌>>=◌ : {S X B C : Type 0} → Action S X B → (B → Action S X C) → Action S X C
◌>>=◌ m f s = continue_with f (m s)

abbrev pub ◌>>◌ : {S X B C : Type 0} → Action S X B → Action S X C → Action S X C
m >> n = m >>= λ _. n

-- What holds of the end of a computation: `Q` of a value, `R` of an early end.
abbrev pub Leaves :
    {S X B : Type 0} → (B → S → Type 0) → (X → S → Type 0) → Outcome X B × S → Type 0
Leaves Q R (value b, s) = Q b s
Leaves Q R (stops x, s) = R x s

module _ {S X B C : Type 0} (R : X → S → Type 0) where
  Leaves-continue :
      (P : B → S → Type 0) (Q : C → S → Type 0) (f : B → Action S X C) (o : Outcome X B × S)
      → Leaves P R o
      → ((b : B) (t : S) → P b t → Leaves Q R (f b t))
      → Leaves Q R (continue_with f o)
  Leaves-continue P Q f (value b, s) h k = k b s h
  Leaves-continue P Q f (stops x, s) h k = h

  -- The rule for `>>=`.
  pub Leaves-bind :
      (P : B → S → Type 0) (Q : C → S → Type 0) (m : Action S X B) (f : B → Action S X C) (s : S)
      → Leaves P R (m s)
      → ((b : B) (t : S) → P b t → Leaves Q R (f b t))
      → Leaves Q R ((m >>= f) s)
  Leaves-bind P Q m f s h k = Leaves-continue P Q f (m s) h k

module _ {S X B : Type 0} (R : X → S → Type 0) where
  -- A weaker postcondition.
  pub Leaves-weaken :
      (P Q : B → S → Type 0) (o : Outcome X B × S)
      → ((b : B) (t : S) → P b t → Q b t)
      → Leaves P R o
      → Leaves Q R o
  Leaves-weaken P Q (value b, s) k h = k b s h
  Leaves-weaken P Q (stops x, s) k h = h
