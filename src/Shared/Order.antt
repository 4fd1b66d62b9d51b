-- ===== src/Shared/Order.antt =====
-- The orders of texts, path components and paths: equal exactly on equal ones, and flipped by
-- swapping.
use Prim.Native.Nat.{ℕ, compare, Ordering}
use mathlib.Core.Path.{◌≡◌, refl, ap₂}
use mathlib.Core.List.{[], ◌∷◌}
use native.Mathlib.Omega.{arith}
use cao.Shared.Texts.{Text}
use cao.Shared.Paths.{
  Component, FilePath, then_compare, compare_text, compare_path, compare_component, component_rank,
  component_text,
}

abbrev pub flip : Ordering → Ordering
flip Ordering.lt = Ordering.gt
flip Ordering.eq = Ordering.eq
flip Ordering.gt = Ordering.lt

pub compare_eq : (a b : ℕ) → compare a b ≡ Ordering.eq → a ≡ b
compare_eq a b h = ground arith

pub compare-flip : (a b : ℕ) → compare b a ≡ flip (compare a b)
compare-flip a b = ground arith

pub then_eq :
    (o p : Ordering) → then_compare o p ≡ Ordering.eq → (o ≡ Ordering.eq) × (p ≡ Ordering.eq)
then_eq Ordering.eq p h = (refl, h)
then_eq Ordering.lt p h = ground arith
then_eq Ordering.gt p h = ground arith

pub then_flip : (o p : Ordering) → then_compare (flip o) (flip p) ≡ flip (then_compare o p)
then_flip Ordering.eq p = refl
then_flip Ordering.lt p = refl
then_flip Ordering.gt p = refl

pub compare_text_eq : (a b : Text) → compare_text a b ≡ Ordering.eq → a ≡ b
unfolding compare_text
compare_text_eq [] [] h = refl
compare_text_eq [] (y ∷ b) h = ground arith
compare_text_eq (x ∷ a) [] h = ground arith
compare_text_eq (x ∷ a) (y ∷ b) h =
    let (p, q) = then_eq (compare x y) (compare_text a b) h in
    ap₂ ◌∷◌ (compare_eq x y p) (compare_text_eq a b q)

pub compare_text-flip : (a b : Text) → compare_text b a ≡ flip (compare_text a b)
unfolding compare_text
compare_text-flip [] [] = refl
compare_text-flip [] (y ∷ b) = refl
compare_text-flip (x ∷ a) [] = refl
compare_text-flip (x ∷ a) (y ∷ b) =
    rw (compare-flip x y, compare_text-flip a b) (then_flip (compare x y) (compare_text a b))

component_eq :
    (a b : Component)
    → component_rank a ≡ component_rank b
    → component_text a ≡ component_text b
    → a ≡ b
component_eq a b h k = ground arith

pub compare_path_eq : (a b : FilePath) → compare_path a b ≡ Ordering.eq → a ≡ b
unfolding compare_path
compare_path_eq [] [] h = refl
compare_path_eq [] (y ∷ b) h = ground arith
compare_path_eq (x ∷ a) [] h = ground arith
compare_path_eq (x ∷ a) (y ∷ b) h =
    let (p, q) = then_eq (compare_component x y) (compare_path a b) h in
    let (r, t) =
      then_eq (compare (component_rank x) (component_rank y))
        (compare_text (component_text x) (component_text y)) p in
    ap₂ ◌∷◌
      (component_eq x y (compare_eq (component_rank x) (component_rank y) r)
        (compare_text_eq (component_text x) (component_text y) t))
      (compare_path_eq a b q)

component_flip : (a b : Component) → compare_component b a ≡ flip (compare_component a b)
component_flip a b =
    rw
      (
        compare-flip (component_rank a) (component_rank b),
        compare_text-flip (component_text a) (component_text b),
      )
      (then_flip (compare (component_rank a) (component_rank b))
        (compare_text (component_text a) (component_text b)))

pub compare_path-flip : (a b : FilePath) → compare_path b a ≡ flip (compare_path a b)
unfolding compare_path
compare_path-flip [] [] = refl
compare_path-flip [] (y ∷ b) = refl
compare_path-flip (x ∷ a) [] = refl
compare_path-flip (x ∷ a) (y ∷ b) =
    rw (component_flip x y, compare_path-flip a b)
      (then_flip (compare_component x y) (compare_path a b))
