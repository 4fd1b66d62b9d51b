-- ===== src/Shared/Lists.antt =====
-- Lists with lengths in the native numbers, and predicates on their elements.
use Prim.Native.Nat.{ℕ, suc, ◌+◌}
use mathlib.Core.Path.{◌≡◌, refl}
use mathlib.Core.Logic.{◌⊎◌, inl, inr, ◌↔◌}
use mathlib.Core.Bool.{Bool, true, false, ◌&&◌, ◌||◌}
use mathlib.Core.Option.{Option, none, some}
use mathlib.Core.List.{List, [], ◌∷◌, ◌++◌}
use native.Mathlib.Omega.{arith}
use cao.Shared.Tests.{if◌then◌else◌, Bool-cases}

module _ {ℓ} {A : Type ℓ} where
  abbrev pub length : List A → ℕ
  length [] = 0
  length (x ∷ xs) = suc (length xs)

  pub length-append : (xs ys : List A) → length (xs ++ ys) ≡ length xs + length ys
  length-append [] ys = omega arith
  length-append (x ∷ xs) ys = omega (arith, length-append xs ys)

  abbrev pub get_last? : List A → Option A
  get_last? [] = none
  get_last? (x ∷ []) = some x
  get_last? (x ∷ y ∷ xs) = get_last? (y ∷ xs)

  pub get_last?-concat : (xs : List A) (y : A) → get_last? (xs ++ y ∷ []) ≡ some y
  get_last?-concat [] y = refl
  get_last?-concat (x ∷ []) y = refl
  get_last?-concat (x ∷ z ∷ xs) y = get_last?-concat (z ∷ xs) y

  abbrev pub any : (A → Bool) → List A → Bool
  any p [] = false
  any p (x ∷ xs) = p x || any p xs

  abbrev pub all : (A → Bool) → List A → Bool
  all p [] = true
  all p (x ∷ xs) = p x && all p xs

  abbrev pub filter : (A → Bool) → List A → List A
  filter p [] = []
  filter p (x ∷ xs) = let rest = filter p xs in if p x then x ∷ rest else rest

abbrev pub All {ℓ κ} : {A : Type ℓ} → (A → Type κ) → List A → Type κ
All P [] = Unit
All P (x ∷ xs) = P x × All P xs

-- Membership with the place kept.
pub data In {ℓ} {A : Type ℓ} (a : A) : List A → Type ℓ where
  here : {xs : List A} → In a (a ∷ xs)
  there : {x : A} {xs : List A} → In a xs → In a (x ∷ xs)

module _ {ℓ κ} {A : Type ℓ} (P : A → Type κ) where
  pub All-append : (xs ys : List A) → All P xs → All P ys → All P (xs ++ ys)
  All-append [] ys h k = k
  All-append (x ∷ xs) ys h k = (h.0, All-append xs ys h.1 k)

  pub All-In : {a : A} {xs : List A} → In a xs → All P xs → P a
  All-In here h = h.0
  All-In (there i) h = All-In i h.1

  pub In-All : (xs : List A) → ((a : A) → In a xs → P a) → All P xs
  In-All [] f = tt
  In-All (x ∷ xs) f = (f x here, In-All xs (λ a i. f a (there i)))

module _ {ℓ} {A : Type ℓ} where
  pub In-append_left : {a : A} {xs : List A} (ys : List A) → In a xs → In a (xs ++ ys)
  In-append_left ys here = here
  In-append_left ys (there i) = there (In-append_left ys i)

  pub In-append_right : {a : A} (xs : List A) {ys : List A} → In a ys → In a (xs ++ ys)
  In-append_right [] i = i
  In-append_right (x ∷ xs) i = there (In-append_right xs i)

  pub In-append-cases : {a : A} (xs : List A) {ys : List A} → In a (xs ++ ys) → In a xs ⊎ In a ys
  In-append-cases [] i = inr i
  In-append-cases (x ∷ xs) here = inl here
  In-append-cases (x ∷ xs) (there i) = elim (In-append-cases xs i) [
    | inl l ↦ inl (there l)
    | inr r ↦ inr r
  ]

  pub In-cons-cases : {a x : A} {xs : List A} → In a (x ∷ xs) → (a ≡ x) ⊎ In a xs
  In-cons-cases here = inl refl
  In-cons-cases (there i) = inr i

  module _ (p : A → Bool) where
    In-filter_keep : (a : A) (xs : List A) → In a (filter p xs) → In a xs × (p a ≡ true)
    In-filter_keep a [] i = elim i [ ]
    In-filter_keep a (x ∷ xs) i = elim (Bool-cases (p x)) [
      | inr e ↦ let (j, h) = In-filter_keep a xs (rw e at i) in (there j, h)
      | inl e ↦ elim (In-cons-cases {a = a} {x = x} {xs = filter p xs} (rw e at i)) [
        | inl same ↦ (rw same here, rw same e)
        | inr j ↦ let (k, h) = In-filter_keep a xs j in (there k, h)
      ]
    ]

    In-filter_back : (a : A) (xs : List A) → In a xs → p a ≡ true → In a (filter p xs)
    In-filter_back a [] i h = elim i [ ]
    In-filter_back a (x ∷ xs) here h = rw h here
    In-filter_back a (x ∷ xs) (there i) h = elim (Bool-cases (p x)) [
      | inl e ↦ rw e (there (In-filter_back a xs i h))
      | inr e ↦ rw e (In-filter_back a xs i h)
    ]

    pub In-filter : (a : A) (xs : List A) → In a (filter p xs) ↔ (In a xs × (p a ≡ true))
    In-filter a xs = (In-filter_keep a xs, (λ h. In-filter_back a xs h.0 h.1))
