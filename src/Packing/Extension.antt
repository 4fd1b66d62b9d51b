-- ===== src/Packing/Extension.antt =====
-- What `split_file_name` of crates/cao-archive/src/name.rs takes for a stem and for an extension.
use cao.Shared.{
  ℕ, zero, suc, Bool, false, ◌||◌, [], ◌∷◌, ◌++◌, Option, none, some, Text, codes, text_eq,
  text_eq_iff, ◌==◌, any, length, ◌≡◌, ◌≢◌, ◌⊎◌, inl, inr, refl, subst, ap, arith, Bool-cases,
  Option-cases, length-append, append-nil,
}
use cao.Packing.FileName.{dot, rfind_step, rfind, split_at, split_last, split_file_name}

-- Whether a text holds a character.
abbrev pub holds : ℕ → Text → Bool
holds c = any (λ x. x == c)

rfind-none : (c : ℕ) (xs : Text) → rfind c xs ≡ none → holds c xs ≡ false
unfolding rfind
rfind-none c [] h = refl
rfind-none c (x ∷ xs) h = elim (Option-cases (rfind c xs)) [
  | inl k ↦ ground (arith, rfind-none c xs k, subst (λ o. rfind_step (x == c) o ≡ none) k h)
  | inr (i, k) ↦ ground (arith, subst (λ o. rfind_step (x == c) o ≡ none) k h)
]

module _ (c : ℕ) where
  -- A text that is cut at the last occurrence of a character.
  abbrev CutAt : Text → ℕ → Type 0
  CutAt xs i = (rest : Text) × ((split_at xs i).1 ≡ c ∷ rest) × (holds c rest ≡ false)

  cut_here :
      (x : ℕ) (xs : Text) (i : ℕ)
      → holds c xs ≡ false
      → rfind_step (x == c) none ≡ some i
      → CutAt (x ∷ xs) i
  unfolding split_at
  cut_here x xs zero n h = (xs, ap (λ y. y ∷ xs) (ground arith), n)
  cut_here x xs (suc i) n h = ground arith

  cut_later : (x : ℕ) (xs : Text) (i j : ℕ) → CutAt xs j → some (suc j) ≡ some i → CutAt (x ∷ xs) i
  unfolding split_at
  cut_later x xs zero j cut h = ground arith
  cut_later x xs (suc i) j cut h = subst (CutAt xs) (ground arith) cut

  rfind-some : (xs : Text) (i : ℕ) → rfind c xs ≡ some i → CutAt xs i
  unfolding rfind
  rfind-some [] i h = ground arith
  rfind-some (x ∷ xs) i h = elim (Option-cases (rfind c xs)) [
    | inl k ↦ cut_here x xs i (rfind-none c xs k) (subst (λ o. rfind_step (x == c) o ≡ some i) k h)
    | inr (j, k) ↦
        cut_later x xs i j (rfind-some xs j k) (subst (λ o. rfind_step (x == c) o ≡ some i) k h)
  ]

split_at_join : (xs : Text) (i : ℕ) → (split_at xs i).0 ++ (split_at xs i).1 ≡ xs
unfolding split_at
split_at_join xs zero = refl
split_at_join [] (suc i) = refl
split_at_join (x ∷ xs) (suc i) = ap (λ t. x ∷ t) (split_at_join xs i)

split_at_proper :
    (xs rest : Text) (i c : ℕ) → (split_at xs (suc i)).1 ≡ c ∷ rest → (split_at xs (suc i)).0 ≢ []
unfolding split_at
split_at_proper [] rest i c h = ground arith
split_at_proper (x ∷ xs) rest i c h = λ k. ground arith

-- A part that is no extension, or one that begins at the last dot, behind a stem.
abbrev pub AreParts : Text × Text → Type 0
AreParts p =
    (p.1 ≡ []) ⊎ ((rest : Text) × (p.1 ≡ dot ∷ rest) × (holds dot rest ≡ false) × (p.0 ≢ []))

split_last_lem :
    (o : Option ℕ) (name : Text)
    → rfind dot name ≡ o
    → ((split_last o name).0 ++ (split_last o name).1 ≡ name) × AreParts (split_last o name)
unfolding split_last
split_last_lem none name h = (append-nil name, inl refl)
split_last_lem (some zero) name h = (append-nil name, inl refl)
split_last_lem (some (suc i)) name h =
    let cut = rfind-some dot name (suc i) h in
    (split_at_join name (suc i), inr (cut.0, cut.1, cut.2, split_at_proper name cut.0 i dot cut.1))

-- A file name is its stem and its extension together. The extension is empty, or it is a dot and
-- a text without a dot, and then the stem is not empty.
pub split_file_name_lem :
    (name : Text)
    → ((split_file_name name).0 ++ (split_file_name name).1 ≡ name)
      × AreParts (split_file_name name)
unfolding split_file_name
split_file_name_lem name =
    elim (Bool-cases (text_eq name (codes ".") || text_eq name (codes ".."))) [
      | inl h ↦ rw h (append-nil name, inl refl)
      | inr h ↦ rw h (split_last_lem (rfind dot name) name refl)
    ]

rfind_absent : (c : ℕ) (xs : Text) → holds c xs ≡ false → rfind c xs ≡ none
unfolding rfind
rfind_absent c [] h = refl
rfind_absent c (x ∷ xs) h = rw (rfind_absent c xs (ground arith)) (ground arith)

rfind-append :
    (c : ℕ) (xs rest : Text) → holds c rest ≡ false → rfind c (xs ++ c ∷ rest) ≡ some (length xs)
unfolding rfind
rfind-append c [] rest h = rw (rfind_absent c rest h) (ground arith)
rfind-append c (x ∷ xs) rest h = rw (rfind-append c xs rest h) refl

split_at-append : (xs ys : Text) → split_at (xs ++ ys) (length xs) ≡ (xs, ys)
unfolding split_at
split_at-append [] ys = refl
split_at-append (x ∷ xs) ys = rw (split_at-append xs ys) refl

unreserved :
    (name : Text)
    → name ≢ codes "."
    → name ≢ codes ".."
    → (text_eq name (codes ".") || text_eq name (codes "..")) ≡ false
unreserved name h k =
    ground (arith, (text_eq_iff name (codes ".")).0, (text_eq_iff name (codes "..")).0)

longer : (x : ℕ) (xs rest : Text) → x ∷ xs ++ dot ∷ rest ≢ codes "."
longer x xs rest e = omega (arith, length-append xs (dot ∷ rest), ap length e)

-- A stem that is not empty, a dot and a text without a dot are split at that dot, unless the name
-- is `..`.
pub split_file_name-append :
    (stem rest : Text)
    → stem ≢ []
    → holds dot rest ≡ false
    → stem ++ dot ∷ rest ≢ codes ".."
    → split_file_name (stem ++ dot ∷ rest) ≡ (stem, dot ∷ rest)
unfolding split_file_name split_last text_eq
split_file_name-append [] rest p h n = absurd (p refl)
split_file_name-append (x ∷ xs) rest p h n =
    rw (unreserved (x ∷ xs ++ dot ∷ rest) (longer x xs rest) n, rfind-append dot (x ∷ xs) rest h)
      (split_at-append (x ∷ xs) (dot ∷ rest))
