-- ===== src/Work/Ordered.antt =====
-- The order of the Archives of a Mod Root, which `discover_archives` of
-- crates/cao-core/src/run/executor/work_phases.rs hands to the preflight.
use Prim.Native.Nat.{Ordering, compare}
use mathlib.Core.List.{Perm}
use mathlib.Core.List.Perm
use cao.Shared.{
  ℕ, ◌<◌, ◌⊎◌, ◌≢◌, true, false, List, [], ◌∷◌, inl, inr, ◌≡◌, refl, ap, Bool-cases, Text, arith,
}
use cao.Shared.Paths.{FilePath, compare_text, then_compare}
use cao.Shared.Order.{flip, compare_text-flip, compare_text_eq, then_flip}
use cao.Work.GamePaths.{
  is_after, compare_key, insert_archive, sort_archives, archive_order_key, relative_game_path,
}
use cao.Work.Toolset.{Toolset}
use cao.Work.Discover.{ArchivePass, root_archives}

compare-cases :
    (x y : ℕ)
    → (compare x y ≡ Ordering.lt)
      ⊎ (((compare x y ≡ Ordering.eq) × (x ≡ y)) ⊎ (compare x y ≡ Ordering.gt))
compare-cases x y = ground arith

-- A text is another one or stands before it, by their first difference.
abbrev pub TextLe : Text → Text → Type 0
TextLe [] ys = Unit
TextLe (x ∷ xs) [] = ⊥
TextLe (x ∷ xs) (y ∷ ys) = (x < y) ⊎ ((x ≡ y) × TextLe xs ys)

-- By the folded names, and by the names where these are the same.
abbrev pub KeyLe : Text × Text → Text × Text → Type 0
KeyLe a b = (TextLe a.0 b.0 × (a.0 ≢ b.0)) ⊎ ((a.0 ≡ b.0) × TextLe a.1 b.1)

compare_text-TextLe : (a b : Text) → compare_text a b ≢ Ordering.gt → TextLe a b
unfolding compare_text
compare_text-TextLe [] b h = tt
compare_text-TextLe (x ∷ a) [] h = absurd (h refl)
compare_text-TextLe (x ∷ a) (y ∷ b) h = elim (compare-cases x y) [
  | inl less ↦ inl (ground arith)
  | inr (inl (e, same)) ↦ inr (same, compare_text-TextLe a b (λ g. h (rw e g)))
  | inr (inr more) ↦ absurd (h (rw more refl))
]

compare_text_self : (a : Text) → compare_text a a ≡ Ordering.eq
unfolding compare_text
compare_text_self [] = refl
compare_text_self (x ∷ a) = ground (arith, compare_text_self a)

is_after-then :
    (o p : Ordering)
    → is_after (then_compare o p) ≡ false
    → (o ≡ Ordering.lt) ⊎ ((o ≡ Ordering.eq) × (p ≢ Ordering.gt))
is_after-then Ordering.lt p h = inl refl
is_after-then Ordering.eq p h = inr (refl, (λ e. ground (arith, e, h)))
is_after-then Ordering.gt p h = cc

key_le : (a b : Text × Text) → is_after (compare_key a b) ≡ false → KeyLe a b
unfolding compare_text
key_le a b h = elim (is_after-then (compare_text a.0 b.0) (compare_text a.1 b.1) h) [
  | inl less ↦ inl (
    compare_text-TextLe a.0 b.0 (λ g. cc (less, g)),
    (λ same. cc (less, compare_text_self a.0, ap (compare_text a.0) same)),
  )
  | inr (equal, rest) ↦ inr (compare_text_eq a.0 b.0 equal, compare_text-TextLe a.1 b.1 rest)
]

module _ (key : FilePath → Text × Text) where
  -- The first of two paths may stand before the second.
  abbrev Precedes : FilePath → FilePath → Type 0
  Precedes p q = is_after (compare_key (key p) (key q)) ≡ false

  -- Each path may stand before the next.
  abbrev IsAscending : List FilePath → Type 0
  IsAscending [] = Unit
  IsAscending (p ∷ []) = Unit
  IsAscending (p ∷ q ∷ qs) = Precedes p q × IsAscending (q ∷ qs)

  compare_key-flip : (a b : Text × Text) → compare_key b a ≡ flip (compare_key a b)
  unfolding compare_text
  compare_key-flip a b =
      rw (compare_text-flip a.0 b.0, compare_text-flip a.1 b.1)
        (then_flip (compare_text a.0 b.0) (compare_text a.1 b.1))

  flip_after : (o : Ordering) → is_after o ≡ true → is_after (flip o) ≡ false
  flip_after Ordering.lt h = cc
  flip_after Ordering.eq h = cc
  flip_after Ordering.gt h = refl

  Precedes-flip : (p q : FilePath) → is_after (compare_key (key p) (key q)) ≡ true → Precedes q p
  Precedes-flip p q h =
      rw (compare_key-flip (key p) (key q)) (flip_after (compare_key (key p) (key q)) h)

  insert_archive-perm :
      (p : FilePath) (qs : List FilePath) → Perm (insert_archive key p qs) (p ∷ qs)
  unfolding insert_archive
  insert_archive-perm p [] = Perm.refl (p ∷ [])
  insert_archive-perm p (q ∷ qs) = elim (Bool-cases (is_after (compare_key (key p) (key q)))) [
    | inr no_later ↦ rw no_later (Perm.refl (p ∷ q ∷ qs))
    | inl later ↦ rw later (Perm.trans (Perm.cons q (insert_archive-perm p qs)) (Perm.swap p q qs))
  ]

  sort_archives-perm : (ps : List FilePath) → Perm (sort_archives key ps) ps
  unfolding sort_archives
  sort_archives-perm [] = Perm.refl []
  sort_archives-perm (p ∷ ps) =
      Perm.trans (insert_archive-perm p (sort_archives key ps))
        (Perm.cons p (sort_archives-perm ps))

  -- Before what is inserted into an ascending list stands what may stand before both.
  insert_after-IsAscending :
      (q p : FilePath) (qs : List FilePath)
      → Precedes q p
      → IsAscending (q ∷ qs)
      → IsAscending (q ∷ insert_archive key p qs)
  unfolding insert_archive
  insert_after-IsAscending q p [] h k = (h, tt)
  insert_after-IsAscending q p (r ∷ rs) h (first, rest) =
      elim (Bool-cases (is_after (compare_key (key p) (key r)))) [
        | inr no_later ↦ rw no_later (h, (no_later, rest))
        | inl later ↦
            rw later (first, insert_after-IsAscending r p rs (Precedes-flip p r later) rest)
      ]

  insert_archive-IsAscending :
      (p : FilePath) (qs : List FilePath) → IsAscending qs → IsAscending (insert_archive key p qs)
  unfolding insert_archive
  insert_archive-IsAscending p [] h = tt
  insert_archive-IsAscending p (q ∷ qs) h =
      elim (Bool-cases (is_after (compare_key (key p) (key q)))) [
        | inr no_later ↦ rw no_later (no_later, h)
        | inl later ↦ rw later (insert_after-IsAscending q p qs (Precedes-flip p q later) h)
      ]

  sort_archives-IsAscending : (ps : List FilePath) → IsAscending (sort_archives key ps)
  unfolding sort_archives
  sort_archives-IsAscending [] = tt
  sort_archives-IsAscending (p ∷ ps) =
      insert_archive-IsAscending p (sort_archives key ps) (sort_archives-IsAscending ps)

  -- Each path has the key of the next, or one before it.
  abbrev pub Ascends : List FilePath → Type 0
  Ascends [] = Unit
  Ascends (p ∷ []) = Unit
  Ascends (p ∷ q ∷ qs) = KeyLe (key p) (key q) × Ascends (q ∷ qs)

  IsAscending-Ascends : (ps : List FilePath) → IsAscending ps → Ascends ps
  IsAscending-Ascends [] h = tt
  IsAscending-Ascends (p ∷ []) h = tt
  IsAscending-Ascends (p ∷ q ∷ qs) (first, rest) =
      (key_le (key p) (key q) first, IsAscending-Ascends (q ∷ qs) rest)

module _ {A W : Type 0} (tools : Toolset A W) (root : FilePath) where
  -- The key by which an Archive of the Mod Root is ordered.
  abbrev pub key_of : FilePath → Text × Text
  key_of p = archive_order_key tools.to_lowercase (relative_game_path tools.to_string_lossy root p)

  -- The Archives of a Mod Root that the preflight is given are those that the Archive pass selected
  -- there, each as often, in ascending order of their keys.
  pub root_archives-ordered :
      (pass : ArchivePass)
      → let given = (root_archives tools root pass).archives in
        Perm given pass.selected × Ascends key_of given
  unfolding sort_archives archive_order_key relative_game_path
  root_archives-ordered pass = (
    sort_archives-perm key_of pass.selected,
    IsAscending-Ascends key_of (sort_archives key_of pass.selected)
        (sort_archives-IsAscending key_of pass.selected),
  )
