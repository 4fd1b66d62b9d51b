-- ===== src/Capacity/Frozen.antt =====
-- `FrozenVolumes` of crates/cao-core/src/run/capacity.rs: what a root's volume is, stays.
use cao.Shared.{
  true, List, [], ◌∷◌, ◌++◌, Option, none, some, ◌≡◌, refl, ap, ◌∙◌, arith, inl, inr, Option-cases,
  Text,
}
use cao.Shared.Paths.{FilePath, compare_path}
use cao.Shared.Order.{compare_path-flip, flip}
use cao.Shared.Prefixes.{same_path}
use Prim.Native.Nat.{Ordering}
use cao.Capacity.Check.{VolumeProbe, FrozenVolumes, frozen_at, volume_identity, contained_probe}

is_self : (o : Ordering) → o ≡ flip o → o ≡ Ordering.eq
is_self Ordering.eq h = refl
is_self Ordering.lt h = ground arith
is_self Ordering.gt h = ground arith

same_path_self : (p : FilePath) → same_path p p ≡ true
unfolding same_path
same_path_self p = rw (is_self (compare_path p p) (compare_path-flip p p)) refl

-- An identity once frozen stays.
frozen_at-append :
    (root : FilePath) (vs ws : List (FilePath × Option Text)) (v : Option Text)
    → frozen_at root vs ≡ some v
    → frozen_at root (vs ++ ws) ≡ some v
unfolding frozen_at
frozen_at-append root [] ws v h = ground arith
frozen_at-append root ((p, w) ∷ vs) ws v h = ground (arith, frozen_at-append root vs ws v)

frozen_at-new :
    (root : FilePath) (vs : List (FilePath × Option Text)) (v : Option Text)
    → frozen_at root vs ≡ none
    → frozen_at root (vs ++ (root, v) ∷ []) ≡ some v
unfolding frozen_at
frozen_at-new root [] v h = rw (same_path_self root) refl
frozen_at-new root ((p, w) ∷ vs) v h = ground (arith, frozen_at-new root vs v)

abbrev pub HasFrozen : FilePath → Text → FrozenVolumes → Type 0
HasFrozen root volume s = frozen_at root s.volumes ≡ some (some volume)

module _ (probe : VolumeProbe) where
  pub volume_identity-keeps :
      (root other : FilePath) (volume : Text) (s : FrozenVolumes)
      → HasFrozen root volume s
      → HasFrozen root volume (volume_identity probe other s).1
  unfolding volume_identity
  volume_identity-keeps root other volume s h = elim (Option-cases (frozen_at other s.volumes)) [
    | inl q ↦ rw q (frozen_at-append root s.volumes _ (some volume) h)
    | inr (v, q) ↦ rw q h
  ]

  pub volume_identity-freezes :
      (root : FilePath) (volume : Text) (s : FrozenVolumes)
      → (volume_identity probe root s).0 ≡ some volume
      → HasFrozen root volume (volume_identity probe root s).1
  unfolding volume_identity
  volume_identity-freezes root volume s h = elim (Option-cases (frozen_at root s.volumes)) [
    | inl q ↦
        let new = contained_probe (probe.volume_identity s.queries root) in
        let same : new ≡ some volume = rw q at h in
        rw q (frozen_at-new root s.volumes new q ∙ ap some same)
    | inr (v, q) ↦ let same : v ≡ some volume = rw q at h in rw q (q ∙ ap some same)
  ]

  pub volume_identity-frozen :
      (root : FilePath) (volume : Text) (s : FrozenVolumes)
      → HasFrozen root volume s
      → (volume_identity probe root s).0 ≡ some volume
  unfolding volume_identity
  volume_identity-frozen root volume s h = rw h refl
