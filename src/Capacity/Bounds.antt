-- ===== src/Capacity/Bounds.antt =====
-- What a root is checked against by `CapacityCheck` of crates/cao-core/src/run/capacity.rs.
use cao.Shared.{
  ℕ, ◌≤◌, ◌<◌, ◌||◌, all, List, [], ◌∷◌, In, Option, none, some, ◌≡◌, refl, sym, arith, ◌⊎◌, inl,
  inr, Bool-cases, Option-cases, ◌==◌, ltb, Text, text_eq, text_eq_self,
}
use cao.Shared.Paths.{FilePath}
use cao.Shared.Prefixes.{same_path}
use cao.Executor.Services.{Caught, returned, panicked}
use cao.Routing.Kinds.{ExecutionMode}
use cao.Run.Attempt.{CapacityShortage}
use cao.Capacity.Demand.{u64_max, saturating_add, Demand, no_demand, add_all}
use cao.Capacity.Sums.{capped, sum_of, capped_sum, IsSummed, add_all_lem}
use cao.Capacity.Check.{
  VolumeProbe, FrozenVolumes, volume_identity, available_bytes, required_on, required_at,
  shortage_of, shortage_at, verdict, check_at, recheck_at, contained_probe,
}
use cao.Capacity.Frozen.{
  HasFrozen, volume_identity-keeps, volume_identity-freezes, volume_identity-frozen,
}

In-capped_sum :
    {root : FilePath} {bytes : ℕ} (rs : List (FilePath × ℕ))
    → In (root, bytes) rs
    → capped bytes ≤ capped_sum rs
In-capped_sum [] i = elim i [ ]
In-capped_sum ((r, b) ∷ rs) In.here = ground arith
In-capped_sum ((r, b) ∷ rs) (In.there i) = ground (arith, In-capped_sum rs i)

-- What a recheck of a root with `own` bytes of a total may make of the probe's answer: without one,
-- nothing; else nothing only if its own bytes fit, or a shortage of the root, with the space that was
-- found and a need above it, which is neither less than its own bytes nor more than the total.
abbrev pub Rechecked :
    FilePath → ℕ → ℕ → Caught (Option ℕ) → Caught (Option CapacityShortage) → Type 0
Rechecked root own total (panicked message) found = found ≡ returned none
Rechecked root own total (returned none) found = found ≡ returned none
Rechecked root own total (returned (some available)) found =
    ((found ≡ returned none) × (own ≤ available))
    ⊎ ((x : CapacityShortage) × (found ≡ returned (some x))
        × (x.root ≡ root)
        × (x.available ≡ available)
        × (available < x.required)
        × (own ≤ x.required)
        × (x.required ≤ total))

module _ (probe : VolumeProbe) where
  module _ (volume : Text) (total : ℕ) where
    -- What the loop has counted it keeps, and it never passes the total.
    required_on-bounds :
        (rs : List (FilePath × ℕ)) (required : ℕ) (s : FrozenVolumes)
        → required ≤ u64_max
        → saturating_add required (capped_sum rs) ≤ total
        → let r = (required_on probe volume total rs required s).0 in (required ≤ r) × (r ≤ total)
    unfolding required_on
    required_on-bounds [] required s small fits = (omega arith, ground arith)
    required_on-bounds ((other, bytes) ∷ rs) required s small fits =
        let next = (volume_identity probe other s).1 in
        elim (Bool-cases (bytes == 0)) [
          | inl z ↦ rw (required_on, z) (required_on-bounds rs required s small (ground arith))
          | inr z ↦ elim (Option-cases (volume_identity probe other s).0) [
            | inl q ↦ rw (required_on, z, q) (ground arith, omega arith)
            | inr (v, q) ↦ elim (Bool-cases (text_eq v volume)) [
              | inr t ↦
                  rw (required_on, z, q, t)
                    (required_on-bounds rs required next small (ground arith))
              | inl t ↦
                  let (low, high) =
                    required_on-bounds rs (saturating_add required bytes) next (ground arith)
                      (ground arith) in
                  rw (required_on, z, q, t) (ground arith, high)
            ]
          ]
        ]

    -- A root on the volume is counted.
    required_on-counts :
        {root : FilePath} {own : ℕ} (rs : List (FilePath × ℕ)) (required : ℕ) (s : FrozenVolumes)
        → In (root, own) rs
        → HasFrozen root volume s
        → required ≤ u64_max
        → saturating_add required (capped_sum rs) ≤ total
        → saturating_add required (capped own) ≤ (required_on probe volume total rs required s).0
    unfolding required_on
    required_on-counts [] required s i frozen small fits = elim i [ ]
    required_on-counts ((r, b) ∷ rs) required s In.here frozen small fits =
        let next = (volume_identity probe r s).1 in
        let q = volume_identity-frozen probe r volume s frozen in
        elim (Bool-cases (b == 0)) [
          | inl z ↦
              let (low, high) = required_on-bounds rs required s small (ground arith) in
              rw (required_on, z) (ground arith)
          | inr z ↦
              let (low, high) =
                required_on-bounds rs (saturating_add required b) next (ground arith)
                  (ground arith) in
              rw (required_on, z, q, text_eq_self volume) (ground arith)
        ]
    required_on-counts {root} {own} ((other, bytes) ∷ rs) required s (In.there i) frozen small
          fits =
        let next = (volume_identity probe other s).1 in
        let kept = volume_identity-keeps probe root other volume s frozen in
        let own_fits = In-capped_sum rs i in
        elim (Bool-cases (bytes == 0)) [
          | inl z ↦
              rw (required_on, z) (required_on-counts rs required s i frozen small (ground arith))
          | inr z ↦ elim (Option-cases (volume_identity probe other s).0) [
            | inl q ↦ rw (required_on, z, q) (ground arith)
            | inr (v, q) ↦ elim (Bool-cases (text_eq v volume)) [
              | inr t ↦
                  rw (required_on, z, q, t)
                    (required_on-counts rs required next i kept small (ground arith))
              | inl t ↦
                  let counted =
                    required_on-counts rs (saturating_add required bytes) next i kept (ground arith)
                      (ground arith) in
                  rw (required_on, z, q, t) (ground arith)
            ]
          ]
        ]

  required_at-bounds :
      {root : FilePath} {own : ℕ} (d : Demand) (s : FrozenVolumes)
      → IsSummed d
      → In (root, own) d.roots
      → let r = (required_at probe d root s).0 in (capped own ≤ r) × (r ≤ d.total)
  unfolding required_at
  required_at-bounds {root} {own} d s h i =
      let next = (volume_identity probe root s).1 in
      let whole : capped own ≤ d.total = rw (sym h.summed) (In-capped_sum d.roots i) in
      elim (Bool-cases (all (λ x. x.1 == 0 || same_path x.0 root) d.roots)) [
        | inl c ↦ rw c (whole, omega arith)
        | inr c ↦ elim (Option-cases (volume_identity probe root s).0) [
          | inl q ↦ rw (c, q) (whole, omega arith)
          | inr (volume, q) ↦
              let frozen = volume_identity-freezes probe root volume s q in
              let summed = h.summed in
              let fits : saturating_add 0 (capped_sum d.roots) ≤ d.total = ground arith in
              let counted =
                required_on-counts volume d.total d.roots 0 next i frozen (omega arith) fits in
              let (low, high) =
                required_on-bounds volume d.total d.roots 0 next (omega arith) fits in
              rw (c, q) (ground arith, high)
        ]
      ]

  -- Whatever the probe answers and whichever volumes are frozen, a Mod Root with a demand is checked
  -- against no less than its own bytes and no more than the total, which is the sum of all additions
  -- or the largest u64 where that is less.
  pub required_at_lem :
      (more : List (FilePath × ℕ)) (root : FilePath) (own : ℕ) (s : FrozenVolumes)
      → let d = add_all more no_demand in
        In (root, own) d.roots
        → (capped own ≤ (required_at probe d root s).0)
          × ((required_at probe d root s).0 ≤ d.total)
          × (d.total ≡ capped (sum_of more))
  required_at_lem more root own s i =
      let (sums, summed) = add_all_lem more in
      let (low, high) = required_at-bounds (add_all more no_demand) s summed i in (low, high, sums)

  -- The recheck of a root that is checked against `required` bytes.
  rechecked :
      (root : FilePath) (own total required : ℕ) (answer : Caught (Option ℕ))
      (found : Caught (Option CapacityShortage))
      → own ≤ required
      → required ≤ total
      → found ≡ returned (shortage_of probe root required (contained_probe answer))
      → Rechecked root own total answer found
  rechecked root own total required (panicked message) found low high e = e
  rechecked root own total required (returned none) found low high e = e
  rechecked root own total required (returned (some available)) found low high e =
      elim (Bool-cases (ltb available required)) [
        | inr q ↦ inl (rw q at e, ground arith)
        | inl q ↦ inr (
          record { root = root; required = required; available = available },
          rw q at e,
          refl,
          refl,
          ground arith,
          low,
          high,
        )
      ]

  recheck_at-returned :
      (mode : ExecutionMode) (decimal : ℕ → Text) (d : Demand) (root : FilePath) (s : FrozenVolumes)
      → let r = required_at probe d root s in
        (recheck_at probe mode decimal d root s).0
        ≡ returned
            (shortage_of probe root r.0 (contained_probe (probe.available_bytes r.1.queries root)))
  unfolding recheck_at check_at verdict shortage_at available_bytes
  recheck_at-returned mode decimal d root s =
      let (required, after) = required_at probe d root s in
      let answer = contained_probe (probe.available_bytes after.queries root) in
      elim (Option-cases (shortage_of probe root required answer)) [
        | inl q ↦ rw q refl
        | inr (x, q) ↦ rw q refl
      ]

  -- A recheck of a Mod Root with a demand, in an Apply run or a Dry Run, asks the probe once for the
  -- root's space, after the queries for volumes. It never panics. If the probe panics or has no
  -- answer it returns nothing. Else it returns nothing only if the root's own bytes fit in that
  -- space, or a shortage of this root, with that space and a greater need, which is between the
  -- root's own bytes and the total of the demand; so it finds one if the own bytes do not fit, and
  -- none if the total does.
  pub recheck_at_lem :
      (mode : ExecutionMode) (decimal : ℕ → Text) (more : List (FilePath × ℕ)) (root : FilePath)
      (own : ℕ) (s : FrozenVolumes)
      → let d = add_all more no_demand in
        In (root, own) d.roots
        → Rechecked root
            (capped own)
            d.total
            (probe.available_bytes (required_at probe d root s).1.queries root)
            (recheck_at probe mode decimal d root s).0
  recheck_at_lem mode decimal more root own s i =
      let d = add_all more no_demand in
      let (low, high) = required_at-bounds d s (add_all_lem more).1 i in
      rechecked root (capped own) d.total (required_at probe d root s).0
        (probe.available_bytes (required_at probe d root s).1.queries root)
        (recheck_at probe mode decimal d root s).0 low high
        (recheck_at-returned mode decimal d root s)
