-- ===== src/Evidence/Summaries.antt =====
-- The mutation summaries of crates/cao-core/src/run/evidence.rs against sums over the effects.
use Prim.Native.Nat.{compare, Ordering}
use cao.Shared.{
  ℕ, ◌+◌, Bool, true, false, List, [], ◌∷◌, if◌then◌else◌, ◌≡◌, ◌⊎◌, inl, inr, refl, ap, arith,
  Bool-cases,
}
use cao.Shared.Paths.{FilePath, compare_path}
use cao.Shared.Order.{compare_eq, then_eq, compare_path_eq}
use cao.Run.Attempt.{MutationState, unchanged, committed, partial_or_unknown}
use cao.Run.Results.{MutationKind, MutationSummary}
use cao.Evidence.Storage.{Storage}
use cao.Evidence.Seal.{
  Effect, effects, mutation_kind_index, compare_key, add_to, fresh_summary, place_summary, upsert,
  is_unchanged, group, derive_mutation_summaries,
}

abbrev is_eq : Ordering → Bool
is_eq Ordering.eq = true
is_eq _ = false

pub MutationState-cases :
    (s : MutationState) → (s ≡ unchanged) ⊎ ((s ≡ committed) ⊎ (s ≡ partial_or_unknown))
MutationState-cases s = ground arith

module _ (root : FilePath) (kind : MutationKind) where
  -- What the summaries say is committed, and partial or unknown, under one root and kind.
  unfoldable pub committed_in : List MutationSummary → ℕ
  committed_in [] = 0
  committed_in (m ∷ ms) =
      (if is_eq (compare_key root kind m) then m.committed else 0) + committed_in ms

  unfoldable pub partial_in : List MutationSummary → ℕ
  partial_in [] = 0
  partial_in (m ∷ ms) =
      (if is_eq (compare_key root kind m) then m.partial_or_unknown else 0) + partial_in ms

  abbrev is_of : Effect → Bool
  is_of x = is_eq (compare_key root kind (fresh_summary x))

  abbrev committed_by : Effect → ℕ
  committed_by x = elim x.mutation [ unchanged ↦ 0 | committed ↦ x.count | partial_or_unknown ↦ 0 ]

  abbrev partial_by : Effect → ℕ
  partial_by x = elim x.mutation [ unchanged ↦ 0 | committed ↦ 0 | partial_or_unknown ↦ x.count ]

  -- What the effects on one root of one kind add up to.
  unfoldable pub committed_of : List Effect → ℕ
  committed_of [] = 0
  committed_of (x ∷ xs) = (if is_of x then committed_by x else 0) + committed_of xs

  unfoldable pub partial_of : List Effect → ℕ
  partial_of [] = 0
  partial_of (x ∷ xs) = (if is_of x then partial_by x else 0) + partial_of xs

  kind_eq : (a b : MutationKind) → mutation_kind_index a ≡ mutation_kind_index b → a ≡ b
  kind_eq a b h = ground arith

  -- A summary of the same key is read under a root and kind exactly if the effect is.
  key_eq :
      (x : Effect) (m : MutationSummary)
      → compare_key x.mod_root x.kind m ≡ Ordering.eq
      → compare_key root kind m ≡ compare_key root kind (fresh_summary x)
  unfolding compare_key
  key_eq x m h =
      let (p, q) =
        then_eq (compare_path x.mod_root m.mod_root)
          (compare (mutation_kind_index x.kind) (mutation_kind_index m.kind)) h in
      let same_root = compare_path_eq x.mod_root m.mod_root p in
      let same_kind =
        kind_eq x.kind m.kind
          (compare_eq (mutation_kind_index x.kind) (mutation_kind_index m.kind) q) in
      rw (same_root, same_kind) refl

  abbrev gain : Effect → ℕ
  gain x = if is_of x then committed_by x else 0

  abbrev partial_gain : Effect → ℕ
  partial_gain x = if is_of x then partial_by x else 0

  -- One addition to a summary of the effect's key.
  add_to_lem :
      (x : Effect) (m : MutationSummary)
      → is_eq (compare_key root kind m) ≡ is_of x
      → ((if is_eq (compare_key root kind (add_to x m)) then (add_to x m).committed else 0)
          ≡ gain x + (if is_eq (compare_key root kind m) then m.committed else 0))
        × ((if is_eq (compare_key root kind (add_to x m))
              then (add_to x m).partial_or_unknown
              else 0)
            ≡ partial_gain x
              + (if is_eq (compare_key root kind m) then m.partial_or_unknown else 0))
  unfolding compare_key
  add_to_lem x m h = elim (MutationState-cases x.mutation) [
    | inl e ↦ rw e (ground arith)
    | inr (inl e) ↦ rw e (ground arith)
    | inr (inr e) ↦ rw e (ground arith)
  ]

  place_lem :
      (o : Ordering) (x : Effect) (m : MutationSummary) (ms rest : List MutationSummary)
      → compare_key x.mod_root x.kind m ≡ o
      → (committed_in rest ≡ gain x + committed_in ms)
        × (partial_in rest ≡ partial_gain x + partial_in ms)
      → (committed_in (place_summary o x m ms rest) ≡ gain x + committed_in (m ∷ ms))
        × (partial_in (place_summary o x m ms rest) ≡ partial_gain x + partial_in (m ∷ ms))
  unfolding place_summary committed_in partial_in
  place_lem Ordering.lt x m ms rest h (c, p) =
      let (a, b) = add_to_lem x (fresh_summary x) refl in ground arith
  place_lem Ordering.eq x m ms rest h (c, p) =
      let (a, b) = add_to_lem x m (ap is_eq (key_eq x m h)) in ground arith
  place_lem Ordering.gt x m ms rest h (c, p) = ground arith

  upsert_lem :
      (x : Effect) (ms : List MutationSummary)
      → (committed_in (upsert x ms) ≡ gain x + committed_in ms)
        × (partial_in (upsert x ms) ≡ partial_gain x + partial_in ms)
  unfolding upsert
  upsert_lem x [] =
      let (a, b) = add_to_lem x (fresh_summary x) refl in
      unfold committed_in partial_in in ground arith
  upsert_lem x (m ∷ ms) =
      place_lem (compare_key x.mod_root x.kind m) x m ms (upsert x ms) refl (upsert_lem x ms)

  group_lem :
      (xs : List Effect) (ms : List MutationSummary)
      → (committed_in (group xs ms) ≡ committed_of xs + committed_in ms)
        × (partial_in (group xs ms) ≡ partial_of xs + partial_in ms)
  unfolding group committed_of partial_of
  group_lem [] ms = (omega arith, omega arith)
  group_lem (x ∷ xs) ms = elim (Bool-cases (is_unchanged x.mutation)) [
    | inl e ↦ let (c, p) = group_lem xs ms in rw e (ground arith)
    | inr e ↦
        let (c, p) = group_lem xs (upsert x ms) in
        let (u, v) = upsert_lem x ms in rw e (ground arith)
  ]

  -- Under every Mod Root and kind, the summaries' committed counts, and their partial or unknown
  -- counts, add up to those of the durable effects: each completed attempt once, and each recorded
  -- finalization mutation as often as it counts.
  pub derive_mutation_summaries_lem :
      (s : Storage)
      → (committed_in (derive_mutation_summaries s) ≡ committed_of (effects s))
        × (partial_in (derive_mutation_summaries s) ≡ partial_of (effects s))
  unfolding derive_mutation_summaries
  derive_mutation_summaries_lem s =
      let (c, p) = group_lem (effects s) [] in unfold committed_in partial_in in ground arith
