-- ===== src/Evidence/Ascending.antt =====
-- The order of the mutation summaries, the keys of a `BTreeMap` in the source.
use Prim.Native.Nat.{compare, Ordering}
use cao.Shared.{List, [], ◌∷◌, ◌≡◌, inl, inr, refl, ap, arith, Bool-cases, ◌∙◌}
use cao.Shared.Paths.{compare_path}
use cao.Shared.Order.{flip, compare-flip, then_flip, compare_path-flip}
use cao.Run.Results.{MutationSummary}
use cao.Evidence.Storage.{Storage}
use cao.Evidence.Seal.{
  Effect, effects, mutation_kind_index, compare_key, add_to, fresh_summary, place_summary, upsert,
  is_unchanged, group, derive_mutation_summaries,
}

abbrev compare_summary : MutationSummary → MutationSummary → Ordering
compare_summary a b = compare_key a.mod_root a.kind b

-- Each summary before the next.
abbrev pub Ascending : List MutationSummary → Type 0
Ascending [] = Unit
Ascending (a ∷ []) = Unit
Ascending (a ∷ b ∷ ms) = (compare_summary a b ≡ Ordering.lt) × Ascending (b ∷ ms)

-- Whether a list may follow a summary.
abbrev Follows : MutationSummary → List MutationSummary → Type 0
Follows a [] = Unit
Follows a (b ∷ ms) = compare_summary a b ≡ Ordering.lt

follow :
    (a : MutationSummary) (ms : List MutationSummary)
    → Follows a ms
    → Ascending ms
    → Ascending (a ∷ ms)
follow a [] f h = tt
follow a (b ∷ ms) f h = (f, h)

Ascending-tail :
    (a : MutationSummary) (ms : List MutationSummary)
    → Ascending (a ∷ ms)
    → Follows a ms × Ascending ms
Ascending-tail a [] h = (tt, tt)
Ascending-tail a (b ∷ ms) h = h

-- An addition keeps the key.
add_to_root : (x : Effect) (m : MutationSummary) → (add_to x m).mod_root ≡ m.mod_root
add_to_root x m = ground arith

add_to_kind : (x : Effect) (m : MutationSummary) → (add_to x m).kind ≡ m.kind
add_to_kind x m = ground arith

compare_flipped :
    (x : Effect) (m : MutationSummary)
    → compare_summary m (fresh_summary x) ≡ flip (compare_key x.mod_root x.kind m)
unfolding compare_key
compare_flipped x m =
    rw
      (
        compare_path-flip x.mod_root m.mod_root,
        compare-flip (mutation_kind_index x.kind) (mutation_kind_index m.kind),
      )
      (then_flip (compare_path x.mod_root m.mod_root)
        (compare (mutation_kind_index x.kind) (mutation_kind_index m.kind)))

added_left :
    (x : Effect) (m b : MutationSummary) → compare_summary (add_to x m) b ≡ compare_summary m b
unfolding compare_key
added_left x m b = rw (add_to_root x m, add_to_kind x m) refl

added_right :
    (x : Effect) (a m : MutationSummary) → compare_summary a (add_to x m) ≡ compare_summary a m
unfolding compare_key
added_right x a m = rw (add_to_root x m, add_to_kind x m) refl

-- Whatever precedes the list and the new key precedes the new list.
Follows-place :
    (o : Ordering) (x : Effect) (a m : MutationSummary) (ms rest : List MutationSummary)
    → compare_summary a (fresh_summary x) ≡ Ordering.lt
    → compare_summary a m ≡ Ordering.lt
    → Follows a (place_summary o x m ms rest)
unfolding place_summary
Follows-place Ordering.lt x a m ms rest h k = added_right x a (fresh_summary x) ∙ h
Follows-place Ordering.eq x a m ms rest h k = added_right x a m ∙ k
Follows-place Ordering.gt x a m ms rest h k = k

Follows-upsert :
    (x : Effect) (a : MutationSummary) (ms : List MutationSummary)
    → compare_summary a (fresh_summary x) ≡ Ordering.lt
    → Follows a ms
    → Follows a (upsert x ms)
unfolding upsert
Follows-upsert x a [] h f = added_right x a (fresh_summary x) ∙ h
Follows-upsert x a (m ∷ ms) h f =
    Follows-place (compare_key x.mod_root x.kind m) x a m ms (upsert x ms) h f

place-Ascending :
    (o : Ordering) (x : Effect) (m : MutationSummary) (ms : List MutationSummary)
    → compare_key x.mod_root x.kind m ≡ o
    → Ascending (m ∷ ms)
    → Ascending (upsert x ms)
    → Ascending (place_summary o x m ms (upsert x ms))
unfolding place_summary
place-Ascending Ordering.lt x m ms e h r = (added_left x (fresh_summary x) m ∙ e, h)
place-Ascending Ordering.eq x m ms e h r =
    let (f, t) = Ascending-tail m ms h in follow (add_to x m) ms (moved ms f) t
  where
    moved : (ms : List MutationSummary) → Follows m ms → Follows (add_to x m) ms
    moved [] f = tt
    moved (b ∷ ms) f = added_left x m b ∙ f
place-Ascending Ordering.gt x m ms e h r =
    let (f, t) = Ascending-tail m ms h in
    follow m (upsert x ms) (Follows-upsert x m ms (compare_flipped x m ∙ ap flip e) f) r

upsert-Ascending : (x : Effect) (ms : List MutationSummary) → Ascending ms → Ascending (upsert x ms)
unfolding upsert
upsert-Ascending x [] h = tt
upsert-Ascending x (m ∷ ms) h =
    place-Ascending (compare_key x.mod_root x.kind m) x m ms refl h
      (upsert-Ascending x ms (Ascending-tail m ms h).1)

group-Ascending :
    (xs : List Effect) (ms : List MutationSummary) → Ascending ms → Ascending (group xs ms)
unfolding group
group-Ascending [] ms h = h
group-Ascending (x ∷ xs) ms h = elim (Bool-cases (is_unchanged x.mutation)) [
  | inl e ↦ rw e (group-Ascending xs ms h)
  | inr e ↦ rw e (group-Ascending xs (upsert x ms) (upsert-Ascending x ms h))
]

-- The mutation summaries of a sealed run stand in strictly ascending order of Mod Root and kind.
pub derive_mutation_summaries-Ascending : (s : Storage) → Ascending (derive_mutation_summaries s)
unfolding derive_mutation_summaries
derive_mutation_summaries-Ascending s = group-Ascending (effects s) [] tt
