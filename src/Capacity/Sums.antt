-- ===== src/Capacity/Sums.antt =====
-- The sums of crates/cao-core/src/run/capacity.rs and of `estimated_capacity_bytes` of
-- crates/cao-core/src/run/archives.rs: they saturate once, at the end.
use cao.Shared.{
  ℕ, ◌+◌, ◌*◌, List, [], ◌∷◌, ◌≡◌, refl, ap, ◌∙◌, arith, inl, inr, Bool-cases, if◌then◌else◌, leb,
}
use cao.Shared.Paths.{FilePath}
use cao.Shared.Prefixes.{same_path}
use cao.Capacity.Demand.{
  u64_max, saturating_add, Demand, add_to, add, add_all, no_demand, ArchiveEntry, text_len,
  entry_bytes, fold_entries, estimated_capacity_bytes,
}

-- The smaller of a sum and the largest u64.
abbrev pub capped : ℕ → ℕ
capped n = if leb n u64_max then n else u64_max

saturating_add-capped : (a b : ℕ) → saturating_add (capped a) b ≡ capped (a + b)
saturating_add-capped a b = ground arith

capped-saturating_add : (a b : ℕ) → saturating_add a (capped b) ≡ capped (a + b)
capped-saturating_add a b = ground arith

-- The bytes that a manifest needs, without a bound on them.
abbrev pub entries_need : List ArchiveEntry → ℕ
entries_need [] = 0
entries_need (e ∷ es) = e.decompressed_size + (text_len e.name * 8 + 65536) + entries_need es

abbrev entry_need : ArchiveEntry → ℕ
entry_need e = e.decompressed_size + (text_len e.name * 8 + 65536)

three_capped : (a b c : ℕ) → saturating_add a (saturating_add (capped b) c) ≡ capped (a + (b + c))
three_capped a b c = ground arith

entry_bytes-capped : (e : ArchiveEntry) → entry_bytes e ≡ capped (entry_need e)
entry_bytes-capped e = three_capped e.decompressed_size (text_len e.name * 8) 65536

fold_entries-capped :
    (total : ℕ) (es : List ArchiveEntry)
    → fold_entries (capped total) es ≡ capped (total + entries_need es)
unfolding fold_entries
fold_entries-capped total [] = ground arith
fold_entries-capped total (e ∷ es) =
    let same : total + entry_need e + entries_need es ≡ total + entries_need (e ∷ es) =
      omega arith in
    ap (λ (x : ℕ). fold_entries x es)
      (ap (λ (x : ℕ). saturating_add (capped total) x) (entry_bytes-capped e)
        ∙ saturating_add-capped total (capped (entry_need e))
        ∙ capped-saturating_add total (entry_need e))
    ∙ fold_entries-capped (total + entry_need e) es
    ∙ ap capped same

-- The estimate of an Archive is 65,536 bytes, with each entry's size, eight times the length of its
-- name and 65,536 bytes more, or the largest u64 where that is less.
pub estimated_capacity_bytes-capped :
    (es : List ArchiveEntry) → estimated_capacity_bytes es ≡ capped (65536 + entries_need es)
unfolding estimated_capacity_bytes
estimated_capacity_bytes-capped es = fold_entries-capped 65536 es

-- The bytes of all additions, without a bound on them.
abbrev pub sum_of : List (FilePath × ℕ) → ℕ
sum_of [] = 0
sum_of ((root, bytes) ∷ rest) = bytes + sum_of rest

-- The sum of the roots' demands, as they are capped.
abbrev pub capped_sum : List (FilePath × ℕ) → ℕ
capped_sum [] = 0
capped_sum ((root, bytes) ∷ rest) = saturating_add bytes (capped_sum rest)

swap_step :
    (b c rest : ℕ)
    → saturating_add (saturating_add b c) rest ≡ saturating_add (saturating_add b rest) c
swap_step b c rest = ground arith

assoc_step :
    (b c rest : ℕ)
    → saturating_add b (saturating_add rest c) ≡ saturating_add (saturating_add b rest) c
assoc_step b c rest = ground arith

add_to-capped_sum :
    (root : FilePath) (bytes : ℕ) (rs : List (FilePath × ℕ))
    → capped_sum (add_to root bytes rs) ≡ saturating_add (capped_sum rs) bytes
unfolding add_to
add_to-capped_sum root bytes [] = ground arith
add_to-capped_sum root bytes ((added, demand) ∷ others) = elim (Bool-cases (same_path added root)) [
  | inl c ↦ rw c (swap_step demand bytes (capped_sum others))
  | inr c ↦ rw c (
      ap (λ (x : ℕ). saturating_add demand x) (add_to-capped_sum root bytes others)
      ∙ assoc_step demand bytes (capped_sum others))
]

-- The demand of each root is a u64, and the total is the capped sum over the roots.
pub record IsSummed (d : Demand) : Type 0 where
  pub summed : capped_sum d.roots ≡ d.total

pub add_all-IsSummed :
    (more : List (FilePath × ℕ)) (d : Demand) → IsSummed d → IsSummed (add_all more d)
unfolding add_all add
add_all-IsSummed [] d h = h
add_all-IsSummed ((root, bytes) ∷ more) d h = add_all-IsSummed more (add d root bytes) (record {
  summed = add_to-capped_sum root bytes d.roots ∙ ap (λ (x : ℕ). saturating_add x bytes) h.summed;
})

add_all-total :
    (more : List (FilePath × ℕ)) (d : Demand) (n : ℕ)
    → d.total ≡ capped n
    → (add_all more d).total ≡ capped (n + sum_of more)
unfolding add_all add
add_all-total [] d n h = let same : n ≡ n + sum_of [] = omega arith in h ∙ ap capped same
add_all-total ((root, bytes) ∷ more) d n h =
    let same : n + bytes + sum_of more ≡ n + sum_of ((root, bytes) ∷ more) = omega arith in
    add_all-total more (add d root bytes) (n + bytes)
      (ap (λ (x : ℕ). saturating_add x bytes) h ∙ saturating_add-capped n bytes)
    ∙ ap capped same

-- Whatever is added and in whatever order, the total of a demand is the capped sum of the additions,
-- and of the demands of its roots: no addition wraps or is lost.
pub add_all_lem :
    (more : List (FilePath × ℕ))
    → ((add_all more no_demand).total ≡ capped (sum_of more)) × IsSummed (add_all more no_demand)
add_all_lem more =
    let same : 0 + sum_of more ≡ sum_of more = omega arith in
    (
      add_all-total more no_demand 0 refl ∙ ap capped same,
      add_all-IsSummed more no_demand (record { summed = refl }),
    )
