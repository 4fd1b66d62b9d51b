-- ===== src/Capacity/Demand.antt =====
-- `Demand` of crates/cao-core/src/run/capacity.rs and `estimated_capacity_bytes` of
-- crates/cao-core/src/run/archives.rs. Bytes are a u64, whose sums saturate.
use cao.Shared.{ℕ, ◌+◌, ◌*◌, List, [], ◌∷◌, if◌then◌else◌, leb, ltb, Text}
use cao.Shared.Paths.{FilePath}
use cao.Shared.Prefixes.{same_path}

-- `u64::MAX`
abbrev pub u64_max : ℕ
u64_max = 18446744073709551615

-- `u64::saturating_add`
abbrev pub saturating_add : ℕ → ℕ → ℕ
saturating_add a b = if leb (a + b) u64_max then a + b else u64_max

-- `u64::saturating_mul`
abbrev pub saturating_mul : ℕ → ℕ → ℕ
saturating_mul a b = if leb (a * b) u64_max then a * b else u64_max

-- Each Mod Root once, in the order of its first addition, and the sum over all.
pub record Demand : Type 0 where
  pub roots : List (FilePath × ℕ)
  pub total : ℕ

abbrev pub no_demand : Demand
no_demand = record { roots = []; total = 0 }

-- The root's own sum grows, or it is pushed.
unfoldable pub add_to : FilePath → ℕ → List (FilePath × ℕ) → List (FilePath × ℕ)
unfolding same_path
add_to root bytes [] = (root, bytes) ∷ []
add_to root bytes ((added, demand) ∷ others) =
    let rest = add_to root bytes others in
    if same_path added root
    then (added, saturating_add demand bytes) ∷ others
    else (added, demand) ∷ rest

-- `Demand::add`
unfoldable pub add : Demand → FilePath → ℕ → Demand
unfolding add_to
add d root bytes = record {
  roots = add_to root bytes d.roots;
  total = saturating_add d.total bytes;
}

-- The demand that a sequence of additions makes.
unfoldable pub add_all : List (FilePath × ℕ) → Demand → Demand
unfolding add
add_all [] d = d
add_all ((root, bytes) ∷ more) d = add_all more (add d root bytes)

-- An entry of an Archive's manifest.
pub record ArchiveEntry : Type 0 where
  pub name : Text
  pub decompressed_size : ℕ

-- The bytes of a code point in UTF-8.
abbrev pub len_utf8 : ℕ → ℕ
len_utf8 c = if ltb c 128 then 1 else if ltb c 2048 then 2 else if ltb c 65536 then 3 else 4

-- `str::len`
abbrev pub text_len : Text → ℕ
text_len [] = 0
text_len (c ∷ cs) = len_utf8 c + text_len cs

abbrev pub entry_bytes : ArchiveEntry → ℕ
entry_bytes entry =
    saturating_add entry.decompressed_size
      (saturating_add (saturating_mul (text_len entry.name) 8) 65536)

unfoldable pub fold_entries : ℕ → List ArchiveEntry → ℕ
fold_entries total [] = total
fold_entries total (entry ∷ entries) =
    fold_entries (saturating_add total (entry_bytes entry)) entries

-- `estimated_capacity_bytes`
unfoldable pub estimated_capacity_bytes : List ArchiveEntry → ℕ
unfolding fold_entries
estimated_capacity_bytes entries = fold_entries 65536 entries
