-- ===== src/Packing/FileName.antt =====
-- `split_file_name` of crates/cao-archive/src/name.rs, on the code points of a name: a dot is one
-- byte in UTF-8, so that the byte offsets of the source cut at the same places.
use cao.Shared.{
  ℕ, zero, suc, Bool, ◌||◌, [], ◌∷◌, Option, none, some, Text, codes, text_eq, ◌==◌, if◌then◌else◌,
}

abbrev pub dot : ℕ
dot = b'.'

abbrev pub rfind_step : Bool → Option ℕ → Option ℕ
rfind_step b none = if b then some 0 else none
rfind_step b (some i) = some (suc i)

-- `str::rfind` of one character: the place of the last occurrence.
unfoldable pub rfind : ℕ → Text → Option ℕ
rfind c [] = none
rfind c (x ∷ xs) = rfind_step (x == c) (rfind c xs)

-- `str::split_at`, which is given a place of the text.
unfoldable pub split_at : Text → ℕ → Text × Text
split_at xs zero = ([], xs)
split_at [] (suc i) = ([], [])
split_at (x ∷ xs) (suc i) = let rest = split_at xs i in (x ∷ rest.0, rest.1)

unfoldable pub split_last : Option ℕ → Text → Text × Text
unfolding split_at
split_last none name = (name, [])
split_last (some zero) name = (name, [])
split_last (some (suc i)) name = split_at name (suc i)

unfoldable pub split_file_name : Text → Text × Text
unfolding rfind split_last text_eq
split_file_name name =
    if text_eq name (codes ".") || text_eq name (codes "..")
    then (name, [])
    else split_last (rfind dot name) name
