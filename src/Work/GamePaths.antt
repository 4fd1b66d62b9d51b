-- ===== src/Work/GamePaths.antt =====
-- Game paths and the order of Archives: `game_path_text`, `relative_game_path` and
-- `archive_order_key` of crates/cao-core/src/run/archives.rs.
use Prim.Native.Nat.{Ordering}
use cao.Shared.{
  ℕ, Bool, true, false, List, [], ◌∷◌, ◌++◌, map, Option, none, some, ◌==◌, if◌then◌else◌, Text,
  codes,
}
use cao.Shared.Paths.{
  FilePath, Component, prefix, root_dir, cur_dir, parent_dir, normal, compare_text, then_compare,
}
use cao.Shared.Prefixes.{strip_prefix}

-- `Component::as_os_str`
abbrev os_text : Component → Text
os_text (prefix t) = t
os_text root_dir = codes "\\"
os_text cur_dir = codes "."
os_text parent_dir = codes ".."
os_text (normal t) = t

-- `join("/")`
unfoldable pub join_slash : List Text → Text
join_slash [] = []
join_slash (t ∷ []) = t
join_slash (t ∷ u ∷ ts) = t ++ b'/' ∷ join_slash (u ∷ ts)

module _ (to_string_lossy : Text → Text) where
  -- `game_path_text`
  unfoldable pub game_path_text : FilePath → Text
  unfolding join_slash
  game_path_text relative = join_slash (map (λ c. to_string_lossy (os_text c)) relative)

  abbrev or_whole : FilePath → Option FilePath → FilePath
  or_whole path none = path
  or_whole path (some relative) = relative

  -- `relative_game_path`
  unfoldable pub relative_game_path : FilePath → FilePath → Text
  unfolding strip_prefix game_path_text
  relative_game_path root path = game_path_text (or_whole path (strip_prefix path root))

-- One lowercase character of `archive_order_key`, with `replace('ß', "ss")`.
unfoldable pub fold_sharp : Text → Text
fold_sharp [] = []
fold_sharp (c ∷ t) = if c == 0xdf then codes "ss" ++ fold_sharp t else c ∷ fold_sharp t

unfoldable pub lowercase_all : (ℕ → Text) → Text → Text
lowercase_all to_lowercase [] = []
lowercase_all to_lowercase (c ∷ t) = to_lowercase c ++ lowercase_all to_lowercase t

-- `archive_order_key`
unfoldable pub archive_order_key : (ℕ → Text) → Text → Text × Text
unfolding fold_sharp lowercase_all
archive_order_key to_lowercase name = (fold_sharp (lowercase_all to_lowercase name), name)

abbrev pub compare_key : Text × Text → Text × Text → Ordering
unfolding compare_text
compare_key a b = then_compare (compare_text a.0 b.0) (compare_text a.1 b.1)

abbrev pub is_after : Ordering → Bool
is_after Ordering.gt = true
is_after _ = false

module _ (key : FilePath → Text × Text) where
  unfoldable pub insert_archive : FilePath → List FilePath → List FilePath
  unfolding compare_text
  insert_archive p [] = p ∷ []
  insert_archive p (q ∷ qs) =
      let rest = insert_archive p qs in
      if is_after (compare_key (key p) (key q)) then q ∷ rest else p ∷ q ∷ qs

  -- `sort_by_cached_key`
  unfoldable pub sort_archives : List FilePath → List FilePath
  unfolding insert_archive
  sort_archives [] = []
  sort_archives (p ∷ ps) = insert_archive p (sort_archives ps)
