-- ===== src/Tests/Packing.antt =====
-- File names at concrete texts.
use cao.Shared.{[], ◌∷◌, ◌++◌, codes, ◌≡◌, refl, ap, length, arith}
use cao.Packing.FileName.{dot, split_file_name}
use cao.Packing.Extension.{AreParts, split_file_name_lem, split_file_name-append}

split_file_name_example :
    ((split_file_name (codes "Foo.1.esp")).0 ++ (split_file_name (codes "Foo.1.esp")).1
      ≡ codes "Foo.1.esp")
    × AreParts (split_file_name (codes "Foo.1.esp"))
split_file_name_example = split_file_name_lem (codes "Foo.1.esp")

split_file_name-append_example :
    split_file_name (codes "Foo.1" ++ dot ∷ codes "esp") ≡ (codes "Foo.1", dot ∷ codes "esp")
split_file_name-append_example =
    split_file_name-append (codes "Foo.1") (codes "esp") (λ e. omega (arith, ap length e)) refl
      (λ e. omega (arith, ap length e))

split_hidden : split_file_name (codes ".esp") ≡ (codes ".esp", [])
unfolding split_file_name
split_hidden = refl

split_trailing : split_file_name (codes "foo.") ≡ (codes "foo", codes ".")
unfolding split_file_name
split_trailing = refl

split_parent : split_file_name (codes "..") ≡ (codes "..", [])
unfolding split_file_name
split_parent = refl
