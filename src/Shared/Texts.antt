-- ===== src/Shared/Texts.antt =====
-- Texts as lists of code points (an `OsStr` may hold lone surrogates), with the ASCII case folding
-- and the tests of `char` and `str` that the program calls.
use Prim.Native.Nat.{ℕ, ◌+◌}
use Prim.Native.Char.{code}
use Prim.Native.String.{String}
use mathlib.Core.Path.{◌≡◌, refl, ap₂}
use mathlib.Core.Logic.{◌↔◌}
use mathlib.Core.Bool.{Bool, true, false, ◌&&◌, ◌||◌}
use mathlib.Core.List.{List, [], ◌∷◌, map}
use native.Mathlib.Omega.{arith}
use cao.Shared.Tests.{ltb, leb, ◌==◌, if◌then◌else◌}
use cao.Shared.Lists.{all}

abbrev pub Text : Type 0
Text = List ℕ

abbrev pub codes : String → Text
codes String.[] = []
codes (String.◌∷◌ c s) = code c ∷ codes s

unfoldable pub text_eq : Text → Text → Bool
text_eq [] [] = true
text_eq (x ∷ xs) (y ∷ ys) = x == y && text_eq xs ys
text_eq _ _ = false

pub text_eq_iff : (a b : Text) → (text_eq a b ≡ true) ↔ (a ≡ b)
unfolding text_eq
text_eq_iff (x ∷ a) (y ∷ b) = ground (arith, text_eq_iff a b)
text_eq_iff _ _ = ground arith

pub text_eq_self : (a : Text) → text_eq a a ≡ true
text_eq_self a = (text_eq_iff a a).1 refl

unfoldable pub is_ascii : ℕ → Bool
is_ascii c = ltb c 128

unfoldable pub to_ascii_lowercase : ℕ → ℕ
to_ascii_lowercase c = if leb b'A' c && leb c b'Z' then c + 32 else c

unfoldable pub is_ascii_alphanumeric : ℕ → Bool
is_ascii_alphanumeric c =
    (leb b'0' c && leb c b'9') || (leb b'a' c && leb c b'z') || (leb b'A' c && leb c b'Z')

unfoldable pub lowercase : Text → Text
unfolding to_ascii_lowercase
lowercase = map to_ascii_lowercase

pub lowercase_idem : (t : Text) → lowercase (lowercase t) ≡ lowercase t
unfolding lowercase
lowercase_idem [] = refl
lowercase_idem (c ∷ t) = ap₂ ◌∷◌ (fold c) (lowercase_idem t)
  where
    fold : (c : ℕ) → to_ascii_lowercase (to_ascii_lowercase c) ≡ to_ascii_lowercase c
    fold c = ground arith

-- A text holds only ASCII exactly if its folding does.
pub all-is_ascii-lowercase : (t : Text) → all is_ascii (lowercase t) ≡ all is_ascii t
unfolding lowercase is_ascii
all-is_ascii-lowercase [] = refl
all-is_ascii-lowercase (c ∷ t) = ap₂ ◌&&◌ (fold c) (all-is_ascii-lowercase t)
  where
    fold : (c : ℕ) → is_ascii (to_ascii_lowercase c) ≡ is_ascii c
    fold c = ground arith
