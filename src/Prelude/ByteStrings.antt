-- ===== src/Prelude/ByteStrings.antt =====
-- Byte strings: `std::string` and `std::string_view` are lists of byte values.
use Prim.Native.Nat.{ℕ}
use Prim.Native.Char.{code}
use Prim.Native.String.{String}
use mathlib.Core.Bool.{Bool, false, ◌||◌}
use mathlib.Core.List.{List, [], ◌∷◌, ◌++◌}
use mathlib.Core.Path.{◌≡◌}
use native.Mathlib.Omega.{arith}
use cs2640_final_project.Prelude.Equality.{◌==◌, nat_eq}

abbrev pub Bytes : Type 0
Bytes = List ℕ

-- The bytes of a literal, which is ASCII here.
abbrev pub bytes : String → Bytes
bytes String.[] = []
bytes (String.◌∷◌ c s) = code c ∷ bytes s

abbrev pub has : ℕ → Bytes → Bool
has b [] = false
has b (c ∷ cs) = c == b || has b cs

pub has-append_false :
    (b : ℕ) (xs ys : Bytes) → has b xs ≡ false → has b ys ≡ false → has b (xs ++ ys) ≡ false
has-append_false b [] ys h k = k
has-append_false b (c ∷ cs) ys h k = ground (arith, has-append_false b cs ys)
