-- ===== src/Prelude/Decimal.antt =====
-- `std::to_string` of an unsigned number, and what streams print for it.
use Prim.Native.Nat.{ℕ, zero, suc, ◌+◌, ◌/◌, ◌%◌}
use mathlib.Core.List.{List, [], ◌∷◌, ◌++◌}
use cs2640_final_project.Prelude.Tests.{ltb, if◌then◌else◌}

unfoldable pub decimal_digits : ℕ → ℕ → List ℕ
decimal_digits zero n = []
decimal_digits (suc fuel) n =
    let rest = decimal_digits fuel (n / 10) in
    if ltb n 10 then (48 + n) ∷ [] else rest ++ (48 + n % 10) ∷ []

-- Twenty digits are enough for 64 bits.
abbrev pub decimal : ℕ → List ℕ
decimal n = decimal_digits 20 n
