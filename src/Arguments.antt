-- ===== src/Arguments.antt =====
-- The command lines: `main` of src/client/rdma_client.cpp and of src/server/rdma_main.cpp. Here is what
-- `std::stoi` and `std::stoul` read; `none` stands for the exception that they throw, which ends the
-- program.
pub mod Numbers
pub mod Client
pub mod Server
pub mod Tcp
use cs2640_final_project.Prelude.{
  ℕ, ◌+◌, ◌-◌, ◌*◌, ◌%◌, ◌^◌, Bool, true, false, ◌&&◌, Option, none, some, [], ◌∷◌, leb, ltb, ◌==◌,
  nat_eq, if◌then◌else◌, Bytes,
}
use cs2640_final_project.Protocol.{is_space}

unfoldable pub is_digit : ℕ → Bool
is_digit c = leb 48 c && leb c 57

unfoldable pub skip_space : Bytes → Bytes
unfolding is_space
skip_space [] = []
skip_space (c ∷ cs) = if is_space c then skip_space cs else c ∷ cs

-- the digits that follow, up to another character
unfoldable pub read_digits : ℕ → Bytes → ℕ
unfolding is_digit
read_digits n [] = n
read_digits n (c ∷ cs) = if is_digit c then read_digits (n * 10 + (c - 48)) cs else n

unfoldable pub magnitude : Bytes → Option ℕ
unfolding is_digit read_digits
magnitude [] = none
magnitude (c ∷ cs) = if is_digit c then some (read_digits (c - 48) cs) else none

-- a sign, true where it is `-`, and a magnitude
abbrev pub with_sign : Bool → Option ℕ → Option (Bool × ℕ)
with_sign negative none = none
with_sign negative (some n) = some (negative, n)

unfoldable pub read_sign : Bytes → Option (Bool × ℕ)
unfolding magnitude
read_sign [] = none
read_sign (c ∷ cs) =
    if c == 45
    then with_sign true (magnitude cs)
    else if c == 43
    then with_sign false (magnitude cs)
    else with_sign false (magnitude (c ∷ cs))

-- `std::stoi`: an `int`, as its sign and its magnitude
abbrev pub in_int : Option (Bool × ℕ) → Option (Bool × ℕ)
in_int none = none
in_int (some (negative, n)) =
    if leb n (if negative then 2147483648 else 2147483647) then some (negative, n) else none

unfoldable pub stoi : Bytes → Option (Bool × ℕ)
unfolding skip_space read_sign
stoi s = in_int (read_sign (skip_space s))

-- `std::stoul`, which negates in 64 bits
abbrev pub in_size : Option (Bool × ℕ) → Option ℕ
in_size none = none
in_size (some (negative, n)) =
    if ltb n (2 ^ 64) then some (if negative then (2 ^ 64 - n) % 2 ^ 64 else n) else none

unfoldable pub stoul : Bytes → Option ℕ
unfolding skip_space read_sign
stoul s = in_size (read_sign (skip_space s))

-- `static_cast<uint16_t>`
unfoldable pub to_port : Bool × ℕ → ℕ
to_port (negative, n) = if negative then (65536 - n % 65536) % 65536 else n % 65536
