-- ===== src/Arguments/Numbers.antt =====
-- A numeral is read back as the number that it stands for.
use cs2640_final_project.Prelude.{
  ℕ, zero, suc, ◌+◌, ◌-◌, ◌*◌, ◌/◌, ◌%◌, ◌^◌, ◌≤◌, ◌<◌, ◌≡◌, refl, ap, ◌∙◌, true, false, some, [],
  ◌∷◌, ltb, leb, ◌==◌, nat_eq, arith, length, length-append, All, All-append, Bool-cases, inl, inr,
  Bytes,
}
use cs2640_final_project.Prelude.Decimal.{decimal, decimal_digits}
use cs2640_final_project.Preload.Numerals.{read_from, read-decimal_digits}
use cs2640_final_project.Protocol.{is_space}
use cs2640_final_project.Arguments.{
  is_digit, skip_space, read_digits, magnitude, read_sign, stoi, stoul, to_port,
}

abbrev IsDigit : ℕ → Type 0
IsDigit c = (48 ≤ c) × (c ≤ 57)

decimal_digits-IsDigit : (fuel n : ℕ) → All IsDigit (decimal_digits fuel n)
unfolding decimal_digits
decimal_digits-IsDigit zero n = tt
decimal_digits-IsDigit (suc fuel) n = elim (Bool-cases (ltb n 10)) [
  | inl e ↦ rw e ((omega arith, ground (arith, e)), tt)
  | inr e ↦ rw e (
      All-append IsDigit (decimal_digits fuel (n / 10)) _ (decimal_digits-IsDigit fuel (n / 10))
        ((omega arith, omega arith), tt))
]

read_digits-read_from : (n : ℕ) (cs : Bytes) → All IsDigit cs → read_digits n cs ≡ read_from n cs
unfolding read_digits
read_digits-read_from n [] h = refl
read_digits-read_from n (c ∷ cs) h =
    let digit : is_digit c ≡ true = let a = h.0 in unfold is_digit in ground (arith, a) in
    rw digit (read_digits-read_from (n * 10 + (c - 48)) cs h.1)

read_sign-digits :
    (c : ℕ) (cs : Bytes)
    → All IsDigit (c ∷ cs)
    → read_sign (skip_space (c ∷ cs)) ≡ some (false, read_from 0 (c ∷ cs))
unfolding read_sign skip_space magnitude
read_sign-digits c cs h =
    let a = h.0 in
    let digit : is_digit c ≡ true = unfold is_digit in ground (arith, a) in
    let solid : is_space c ≡ false = unfold is_space in ground (arith, a) in
    let plain : (c == 45) ≡ false = ground (arith, a) in
    let bare : (c == 43) ≡ false = ground (arith, a) in
    let value : read_digits (c - 48) cs ≡ read_from 0 (c ∷ cs) =
      read_digits-read_from (c - 48) cs h.1 ∙ ap (λ n. read_from n cs) (omega arith) in
    rw (solid, read_sign, plain, bare, digit, value) refl

digits_read :
    (ds : Bytes)
    → All IsDigit ds
    → 0 < length ds
    → read_sign (skip_space ds) ≡ some (false, read_from 0 ds)
digits_read [] h p = absurd (omega (arith, p))
digits_read (c ∷ cs) h p = read_sign-digits c cs h

decimal_digits_pos : (fuel n : ℕ) → 0 < length (decimal_digits (suc fuel) n)
unfolding decimal_digits
decimal_digits_pos fuel n =
    let whole = length-append (decimal_digits fuel (n / 10)) ((48 + n % 10) ∷ []) in ground arith

read_sign-decimal : (n : ℕ) → n < 2 ^ 64 → read_sign (skip_space (decimal n)) ≡ some (false, n)
read_sign-decimal n h =
    digits_read (decimal n) (decimal_digits-IsDigit 20 n) (decimal_digits_pos 19 n)
    ∙ ap (λ m. some (false, m)) (read-decimal_digits 20 n (omega (arith, h)))

pub stoul-decimal : (n : ℕ) → n < 2 ^ 64 → stoul (decimal n) ≡ some n
unfolding stoul
stoul-decimal n h =
    let small : ltb n (2 ^ 64) ≡ true = ground (arith, h) in rw (read_sign-decimal n h, small) refl

pub stoi-decimal : (n : ℕ) → n < 2147483648 → stoi (decimal n) ≡ some (false, n)
unfolding stoi
stoi-decimal n h =
    let small : leb n 2147483647 ≡ true = ground (arith, h) in
    rw (read_sign-decimal n (omega (arith, h)), small) refl

pub to_port-small : (n : ℕ) → n < 65536 → to_port (false, n) ≡ n
unfolding to_port
to_port-small n h = omega (arith, h)
