-- ===== src/Preload/Numerals.antt =====
-- Decimal numerals: different numbers have different ones, and they are short and hold no NUL.
use cs2640_final_project.Prelude.{
  ℕ, zero, suc, ◌+◌, ◌-◌, ◌*◌, ◌/◌, ◌%◌, ◌≤◌, ◌<◌, ◌≡◌, refl, ap, ◌∙◌, sym, false, [], ◌∷◌, ◌++◌,
  arith, length, length-append, replicate, has, has-append_false, ltb, Bool-cases, inl, inr, Bytes,
  nat_eq,
}
use cs2640_final_project.Prelude.Decimal.{decimal_digits}

-- reading a numeral back, after a number that was read before
abbrev pub read_from : ℕ → Bytes → ℕ
read_from n [] = n
read_from n (c ∷ cs) = read_from (n * 10 + (c - 48)) cs

read_from-append :
    (n : ℕ) (cs : Bytes) (c : ℕ) → read_from n (cs ++ c ∷ []) ≡ read_from n cs * 10 + (c - 48)
read_from-append n [] c = refl
read_from-append n (d ∷ cs) c = read_from-append (n * 10 + (d - 48)) cs c

-- the numbers that a fuel is enough for
abbrev pub limit : ℕ → ℕ
limit zero = 1
limit (suc fuel) = 10 * limit fuel

pub read-decimal_digits : (fuel n : ℕ) → n < limit fuel → read_from 0 (decimal_digits fuel n) ≡ n
unfolding decimal_digits
read-decimal_digits zero n h = omega arith
read-decimal_digits (suc fuel) n h = elim (Bool-cases (ltb n 10)) [
  | inl small ↦ rw small (omega arith)
  | inr big ↦
      let rest = read-decimal_digits fuel (n / 10) (omega arith) in
      rw (big, read_from-append 0 (decimal_digits fuel (n / 10)) (48 + n % 10), rest) (omega arith)
]

-- The numerals of different numbers below the limit of the digits are different.
pub decimal_digits_injective :
    (fuel m n : ℕ)
    → m < limit fuel
    → n < limit fuel
    → decimal_digits fuel m ≡ decimal_digits fuel n
    → m ≡ n
decimal_digits_injective fuel m n a b e =
    sym (read-decimal_digits fuel m a) ∙ ap (read_from 0) e ∙ read-decimal_digits fuel n b

pub decimal_digits-length : (fuel n : ℕ) → length (decimal_digits fuel n) ≤ fuel
unfolding decimal_digits
decimal_digits-length zero n = omega arith
decimal_digits-length (suc fuel) n =
    let rest = decimal_digits-length fuel (n / 10) in
    let whole = length-append (decimal_digits fuel (n / 10)) ((48 + n % 10) ∷ []) in ground arith

-- a byte below the digits does not occur
pub decimal_digits-has : (b fuel n : ℕ) → b < 48 → has b (decimal_digits fuel n) ≡ false
unfolding decimal_digits
decimal_digits-has b zero n a = refl
decimal_digits-has b (suc fuel) n a =
    let rest = decimal_digits-has b fuel (n / 10) a in
    let digit : has b ((48 + n % 10) ∷ []) ≡ false = ground (arith, a) in
    let whole = has-append_false b (decimal_digits fuel (n / 10)) ((48 + n % 10) ∷ []) rest digit in
    ground (arith, a)

-- leading zeros do not count
pub padded_injective :
    (fuel m n y z : ℕ)
    → m < limit fuel
    → n < limit fuel
    → replicate y 48 ++ decimal_digits fuel m ≡ replicate z 48 ++ decimal_digits fuel n
    → m ≡ n
padded_injective fuel m n y z a b e = sym (padded y m a) ∙ ap (read_from 0) e ∙ padded z n b
  where
    zeros : (x : ℕ) (cs : Bytes) → read_from 0 (replicate x 48 ++ cs) ≡ read_from 0 cs
    zeros zero cs = refl
    zeros (suc x) cs = zeros x cs

    padded : (x k : ℕ) → k < limit fuel → read_from 0 (replicate x 48 ++ decimal_digits fuel k) ≡ k
    padded x k l = zeros x (decimal_digits fuel k) ∙ read-decimal_digits fuel k l
