-- ===== src/Client/Benchmark/TwoSided/Texts.antt =====
-- The keys and values of the two-sided benchmark are such that a SET line takes them.
use cs2640_final_project.Prelude.{
  ℕ, zero, suc, ◌+◌, ◌-◌, ◌/◌, ◌%◌, ◌^◌, ◌≤◌, ◌<◌, ◌≡◌, refl, ap, true, false, [], ◌∷◌, ◌++◌, arith,
  length, length-append, length-replicate, replicate, has, has-append_false, ltb, Bool-cases, inl,
  inr, drop, Bytes, bytes,
}
use cs2640_final_project.Prelude.Decimal.{decimal, decimal_digits}
use cs2640_final_project.Preload.Numerals.{
  decimal_digits-has, decimal_digits-length, padded_injective,
}
use cs2640_final_project.Protocol.Trim.{ends_ink, ends_ink-append}
use cs2640_final_project.Protocol.Parse.{IsKey, IsValue}
use cs2640_final_project.Client.Benchmark.TwoSided.{
  make_benchmark_key, value_from, make_value, set_command,
}

zeros-has : (n : ℕ) → has 32 (replicate n 48) ≡ false
zeros-has zero = refl
zeros-has (suc n) = zeros-has n

digits-ends : (fuel n : ℕ) → ends_ink (decimal_digits (suc fuel) n) ≡ true
unfolding decimal_digits
digits-ends fuel n = elim (Bool-cases (ltb n 10)) [
  | inl small ↦ rw small (ground arith)
  | inr big ↦
      rw big (ends_ink-append (decimal_digits fuel (n / 10)) ((48 + n % 10) ∷ []) (ground arith))
]

abbrev padding : ℕ → Bytes
padding i = replicate (8 - length (decimal i)) 48

pub make_benchmark_key-IsKey : (i : ℕ) → IsKey (make_benchmark_key i)
make_benchmark_key-IsKey i = record {
  starts = refl;
  one_word = has-append_false 32 (bytes "key_") (padding i ++ decimal i) refl (
      has-append_false 32 (padding i) (decimal i) (zeros-has (8 - length (decimal i)))
        (decimal_digits-has 32 20 i (omega arith)));
}

make_benchmark_key-length : (i : ℕ) → length (make_benchmark_key i) ≤ 24
make_benchmark_key-length i = omega (
  arith,
  length-append (bytes "key_") (padding i ++ decimal i),
  length-append (padding i) (decimal i),
  length-replicate {A = ℕ} (8 - length (decimal i)) 48,
  decimal_digits-length 20 i,
)

pub make_benchmark_key_injective :
    (i j : ℕ) → i < 2 ^ 64 → j < 2 ^ 64 → make_benchmark_key i ≡ make_benchmark_key j → i ≡ j
make_benchmark_key_injective i j a b e =
    padded_injective 20 i j (8 - length (decimal i)) (8 - length (decimal j)) (omega (arith, a))
      (omega (arith, b)) (ap (drop 4) e)

value_from-ends : (size i seed : ℕ) → ends_ink (value_from (suc size) i seed) ≡ true
unfolding value_from
value_from-ends zero i seed = ground arith
value_from-ends (suc size) i seed = value_from-ends size (i + 1) seed

pub make_value-IsValue : (size seed : ℕ) → 0 < size → IsValue (make_value size seed)
unfolding value_from
make_value-IsValue zero seed a = absurd (omega (arith, a))
make_value-IsValue (suc size) seed a = record {
  starts = ground arith;
  ends = value_from-ends size 0 seed;
}

value_from-length : (size i seed : ℕ) → length (value_from size i seed) ≡ size
unfolding value_from
value_from-length zero i seed = refl
value_from-length (suc size) i seed = omega (arith, value_from-length size (i + 1) seed)

pub set_command-length : (i size seed : ℕ) → length (set_command i size seed) ≤ 29 + size
set_command-length i size seed = omega (
  arith,
  length-append (bytes "SET ") (make_benchmark_key i ++ (bytes " " ++ make_value size seed)),
  length-append (make_benchmark_key i) (bytes " " ++ make_value size seed),
  length-append (bytes " ") (make_value size seed),
  make_benchmark_key-length i,
  value_from-length size 0 seed,
)
