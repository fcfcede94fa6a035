-- ===== src/Tests/Sampling.antt =====
-- The key that a drawn number stands for, where whole numbers stand for floating-point ones.
use cs2640_final_project.Prelude.{
  ℕ, ◌+◌, ◌*◌, ◌/◌, ◌<◌, ◌≡◌, refl, true, false, [], ◌∷◌, arith, ltb, length, get_or, take, All,
  nat_eq,
}
use cs2640_final_project.Client.Benchmark.Sampling.{
  Floats, weight, total_weight, cumulate, build_zipf_cdf, halve, lower_bound_loop, lower_bound,
  sample_key,
}
use cs2640_final_project.Client.Benchmark.Sampling.Quantile.{IsPartitioned, sample_key-IsFirst}

-- 1000 is one, and `over` keeps three digits
abbrev pub thousandths : Floats
thousandths = record {
  D = ℕ;
  nought = 0;
  unit = 1000;
  plus = λ a b. a + b;
  over = λ a b. a * 1000 / b;
  pow = λ a s. a;
  of_size = λ n. n * 1000;
  below = λ a b. ltb a b;
}

-- weights 1, 1/2 and 1/3
cdf_run :
    (build_zipf_cdf thousandths 3 1000 ≡ 545 ∷ 817 ∷ 1000 ∷ [])
    × (sample_key thousandths (build_zipf_cdf thousandths 3 1000) 600 ≡ 1)
    × (sample_key thousandths (build_zipf_cdf thousandths 3 1000) 1001 ≡ 2)
unfolding build_zipf_cdf total_weight cumulate weight sample_key lower_bound lower_bound_loop halve
cdf_run = (refl, refl, refl)

cdf-IsPartitioned : IsPartitioned thousandths (build_zipf_cdf thousandths 3 1000) 600
unfolding build_zipf_cdf total_weight cumulate weight
cdf-IsPartitioned = (1, omega arith, (refl, tt), (refl, (refl, tt)))

sample_key-IsFirst_example :
    let cdf = build_zipf_cdf thousandths 3 1000 in
    let key = sample_key thousandths cdf 600 in
    (length cdf ≡ 3)
    × (key < 3)
    × (ltb (get_or cdf key 0) 600 ≡ false)
    × All (λ (x : ℕ). ltb x 600 ≡ true) (take key cdf)
sample_key-IsFirst_example =
    sample_key-IsFirst thousandths 3 1000 600 (omega arith) refl cdf-IsPartitioned
