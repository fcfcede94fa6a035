-- ===== src/Client/Benchmark/Sampling.antt =====
-- `build_zipf_cdf` and `sample_key` of src/client/rdma_client.cpp. Floating-point arithmetic is the
-- parameter `Floats`; the number that the generator draws is an argument.
pub mod Quantile
use cs2640_final_project.Prelude.{
  ℕ, zero, suc, ◌+◌, ◌-◌, ◌/◌, Bool, true, false, List, [], ◌∷◌, ◌==◌, nat_eq, if◌then◌else◌,
  length, get_or, replicate,
}

pub record Floats : Type 1 where
  pub D : Type 0
  pub nought : D
  pub unit : D
  pub plus : D → D → D
  pub over : D → D → D
  pub pow : D → D → D
  pub of_size : ℕ → D
  pub below : D → D → Bool

module _ (f : Floats) where
  open f use {D, plus, over, pow, of_size, below}

  -- `1.0 / std::pow(static_cast<double>(i + 1), s)`
  unfoldable pub weight : ℕ → D → D
  weight i s = over f.unit (pow (of_size (i + 1)) s)

  unfoldable pub total_weight : ℕ → ℕ → D → D → D
  unfolding weight
  total_weight zero i s total = total
  total_weight (suc rounds) i s total = total_weight rounds (i + 1) s (plus total (weight i s))

  -- the entries from `i` on; the last one of all becomes 1.0
  unfoldable pub cumulate : ℕ → ℕ → D → D → D → List D
  unfolding weight
  cumulate zero i s total cumulative = []
  cumulate (suc zero) i s total cumulative = f.unit ∷ []
  cumulate (suc (suc rounds)) i s total cumulative =
      let next = plus cumulative (over (weight i s) total) in
      next ∷ cumulate (suc rounds) (i + 1) s total next

  unfoldable pub build_zipf_cdf : ℕ → D → List D
  unfolding total_weight cumulate
  build_zipf_cdf key_count s = cumulate key_count 0 s (total_weight key_count 0 s f.nought) f.nought

  -- One round of `std::lower_bound`, which halves the range of `len` entries from `first` on.
  unfoldable pub halve : List D → D → ℕ → ℕ → ℕ × ℕ
  halve xs sample first len =
      let half = len / 2 in
      if below (get_or xs (first + half) f.nought) sample
      then (first + half + 1, len - half - 1)
      else (first, half)

  -- `while (len > 0)`; `rounds` is fuel
  unfoldable pub lower_bound_loop : ℕ → List D → D → ℕ × ℕ → ℕ
  unfolding halve
  lower_bound_loop zero xs sample range = range.0
  lower_bound_loop (suc rounds) xs sample range =
      let rest = lower_bound_loop rounds xs sample (halve xs sample range.0 range.1) in
      if range.1 == 0 then range.0 else rest

  -- A range of `len` entries is empty after `len` rounds at most.
  unfoldable pub lower_bound : List D → D → ℕ
  unfolding lower_bound_loop
  lower_bound xs sample = lower_bound_loop (length xs) xs sample (0, length xs)

  unfoldable pub sample_key : List D → D → ℕ
  unfolding lower_bound
  sample_key [] sample = 0
  sample_key (x ∷ xs) sample =
      let it = lower_bound (x ∷ xs) sample in
      if it == length (x ∷ xs) then length (x ∷ xs) - 1 else it
