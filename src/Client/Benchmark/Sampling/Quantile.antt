-- ===== src/Client/Benchmark/Sampling/Quantile.antt =====
-- `sample_key` inverts the cumulated weights.
use cs2640_final_project.Prelude.{
  ℕ, zero, suc, ◌+◌, ◌/◌, ◌≤◌, ◌<◌, ◌≡◌, refl, ap, ◌∙◌, true, false, List, [], ◌∷◌, ◌==◌, ==_ne,
  nat_eq, arith, length, get_or, take, drop, All, ltb, Bool-cases, inl, inr,
}
use cs2640_final_project.Client.Benchmark.Sampling.{
  Floats, cumulate, build_zipf_cdf, halve, lower_bound_loop, lower_bound, sample_key,
}

module _ (f : Floats) where
  open f use {D, below}

  cumulate-length :
      (rounds i : ℕ) (s total cumulative : D)
      → length (cumulate f rounds i s total cumulative) ≡ rounds
  unfolding cumulate
  cumulate-length zero i s total cumulative = refl
  cumulate-length (suc zero) i s total cumulative = refl
  cumulate-length (suc (suc rounds)) i s total cumulative =
      ap suc (cumulate-length (suc rounds) (i + 1) s total _)

  cumulate-last :
      (rounds i : ℕ) (s total cumulative d : D)
      → get_or (cumulate f (suc rounds) i s total cumulative) rounds d ≡ f.unit
  unfolding cumulate
  cumulate-last zero i s total cumulative d = refl
  cumulate-last (suc rounds) i s total cumulative d = cumulate-last rounds (i + 1) s total _ d

  -- What `std::lower_bound` asks for: the entries that are below the number stand first.
  abbrev pub IsPartitioned : List D → D → Type 0
  IsPartitioned xs sample =
      (k : ℕ) × (k ≤ length xs)
      × All (λ x. below x sample ≡ true) (take k xs)
      × All (λ x. below x sample ≡ false) (drop k xs)

  take-entry :
      (P : D → Type 0) (xs : List D) (k i : ℕ) (d : D)
      → All P (take k xs)
      → i < k
      → i < length xs
      → P (get_or xs i d)
  take-entry P [] k i d h a b = absurd (omega (arith, b))
  take-entry P (x ∷ xs) zero i d h a b = absurd (omega (arith, a))
  take-entry P (x ∷ xs) (suc k) zero d h a b = h.0
  take-entry P (x ∷ xs) (suc k) (suc i) d h a b =
      take-entry P xs k i d h.1 (omega (arith, a)) (omega (arith, b))

  drop-entry :
      (P : D → Type 0) (xs : List D) (k i : ℕ) (d : D)
      → All P (drop k xs)
      → k ≤ i
      → i < length xs
      → P (get_or xs i d)
  drop-entry P [] k i d h a b = absurd (omega (arith, b))
  drop-entry P (x ∷ xs) zero zero d h a b = h.0
  drop-entry P (x ∷ xs) zero (suc i) d h a b =
      drop-entry P xs zero i d h.1 (omega arith) (omega (arith, b))
  drop-entry P (x ∷ xs) (suc k) zero d h a b = absurd (omega (arith, a))
  drop-entry P (x ∷ xs) (suc k) (suc i) d h a b =
      drop-entry P xs k i d h (omega (arith, a)) (omega (arith, b))

  sample_key-lower_bound :
      (xs : List D) (sample : D)
      → lower_bound f xs sample < length xs
      → sample_key f xs sample ≡ lower_bound f xs sample
  unfolding sample_key
  sample_key-lower_bound [] sample h = absurd (omega (arith, h))
  sample_key-lower_bound (x ∷ xs) sample h =
      let e : (lower_bound f (x ∷ xs) sample == length (x ∷ xs)) ≡ false =
        ==_ne {A = ℕ} _ _ (λ e. omega (arith, e, h)) in
      rw e refl

  module _ (xs : List D) (sample : D) where
    -- A round keeps within the range and makes it shorter.
    halve_shorter :
        (first len : ℕ)
        → (len == 0) ≡ false
        → let r = halve f xs sample first len in (r.0 + r.1 ≤ first + len) × (r.1 < len)
    unfolding halve
    halve_shorter first len e = ground (arith, e)

    module _ (k : ℕ) (inside : k ≤ length xs)
        (before : All (λ x. below x sample ≡ true) (take k xs))
        (after : All (λ x. below x sample ≡ false) (drop k xs)) where
      entry_below : (i : ℕ) → i < length xs → below (get_or xs i f.nought) sample ≡ true → i < k
      entry_below i h e = elim (Bool-cases (ltb i k)) [
        | inl a ↦ ground (arith, a)
        | inr a ↦
            let no : below (get_or xs i f.nought) sample ≡ false =
              drop-entry (λ x. below x sample ≡ false) xs k i f.nought after (ground (arith, a))
                h in
            absurd (cc)
      ]

      entry_not_below :
          (i : ℕ) → i < length xs → below (get_or xs i f.nought) sample ≡ false → k ≤ i
      entry_not_below i h e = elim (Bool-cases (ltb i k)) [
        | inr a ↦ ground (arith, a)
        | inl a ↦
            let yes : below (get_or xs i f.nought) sample ≡ true =
              take-entry (λ x. below x sample ≡ true) xs k i f.nought before (ground (arith, a))
                h in
            absurd (cc)
      ]

      -- A round keeps the place where the entries stop being below within the range.
      halve_keeps :
          (first len : ℕ)
          → (len == 0) ≡ false
          → first ≤ k
          → k ≤ first + len
          → first + len ≤ length xs
          → let r = halve f xs sample first len in (r.0 ≤ k) × (k ≤ r.0 + r.1)
      unfolding halve
      halve_keeps first len e a b c =
          let half = len / 2 in
          let here : first + half < length xs = ground (arith, e, c) in
          elim (Bool-cases (below (get_or xs (first + half) f.nought) sample)) [
            | inl h ↦ rw h (ground (arith, e, b, entry_below (first + half) here h))
            | inr h ↦ rw h (a, entry_not_below (first + half) here h)
          ]

      lower_bound_loop-finds :
          (rounds first len : ℕ)
          → len ≤ rounds
          → first ≤ k
          → k ≤ first + len
          → first + len ≤ length xs
          → lower_bound_loop f rounds xs sample (first, len) ≡ k
      unfolding lower_bound_loop
      lower_bound_loop-finds zero first len h a b c = omega (arith, h, a, b)
      lower_bound_loop-finds (suc rounds) first len h a b c = elim (Bool-cases (len == 0)) [
        | inl e ↦ rw e (ground (arith, e, a, b))
        | inr e ↦
            let r = halve f xs sample first len in
            let (small, shorter) = halve_shorter first len e in
            let (low, high) = halve_keeps first len e a b c in
            rw e (
              lower_bound_loop-finds rounds r.0 r.1 (omega (arith, h, shorter)) low high
                (omega (arith, small, c)))
      ]

      -- the search finds the place, however the halves fall
      lower_bound-finds : lower_bound f xs sample ≡ k
      unfolding lower_bound
      lower_bound-finds =
          lower_bound_loop-finds (length xs) 0 (length xs) (omega arith) (omega arith)
            (omega (arith, inside)) (omega arith)

  -- Where there is a key, the cumulated weights are partitioned by the drawn number, as `std::lower_bound`
  -- demands, and the number is not above 1.0, the halving search of `std::lower_bound` finds the first key
  -- whose cumulated weight is not below the number.
  pub sample_key-IsFirst :
      (key_count : ℕ) (s sample : D)
      → 0 < key_count
      → below f.unit sample ≡ false
      → IsPartitioned (build_zipf_cdf f key_count s) sample
      → let cdf = build_zipf_cdf f key_count s in
        let key = sample_key f cdf sample in
        (length cdf ≡ key_count)
        × (key < key_count)
        × (below (get_or cdf key f.nought) sample ≡ false)
        × All (λ x. below x sample ≡ true) (take key cdf)
  unfolding build_zipf_cdf
  sample_key-IsFirst zero s sample h e split = absurd (omega (arith, h))
  sample_key-IsFirst (suc n) s sample h e (k, inside, before, after) =
      let cdf = build_zipf_cdf f (suc n) s in
      let len : length cdf ≡ suc n = cumulate-length (suc n) 0 s _ _ in
      let last : below (get_or cdf n f.nought) sample ≡ false =
        ap (λ x. below x sample) (cumulate-last n 0 s _ _ f.nought) ∙ e in
      let k_small = entry_not_below cdf sample k inside before after n (omega (arith, len)) last in
      let found = lower_bound-finds cdf sample k inside before after in
      let key : sample_key f cdf sample ≡ k =
        sample_key-lower_bound cdf sample (omega (arith, found, k_small, len)) ∙ found in
      rw key (
        len,
        omega (arith, k_small),
        drop-entry (λ x. below x sample ≡ false) cdf k k f.nought after (omega arith)
            (omega (arith, k_small, len)),
        before,
      )
