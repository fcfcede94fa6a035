-- ===== src/Client/Benchmark/Statistics/Ranks.antt =====
-- The percentiles have the ranks that they stand for.
use cs2640_final_project.Prelude.{
  ℕ, zero, suc, ◌+◌, ◌-◌, ◌≤◌, ◌<◌, ◌≡◌, refl, ap, ◌∙◌, Bool, true, false, List, [], ◌∷◌, arith,
  leb, length, get_or, All, Bool-cases, inl, inr,
}
use cs2640_final_project.Client.Benchmark.Statistics.{
  insert_sorted, sort, percentile_index, percentile, percentiles,
}

abbrev pub one_if : Bool → ℕ
one_if true = 1
one_if false = 0

-- how many numbers pass a test
abbrev pub count : (ℕ → Bool) → List ℕ → ℕ
count test [] = 0
count test (x ∷ xs) = one_if (test x) + count test xs

abbrev IsSorted : List ℕ → Type 0
IsSorted [] = Unit
IsSorted (x ∷ xs) = All (λ y. x ≤ y) xs × IsSorted xs

count-insert_sorted :
    (test : ℕ → Bool) (x : ℕ) (xs : List ℕ)
    → count test (insert_sorted x xs) ≡ one_if (test x) + count test xs
unfolding insert_sorted
count-insert_sorted test x [] = refl
count-insert_sorted test x (y ∷ ys) = elim (Bool-cases (leb x y)) [
  | inl e ↦ rw e
  | inr e ↦ rw e (omega (arith, count-insert_sorted test x ys))
]

pub count-sort : (test : ℕ → Bool) (xs : List ℕ) → count test (sort xs) ≡ count test xs
unfolding sort
count-sort test [] = refl
count-sort test (x ∷ xs) =
    count-insert_sorted test x (sort xs) ∙ ap (λ n. one_if (test x) + n) (count-sort test xs)

length-insert_sorted : (x : ℕ) (xs : List ℕ) → length (insert_sorted x xs) ≡ suc (length xs)
unfolding insert_sorted
length-insert_sorted x [] = refl
length-insert_sorted x (y ∷ ys) = ground (arith, length-insert_sorted x ys)

pub length-sort : (xs : List ℕ) → length (sort xs) ≡ length xs
unfolding sort
length-sort [] = refl
length-sort (x ∷ xs) = length-insert_sorted x (sort xs) ∙ ap suc (length-sort xs)

insert_sorted-All :
    (m x : ℕ) (xs : List ℕ) → m ≤ x → All (λ y. m ≤ y) xs → All (λ y. m ≤ y) (insert_sorted x xs)
unfolding insert_sorted
insert_sorted-All m x [] a h = (a, tt)
insert_sorted-All m x (y ∷ ys) a h = elim (Bool-cases (leb x y)) [
  | inl e ↦ rw e (a, h)
  | inr e ↦ rw e (h.0, insert_sorted-All m x ys a h.1)
]

All-weaker : (m n : ℕ) (xs : List ℕ) → m ≤ n → All (λ y. n ≤ y) xs → All (λ y. m ≤ y) xs
All-weaker m n [] a h = tt
All-weaker m n (x ∷ xs) a h = (omega (arith, h.0), All-weaker m n xs a h.1)

insert_sorted-IsSorted : (x : ℕ) (xs : List ℕ) → IsSorted xs → IsSorted (insert_sorted x xs)
unfolding insert_sorted
insert_sorted-IsSorted x [] h = (tt, tt)
insert_sorted-IsSorted x (y ∷ ys) h = elim (Bool-cases (leb x y)) [
  | inl e ↦ let a : x ≤ y = ground (arith, e) in rw e ((a, All-weaker x y ys a h.0), h)
  | inr e ↦ rw e (insert_sorted-All y x ys (ground (arith, e)) h.0, insert_sorted-IsSorted x ys h.1)
]

sort-IsSorted : (xs : List ℕ) → IsSorted (sort xs)
unfolding sort
sort-IsSorted [] = tt
sort-IsSorted (x ∷ xs) = insert_sorted-IsSorted x (sort xs) (sort-IsSorted xs)

get_or-All : (m : ℕ) (xs : List ℕ) (i : ℕ) → All (λ y. m ≤ y) xs → i < length xs → m ≤ get_or xs i 0
get_or-All m [] i h lt = absurd (omega (arith, lt))
get_or-All m (x ∷ xs) zero h lt = h.0
get_or-All m (x ∷ xs) (suc i) h lt = get_or-All m xs i h.1 (omega (arith, lt))

-- In a sorted list the numbers grow with the index.
get_or_mono :
    (xs : List ℕ) (i j : ℕ) → IsSorted xs → i ≤ j → j < length xs → get_or xs i 0 ≤ get_or xs j 0
get_or_mono [] i j h a lt = absurd (omega (arith, lt))
get_or_mono (x ∷ xs) zero zero h a lt = omega arith
get_or_mono (x ∷ xs) zero (suc j) h a lt = get_or-All x xs j h.0 (omega (arith, lt))
get_or_mono (x ∷ xs) (suc i) zero h a lt = absurd (omega (arith, a))
get_or_mono (x ∷ xs) (suc i) (suc j) h a lt =
    get_or_mono xs i j h.1 (omega (arith, a)) (omega (arith, lt))

-- and at least `i + 1` of them are not above the one at `i`, `n - i` not below it.
rank_below :
    (xs : List ℕ) (i : ℕ) → IsSorted xs → i < length xs → i < count (λ y. leb y (get_or xs i 0)) xs
rank_below [] i h lt = absurd (omega (arith, lt))
rank_below (x ∷ xs) zero h lt = ground arith
rank_below (x ∷ xs) (suc i) h lt =
    let rest = rank_below xs i h.1 (omega (arith, lt)) in
    let first = get_or-All x xs i h.0 (omega (arith, lt)) in ground (arith, rest, first)

count-All : (m : ℕ) (xs : List ℕ) → All (λ y. m ≤ y) xs → count (λ y. leb m y) xs ≡ length xs
count-All m [] h = refl
count-All m (x ∷ xs) h = let rest = count-All m xs h.1 in let a = h.0 in ground (arith, rest, a)

rank_above :
    (xs : List ℕ) (i : ℕ)
    → IsSorted xs
    → i < length xs
    → length xs ≤ i + count (λ y. leb (get_or xs i 0) y) xs
rank_above [] i h lt = absurd (omega (arith, lt))
rank_above (x ∷ xs) zero h lt = let rest = count-All x xs h.0 in ground (arith, rest)
rank_above (x ∷ xs) (suc i) h lt =
    let rest = rank_above xs i h.1 (omega (arith, lt)) in ground (arith, rest)

-- `p` is a number of rank `i`: more than `i` of the latencies are not above it, and all but `i` of them
-- are not below it.
abbrev pub HasRank : List ℕ → ℕ → ℕ → Type 0
HasRank latencies i p =
    (i < count (λ y. leb y p) latencies) × (length latencies ≤ i + count (λ y. leb p y) latencies)

module _ {F : Type 0} (scale : F → ℕ → ℕ) where
  percentile_index-lt :
      (frac : F) (xs : List ℕ) → 0 < length xs → percentile_index scale frac xs < length xs
  unfolding percentile_index
  percentile_index-lt frac xs h = ground arith

  percentile_get :
      (frac : F) (xs : List ℕ)
      → 0 < length xs
      → percentile scale frac xs ≡ get_or xs (percentile_index scale frac xs) 0
  unfolding percentile
  percentile_get frac [] h = absurd (omega (arith, h))
  percentile_get frac (x ∷ xs) h = refl

  index-sort :
      (frac : F) (xs : List ℕ)
      → percentile_index scale frac (sort xs) ≡ percentile_index scale frac xs
  unfolding percentile_index
  index-sort frac xs = rw length-sort

  percentile-HasRank :
      (frac : F) (xs : List ℕ)
      → 0 < length xs
      → HasRank xs (percentile_index scale frac xs) (percentile scale frac (sort xs))
  percentile-HasRank frac xs h =
      let i = percentile_index scale frac xs in
      let some_left : 0 < length (sort xs) = rw (length-sort xs) h in
      let lt : i < length (sort xs) = rw (length-sort xs) (percentile_index-lt frac xs h) in
      let e : percentile scale frac (sort xs) ≡ get_or (sort xs) i 0 =
        percentile_get frac (sort xs) some_left
        ∙ ap (λ j. get_or (sort xs) j 0) (index-sort frac xs) in
      let below = rank_below (sort xs) i (sort-IsSorted xs) lt in
      let above = rank_above (sort xs) i (sort-IsSorted xs) lt in
      rw
        (
          e,
          ← count-sort (λ y. leb y (get_or (sort xs) i 0)) xs,
          ← count-sort (λ y. leb (get_or (sort xs) i 0) y) xs,
          ← length-sort xs,
        )
        (below, above)

  percentile_mono :
      (a b : F) (xs : List ℕ)
      → 0 < length xs
      → scale a (length xs - 1) ≤ scale b (length xs - 1)
      → percentile scale a (sort xs) ≤ percentile scale b (sort xs)
  percentile_mono a b xs h le =
      let some_left : 0 < length (sort xs) = rw (length-sort xs) h in
      let lt = percentile_index-lt b (sort xs) some_left in
      let i : percentile_index scale a (sort xs) ≤ percentile_index scale b (sort xs) =
        rw (index-sort a xs, index-sort b xs) (unfold percentile_index in ground (arith, le)) in
      rw (percentile_get a (sort xs) some_left, percentile_get b (sort xs) some_left)
        (get_or_mono (sort xs) _ _ (sort-IsSorted xs) i lt)

  -- Where there is a latency, and the floating-point products with 0.50, 0.95 and 0.99 are in
  -- order, the percentiles that a benchmark reports are the latencies of their ranks, each
  -- index lies within the vector, and the percentiles are in order.
  pub percentiles-HasRank :
      (half most nearly_all : F) (latencies : List ℕ)
      → 0 < length latencies
      → scale half (length latencies - 1) ≤ scale most (length latencies - 1)
      → scale most (length latencies - 1) ≤ scale nearly_all (length latencies - 1)
      → let p = percentiles scale half most nearly_all latencies in
        HasRank latencies (percentile_index scale half latencies) p.p50
        × HasRank latencies (percentile_index scale most latencies) p.p95
        × HasRank latencies (percentile_index scale nearly_all latencies) p.p99
        × (percentile_index scale nearly_all latencies < length latencies)
        × (p.p50 ≤ p.p95)
        × (p.p95 ≤ p.p99)
  unfolding percentiles
  percentiles-HasRank half most nearly_all latencies h a b = (
    percentile-HasRank half latencies h,
    percentile-HasRank most latencies h,
    percentile-HasRank nearly_all latencies h,
    percentile_index-lt nearly_all latencies h,
    percentile_mono half most latencies h a,
    percentile_mono most nearly_all latencies h b,
  )
