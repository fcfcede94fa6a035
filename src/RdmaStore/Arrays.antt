-- ===== src/RdmaStore/Arrays.antt =====
-- The `char` arrays of a slot: what `std::strncmp` and `std::string` read from a filled array.
use cs2640_final_project.Prelude.{
  ℕ, zero, suc, ◌-◌, ◌<◌, ◌≡◌, refl, true, false, [], ◌∷◌, ◌++◌, arith, nat_eq, length, replicate,
  has, Bytes,
}
use cs2640_final_project.RdmaStore.{strncmp_eq, c_string, fill}

c_string_zeros : (n : ℕ) → c_string (replicate n 0) ≡ []
unfolding c_string
c_string_zeros zero = refl
c_string_zeros (suc n) = refl

c_string-append : (v : Bytes) (n : ℕ) → has 0 v ≡ false → c_string (v ++ replicate n 0) ≡ v
unfolding c_string
c_string-append [] n h = c_string_zeros n
c_string-append (c ∷ cs) n h = ground (arith, c_string-append cs n)

-- A text without NUL is read back from the array that it was copied to.
pub c_string-fill : (n : ℕ) (v : Bytes) → has 0 v ≡ false → c_string (fill n v) ≡ v
c_string-fill n v h = c_string-append v (n - length v) h

strncmp_zeros :
    (n : ℕ) (q : Bytes)
    → has 0 q ≡ false
    → (strncmp_eq (suc n) (replicate (suc n) 0) q ≡ true)
    → [] ≡ q
unfolding strncmp_eq
strncmp_zeros n [] h e = refl
strncmp_zeros n (y ∷ ys) h e = ground arith

strncmp_self : (n : ℕ) (k : Bytes) (m : ℕ) → strncmp_eq n (k ++ replicate m 0) k ≡ true
unfolding strncmp_eq
strncmp_self zero k m = refl
strncmp_self (suc n) [] zero = refl
strncmp_self (suc n) [] (suc m) = refl
strncmp_self (suc n) (c ∷ cs) m = ground (arith, strncmp_self n cs m)

pub strncmp-fill : (n : ℕ) (k : Bytes) → strncmp_eq n (fill n k) k ≡ true
strncmp-fill n k = strncmp_self n k (n - length k)

-- Two texts without NUL that compare equal to one array are the same, if one fits in it.
pub strncmp_unique :
    (n : ℕ) (a k q : Bytes)
    → has 0 k ≡ false
    → has 0 q ≡ false
    → length k < n
    → strncmp_eq n a k ≡ true
    → strncmp_eq n a q ≡ true
    → k ≡ q
unfolding strncmp_eq
strncmp_unique zero a k q hk hq l e f = absurd (omega arith)
strncmp_unique (suc n) [] [] [] hk hq l e f = refl
strncmp_unique (suc n) [] [] (z ∷ zs) hk hq l e f = ground arith
strncmp_unique (suc n) [] (y ∷ ys) q hk hq l e f = ground arith
strncmp_unique (suc n) (x ∷ xs) [] [] hk hq l e f = refl
strncmp_unique (suc n) (x ∷ xs) [] (z ∷ zs) hk hq l e f = ground arith
strncmp_unique (suc n) (x ∷ xs) (y ∷ ys) [] hk hq l e f = ground arith
strncmp_unique (suc n) (x ∷ xs) (y ∷ ys) (z ∷ zs) hk hq l e f =
    ground (arith, strncmp_unique n xs ys zs)
