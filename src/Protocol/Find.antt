-- ===== src/Protocol/Find.antt =====
-- The first occurrence of a byte.
use cs2640_final_project.Prelude.{
  ℕ, zero, suc, ◌≡◌, ◌≢◌, refl, false, none, some, [], ◌∷◌, ◌++◌, arith, take, drop, length, ◌==◌,
  nat_eq, nat_beq_iff, Bytes,
}
use cs2640_final_project.Protocol.{find}
pub use cs2640_final_project.Prelude.{has}

pub find-eq-none : (b : ℕ) (xs : Bytes) → find b xs ≡ none → has b xs ≡ false
unfolding find
find-eq-none b [] h = refl
find-eq-none b (c ∷ cs) h = ground (arith, find-eq-none b cs)

pub find_absent : (b : ℕ) (xs : Bytes) → has b xs ≡ false → find b xs ≡ none
unfolding find
find_absent b [] h = refl
find_absent b (c ∷ cs) h = ground (arith, find_absent b cs)

-- The text before the first occurrence, and the text from there on.
pub find-eq-some :
    (b : ℕ) (xs : Bytes) (n : ℕ)
    → find b xs ≡ some n
    → (has b (take n xs) ≡ false) × (xs ≡ take n xs ++ b ∷ drop (suc n) xs)
unfolding find
find-eq-some b [] n h = cc
find-eq-some b (c ∷ cs) zero h = ground (arith, nat_beq_iff c b)
find-eq-some b (c ∷ cs) (suc n) h = ground (arith, find-eq-some b cs n)

pub find-append :
    (b : ℕ) (xs ys : Bytes) → has b xs ≡ false → find b (xs ++ b ∷ ys) ≡ some (length xs)
unfolding find
find-append b [] ys h = ground arith
find-append b (c ∷ cs) ys h = ground (arith, find-append b cs ys)

pub find-nil : (b n : ℕ) → find b [] ≢ some n
unfolding find
find-nil b n h = cc

-- A first occurrence that is not at the head leaves a start.
pub find-head : (b c : ℕ) (cs : Bytes) (n : ℕ) → (c == b) ≡ false → find b (c ∷ cs) ≡ some n → n ≢ 0
unfolding find
find-head b c cs n h f = ground arith
