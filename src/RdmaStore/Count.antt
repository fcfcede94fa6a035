-- ===== src/RdmaStore/Count.antt =====
-- How many slots of the table are in use.
use cs2640_final_project.Prelude.{
  ℕ, zero, suc, ◌+◌, ◌≤◌, ◌<◌, ◌≡◌, ◌≢◌, refl, List, [], ◌∷◌, arith, ◌==◌, nat_eq, if◌then◌else◌,
  length, replicate, get_or,
}
use cs2640_final_project.RdmaStore.{RdmaSlot, empty_slot, num_slots, new_store}

abbrev pub in_use : List RdmaSlot → ℕ
in_use [] = 0
in_use (s ∷ ss) = (if s.occupied == 0 then 0 else 1) + in_use ss

in_use-replicate : (n : ℕ) → in_use (replicate n empty_slot) ≡ 0
in_use-replicate zero = refl
in_use-replicate (suc n) = omega (arith, in_use-replicate n)

pub in_use-new_store : in_use new_store.slots ≡ 0
unfolding new_store
in_use-new_store = in_use-replicate num_slots

-- where no slot is empty, all are in use
pub in_use_all :
    (ss : List RdmaSlot)
    → ((p : ℕ) → p < length ss → (get_or ss p empty_slot).occupied ≢ 0)
    → length ss ≤ in_use ss
in_use_all [] h = omega arith
in_use_all (s ∷ ss) h =
    let rest = in_use_all ss (λ p a. h (suc p) (omega (arith, a))) in
    let first = h 0 (omega arith) in ground arith

in_use-le : (ss : List RdmaSlot) → in_use ss ≤ length ss
in_use-le [] = omega arith
in_use-le (s ∷ ss) = let rest = in_use-le ss in ground arith

-- where as many are in use as there are, none is empty
pub none_empty :
    (ss : List RdmaSlot) (p : ℕ)
    → length ss ≤ in_use ss
    → p < length ss
    → (get_or ss p empty_slot).occupied ≢ 0
none_empty [] p h a e = absurd (omega (arith, a))
none_empty (s ∷ ss) zero h a e = let rest = in_use-le ss in ground (arith, h, e, rest)
none_empty (s ∷ ss) (suc p) h a e =
    none_empty ss p (let rest = in_use-le ss in ground (arith, h)) (omega (arith, a)) e
