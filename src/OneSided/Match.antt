-- ===== src/OneSided/Match.antt =====
-- The client compares keys by length and `memcmp`, the server by `strncmp`, with the same result.
use cs2640_final_project.Prelude.{
  ℕ, zero, suc, ◌≡◌, ◌<◌, refl, false, ◌&&◌, [], ◌∷◌, arith, length, has, ◌==◌, nat_eq, Bytes,
}
use cs2640_final_project.RdmaStore.{strncmp_eq, slot_index, key_max}
use cs2640_final_project.RdmaStore.Valid.{IsKey}
use cs2640_final_project.OneSided.{fnv1a, slot_length, memcmp_eq, slot_key_equals}

-- The client probes where the server does.
pub fnv1a-slot_index : (k : Bytes) → fnv1a k ≡ slot_index k
unfolding fnv1a slot_index
fnv1a-slot_index k = refl

slot_key_equals_within :
    (n : ℕ) (a k : Bytes)
    → has 0 k ≡ false
    → length k < n
    → (slot_length n a == length k && memcmp_eq (length k) a k) ≡ strncmp_eq n a k
unfolding slot_length memcmp_eq strncmp_eq
slot_key_equals_within zero a k h l = absurd (omega arith)
slot_key_equals_within (suc n) [] [] h l = refl
slot_key_equals_within (suc n) [] (y ∷ ys) h l = ground arith
slot_key_equals_within (suc n) (x ∷ xs) [] h l = ground arith
slot_key_equals_within (suc n) (x ∷ xs) (y ∷ ys) h l =
    ground (arith, slot_key_equals_within n xs ys)

-- On every slot, the two comparisons agree about a key without a NUL that fits in a slot.
pub slot_key_equals-strncmp : (a k : Bytes) → IsKey k → slot_key_equals a k ≡ strncmp_eq key_max a k
unfolding slot_key_equals
slot_key_equals-strncmp a k h = slot_key_equals_within key_max a k h.no_nul h.short
