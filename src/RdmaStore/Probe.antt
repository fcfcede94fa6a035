-- ===== src/RdmaStore/Probe.antt =====
-- The probe sequence of a key runs through every slot once.
use cs2640_final_project.Prelude.{ℕ, ◌+◌, ◌-◌, ◌%◌, ◌<◌, ◌≡◌, arith, Bytes}
use cs2640_final_project.Prelude.Bits.{bit_and_4095}
use cs2640_final_project.RdmaStore.{num_slots, slot_index, probe_at}

pub probe_at-mod : (idx i : ℕ) → probe_at idx i ≡ (idx + i) % 4096
unfolding probe_at
probe_at-mod idx i = bit_and_4095 (idx + i)

pub probe_at-lt : (idx i : ℕ) → probe_at idx i < num_slots
probe_at-lt idx i = omega (arith, probe_at-mod idx i)

pub slot_index-lt : (k : Bytes) → slot_index k < num_slots
unfolding slot_index
slot_index-lt k = omega (arith, bit_and_4095 _)

-- No slot is probed twice in one loop.
pub probe_at_injective :
    (idx i j : ℕ) → i < num_slots → j < num_slots → probe_at idx i ≡ probe_at idx j → i ≡ j
probe_at_injective idx i j p q e = omega (arith, probe_at-mod idx i, probe_at-mod idx j)

-- Every slot is probed.
pub probe_at_surjective :
    (idx p : ℕ) → idx < num_slots → p < num_slots → (i : ℕ) × (i < num_slots) × (probe_at idx i ≡ p)
probe_at_surjective idx p h k = (
  (p + num_slots - idx) % 4096,
  omega arith,
  omega (arith, probe_at-mod idx ((p + num_slots - idx) % 4096)),
)
