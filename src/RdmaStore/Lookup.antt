-- ===== src/RdmaStore/Lookup.antt =====
-- The loops of `get` and `erase`: the first slot on the probe sequence that matches, unless an empty
-- slot comes first.
use cs2640_final_project.Prelude.{
  ℕ, zero, suc, ◌+◌, ◌≤◌, ◌<◌, ◌≡◌, ◌≢◌, refl, inl, inr, Bool, true, false, ◌&&◌, Option, none,
  some, arith, ℕ_discrete, ◌==◌, nat_eq, Bool-cases, Bytes,
}
use cs2640_final_project.RdmaStore.{
  RdmaStore, RdmaSlot, slot_at, put_slot, probe_at, key_matches, c_string, get_loop, erase_loop,
}

abbrev pub probed : RdmaStore → ℕ → ℕ → RdmaSlot
probed store idx i = slot_at store (probe_at idx i)

-- Round `i` reads a valid slot with the key.
abbrev pub live : RdmaStore → Bytes → ℕ → ℕ → Bool
live store k idx i = (probed store idx i).occupied == 1 && key_matches (probed store idx i) k

-- Every slot is empty, valid or a tombstone.
abbrev pub HasStates : RdmaStore → Type 0
HasStates store = (p : ℕ) → (slot_at store p).occupied ≤ 2

-- Round `i` reads a slot that is not empty and does not match.
abbrev pub Passed : RdmaStore → Bytes → ℕ → ℕ → Type 0
Passed store k idx i = ((probed store idx i).occupied ≢ 0) × (live store k idx i ≡ false)

-- The outcome of a search from round `i` to `last`.
pub data Search (store : RdmaStore) (k : Bytes) (idx i last : ℕ) : Type 0 where
  hit :
      (j : ℕ)
      → i ≤ j
      → j < last
      → live store k idx j ≡ true
      → ((m : ℕ) → i ≤ m → m < j → Passed store k idx m)
      → Search store k idx i last
  gap :
      (j : ℕ)
      → i ≤ j
      → j < last
      → (probed store idx j).occupied ≡ 0
      → ((m : ℕ) → i ≤ m → m < j → Passed store k idx m)
      → Search store k idx i last
  exhausted : ((m : ℕ) → i ≤ m → m < last → Passed store k idx m) → Search store k idx i last

-- what `get` and `erase` return after a search
abbrev pub get_result :
    (store : RdmaStore) (k : Bytes) (idx i last : ℕ) → Search store k idx i last → Option Bytes
get_result store k idx i last (hit j _ _ _ _) = some (c_string (probed store idx j).value)
get_result store k idx i last (gap j _ _ _ _) = none
get_result store k idx i last (exhausted _) = none

abbrev pub erase_result :
    (store : RdmaStore) (k : Bytes) (idx i last : ℕ) → Search store k idx i last → Bool × RdmaStore
erase_result store k idx i last (hit j _ _ _ _) =
    (true, put_slot store (probe_at idx j) (record (probed store idx j) { occupied = 2 }))
erase_result store k idx i last (gap j _ _ _ _) = (false, store)
erase_result store k idx i last (exhausted _) = (false, store)

abbrev pub Found : (store : RdmaStore) (k : Bytes) (idx rounds i last : ℕ) → Type 0
Found store k idx rounds i last =
    (s : Search store k idx i last) × (get_loop store k idx rounds i
      ≡ get_result store k idx i last s)
    × (erase_loop store k idx rounds i ≡ erase_result store k idx i last s)

pub extend :
    (store : RdmaStore) (k : Bytes) (idx i : ℕ)
    → Passed store k idx i
    → (j : ℕ) → ((m : ℕ) → i + 1 ≤ m → m < j → Passed store k idx m)
    → (m : ℕ) → i ≤ m
    → m < j
    → Passed store k idx m
extend store k idx i p j h m a b = elim (ℕ_discrete i m) [
  | yes e ↦ rw (← e) p
  | no n ↦ h m (omega arith) b
]

module _ (store : RdmaStore) (k : Bytes) (idx : ℕ) (states : HasStates store) where
  pub loops-Found : (rounds i last : ℕ) → i + rounds ≡ last → Found store k idx rounds i last
  unfolding get_loop erase_loop
  loops-Found zero i last e = (exhausted (λ m a b. absurd (omega arith)), refl, refl)
  loops-Found (suc rounds) i last e = elim (Bool-cases ((probed store idx i).occupied == 0)) [
    | inl empty ↦ (
      gap i (omega arith) (omega arith) (ground arith) (λ m a b. absurd (omega arith)),
      rw empty,
      rw empty,
    )
    | inr full ↦ elim (Bool-cases (live store k idx i)) [
      | inl here ↦ (
        hit i (omega arith) (omega arith) here (λ m a b. absurd (omega arith)),
        ground arith,
        ground arith,
      )
      | inr past ↦
          let p : Passed store k idx i = (ground arith, past) in
          go p (loops-Found rounds (i + 1) last (omega arith))
    ]
  ]
    where
      go :
          Passed store k idx i
          → Found store k idx rounds (i + 1) last
          → Found store k idx (suc rounds) i last
      go p (hit j a b l h, g, r) = (
        hit j (omega arith) b l (extend store k idx i p j h),
        ground (arith, states (probe_at idx i)),
        ground (arith, states (probe_at idx i)),
      )
      go p (gap j a b l h, g, r) = (
        gap j (omega arith) b l (extend store k idx i p j h),
        ground (arith, states (probe_at idx i)),
        ground (arith, states (probe_at idx i)),
      )
      go p (exhausted h, g, r) = (
        exhausted (extend store k idx i p last h),
        ground (arith, states (probe_at idx i)),
        ground (arith, states (probe_at idx i)),
      )
