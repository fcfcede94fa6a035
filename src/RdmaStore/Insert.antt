-- ===== src/RdmaStore/Insert.antt =====
-- The loop of `set`: overwrite the slot of the key, or write a new one into the first tombstone on the
-- way or else into the first empty slot.
use cs2640_final_project.Prelude.{
  ℕ, zero, suc, ◌+◌, ◌≤◌, ◌<◌, ◌≡◌, ◌≢◌, refl, ◌⊎◌, inl, inr, Bool, true, false, ◌&&◌, arith, ◌==◌,
  nat_eq, Bool-cases, if◌then◌else◌, Bytes, ℕ_discrete,
}
use cs2640_final_project.RdmaStore.{
  RdmaStore, put_slot, probe_at, num_slots, value_max, fill, fresh_slot, set_loop,
}
use cs2640_final_project.RdmaStore.Probe.{probe_at-lt}
use cs2640_final_project.RdmaStore.Lookup.{probed, live, Passed}

module _ (store : RdmaStore) (k v : Bytes) (idx : ℕ) where
  -- every branch on which `set` leaves the loop
  pub data SetOutcome (last : ℕ) (r : Bool × RdmaStore) : Type 0 where
    overwritten :
        (j : ℕ)
        → j < last
        → live store k idx j ≡ true
        → r ≡ (
          true,
          put_slot store
              (probe_at idx j)
              (record (probed store idx j) { value = fill value_max v }),
        )
        → SetOutcome last r
    inserted :
        (j e : ℕ)
        → j ≤ e
        → e < last
        → (probed store idx j).occupied ≢ 1
        → (probed store idx e).occupied ≡ 0
        → ((m : ℕ) → m < e → Passed store k idx m)
        → r ≡ (true, put_slot store (probe_at idx j) (fresh_slot k v))
        → SetOutcome last r
    full : ((m : ℕ) → m < last → Passed store k idx m) → r ≡ (false, store) → SetOutcome last r

  -- `first_tombstone` before round `i`
  abbrev pub Tombstone : ℕ → ℕ → Type 0
  Tombstone i tomb =
      (tomb ≡ num_slots)
      ⊎ ((j : ℕ) × (j < i) × (tomb ≡ probe_at idx j) × ((probed store idx j).occupied ≡ 2))

  -- `first_tombstone` after the test of round `i`
  abbrev next_tomb : ℕ → ℕ → ℕ
  next_tomb i tomb =
      if (probed store idx i).occupied == 2 && tomb == num_slots then probe_at idx i else tomb

  next_tomb-Tombstone : (i tomb : ℕ) → Tombstone i tomb → Tombstone (i + 1) (next_tomb i tomb)
  next_tomb-Tombstone i tomb t =
      elim (Bool-cases ((probed store idx i).occupied == 2 && tomb == num_slots)) [
        | inl e ↦ rw e (inr (i, omega arith, refl, ground arith))
        | inr e ↦ rw e (weaken t)
      ]
    where
      weaken : Tombstone i tomb → Tombstone (i + 1) tomb
      weaken (inl n) = inl n
      weaken (inr (j, a, b, c)) = inr (j, omega arith, b, c)

  upto :
      (i : ℕ)
      → ((m : ℕ) → m < i → Passed store k idx m)
      → Passed store k idx i
      → (m : ℕ) → m < i + 1
      → Passed store k idx m
  upto i h p m a = elim (ℕ_discrete i m) [ yes e ↦ rw (← e) p | no n ↦ h m (omega arith) ]

  -- The empty slot is in round `i`, and `tomb` is the target unless there is none.
  at_gap :
      (i last tomb : ℕ)
      → i < last
      → Tombstone i tomb
      → (probed store idx i).occupied ≡ 0
      → ((m : ℕ) → m < i → Passed store k idx m)
      → SetOutcome last (
        true,
        put_slot store (if tomb == num_slots then probe_at idx i else tomb) (fresh_slot k v),
      )
  at_gap i last tomb a (inl n) e h = inserted i i (omega arith) a (omega arith) e h (rw n)
  at_gap i last tomb a (inr (j, b, c, d)) e h =
      inserted j i (omega arith) a (omega arith) e h (ground (arith, probe_at-lt idx j))

  pub set_loop-SetOutcome :
      (rounds i last tomb : ℕ)
      → i + rounds ≡ last
      → Tombstone i tomb
      → ((m : ℕ) → m < i → Passed store k idx m)
      → SetOutcome last (set_loop store k v idx rounds i tomb)
  unfolding set_loop
  set_loop-SetOutcome zero i last tomb e t h = full (λ m a. h m (omega arith)) refl
  set_loop-SetOutcome (suc rounds) i last tomb e t h = elim (Bool-cases (live store k idx i)) [
    | inl here ↦ overwritten i (omega arith) here (rw here)
    | inr past ↦ elim (Bool-cases ((probed store idx i).occupied == 0)) [
      | inl empty ↦
          let none_there : next_tomb i tomb ≡ tomb = ground arith in
          rw (past, none_there, empty) (at_gap i last tomb (omega arith) t (ground arith) h)
      | inr filled ↦
          rw (past, filled)
            (set_loop-SetOutcome rounds (i + 1) last (next_tomb i tomb) (omega arith)
              (next_tomb-Tombstone i tomb t) (upto i h (ground arith, past)))
    ]
  ]
