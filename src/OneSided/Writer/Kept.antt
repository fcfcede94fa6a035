-- ===== src/OneSided/Writer/Kept.antt =====
-- What `one_sided_set` leaves alone.
use cs2640_final_project.Prelude.{
  ℕ, zero, suc, ◌+◌, ◌≤◌, ◌≡◌, refl, ap, ◌∙◌, ◌⊎◌, inl, inr, Bool, true, false, ◌&&◌, not, ◌==◌,
  nat_eq, leb, length, if◌then◌else◌, Bool-cases, Bytes,
}
use cs2640_final_project.RdmaStore.{RdmaSlot, num_slots, key_max, value_max}
use cs2640_final_project.OneSided.{
  Verb, post_failed, completion_failed, done, Fabric, client_index, slot_address, slot_key_equals,
}
use cs2640_final_project.OneSided.Writer.{
  Prepared, prepared, refused, prepare_slot, SetState, finish_write, write_prepared, write_slot,
  set_round, one_sided_set_loop, one_sided_set,
}

module _ (f : Fabric) (base : ℕ) (k v : Bytes) where
  -- the slots that the probe sequence visits
  abbrev probe_address : ℕ → ℕ
  probe_address j = slot_address base (client_index k j)

  -- all memory but the slot of round `j` is as before
  abbrev pub ChangesOnly : ℕ → f.World → f.World → Type 0
  ChangesOnly j w w' =
      (b : ℕ)
      → (probe_address j + 1024 ≤ b) ⊎ (b + 1024 ≤ probe_address j)
      → f.memory w' b ≡ f.memory w b

  abbrev pub OneSlot : f.World → f.World → Type 0
  OneSlot w w' = (j : ℕ) × ChangesOnly j w w'

  finish_write-world :
      (r : Verb (Unit {0})) (s : RdmaSlot) (w : f.World) → (finish_write f r s w).world ≡ w
  unfolding finish_write
  finish_write-world post_failed s w = refl
  finish_write-world completion_failed s w = refl
  finish_write-world (done _) s w = refl

  write_prepared-ChangesOnly :
      (j : ℕ) (p : Prepared) (slot : RdmaSlot) (w : f.World)
      → ChangesOnly j w (write_prepared f (probe_address j) p slot w).world
  unfolding write_prepared
  write_prepared-ChangesOnly j (refused message) slot w b apart = refl
  write_prepared-ChangesOnly j (prepared s) slot w b apart =
      ap (λ x. f.memory x b)
        (finish_write-world (f.write w (probe_address j) s).0 s (f.write w (probe_address j) s).1)
      ∙ f.write_keeps w (probe_address j) b s apart

  write_slot-OneSlot :
      (j count : ℕ) (slot : RdmaSlot) (w : f.World)
      → OneSlot w (write_slot f base k v (probe_address j) count slot w).world
  unfolding write_slot
  write_slot-OneSlot j count slot w =
      (j, write_prepared-ChangesOnly j (prepare_slot k v count) slot w)

  -- `first_tombstone_addr` is the address of a round, once there is a tombstone
  abbrev Noted : Bool → ℕ → Type 0
  Noted saw first = (saw ≡ false) ⊎ ((j : ℕ) × (first ≡ probe_address j))

  -- the slot for a new key
  target-OneSlot :
      (i : ℕ) (saw : Bool) (first : ℕ) (slot : RdmaSlot) (w : f.World)
      → Noted saw first
      → OneSlot w (write_slot f base k v (if saw then first else probe_address i) 0 slot w).world
  target-OneSlot i saw first slot w (inl n) = rw n (write_slot-OneSlot i 0 slot w)
  target-OneSlot i false first slot w (inr (j, e)) = write_slot-OneSlot i 0 slot w
  target-OneSlot i true first slot w (inr (j, e)) = rw e (write_slot-OneSlot j 0 slot w)

  set_round-OneSlot :
      (i : ℕ) (saw : Bool) (first : ℕ) (r : Verb RdmaSlot) (slot : RdmaSlot) (w : f.World)
      → (next : Bool → ℕ → RdmaSlot → SetState f) → Noted saw first
      → ((b : Bool) (a : ℕ) (s : RdmaSlot) → Noted b a → OneSlot w (next b a s).world)
      → OneSlot w (set_round f base k v (probe_address i) saw first r slot w next).world
  unfolding set_round
  set_round-OneSlot i saw first post_failed slot w next n h = (i, λ b apart. refl)
  set_round-OneSlot i saw first completion_failed slot w next n h = (i, λ b apart. refl)
  set_round-OneSlot i saw first (done s) slot w next n h =
      elim (Bool-cases (s.occupied == 1 && slot_key_equals s.key k)) [
        | inl a ↦ rw a (write_slot-OneSlot i s.access_count s w)
        | inr a ↦ rw a (elim (Bool-cases (s.occupied == 2 && not saw)) [
          | inl b ↦ rw b (h true (probe_address i) s (inr (i, refl)))
          | inr b ↦ rw b (elim (Bool-cases (s.occupied == 0)) [
            | inl c ↦ rw c (target-OneSlot i saw first s w n)
            | inr c ↦ rw c (h saw first s n)
          ])
        ])
      ]

  after_read : (w : f.World) (a : ℕ) (w' : f.World) → OneSlot (f.read w a).1 w' → OneSlot w w'
  after_read w a w' (j, h) = (j, λ b apart. h b apart ∙ f.read_keeps w a b)

  loop-OneSlot :
      (rounds i : ℕ) (saw : Bool) (first : ℕ) (slot : RdmaSlot) (w : f.World)
      → Noted saw first
      → OneSlot w (one_sided_set_loop f base k v rounds i saw first slot w).world
  unfolding one_sided_set_loop
  loop-OneSlot zero i true first slot w (inl n) = absurd (cc)
  loop-OneSlot zero i true first slot w (inr (j, e)) = rw e (write_slot-OneSlot j 0 slot w)
  loop-OneSlot zero i false first slot w n = (0, λ b apart. refl)
  loop-OneSlot (suc rounds) i saw first slot w n =
      let addr = probe_address i in
      let w' = (f.read w addr).1 in
      after_read w addr _ (
        set_round-OneSlot i saw first (f.read w addr).0 slot w' _ n
          (λ b a s m. loop-OneSlot rounds (i + 1) b a s w' m))

  -- Whichever of its reads and writes fail, `one_sided_set` changes the server's memory in one slot at
  -- most, and that one is on the probe sequence of the key.
  pub one_sided_set-OneSlot :
      (slot : RdmaSlot) (w : f.World) → OneSlot w (one_sided_set f base k v slot w).world
  unfolding one_sided_set
  one_sided_set-OneSlot slot w = elim (Bool-cases (leb key_max (length k))) [
    | inl a ↦ rw a (0, λ b apart. refl)
    | inr a ↦ rw a (elim (Bool-cases (leb value_max (length v))) [
      | inl c ↦ rw c (0, λ b apart. refl)
      | inr c ↦ rw c (loop-OneSlot num_slots 0 false 0 slot w (inl refl))
    ])
  ]
