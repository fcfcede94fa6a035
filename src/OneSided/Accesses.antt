-- ===== src/OneSided/Accesses.antt =====
-- Where `one_sided_get` and `one_sided_set` read, write and count: only at slots of the table.
use cs2640_final_project.Prelude.{
  ℕ, zero, suc, ◌+◌, ◌%◌, ◌^◌, ◌<◌, ◌≡◌, refl, subst, sym, ◌⊎◌, inl, inr, Bool, true, false, ◌&&◌,
  not, ◌==◌, nat_eq, leb, length, if◌then◌else◌, Bytes,
}
use cs2640_final_project.RdmaStore.{RdmaSlot, num_slots, key_max, value_max, slot_index}
use cs2640_final_project.RdmaStore.Probe.{probe_at-lt}
use cs2640_final_project.OneSided.{
  Verb, post_failed, completion_failed, done, Fabric, access_count_offset, client_index,
  slot_address, slot_key_equals, GetState, count_access, one_sided_get_loop, one_sided_get,
}
use cs2640_final_project.OneSided.Get.{client_index-probe_at}
use cs2640_final_project.OneSided.Writer.{
  Prepared, prepared, refused, prepare_slot, SetState, finish_write, write_prepared, write_slot,
  set_round, one_sided_set_loop, one_sided_set,
}

-- the address of some slot of the table at `base`
abbrev pub IsSlot : ℕ → ℕ → Type 0
IsSlot base a = (p : ℕ) × (p < num_slots) × (a ≡ slot_address base p)

-- `P` is kept by each verb that goes to a slot of the table, or to the counter of one.
pub record KeptBy (f : Fabric) (base : ℕ) (P : f.World → Type 0) : Type 0 where
  pub reads : (w : f.World) (a : ℕ) → IsSlot base a → P w → P (f.read w a).1
  pub writes : (w : f.World) (a : ℕ) (s : RdmaSlot) → IsSlot base a → P w → P (f.write w a s).1
  pub adds :
      (w : f.World) (a n : ℕ)
      → IsSlot base a
      → P w
      → P (f.fetch_and_add w ((a + access_count_offset) % 2 ^ 64) n).1

Verb-cases :
    (r : Verb RdmaSlot)
    → (r ≡ post_failed) ⊎ ((r ≡ completion_failed) ⊎ ((s : RdmaSlot) × (r ≡ done s)))
Verb-cases post_failed = inl refl
Verb-cases completion_failed = inr (inl refl)
Verb-cases (done s) = inr (inr (s, refl))

module _ (f : Fabric) (base : ℕ) (k : Bytes) (P : f.World → Type 0) (kept : KeptBy f base P) where
  probed : (i : ℕ) → IsSlot base (slot_address base (client_index k i))
  probed i = (
    client_index k i,
    subst (λ p. p < num_slots) (sym (client_index-probe_at k i)) (probe_at-lt (slot_index k) i),
    refl,
  )

  module _ (metadata : Bool) where
    if_P : (b : Bool) (x y : GetState f) → P x.world → P y.world → P (if b then x else y).world
    if_P true x y h g = h
    if_P false x y h g = g

    count_access-P :
        (a : ℕ) (s : RdmaSlot) (atomic : ℕ) (w : f.World)
        → IsSlot base a
        → P w
        → P (count_access f base k metadata a s atomic w).world
    unfolding count_access
    count_access-P a s atomic w at h =
        let (r, w') = f.fetch_and_add w ((a + access_count_offset) % 2 ^ 64) 1 in
        if_P metadata _ _ (added r w' (kept.adds w a 1 at h)) h
      where
        added :
            (r : Verb ℕ) (w' : f.World)
            → P w'
            → let st : GetState f = elim r [
              | done old ↦ record { found = true; slot = s; atomic = old; world = w' }
              | post_failed ↦ record { found = false; slot = s; atomic = atomic; world = w' }
              | completion_failed ↦ record { found = false; slot = s; atomic = atomic; world = w' }
            ] in
              P st.world
        added post_failed w' g = g
        added completion_failed w' g = g
        added (done old) w' g = g

    get_loop-P :
        (rounds i : ℕ) (slot : RdmaSlot) (atomic : ℕ) (w : f.World)
        → P w
        → P (one_sided_get_loop f base k metadata rounds i slot atomic w).world
    unfolding one_sided_get_loop
    get_loop-P zero i slot atomic w h = h
    get_loop-P (suc rounds) i slot atomic w h =
        let addr : ℕ = slot_address base (client_index k i) in
        let w' : f.World = (f.read w addr).1 in
        let h' : P w' = kept.reads w addr (probed i) h in
        elim (Verb-cases (f.read w addr).0) [
          | inl e ↦ rw (e, one_sided_get_loop) h'
          | inr (inl e) ↦ rw (e, one_sided_get_loop) h'
          | inr (inr (s, e)) ↦
              rw (e, one_sided_get_loop)
                (if_P (s.occupied == 0) _ _ h' (
                  if_P (s.occupied == 2) _ _ (get_loop-P rounds (i + 1) s atomic w' h') (
                    if_P (slot_key_equals s.key k) _ _
                      (count_access-P addr s atomic w' (probed i) h')
                      (get_loop-P rounds (i + 1) s atomic w' h'))))
        ]

    pub one_sided_get-P :
        (slot : RdmaSlot) (atomic : ℕ) (w : f.World)
        → P w
        → P (one_sided_get f base k metadata slot atomic w).world
    unfolding one_sided_get
    one_sided_get-P slot atomic w h = get_loop-P num_slots 0 slot atomic w h

  module _ (v : Bytes) where
    if_set_P : (b : Bool) (x y : SetState f) → P x.world → P y.world → P (if b then x else y).world
    if_set_P true x y h g = h
    if_set_P false x y h g = g

    finish_write-P :
        (r : Verb (Unit {0})) (s : RdmaSlot) (w : f.World) → P w → P (finish_write f r s w).world
    unfolding finish_write
    finish_write-P post_failed s w h = h
    finish_write-P completion_failed s w h = h
    finish_write-P (done _) s w h = h

    write_prepared-P :
        (a : ℕ) (p : Prepared) (slot : RdmaSlot) (w : f.World)
        → IsSlot base a
        → P w
        → P (write_prepared f a p slot w).world
    unfolding write_prepared
    write_prepared-P a (refused message) slot w at h = h
    write_prepared-P a (prepared s) slot w at h =
        finish_write-P (f.write w a s).0 s (f.write w a s).1 (kept.writes w a s at h)

    write_slot-P :
        (a count : ℕ) (slot : RdmaSlot) (w : f.World)
        → IsSlot base a
        → P w
        → P (write_slot f base k v a count slot w).world
    unfolding write_slot
    write_slot-P a count slot w at h = write_prepared-P a (prepare_slot k v count) slot w at h

    -- `first_tombstone_addr`, once there is a tombstone
    abbrev Marked : Bool → ℕ → Type 0
    Marked true first = IsSlot base first
    Marked false first = Unit

    target :
        (saw : Bool) (first a : ℕ)
        → Marked saw first
        → IsSlot base a
        → IsSlot base (if saw then first else a)
    target true first a m at = m
    target false first a m at = at

    set_round-P :
        (a : ℕ) (saw : Bool) (first : ℕ) (r : Verb RdmaSlot) (slot : RdmaSlot) (w : f.World)
        → (next : Bool → ℕ → RdmaSlot → SetState f) → IsSlot base a
        → Marked saw first
        → P w
        → ((b : Bool) (x : ℕ) (s : RdmaSlot) → Marked b x → P (next b x s).world)
        → P (set_round f base k v a saw first r slot w next).world
    unfolding set_round
    set_round-P a saw first post_failed slot w next at m h ih = h
    set_round-P a saw first completion_failed slot w next at m h ih = h
    set_round-P a saw first (done s) slot w next at m h ih =
        if_set_P (s.occupied == 1 && slot_key_equals s.key k) _ _
          (write_slot-P a s.access_count s w at h)
          (if_set_P (s.occupied == 2 && not saw) _ _ (ih true a s at) (
            if_set_P (s.occupied == 0) _ _ (write_slot-P _ 0 s w (target saw first a m at) h)
              (ih saw first s m)))

    set_loop-P :
        (rounds i : ℕ) (saw : Bool) (first : ℕ) (slot : RdmaSlot) (w : f.World)
        → Marked saw first
        → P w
        → P (one_sided_set_loop f base k v rounds i saw first slot w).world
    unfolding one_sided_set_loop
    set_loop-P zero i true first slot w m h = write_slot-P first 0 slot w m h
    set_loop-P zero i false first slot w m h = h
    set_loop-P (suc rounds) i saw first slot w m h =
        let addr : ℕ = slot_address base (client_index k i) in
        let w' : f.World = (f.read w addr).1 in
        let h' : P w' = kept.reads w addr (probed i) h in
        set_round-P addr saw first (f.read w addr).0 slot w' _ (probed i) m h'
          (λ b x s n. set_loop-P rounds (i + 1) b x s w' n h')

    pub one_sided_set-P :
        (slot : RdmaSlot) (w : f.World) → P w → P (one_sided_set f base k v slot w).world
    unfolding one_sided_set
    one_sided_set-P slot w h =
        if_set_P (leb key_max (length k)) _ _ h
          (if_set_P (leb value_max (length v)) _ _ h (set_loop-P num_slots 0 false 0 slot w tt h))
