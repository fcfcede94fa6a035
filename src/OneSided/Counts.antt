-- ===== src/OneSided/Counts.antt =====
-- What `one_sided_get` makes of the table: it counts an access, and leaves what the table reads as.
use cs2640_final_project.Prelude.{
  ℕ, zero, suc, ◌+◌, ◌%◌, ◌^◌, ◌≤◌, ◌<◌, ◌≡◌, refl, sym, ap, subst, ◌∙◌, Bool, true, false, some,
  arith, ◌==◌, ==_iff, nat_eq, list_eq, if◌then◌else◌, Bool-cases, inl, inr, Bytes,
}
use cs2640_final_project.RdmaStore.{
  RdmaStore, RdmaSlot, put_slot, num_slots, slot_index, get, key_matches, c_string,
}
use cs2640_final_project.RdmaStore.Probe.{probe_at-lt}
use cs2640_final_project.RdmaStore.Valid.{IsKey, round, holds, IsValid, get-holds}
use cs2640_final_project.RdmaStore.Writes.{position, slot_live}
use cs2640_final_project.RdmaStore.Refine.{overwrite_keeps}
use cs2640_final_project.RdmaStore.Methods.{put-Writes}
use cs2640_final_project.OneSided.{
  done, Fabric, access_count_offset, slot_address, client_index, slot_key_equals, GetState,
  count_access, one_sided_get_loop, one_sided_get,
}
use cs2640_final_project.OneSided.Match.{slot_key_equals-strncmp}
use cs2640_final_project.OneSided.Get.{
  Exports, IsReliable, client_index-probe_at, read-Exports, read-slot,
}
use cs2640_final_project.OneSided.Export.{Fitting, counted, add-Exports}

-- A valid table that reads as `store` does is exported.
pub record Kept (f : Fabric) (base : ℕ) (store : RdmaStore) (w : f.World) : Type 0 where
  pub after : RdmaStore
  pub valid : IsValid after
  pub same : (q : Bytes) → IsKey q → get after q ≡ get store q
  pub exported : Exports f base after w

module _ (f : Fabric) (base : ℕ) (store : RdmaStore) (k : Bytes) (rel : IsReliable f)
    (fit : Fitting base) (valid : IsValid store) (key : IsKey k) (metadata : Bool) where
  unchanged : (w : f.World) → Exports f base store w → Kept f base store w
  unchanged w x = record { after = store; valid = valid; same = λ q b. refl; exported = x }

  read_same :
      (j : ℕ) (q : Bytes)
      → j < num_slots
      → holds store k j ≡ true
      → (if k == q then some (c_string (round store k j).value) else get store q) ≡ get store q
  read_same j q a h = elim (Bool-cases (k == q)) [
    | inl e ↦ rw e (sym (get-holds store k j valid key a h) ∙ ap (get store) ((==_iff k q).0 e))
    | inr e ↦ rw e
  ]

  -- the slot of the key is counted
  counted-Kept :
      (j old : ℕ) (w w' : f.World)
      → j < num_slots
      → holds store k j ≡ true
      → f.fetch_and_add w ((slot_address base (position k j) + access_count_offset) % 2 ^ 64) 1
        ≡ (done old, w')
      → Exports f base store w
      → Kept f base store w'
  counted-Kept j old w w' a h e x =
      let s : RdmaSlot = counted (round store k j) in
      let (kept, others) =
        overwrite_keeps store valid k key j s a h refl (ground (arith, h)) (ground (arith, h)) in
      let change =
        put-Writes store valid k key j s (c_string (round store k j).value) a h refl
          (kept, others) in
      record {
        after = put_slot store (position k j) s;
        valid = kept;
        same = λ q b. change.reads q b ∙ read_same j q a h;
        exported =
            add-Exports f base store (position k j) old w w' fit valid
              (probe_at-lt (slot_index k) j) e x;
      }

  count_access-Kept :
      (j : ℕ) (s : RdmaSlot) (atomic : ℕ) (w : f.World)
      → j < num_slots
      → holds store k j ≡ true
      → Exports f base store w
      → Kept f base store
          (count_access f base k metadata (slot_address base (position k j)) s atomic w).world
  unfolding count_access
  count_access-Kept j s atomic w a h x =
      let addr : ℕ = (slot_address base (position k j) + access_count_offset) % 2 ^ 64 in
      let (old, e) = rel.atomics w addr 1 in
      let whole : f.fetch_and_add w addr 1 ≡ (done old, (f.fetch_and_add w addr 1).1) = rw e in
      elim (Bool-cases metadata) [
        | inl m ↦ rw (m, e) (counted-Kept j old w (f.fetch_and_add w addr 1).1 a h whole x)
        | inr m ↦ rw m (unchanged w x)
      ]

  after_read-Kept :
      (i : ℕ) (s : RdmaSlot) (atomic : ℕ) (w : f.World) (rest : GetState f)
      → i < num_slots
      → s ≡ round store k i
      → Exports f base store w
      → Kept f base store rest.world
      → Kept f base store
          (if s.occupied == 0
            then record { found = false; slot = s; atomic = atomic; world = w }
            else if s.occupied == 2
            then rest
            else if slot_key_equals s.key k
            then count_access f base k metadata (slot_address base (client_index k i)) s atomic w
            else rest).world
  after_read-Kept i s atomic w rest a same x h =
      let small : s.occupied ≤ 2 =
        subst (λ (t : RdmaSlot). t.occupied ≤ 2) (sym same) (valid.states (position k i)) in
      rw (slot_key_equals-strncmp s.key k key) (elim (Bool-cases (s.occupied == 0)) [
        | inl b ↦ rw b (unchanged w x)
        | inr b ↦ rw b (elim (Bool-cases (s.occupied == 2)) [
          | inl c ↦ rw c h
          | inr c ↦ rw c (elim (Bool-cases (key_matches s k)) [
            | inl d ↦
                rw (d, client_index-probe_at)
                  (count_access-Kept i s atomic w a
                    (subst (λ (t : RdmaSlot). slot_live t k ≡ true) same (ground (arith, small))) x)
            | inr d ↦ rw d h
          ])
        ])
      ])

  loop-Kept :
      (rounds i : ℕ) (slot : RdmaSlot) (atomic : ℕ) (w : f.World)
      → i + rounds ≡ num_slots
      → Exports f base store w
      → Kept f base store (one_sided_get_loop f base k metadata rounds i slot atomic w).world
  unfolding one_sided_get_loop
  loop-Kept zero i slot atomic w e x = unchanged w x
  loop-Kept (suc rounds) i slot atomic w e x =
      let a : ℕ = slot_address base (client_index k i) in
      let (s, done_read) = rel.reads w a in
      let w' : f.World = (f.read w a).1 in
      let whole : f.read w a ≡ (done s, w') = rw done_read in
      let x' = read-Exports f base store k w w' a (done s) whole x in
      rw (done_read, one_sided_get_loop)
        (after_read-Kept i s atomic w'
          (one_sided_get_loop f base k metadata rounds (i + 1) s atomic w') (omega arith)
          (read-slot f base store k w w' i s whole x) x'
          (loop-Kept rounds (i + 1) s atomic w' (omega arith) x'))

  pub one_sided_get-Kept :
      (slot : RdmaSlot) (atomic : ℕ) (w : f.World)
      → Exports f base store w
      → Kept f base store (one_sided_get f base k metadata slot atomic w).world
  unfolding one_sided_get
  one_sided_get-Kept slot atomic w x = loop-Kept num_slots 0 slot atomic w refl x
