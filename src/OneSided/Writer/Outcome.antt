-- ===== src/OneSided/Writer/Outcome.antt =====
-- What a write of a slot makes of the exported table, and when `one_sided_set` refuses.
use cs2640_final_project.Prelude.{
  ℕ, ◌<◌, ◌≡◌, ◌≢◌, refl, true, false, none, some, arith, nat_eq, Bytes, bytes,
}
use cs2640_final_project.RdmaStore.{
  RdmaStore, RdmaSlot, slot_at, put_slot, num_slots, key_max, value_max, slot_index, get,
}
use cs2640_final_project.RdmaStore.Arrays.{c_string-fill, strncmp-fill}
use cs2640_final_project.RdmaStore.Probe.{probe_at-lt}
use cs2640_final_project.RdmaStore.Valid.{IsKey, IsValid}
use cs2640_final_project.RdmaStore.Writes.{position}
use cs2640_final_project.RdmaStore.Refine.{IsValue, Writes, keyed_slot}
use cs2640_final_project.RdmaStore.Methods.{put-Writes}
use cs2640_final_project.OneSided.{done, Fabric, slot_address}
use cs2640_final_project.OneSided.Get.{Exports, IsReliable}
use cs2640_final_project.OneSided.Export.{Fitting, write-Exports}
use cs2640_final_project.OneSided.Writer.{
  prepared, prepare_slot, SetState, finish_write, write_prepared, write_slot,
}

prepare_slot-keyed :
    (k v : Bytes) (count : ℕ)
    → IsKey k
    → IsValue v
    → prepare_slot k v count ≡ prepared (keyed_slot k count v)
unfolding prepare_slot
prepare_slot-keyed k v count key value = ground (arith, key.short, value.short)

module _ (f : Fabric) (base : ℕ) (store : RdmaStore) (k v : Bytes) where
  -- the exported table has the value under the key, and is otherwise as before
  abbrev pub Stored : SetState f → Type 0
  Stored st =
      (st.stored ≡ true)
      × ((after : RdmaStore) × Writes store after k (some v) × Exports f base after st.world)

  -- nothing has changed, the key is absent, and every slot is live
  abbrev pub Refused : SetState f → Type 0
  Refused st =
      (st.stored ≡ false)
      × (st.error ≡ bytes "remote table full")
      × Exports f base store st.world
      × (get store k ≡ none)
      × ((p : ℕ) → p < num_slots → (slot_at store p).occupied ≡ 1)

module _ (f : Fabric) (base : ℕ) (store : RdmaStore) (k v : Bytes) (rel : IsReliable f)
    (fit : Fitting base) (valid : IsValid store) (key : IsKey k) (value : IsValue v) where
  pub write_slot-Stored :
      (j count : ℕ) (slot : RdmaSlot) (w : f.World)
      → j < num_slots
      → IsValid (put_slot store (position k j) (keyed_slot k count v))
        × ((q : Bytes)
            → IsKey q
            → k ≢ q
            → get (put_slot store (position k j) (keyed_slot k count v)) q ≡ get store q)
      → Exports f base store w
      → Stored f base store k v
          (write_slot f base k v (slot_address base (position k j)) count slot w)
  unfolding write_slot write_prepared finish_write
  write_slot-Stored j count slot w a kept x =
      let p : ℕ = position k j in
      let s : RdmaSlot = keyed_slot k count v in
      let w' : f.World = (f.write w (slot_address base p) s).1 in
      let e : (f.write w (slot_address base p) s).0 ≡ done tt =
        rel.writes w (slot_address base p) s in
      let whole : f.write w (slot_address base p) s ≡ (done tt, w') = rw e in
      rw (prepare_slot-keyed k v count key value, e, finish_write)
        (
          refl,
          (
            put_slot store p s,
            put-Writes store valid k key j s v a (strncmp-fill key_max k)
                (c_string-fill value_max v value.no_nul) kept,
            write-Exports f base store p s w w' fit valid (probe_at-lt (slot_index k) j) whole x,
          ),
        )
