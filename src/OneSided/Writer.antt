-- ===== src/OneSided/Writer.antt =====
-- `prepare_slot` and `one_sided_set` of src/client/rdma_client.cpp. A refusal carries the text of
-- `error`, which is empty when `one_sided_set` is called.
pub mod Kept
pub mod Outcome
pub mod Refine
use cs2640_final_project.Prelude.{
  ℕ, zero, suc, ◌+◌, Bool, true, false, ◌&&◌, ◌||◌, not, [], ◌==◌, nat_eq, leb, if◌then◌else◌,
  length, Bytes, bytes,
}
use cs2640_final_project.RdmaStore.{RdmaSlot, num_slots, key_max, value_max, fill}
use cs2640_final_project.OneSided.{
  Verb, post_failed, completion_failed, done, Fabric, fnv1a, slot_key_equals, client_index,
  slot_address,
}

pub data Prepared : Type 0 where
  refused : Bytes → Prepared
  prepared : RdmaSlot → Prepared

unfoldable pub prepare_slot : Bytes → Bytes → ℕ → Prepared
prepare_slot k v count =
    if leb key_max (length k)
    then refused (bytes "key too long")
    else if leb value_max (length v)
    then refused (bytes "value too long")
    else prepared record {
      occupied = 1;
      access_count = count;
      key = fill key_max k;
      value = fill value_max v;
    }

module _ (f : Fabric) where
  open f use {World, read, write}

  -- what `one_sided_set` leaves: its result, `error`, `local_slot` and the network
  pub record SetState : Type 0 where
    pub stored : Bool
    pub error : Bytes
    pub slot : RdmaSlot
    pub world : World

  abbrev pub fails : Bytes → RdmaSlot → World → SetState
  fails message slot w = record { stored = false; error = message; slot = slot; world = w }

  -- the tests on the post and the completion of the WRITE
  unfoldable pub finish_write : Verb (Unit {0}) → RdmaSlot → World → SetState
  finish_write post_failed slot w = fails (bytes "RDMA WRITE failed") slot w
  finish_write completion_failed slot w = fails (bytes "RDMA WRITE completion failed") slot w
  finish_write (done _) slot w = record { stored = true; error = []; slot = slot; world = w }

  -- the tests on `prepare_slot`, and the WRITE of the slot to an address
  unfoldable pub write_prepared : ℕ → Prepared → RdmaSlot → World → SetState
  write_prepared addr (refused message) slot w = fails message slot w
  write_prepared addr (prepared s) slot w = let (r, w') = write w addr s in finish_write r s w'

  module _ (base : ℕ) (k v : Bytes) where
    unfoldable pub write_slot : ℕ → ℕ → RdmaSlot → World → SetState
    write_slot addr count slot w = write_prepared addr (prepare_slot k v count) slot w

    -- one round after its READ; `next` goes on with `saw_tombstone`, `first_tombstone_addr` and the slot
    unfoldable pub set_round :
        ℕ
        → Bool
        → ℕ
        → Verb RdmaSlot
        → RdmaSlot
        → World
        → (Bool → ℕ → RdmaSlot → SetState)
        → SetState
    set_round addr saw first post_failed slot w next =
        fails (bytes "RDMA READ failed while probing") slot w
    set_round addr saw first completion_failed slot w next =
        fails (bytes "RDMA READ completion failed while probing") slot w
    set_round addr saw first (done s) slot w next =
        if s.occupied == 1 && slot_key_equals s.key k
        then write_slot addr s.access_count s w
        else if s.occupied == 2 && not saw
        then next true addr s
        else if s.occupied == 0
        then write_slot (if saw then first else addr) 0 s w
        else next saw first s

    unfoldable pub one_sided_set_loop : ℕ → ℕ → Bool → ℕ → RdmaSlot → World → SetState
    one_sided_set_loop zero i saw first slot w =
        if saw then write_slot first 0 slot w else fails (bytes "remote table full") slot w
    one_sided_set_loop (suc rounds) i saw first slot w =
        let addr = slot_address base (client_index k i) in
        let (r, w') = read w addr in
        set_round addr saw first r slot w' (λ b a s. one_sided_set_loop rounds (i + 1) b a s w')

    unfoldable pub one_sided_set : RdmaSlot → World → SetState
    one_sided_set slot w =
        if leb key_max (length k)
        then fails (bytes "key too long") slot w
        else if leb value_max (length v)
        then fails (bytes "value too long") slot w
        else one_sided_set_loop num_slots 0 false 0 slot w
