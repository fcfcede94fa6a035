-- ===== src/OneSided.antt =====
-- The one-sided client of src/client/rdma_client.cpp: it walks the server's table by RDMA READs, and
-- writes it by RDMA WRITEs, without the server's code. The verbs library is a parameter, `Fabric`.
pub mod Match
pub mod Get
pub mod Export
pub mod Counts
pub mod Writer
pub mod Card
pub mod Accesses
pub mod Regions
pub mod Bounds
use cs2640_final_project.Prelude.{
  ℕ, zero, suc, ◌+◌, ◌-◌, ◌*◌, ◌%◌, ◌^◌, ◌≤◌, ◌<◌, ◌≡◌, ◌≢◌, ◌⊎◌, bit_and, Bool, true, false, ◌&&◌,
  Option, none, some, [], ◌∷◌, ◌==◌, nat_eq, leb, if◌then◌else◌, length, replicate, Bytes, bytes,
}
use cs2640_final_project.RdmaStore.{
  RdmaSlot, empty_slot, num_slots, key_max, value_max, fnv, fill, strncmp_eq,
}

-- `post_…` and the `poll_completion` behind it: the post fails, the completion fails, or it is done.
pub data Verb (A : Type 0) : Type 0 where
  post_failed completion_failed : Verb A
  done : A → Verb A

-- What the RDMA network does with the server's memory: `memory w a` is the slot whose first byte is at
-- the remote address `a`. A completed READ delivers that slot, and no READ changes anything; a
-- completed WRITE replaces it; and a WRITE, completed or not, leaves alone what is at least one slot
-- away from where it goes. A completed FETCH_AND_ADD on the counter of a slot returns it and adds to it,
-- in 64 bits, and leaves alone what a WRITE to that slot would.
pub record Fabric : Type 1 where
  pub World : Type 0
  pub memory : World → ℕ → RdmaSlot
  pub read : World → ℕ → Verb RdmaSlot × World
  pub write : World → ℕ → RdmaSlot → Verb (Unit {0}) × World
  pub fetch_and_add : World → ℕ → ℕ → Verb ℕ × World
  pub read_delivers :
      (w w' : World) (a : ℕ) (s : RdmaSlot) → read w a ≡ (done s, w') → s ≡ memory w a
  pub read_keeps : (w : World) (a b : ℕ) → memory (read w a).1 b ≡ memory w b
  pub write_delivers :
      (w w' : World) (a : ℕ) (s : RdmaSlot) → write w a s ≡ (done tt, w') → memory w' a ≡ s
  pub write_keeps :
      (w : World) (a b : ℕ) (s : RdmaSlot)
      → (a + 1024 ≤ b) ⊎ (b + 1024 ≤ a)
      → memory (write w a s).1 b ≡ memory w b
  pub add_delivers :
      (w w' : World) (a n old : ℕ)
      → fetch_and_add w (a + 8) n ≡ (done old, w')
      → (old ≡ (memory w a).access_count)
        × (memory w' a ≡ record (memory w a) { access_count = (old + n) % 2 ^ 64 })
  pub add_keeps :
      (w : World) (a b n : ℕ)
      → (a + 1024 ≤ b) ⊎ (b + 1024 ≤ a)
      → memory (fetch_and_add w (a + 8) n).1 b ≡ memory w b

-- the size of a slot, and the offset of `access_count` in it
abbrev pub slot_size : ℕ
slot_size = 1024

abbrev pub access_count_offset : ℕ
access_count_offset = 8

-- the client's copy of the hash
unfoldable pub fnv1a : Bytes → ℕ
fnv1a k = bit_and (fnv 2166136261 k) (num_slots - 1)

-- `while (slot_len < RDMA_KEY_MAX && slot_key[slot_len] != '\0') ++slot_len;`
unfoldable pub slot_length : ℕ → Bytes → ℕ
slot_length zero a = 0
slot_length (suc n) [] = 0
slot_length (suc n) (x ∷ xs) = if x == 0 then 0 else suc (slot_length n xs)

-- `std::memcmp(a, b, n) == 0`
unfoldable pub memcmp_eq : ℕ → Bytes → Bytes → Bool
memcmp_eq zero a b = true
memcmp_eq (suc n) (x ∷ xs) (y ∷ ys) = x == y && memcmp_eq n xs ys
memcmp_eq (suc n) a b = false

unfoldable pub slot_key_equals : Bytes → Bytes → Bool
unfolding slot_length memcmp_eq
slot_key_equals a k = slot_length key_max a == length k && memcmp_eq (length k) a k

-- the index of round `i`, and the address of a slot, in `uint64_t`
unfoldable pub client_index : Bytes → ℕ → ℕ
unfolding fnv1a
client_index k i = bit_and (fnv1a k + i) (num_slots - 1)

unfoldable pub slot_address : ℕ → ℕ → ℕ
slot_address base idx = (base + idx * slot_size) % 2 ^ 64

module _ (f : Fabric) where
  open f use {World, read, write, fetch_and_add}

  -- what `one_sided_get` leaves: its result, `local_slot`, `atomic_result`, and the network
  pub record GetState : Type 0 where
    pub found : Bool
    pub slot : RdmaSlot
    pub atomic : ℕ
    pub world : World

  module _ (base : ℕ) (k : Bytes) (metadata : Bool) where
    -- the slot matches: the optional FETCH_AND_ADD on its counter
    unfoldable pub count_access : ℕ → RdmaSlot → ℕ → World → GetState
    count_access addr slot atomic w =
        let (r, w') = fetch_and_add w ((addr + access_count_offset) % 2 ^ 64) 1 in
        if metadata
        then elim r [
          | done old ↦ record { found = true; slot = slot; atomic = old; world = w' }
          | post_failed ↦ record { found = false; slot = slot; atomic = atomic; world = w' }
          | completion_failed ↦ record { found = false; slot = slot; atomic = atomic; world = w' }
        ]
        else record { found = true; slot = slot; atomic = atomic; world = w }

    abbrev absent : RdmaSlot → ℕ → World → GetState
    absent slot atomic w = record { found = false; slot = slot; atomic = atomic; world = w }

    -- the loop of `one_sided_get` with `rounds` rounds left, from round `i`
    unfoldable pub one_sided_get_loop : ℕ → ℕ → RdmaSlot → ℕ → World → GetState
    one_sided_get_loop zero i slot atomic w = absent slot atomic w
    one_sided_get_loop (suc rounds) i slot atomic w =
        let addr = slot_address base (client_index k i) in
        let (r, w') = read w addr in
        elim r [
          | post_failed ↦ absent slot atomic w'
          | completion_failed ↦ absent slot atomic w'
          | done s ↦
              let rest = one_sided_get_loop rounds (i + 1) s atomic w' in
              if s.occupied == 0
              then absent s atomic w'
              else if s.occupied == 2
              then rest
              else if slot_key_equals s.key k
              then count_access addr s atomic w'
              else rest
        ]

    unfoldable pub one_sided_get : RdmaSlot → ℕ → World → GetState
    one_sided_get slot atomic w = one_sided_get_loop num_slots 0 slot atomic w
