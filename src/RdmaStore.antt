-- ===== src/RdmaStore.antt =====
-- The table that one-sided clients read: include/kvstore/rdma_store.hpp and
-- src/kvstore/rdma_store.cpp. A `char` array is the list of its bytes, the slot array a list of slots.
pub mod Arrays
pub mod Probe
pub mod Lookup
pub mod Insert
pub mod Valid
pub mod Writes
pub mod Refine
pub mod Methods
pub mod Count
pub mod Fresh
use cs2640_final_project.Prelude.{
  ℕ, zero, suc, ◌+◌, ◌-◌, ◌*◌, ◌%◌, ◌^◌, bit_and, bit_xor, Bool, true, false, ◌&&◌, Option, none,
  some, List, [], ◌∷◌, ◌++◌, leb, ◌==◌, nat_eq, if◌then◌else◌, length, get_or, set as list_set,
  replicate, Bytes,
}

abbrev pub key_max : ℕ
key_max = 112

abbrev pub value_max : ℕ
value_max = 896

abbrev pub num_slots : ℕ
num_slots = 4096

pub record RdmaSlot : Type 0 where
  pub occupied : ℕ
  pub access_count : ℕ
  pub key : Bytes
  pub value : Bytes

abbrev pub empty_slot : RdmaSlot
empty_slot = record {
  occupied = 0;
  access_count = 0;
  key = replicate key_max 0;
  value = replicate value_max 0;
}

pub record RdmaStore : Type 0 where
  pub slots : List RdmaSlot

-- the constructor, which zeroes every slot
unfoldable pub new_store : RdmaStore
new_store = record { slots = replicate num_slots empty_slot }

-- one round of FNV-1a on `uint32_t`
unfoldable pub fnv_round : ℕ → ℕ → ℕ
fnv_round hash c = bit_xor hash c * 16777619 % 2 ^ 32

unfoldable pub fnv : ℕ → Bytes → ℕ
fnv hash [] = hash
fnv hash (c ∷ cs) = fnv (fnv_round hash c) cs

unfoldable pub slot_index : Bytes → ℕ
unfolding fnv fnv_round
slot_index k = bit_and (fnv 2166136261 k) (num_slots - 1)

-- `std::strncmp(a, b, n) == 0`: equal up to the first NUL, or for `n` bytes. Behind the end of a list
-- stands a NUL: that of a C string.
unfoldable pub strncmp_eq : ℕ → Bytes → Bytes → Bool
strncmp_eq zero a b = true
strncmp_eq (suc n) [] [] = true
strncmp_eq (suc n) [] (y ∷ ys) = y == 0
strncmp_eq (suc n) (x ∷ xs) [] = x == 0
strncmp_eq (suc n) (x ∷ xs) (y ∷ ys) = x == y && (if x == 0 then true else strncmp_eq n xs ys)

-- `std::string(array)`: the bytes before the first NUL
unfoldable pub c_string : Bytes → Bytes
c_string [] = []
c_string (x ∷ xs) = if x == 0 then [] else x ∷ c_string xs

-- `memset(dst, 0, size); memcpy(dst, src, n)`
abbrev pub fill : ℕ → Bytes → Bytes
fill n src = src ++ replicate (n - length src) 0

abbrev pub slot_at : RdmaStore → ℕ → RdmaSlot
slot_at store p = get_or store.slots p empty_slot

abbrev pub put_slot : RdmaStore → ℕ → RdmaSlot → RdmaStore
put_slot store p slot = record { slots = list_set store.slots p slot }

-- `(idx + i) & (RDMA_NUM_SLOTS - 1)`
unfoldable pub probe_at : ℕ → ℕ → ℕ
probe_at idx i = bit_and (idx + i) (num_slots - 1)

abbrev pub key_matches : RdmaSlot → Bytes → Bool
key_matches slot k = strncmp_eq key_max slot.key k

-- the slot that an insertion writes
abbrev pub fresh_slot : Bytes → Bytes → RdmaSlot
fresh_slot k v = record {
  occupied = 1;
  access_count = 0;
  key = fill key_max k;
  value = fill value_max v;
}

module _ (store : RdmaStore) (k : Bytes) where
  -- The loop of `get` with `rounds` rounds left, from round `i`.
  unfoldable pub get_loop : ℕ → ℕ → ℕ → Option Bytes
  get_loop idx zero i = none
  get_loop idx (suc rounds) i =
      let slot = slot_at store (probe_at idx i) in
      let rest = get_loop idx rounds (i + 1) in
      if slot.occupied == 0
      then none
      else if slot.occupied == 2
      then rest
      else if key_matches slot k
      then some (c_string slot.value)
      else rest

  unfoldable pub get : Option Bytes
  get = get_loop (slot_index k) num_slots 0

  unfoldable pub erase_loop : ℕ → ℕ → ℕ → Bool × RdmaStore
  erase_loop idx zero i = (false, store)
  erase_loop idx (suc rounds) i =
      let probe = probe_at idx i in
      let slot = slot_at store probe in
      let rest = erase_loop idx rounds (i + 1) in
      if slot.occupied == 0
      then (false, store)
      else if slot.occupied == 2
      then rest
      else if key_matches slot k
      then (true, put_slot store probe (record slot { occupied = 2 }))
      else rest

  unfoldable pub erase : Bool × RdmaStore
  erase = erase_loop (slot_index k) num_slots 0

  module _ (v : Bytes) where
    -- `tomb` is `first_tombstone`, which is `RDMA_NUM_SLOTS` while there is none.
    unfoldable pub set_loop : ℕ → ℕ → ℕ → ℕ → Bool × RdmaStore
    set_loop idx zero i tomb = (false, store)
    set_loop idx (suc rounds) i tomb =
        let probe = probe_at idx i in
        let slot = slot_at store probe in
        let tomb' = if slot.occupied == 2 && tomb == num_slots then probe else tomb in
        let rest = set_loop idx rounds (i + 1) tomb' in
        if slot.occupied == 1 && key_matches slot k
        then (true, put_slot store probe (record slot { value = fill value_max v }))
        else if slot.occupied == 0
        then (true, put_slot store (if tomb' == num_slots then probe else tomb') (fresh_slot k v))
        else rest

    unfoldable pub set : Bool × RdmaStore
    set =
        if leb key_max (length k)
        then (false, store)
        else if leb value_max (length v)
        then (false, store)
        else set_loop (slot_index k) num_slots 0 num_slots
