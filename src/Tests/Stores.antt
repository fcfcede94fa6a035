-- ===== src/Tests/Stores.antt =====
-- The two stores: runs, and the theorems at concrete tables.
use cs2640_final_project.Prelude.{
  ℕ, zero, suc, ◌≤◌, ◌≡◌, ◌≢◌, ◌⊎◌, inl, inr, refl, get_or, true, false, none, some, List, [], ◌∷◌,
  arith, nat_eq, list_eq, replicate, length-replicate, Bytes, bytes,
}
use cs2640_final_project.Assoc.{lookup, insert, without}
use cs2640_final_project.KvStore.{
  new_store as new_map, Call, set_call, get_call, erase_call, size_call, flag, found, count, invoke,
  invoke_all,
}
use cs2640_final_project.KvStore
use cs2640_final_project.KvStore.Refine.{empty_map, specify_all, invoke_all-new_store}
use cs2640_final_project.RdmaStore.{
  RdmaStore, RdmaSlot, slot_at, empty_slot, new_store, num_slots, slot_index, fnv, fnv_round,
  probe_at, get, set, erase,
}
use cs2640_final_project.RdmaStore.Valid.{IsKey, IsValid, holds, get-none, new_store-IsValid}
use cs2640_final_project.RdmaStore.Refine.{IsValue, Writes}
use cs2640_final_project.RdmaStore.Methods.{IsPacked, set-Writes, set-IsPacked, erase-Writes}

map_session :
    invoke_all
      (set_call (bytes "a") (bytes "1")
        ∷ set_call (bytes "a") (bytes "2")
        ∷ size_call
        ∷ get_call (bytes "a")
        ∷ erase_call (bytes "a")
        ∷ erase_call (bytes "a")
        ∷ [])
      new_map
    ≡ flag true ∷ flag false ∷ count 1 ∷ found (some (bytes "2")) ∷ flag true ∷ flag false ∷ []
unfolding invoke_all invoke KvStore.set KvStore.get KvStore.erase KvStore.size lookup insert without
map_session = refl

abbrev some_calls : List Call
some_calls = set_call (bytes "a") (bytes "1") ∷ erase_call (bytes "b") ∷ size_call ∷ []

invoke_all-new_store_example : invoke_all some_calls new_map ≡ specify_all some_calls empty_map
invoke_all-new_store_example = invoke_all-new_store some_calls

-- the FNV-1a hash of "a" is 0xe40c292c
fnv_a : fnv 2166136261 (bytes "a") ≡ 0xe40c292c
unfolding fnv fnv_round
fnv_a = refl

slot_a : slot_index (bytes "a") ≡ 0x92c
unfolding slot_index
slot_a = refl

abbrev key_a : IsKey (bytes "a")
key_a = record { no_nul = refl; short = omega arith }

abbrev value_1 : IsValue (bytes "1")
value_1 = record { no_nul = refl; short = omega arith }

set-Writes_example :
    ((set new_store (bytes "a") (bytes "1")).0 ≡ true)
      × Writes new_store (set new_store (bytes "a") (bytes "1")).1 (bytes "a") (some (bytes "1"))
    ⊎ (set new_store (bytes "a") (bytes "1") ≡ (false, new_store))
      × (get new_store (bytes "a") ≡ none)
      × IsPacked new_store
set-Writes_example = set-Writes new_store new_store-IsValid (bytes "a") key_a (bytes "1") value_1

erase-Writes_example :
    (get new_store (bytes "a") ≡ none) × (erase new_store (bytes "a") ≡ (false, new_store))
    ⊎ (get new_store (bytes "a") ≢ none)
      × ((erase new_store (bytes "a")).0 ≡ true)
      × Writes new_store (erase new_store (bytes "a")).1 (bytes "a") none
erase-Writes_example = erase-Writes new_store new_store-IsValid (bytes "a") key_a

-- a table whose slots are all tombstones
abbrev tombstone : RdmaSlot
tombstone = record empty_slot { occupied = 2 }

tombs : RdmaStore
tombs = record { slots = replicate num_slots tombstone }

get_or_within :
    (n i : ℕ) (a d : RdmaSlot)
    → (get_or (replicate n a) i d ≡ a) ⊎ ((get_or (replicate n a) i d ≡ d) × (n ≤ i))
get_or_within zero i a d = inr (refl, omega arith)
get_or_within (suc n) zero a d = inl refl
get_or_within (suc n) (suc i) a d = elim (get_or_within n i a d) [
  | inl e ↦ inl e
  | inr e ↦ inr (e.0, omega arith)
]

tombs-slot :
    (p : ℕ) → (slot_at tombs p ≡ tombstone) ⊎ ((slot_at tombs p ≡ empty_slot) × (num_slots ≤ p))
unfolding tombs
tombs-slot p = get_or_within num_slots p tombstone empty_slot

tombs-holds : (k : Bytes) (i : ℕ) → holds tombs k i ≡ false
tombs-holds k i = elim (tombs-slot (probe_at (slot_index k) i)) [ inl e ↦ rw e | inr e ↦ rw e.0 ]

tombs-IsValid : IsValid tombs
tombs-IsValid = record {
  width = unfold tombs in length-replicate num_slots tombstone;
  states = λ p. elim (tombs-slot p) [ inl e ↦ rw e (omega arith) | inr e ↦ rw e.0 (omega arith) ];
  unbroken = λ k i j key a b h. ground (arith, tombs-holds k i);
  single = λ k i j key a b h g. ground (arith, tombs-holds k i);
}

tombs-IsPacked : IsPacked tombs
tombs-IsPacked p h = elim (tombs-slot p) [
  | inl e ↦ rw e (omega arith)
  | inr e ↦ absurd (omega (arith, e.1))
]

tombs-get : (k : Bytes) → get tombs k ≡ none
tombs-get k = get-none tombs k tombs-IsValid.states (λ i a. tombs-holds k i)

set-IsPacked_example : set tombs (bytes "a") (bytes "1") ≡ (false, tombs)
set-IsPacked_example =
    set-IsPacked tombs tombs-IsValid (bytes "a") key_a (bytes "1") value_1 tombs-IsPacked
      (tombs-get (bytes "a"))
