-- ===== src/RdmaStore/Valid.antt =====
-- The invariant of the table, and what `get` means under it.
use cs2640_final_project.Prelude.{
  ℕ, ◌<◌, ◌≡◌, ◌≢◌, refl, sym, ◌∙◌, inl, inr, Bool, true, false, none, some, arith, length,
  get_or-replicate, length-replicate, has, Option-cases, nat_eq, Bytes,
}
use cs2640_final_project.RdmaStore.{
  RdmaStore, RdmaSlot, slot_at, empty_slot, probe_at, c_string, num_slots, key_max, get, erase,
  slot_index, new_store,
}
use cs2640_final_project.RdmaStore.Lookup.{
  probed, live, HasStates, Search, hit, gap, exhausted, get_result, erase_result, loops-Found,
}

-- a key that `set` accepts, without a NUL
pub record IsKey (k : Bytes) : Type 0 where
  pub no_nul : has 0 k ≡ false
  pub short : length k < key_max

-- round `i` of the loops for `k`
abbrev pub round : RdmaStore → Bytes → ℕ → RdmaSlot
round store k i = probed store (slot_index k) i

abbrev pub holds : RdmaStore → Bytes → ℕ → Bool
holds store k i = live store k (slot_index k) i

-- On the probe sequence of a key no empty slot stands before the slot of the key, and that is the only
-- slot of the key.
pub record IsValid (store : RdmaStore) : Type 0 where
  pub width : length store.slots ≡ num_slots
  pub states : HasStates store
  pub unbroken :
      (k : Bytes) (i j : ℕ)
      → IsKey k
      → i < num_slots
      → j < i
      → holds store k i ≡ true
      → (round store k j).occupied ≢ 0
  pub single :
      (k : Bytes) (i j : ℕ)
      → IsKey k
      → i < num_slots
      → j < num_slots
      → holds store k i ≡ true
      → holds store k j ≡ true
      → i ≡ j

pub new_slot : (p : ℕ) → slot_at new_store p ≡ empty_slot
unfolding new_store
new_slot p = get_or-replicate num_slots p empty_slot

pub new_store-IsValid : IsValid new_store
unfolding new_store
new_store-IsValid = record {
  width = length-replicate num_slots empty_slot;
  states = λ p. ground (arith, new_slot p);
  unbroken = λ k i j key a b h. ground (arith, new_slot (probe_at (slot_index k) i));
  single = λ k i j key a b h g. ground (arith, new_slot (probe_at (slot_index k) i));
}

-- the outcome of the loop of `get` and `erase` for a key
pub search :
    (store : RdmaStore) (k : Bytes) → HasStates store → Search store k (slot_index k) 0 num_slots
search store k h = (loops-Found store k (slot_index k) h num_slots 0 num_slots refl).0

pub get-search :
    (store : RdmaStore) (k : Bytes) (h : HasStates store)
    → get store k ≡ get_result store k (slot_index k) 0 num_slots (search store k h)
unfolding get search
get-search store k h = (loops-Found store k (slot_index k) h num_slots 0 num_slots refl).1

pub erase-search :
    (store : RdmaStore) (k : Bytes) (h : HasStates store)
    → erase store k ≡ erase_result store k (slot_index k) 0 num_slots (search store k h)
unfolding erase search
erase-search store k h = (loops-Found store k (slot_index k) h num_slots 0 num_slots refl).2

-- `get` finds the slot of the key, wherever it stands.
pub get-holds :
    (store : RdmaStore) (k : Bytes) (i : ℕ)
    → IsValid store
    → IsKey k
    → i < num_slots
    → holds store k i ≡ true
    → get store k ≡ some (c_string (round store k i).value)
get-holds store k i valid key a h =
    get-search store k valid.states ∙ go (search store k valid.states)
  where
    go :
        (s : Search store k (slot_index k) 0 num_slots)
        → get_result store k (slot_index k) 0 num_slots s ≡ some (c_string (round store k i).value)
    go (hit j _ b l _) = rw (valid.single k i j key a b h l)
    go (gap j _ b e before) = ground (arith, before i, valid.unbroken k i j key)
    go (exhausted before) = ground (arith, before i)

-- What `get` returns is the value of a slot that holds the key.
pub get-some :
    (store : RdmaStore) (k v : Bytes)
    → HasStates store
    → get store k ≡ some v
    → (i : ℕ) × (i < num_slots) × (holds store k i ≡ true) × (v ≡ c_string (round store k i).value)
get-some store k v states e = go (search store k states) (sym (get-search store k states) ∙ e)
  where
    go :
        (s : Search store k (slot_index k) 0 num_slots)
        → get_result store k (slot_index k) 0 num_slots s ≡ some v
        → (i : ℕ) × (i < num_slots)
          × (holds store k i ≡ true)
          × (v ≡ c_string (round store k i).value)
    go (hit j _ b l _) f = (j, b, l, cc)
    go (gap j _ _ _ _) f = cc
    go (exhausted _) f = cc

pub get-none :
    (store : RdmaStore) (k : Bytes)
    → HasStates store
    → ((i : ℕ) → i < num_slots → holds store k i ≡ false)
    → get store k ≡ none
get-none store k states h = elim (Option-cases (get store k)) [
  | inl e ↦ e
  | inr (v, e) ↦ let (i, a, l, _) = get-some store k v states e in ground (arith, h i)
]

pub get-new_store : (k : Bytes) → get new_store k ≡ none
get-new_store k =
    get-none new_store k new_store-IsValid.states
      (λ i a. ground (arith, new_slot (probe_at (slot_index k) i)))
