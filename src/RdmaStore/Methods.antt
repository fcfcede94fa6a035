-- ===== src/RdmaStore/Methods.antt =====
-- The public methods of `RdmaStore`, against the map that the table stands for.
use cs2640_final_project.Prelude.{
  ℕ, ◌≤◌, ◌<◌, ◌≡◌, ◌≢◌, refl, ap, subst, ◌∙◌, ◌⊎◌, inl, inr, Bool, true, false, none, some, arith,
  length, leb, nat_eq, list_eq, Bytes,
}
use cs2640_final_project.RdmaStore.{
  RdmaStore, RdmaSlot, slot_at, put_slot, c_string, fill, fresh_slot, num_slots, key_max, value_max,
  get, set, erase, slot_index,
}
use cs2640_final_project.RdmaStore.Arrays.{c_string-fill, strncmp-fill}
use cs2640_final_project.RdmaStore.Probe.{probe_at-lt, slot_index-lt, probe_at_surjective}
use cs2640_final_project.RdmaStore.Lookup.{Search, hit, gap, exhausted, erase_result, get_result}
use cs2640_final_project.RdmaStore.Insert.{
  SetOutcome, overwritten, inserted, full, set_loop-SetOutcome,
}
use cs2640_final_project.RdmaStore.Valid.{
  IsKey, round, IsValid, get-holds, get-none, get-search, search, erase-search,
}
use cs2640_final_project.RdmaStore.Writes.{position, slot_live, get-put_self, get-put_dead}
use cs2640_final_project.RdmaStore.Refine.{
  IsValue, Writes, reads_by_cases, overwrite_keeps, insert_keeps,
}

-- no slot is empty; tombstones count as used
abbrev pub IsPacked : RdmaStore → Type 0
IsPacked store = (p : ℕ) → p < num_slots → (slot_at store p).occupied ≢ 0

-- Keys and values that do not fit are refused, and the table is left alone.
pub set-too_long :
    (store : RdmaStore) (k v : Bytes)
    → (key_max ≤ length k) ⊎ (value_max ≤ length v)
    → set store k v ≡ (false, store)
unfolding set
set-too_long store k v h = ground arith

module _ (store : RdmaStore) (valid : IsValid store) (k : Bytes) (key : IsKey k) where
  read_back :
      (j : ℕ) (s : RdmaSlot)
      → j < num_slots
      → IsValid (put_slot store (position k j) s)
      → slot_live s k ≡ true
      → get (put_slot store (position k j) s) k ≡ some (c_string s.value)
  read_back j s a kept h =
      get-put_self store valid (position k j) (probe_at-lt (slot_index k) j) s kept k key j a refl h

  -- a slot of `k` in its place makes the table read its value for `k`
  pub put-Writes :
      (j : ℕ) (s : RdmaSlot) (v : Bytes)
      → j < num_slots
      → slot_live s k ≡ true
      → c_string s.value ≡ v
      → IsValid (put_slot store (position k j) s)
        × ((q : Bytes) → IsKey q → k ≢ q → get (put_slot store (position k j) s) q ≡ get store q)
      → Writes store (put_slot store (position k j) s) k (some v)
  put-Writes j s v a h e (kept, others) = record {
    valid = kept;
    reads = reads_by_cases store _ k (some v) (read_back j s a kept h ∙ ap some e) others;
  }

  module _ (v : Bytes) (value : IsValue v) where
    abbrev Stored : Bool × RdmaStore → Type 0
    Stored r = (r.0 ≡ true) × Writes store r.1 k (some v)

    abbrev Refused : Bool × RdmaStore → Type 0
    Refused r = (r ≡ (false, store)) × (get store k ≡ none) × IsPacked store

    outcome :
        (r : Bool × RdmaStore)
        → SetOutcome store k v (slot_index k) num_slots r
        → Stored r ⊎ Refused r
    outcome r (overwritten j a h e) =
        let s : RdmaSlot = record (round store k j) { value = fill value_max v } in
        inl (
          rw e (
            refl,
            put-Writes j s v a h (c_string-fill value_max v value.no_nul)
                (overwrite_keeps store valid k key j s a h refl (ground arith) (ground arith)),
          ))
    outcome r (inserted j e le a free gone before f) = inl (
        rw f (
          refl,
          put-Writes j (fresh_slot k v) v (omega arith) (strncmp-fill key_max k)
              (c_string-fill value_max v value.no_nul)
              (insert_keeps store valid k key j e v le a free gone before),
        ))
    outcome r (full passed e) = inr (
      e,
      get-none store k valid.states (λ i a. (passed i a).1),
      λ p a.
          let (i, b, f) = probe_at_surjective (slot_index k) p (slot_index-lt k) a in
          subst (λ x. (slot_at store x).occupied ≢ 0) f (passed i b).0,
    )

    -- On a valid table, with a key and a value that fit and hold no NUL: `set` stores the value under the key, keeps every other key and the invariant, and says `true`; or
    -- it changes nothing and says `false`, and then the key is absent and no slot is empty.
    pub set-Writes : Stored (set store k v) ⊎ Refused (set store k v)
    unfolding set
    set-Writes =
        let a : leb key_max (length k) ≡ false = ground (arith, key.short) in
        let b : leb value_max (length v) ≡ false = ground (arith, value.short) in
        rw (a, b)
          (outcome _ (
            set_loop-SetOutcome store k v (slot_index k) num_slots 0 num_slots num_slots refl
              (inl refl) (λ m c. absurd (omega arith))))

    -- In a valid table a key that fits and is not there is refused as soon as no slot is empty, however many tombstones there are.
    pub set-IsPacked : IsPacked store → get store k ≡ none → set store k v ≡ (false, store)
    unfolding set
    set-IsPacked packed absent =
        let a : leb key_max (length k) ≡ false = ground (arith, key.short) in
        let b : leb value_max (length v) ≡ false = ground (arith, value.short) in
        rw (a, b)
          (go _ (
            set_loop-SetOutcome store k v (slot_index k) num_slots 0 num_slots num_slots refl
              (inl refl) (λ m c. absurd (omega arith))))
      where
        go :
            (r : Bool × RdmaStore)
            → SetOutcome store k v (slot_index k) num_slots r
            → r ≡ (false, store)
        go r (overwritten j c h e) = cc (get-holds store k j valid key c h)
        go r (inserted j e le c free gone before f) =
            absurd (packed (position k e) (probe_at-lt (slot_index k) e) gone)
        go r (full passed e) = e

  -- On a valid table, for a key that fits and holds no NUL: `erase` says whether the key was there, removes it, and keeps every other key and the invariant.
  pub erase-Writes :
      ((get store k ≡ none) × (erase store k ≡ (false, store)))
      ⊎ ((get store k ≢ none) × ((erase store k).0 ≡ true) × Writes store (erase store k).1 k none)
  erase-Writes =
      go (search store k valid.states) (get-search store k valid.states)
        (erase-search store k valid.states)
    where
      go :
          (s : Search store k (slot_index k) 0 num_slots)
          → get store k ≡ get_result store k (slot_index k) 0 num_slots s
          → erase store k ≡ erase_result store k (slot_index k) 0 num_slots s
          → ((get store k ≡ none) × (erase store k ≡ (false, store)))
            ⊎ ((get store k ≢ none)
                × ((erase store k).0 ≡ true)
                × Writes store (erase store k).1 k none)
      go (gap _ _ _ _ _) g e = inl (g, e)
      go (exhausted _) g e = inl (g, e)
      go (hit j _ a h _) g e =
          let s : RdmaSlot = record (round store k j) { occupied = 2 } in
          let (kept, others) =
            overwrite_keeps store valid k key j s a h refl (omega arith) (omega arith) in
          inr (
            ground arith,
            rw e refl,
            rw e (record {
              valid = kept;
              reads =
                  reads_by_cases store _ k none
                    (get-put_dead store valid (position k j) (probe_at-lt (slot_index k) j) s kept k
                      key refl (λ i b l. ap (position k) (valid.single k i j key b a l h)))
                    others;
            }),
          )
