-- ===== src/RdmaStore/Writes.antt =====
-- One slot is written: when the invariant is kept, and what `get` reads afterwards.
use cs2640_final_project.Prelude.{
  ℕ, ◌≤◌, ◌<◌, ◌≡◌, ◌≢◌, sym, ap, ◌∙◌, inl, inr, Bool, true, false, ◌&&◌, none, some, length-set,
  get_or-set_self, get_or-set_ne, Option-cases, Bool-cases, ◌==◌, nat_eq, ℕ_discrete, Bytes,
}
use cs2640_final_project.RdmaStore.{
  RdmaStore, RdmaSlot, slot_at, put_slot, empty_slot, probe_at, key_matches, c_string, num_slots,
  get, slot_index,
}
use cs2640_final_project.RdmaStore.Probe.{probe_at_injective}
use cs2640_final_project.RdmaStore.Valid.{
  IsKey, round, holds, IsValid, get-holds, get-some, get-none,
}

abbrev pub position : Bytes → ℕ → ℕ
position k i = probe_at (slot_index k) i

abbrev pub slot_live : RdmaSlot → Bytes → Bool
slot_live s q = s.occupied == 1 && key_matches s q

module _ (store : RdmaStore) (valid : IsValid store) (p : ℕ) (inside : p < num_slots)
    (s : RdmaSlot) where
  abbrev after : RdmaStore
  after = put_slot store p s

  round_here : (q : Bytes) (i : ℕ) → position q i ≡ p → round after q i ≡ s
  round_here q i e = rw e (get_or-set_self store.slots p s empty_slot (rw valid.width inside))

  round_there : (q : Bytes) (i : ℕ) → position q i ≢ p → round after q i ≡ round store q i
  round_there q i n = get_or-set_ne store.slots p (position q i) s empty_slot (λ e. n (sym e))

  -- `s` may stand at `p`: for a key that it matches, no empty slot comes before, and there is no other
  -- slot of that key.
  abbrev pub Fits : Type 0
  Fits =
      (q : Bytes) (i : ℕ)
      → IsKey q
      → i < num_slots
      → position q i ≡ p
      → slot_live s q ≡ true
      → ((j : ℕ) → j < i → (round store q j).occupied ≢ 0)
        × ((j : ℕ) → j < num_slots → holds store q j ≡ true → j ≡ i)

  filled :
      (q : Bytes) (j : ℕ)
      → s.occupied ≢ 0
      → (round store q j).occupied ≢ 0
      → (round after q j).occupied ≢ 0
  filled q j n f = elim (ℕ_discrete (position q j) p) [
    | yes e ↦ rw (round_here q j e) n
    | no d ↦ rw (round_there q j d) f
  ]

  pub put-IsValid : s.occupied ≢ 0 → s.occupied ≤ 2 → Fits → IsValid after
  put-IsValid full small fits = record {
    width = length-set store.slots p s ∙ valid.width;
    states = states;
    unbroken = unbroken;
    single = single;
  }
    where
      states : (x : ℕ) → (slot_at after x).occupied ≤ 2
      states x = elim (ℕ_discrete p x) [
        | yes e ↦ rw (← e, get_or-set_self store.slots p s empty_slot (rw valid.width inside)) small
        | no d ↦ rw (get_or-set_ne store.slots p x s empty_slot d) (valid.states x)
      ]

      unbroken :
          (k : Bytes) (i j : ℕ)
          → IsKey k
          → i < num_slots
          → j < i
          → holds after k i ≡ true
          → (round after k j).occupied ≢ 0
      unbroken k i j key a b h = elim (ℕ_discrete (position k i) p) [
        | yes e ↦ filled k j full ((fits k i key a e (rw (round_here k i e) at h)).0 j b)
        | no d ↦ filled k j full (valid.unbroken k i j key a b (rw (round_there k i d) at h))
      ]

      single :
          (k : Bytes) (i j : ℕ)
          → IsKey k
          → i < num_slots
          → j < num_slots
          → holds after k i ≡ true
          → holds after k j ≡ true
          → i ≡ j
      single k i j key a b h g = elim (ℕ_discrete (position k i) p) [
        | yes e ↦ elim (ℕ_discrete (position k j) p) [
          | yes f ↦ probe_at_injective (slot_index k) i j a b (e ∙ sym f)
          | no f ↦
              sym (
                (fits k i key a e (rw (round_here k i e) at h)).1 j b (rw (round_there k j f) at g))
        ]
        | no e ↦ elim (ℕ_discrete (position k j) p) [
          | yes f ↦
              (fits k j key b f (rw (round_here k j f) at g)).1 i a (rw (round_there k i e) at h)
          | no f ↦
              valid.single k i j key a b (rw (round_there k i e) at h) (rw (round_there k j f) at g)
        ]
      ]

  module _ (kept : IsValid after) (q : Bytes) (key : IsKey q) where
    pub get-put_self :
        (i : ℕ)
        → i < num_slots
        → position q i ≡ p
        → slot_live s q ≡ true
        → get after q ≡ some (c_string s.value)
    get-put_self i a e h =
        get-holds after q i kept key a (rw (round_here q i e) h) ∙ rw (round_here q i e)

    -- A key that neither the old nor the new slot matches is read as before.
    pub get-put_other :
        slot_live s q ≡ false
        → ((i : ℕ) → i < num_slots → holds store q i ≡ true → position q i ≢ p)
        → get after q ≡ get store q
    get-put_other dead apart = elim (Option-cases (get store q)) [
      | inr (v, e) ↦
          let (i, a, h, c) = get-some store q v valid.states e in
          let same = round_there q i (apart i a h) in
          get-holds after q i kept key a (rw same h) ∙ rw same (ap some (sym c)) ∙ sym e
      | inl e ↦ get-none after q kept.states (none_there e) ∙ sym e
    ]
      where
        none_there : get store q ≡ none → (i : ℕ) → i < num_slots → holds after q i ≡ false
        none_there e i a = elim (ℕ_discrete (position q i) p) [
          | yes f ↦ rw (round_here q i f) dead
          | no f ↦ rw (round_there q i f) (elim (Bool-cases (holds store q i)) [
            | inr h ↦ h
            | inl h ↦ cc (get-holds store q i valid key a h)
          ])
        ]

    -- A key whose only slot is overwritten by one that it does not match is gone.
    pub get-put_dead :
        slot_live s q ≡ false
        → ((i : ℕ) → i < num_slots → holds store q i ≡ true → position q i ≡ p)
        → get after q ≡ none
    get-put_dead dead only = get-none after q kept.states λ i a.
        elim (ℕ_discrete (position q i) p) [
          | yes f ↦ rw (round_here q i f) dead
          | no f ↦
              rw (round_there q i f) (elim (Bool-cases (holds store q i)) [
                | inr h ↦ h
                | inl h ↦ absurd (f (only i a h))
              ])
        ]
