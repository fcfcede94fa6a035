-- ===== src/RdmaStore/Fresh.antt =====
-- A table without tombstones, in which `set` puts a new key into an empty slot.
use cs2640_final_project.Prelude.{
  ℕ, zero, suc, ◌+◌, ◌≤◌, ◌<◌, ◌≡◌, refl, subst, ◌⊎◌, inl, inr, Bool, false, none, List, [], ◌∷◌,
  arith, nat_eq, leb, length, get_or, get_or-set_self, get_or-set_ne, set as list_set, ℕ_discrete,
  Bytes,
}
use cs2640_final_project.RdmaStore.{
  RdmaStore, RdmaSlot, empty_slot, slot_at, num_slots, key_max, value_max, get, set, put_slot,
  fresh_slot, slot_index,
}
use cs2640_final_project.RdmaStore.Probe.{probe_at-lt}
use cs2640_final_project.RdmaStore.Insert.{
  SetOutcome, overwritten, inserted, full, set_loop-SetOutcome,
}
use cs2640_final_project.RdmaStore.Valid.{IsKey, IsValid, get-holds}
use cs2640_final_project.RdmaStore.Refine.{IsValue}
use cs2640_final_project.RdmaStore.Writes.{position}
use cs2640_final_project.RdmaStore.Count.{in_use}

-- every slot is empty or live
abbrev pub NoTombstones : RdmaStore → Type 0
NoTombstones store = (p : ℕ) → (slot_at store p).occupied ≤ 1

-- the table with one empty slot filled
pub record Filled (store after : RdmaStore) : Type 0 where
  pub none_dead : NoTombstones after
  pub one_more : in_use after.slots ≡ in_use store.slots + 1

in_use-fill :
    (ss : List RdmaSlot) (p : ℕ) (s : RdmaSlot)
    → p < length ss
    → (get_or ss p empty_slot).occupied ≡ 0
    → s.occupied ≡ 1
    → in_use (list_set ss p s) ≡ in_use ss + 1
in_use-fill [] p s a e f = absurd (omega (arith, a))
in_use-fill (t ∷ ts) zero s a e f = ground (arith, e, f)
in_use-fill (t ∷ ts) (suc p) s a e f =
    let h = in_use-fill ts p s (omega (arith, a)) e f in omega (arith, h)

module _ (store : RdmaStore) (valid : IsValid store) (clean : NoTombstones store)
    (k v : Bytes) where
  put-Filled :
      (p : ℕ)
      → p < num_slots
      → (slot_at store p).occupied ≡ 0
      → Filled store (put_slot store p (fresh_slot k v))
  put-Filled p a e =
      let inside : p < length store.slots = rw valid.width a in
      record {
        none_dead = λ q. elim (ℕ_discrete p q) [
          | yes same ↦
              subst (λ x. (slot_at (put_slot store p (fresh_slot k v)) x).occupied ≤ 1) same
                (rw (get_or-set_self store.slots p (fresh_slot k v) empty_slot inside)
                  (omega arith))
          | no other ↦
              rw (get_or-set_ne store.slots p q (fresh_slot k v) empty_slot other) (clean q)
        ];
        one_more = in_use-fill store.slots p (fresh_slot k v) inside e refl;
      }

  -- a key that is not there: nothing happens, or an empty slot is filled
  pub set-Filled :
      IsKey k
      → IsValue v
      → get store k ≡ none
      → (set store k v ≡ (false, store)) ⊎ Filled store (set store k v).1
  unfolding set
  set-Filled key value absent =
      let a : leb key_max (length k) ≡ false = ground (arith, key.short) in
      let b : leb value_max (length v) ≡ false = ground (arith, value.short) in
      rw (a, b)
        (go _ (
          set_loop-SetOutcome store k v (slot_index k) num_slots 0 num_slots num_slots refl
            (inl refl) (λ m c. absurd (omega arith))))
    where
      go :
          (r : Bool × RdmaStore)
          → SetOutcome store k v (slot_index k) num_slots r
          → (r ≡ (false, store)) ⊎ Filled store r.1
      go r (overwritten j c h e) = absurd (cc (get-holds store k j valid key c h))
      go r (inserted j e le c free gone before f) =
          let small = clean (position k j) in
          inr (
            rw f (
              put-Filled (position k j) (probe_at-lt (slot_index k) j)
                (omega (arith, small, free))))
      go r (full passed e) = inl e
