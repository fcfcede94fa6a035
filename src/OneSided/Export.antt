-- ===== src/OneSided/Export.antt =====
-- Changes of the exported table over the network.
use cs2640_final_project.Prelude.{
  ℕ, ◌+◌, ◌*◌, ◌%◌, ◌^◌, ◌≤◌, ◌<◌, ◌≡◌, ◌≢◌, sym, ap, subst, ◌∙◌, ◌⊎◌, inl, inr, arith, dec_lt,
  ℕ_discrete, get_or-set_self, get_or-set_ne,
}
use cs2640_final_project.RdmaStore.{RdmaStore, RdmaSlot, empty_slot, slot_at, put_slot, num_slots}
use cs2640_final_project.RdmaStore.Valid.{IsValid}
use cs2640_final_project.OneSided.{Verb, done, Fabric, slot_address, slot_size, access_count_offset}
use cs2640_final_project.OneSided.Get.{Exports}

-- The exported region does not wrap around.
abbrev pub Fitting : ℕ → Type 0
Fitting base = base + num_slots * slot_size ≤ 2 ^ 64

pub apart :
    (base p q : ℕ)
    → Fitting base
    → p < num_slots
    → q < num_slots
    → p ≢ q
    → (slot_address base p + 1024 ≤ slot_address base q)
      ⊎ (slot_address base q + 1024 ≤ slot_address base p)
unfolding slot_address
apart base p q fit a b n = elim (dec_lt p q) [
  | yes l ↦ inl (omega arith)
  | no l ↦ inr (omega arith)
]

-- writing a slot over the network is `put_slot`
pub write-Exports :
    (f : Fabric) (base : ℕ) (store : RdmaStore) (p : ℕ) (s : RdmaSlot) (w w' : f.World)
    → Fitting base
    → IsValid store
    → p < num_slots
    → f.write w (slot_address base p) s ≡ (done tt, w')
    → Exports f base store w
    → Exports f base (put_slot store p s) w'
write-Exports f base store p s w w' fit valid a e x = record {
  holds = λ q b. elim (ℕ_discrete p q) [
    | yes same ↦
        f.write_delivers w w' (slot_address base q) s
          (subst (λ x. f.write w (slot_address base x) s ≡ (done tt, w')) same e)
        ∙ sym (
            subst (λ x. slot_at (put_slot store p s) x ≡ s) same
              (get_or-set_self store.slots p s empty_slot (rw valid.width a)))
    | no other ↦
        ap (λ (r : Verb (Unit {0}) × f.World). f.memory r.1 (slot_address base q)) (sym e)
        ∙ f.write_keeps w (slot_address base p) (slot_address base q) s
            (apart base p q fit a b other)
        ∙ x.holds q b
        ∙ sym (get_or-set_ne store.slots p q s empty_slot other)
  ];
}

-- the slot after a FETCH_AND_ADD of 1 on its counter
abbrev pub counted : RdmaSlot → RdmaSlot
counted s = record s { access_count = (s.access_count + 1) % 2 ^ 64 }

counter_address :
    (base p : ℕ)
    → Fitting base
    → p < num_slots
    → (slot_address base p + access_count_offset) % 2 ^ 64 ≡ slot_address base p + 8
unfolding slot_address
counter_address base p fit a = omega arith

-- counting an access over the network is counting it in the slot
pub add-Exports :
    (f : Fabric) (base : ℕ) (store : RdmaStore) (p old : ℕ) (w w' : f.World)
    → Fitting base
    → IsValid store
    → p < num_slots
    → f.fetch_and_add w ((slot_address base p + access_count_offset) % 2 ^ 64) 1 ≡ (done old, w')
    → Exports f base store w
    → Exports f base (put_slot store p (counted (slot_at store p))) w'
add-Exports f base store p old w w' fit valid a e x = record {
  holds = λ q b. elim (ℕ_discrete p q) [
    | yes same ↦
        subst (λ y. f.memory w' (slot_address base y) ≡ slot_at (put_slot store p s) y) same here
    | no other ↦
        ap (λ (r : Verb ℕ × f.World). f.memory r.1 (slot_address base q)) (sym e')
        ∙ f.add_keeps w (slot_address base p) (slot_address base q) 1 (apart base p q fit a b other)
        ∙ x.holds q b
        ∙ sym (get_or-set_ne store.slots p q s empty_slot other)
  ];
}
  where
    s : RdmaSlot
    s = counted (slot_at store p)

    e' : f.fetch_and_add w (slot_address base p + 8) 1 ≡ (done old, w')
    e' = subst (λ y. f.fetch_and_add w y 1 ≡ (done old, w')) (counter_address base p fit a) e

    here : f.memory w' (slot_address base p) ≡ slot_at (put_slot store p s) p
    here =
        let (count, now) = f.add_delivers w w' (slot_address base p) 1 old e' in
        now
        ∙ ap
            (λ (c : ℕ). record (f.memory w (slot_address base p)) {
              access_count = (c + 1) % 2 ^ 64;
            })
            count
        ∙ ap counted (x.holds p a)
        ∙ sym (get_or-set_self store.slots p s empty_slot (rw valid.width a))
