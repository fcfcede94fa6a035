-- ===== src/OneSided/Get.antt =====
-- `one_sided_get` over the network reads what `RdmaStore::get` would return on the server.
use cs2640_final_project.Prelude.{
  ℕ, zero, suc, ◌+◌, ◌%◌, ◌^◌, ◌<◌, ◌≡◌, refl, sym, ap, ◌∙◌, Bool, false, Option, none, some, arith,
  ◌==◌, nat_eq, if◌then◌else◌, Bool-cases, inl, inr, Bytes,
}
use cs2640_final_project.RdmaStore.{
  RdmaStore, RdmaSlot, slot_at, num_slots, slot_index, probe_at, get_loop, get, c_string,
  key_matches,
}
use cs2640_final_project.RdmaStore.Probe.{probe_at-lt}
use cs2640_final_project.RdmaStore.Valid.{IsKey}
use cs2640_final_project.OneSided.{
  Verb, done, Fabric, access_count_offset, slot_address, client_index, slot_key_equals, GetState,
  count_access, one_sided_get_loop, one_sided_get,
}
use cs2640_final_project.OneSided.Match.{fnv1a-slot_index, slot_key_equals-strncmp}

pub client_index-probe_at : (k : Bytes) (i : ℕ) → client_index k i ≡ probe_at (slot_index k) i
unfolding client_index probe_at
client_index-probe_at k i = rw fnv1a-slot_index

-- The region at `base` holds the table.
pub record Exports (f : Fabric) (base : ℕ) (store : RdmaStore) (w : f.World) : Type 0 where
  pub holds : (p : ℕ) → p < num_slots → f.memory w (slot_address base p) ≡ slot_at store p

-- No verb fails, which a reliable connection without errors grants.
pub record IsReliable (f : Fabric) : Type 0 where
  pub reads : (w : f.World) (a : ℕ) → (s : RdmaSlot) × ((f.read w a).0 ≡ done s)
  pub writes : (w : f.World) (a : ℕ) (s : RdmaSlot) → (f.write w a s).0 ≡ done tt
  pub atomics : (w : f.World) (a n : ℕ) → (old : ℕ) × ((f.fetch_and_add w a n).0 ≡ done old)

module _ (f : Fabric) (base : ℕ) (store : RdmaStore) (k : Bytes) where
  pub read-Exports :
      (w w' : f.World) (a : ℕ) (r : Verb RdmaSlot)
      → f.read w a ≡ (r, w')
      → Exports f base store w
      → Exports f base store w'
  read-Exports w w' a r e x = record {
    holds = λ p l.
        ap (λ (q : Verb RdmaSlot × f.World). f.memory q.1 (slot_address base p)) (sym e)
        ∙ f.read_keeps w a (slot_address base p)
        ∙ x.holds p l;
  }

  -- the slot that a completed READ of round `i` delivers
  pub read-slot :
      (w w' : f.World) (i : ℕ) (s : RdmaSlot)
      → f.read w (slot_address base (client_index k i)) ≡ (done s, w')
      → Exports f base store w
      → s ≡ slot_at store (probe_at (slot_index k) i)
  read-slot w w' i s e x =
      f.read_delivers w w' _ s e
      ∙ rw client_index-probe_at
          (x.holds (probe_at (slot_index k) i) (probe_at-lt (slot_index k) i))

module _ (f : Fabric) (base : ℕ) (store : RdmaStore) (k : Bytes) (key : IsKey k)
    (metadata : Bool) where
  abbrev answer : GetState f → Option Bytes
  answer st = if st.found then some (c_string st.slot.value) else none

  count_access-found :
      IsReliable f
      → (addr : ℕ) (s : RdmaSlot) (atomic : ℕ) (w : f.World)
      → answer (count_access f base k metadata addr s atomic w) ≡ some (c_string s.value)
  unfolding count_access
  count_access-found rel addr s atomic w =
      let (old, e) = rel.atomics w ((addr + access_count_offset) % 2 ^ 64) 1 in
      elim (Bool-cases metadata) [ inl m ↦ rw (m, e) | inr m ↦ rw m ]

  count_access-slot :
      (addr : ℕ) (s : RdmaSlot) (atomic : ℕ) (w : f.World)
      → (count_access f base k metadata addr s atomic w).slot ≡ s
  unfolding count_access
  count_access-slot addr s atomic w = ground arith

  -- after a READ that is done, the client's tests and the server's are the same
  same_round :
      (rounds i : ℕ) (s : RdmaSlot) (atomic : ℕ) (w' : f.World)
      → IsReliable f
      → s ≡ slot_at store (probe_at (slot_index k) i)
      → answer (one_sided_get_loop f base k metadata rounds (i + 1) s atomic w')
        ≡ get_loop store k (slot_index k) rounds (i + 1)
      → answer (
          if s.occupied == 0
          then record { found = false; slot = s; atomic = atomic; world = w' }
          else if s.occupied == 2
          then one_sided_get_loop f base k metadata rounds (i + 1) s atomic w'
          else if slot_key_equals s.key k
          then count_access f base k metadata (slot_address base (client_index k i)) s atomic w'
          else one_sided_get_loop f base k metadata rounds (i + 1) s atomic w')
        ≡ get_loop store k (slot_index k) (suc rounds) i
  unfolding get_loop
  same_round rounds i s atomic w' rel e ih =
      rw (slot_key_equals-strncmp s.key k key, ← e)
        (elim (Bool-cases (s.occupied == 0)) [
          | inl a ↦ rw a
          | inr a ↦ rw a (elim (Bool-cases (s.occupied == 2)) [
            | inl b ↦ rw b ih
            | inr b ↦ rw b (elim (Bool-cases (key_matches s k)) [
              | inl c ↦ rw c (count_access-found rel _ s atomic w')
              | inr c ↦ rw c ih
            ])
          ])
        ])

  loop-get_loop :
      IsReliable f
      → (rounds i : ℕ) (slot : RdmaSlot) (atomic : ℕ) (w : f.World) → Exports f base store w
      → answer (one_sided_get_loop f base k metadata rounds i slot atomic w)
        ≡ get_loop store k (slot_index k) rounds i
  unfolding one_sided_get_loop
  loop-get_loop rel zero i slot atomic w x = unfold get_loop in refl
  loop-get_loop rel (suc rounds) i slot atomic w x =
      let a : ℕ = slot_address base (client_index k i) in
      let (s, e) = rel.reads w a in
      let w' : f.World = (f.read w a).1 in
      let whole : f.read w a ≡ (done s, w') = rw e in
      rw (e, one_sided_get_loop)
        (same_round rounds i s atomic w' rel (read-slot f base store k w w' i s whole x) (
          loop-get_loop rel rounds (i + 1) s atomic w'
            (read-Exports f base store k w w' a (done s) whole x)))

  -- Over a network without failures that exports the slots of the table, and for a key that fits and
  -- holds no NUL, the client finds what the server's `get` would return, in the slot
  -- that it read last, with or without the counting of accesses; and it reports a miss exactly when
  -- `get` does.
  pub one_sided_get-get :
      IsReliable f
      → (slot : RdmaSlot) (atomic : ℕ) (w : f.World) → Exports f base store w
      → let st = one_sided_get f base k metadata slot atomic w in
        get store k ≡ (if st.found then some (c_string st.slot.value) else none)
  unfolding one_sided_get get
  one_sided_get-get rel slot atomic w x = sym (loop-get_loop rel num_slots 0 slot atomic w x)
