-- ===== src/OneSided/Writer/Refine.antt =====
-- What `one_sided_set` makes of the table that the server exports.
use cs2640_final_project.Prelude.{
  ℕ, zero, suc, ◌+◌, ◌<◌, ◌≡◌, ◌≢◌, refl, subst, ◌⊎◌, inl, inr, Bool, true, false, ◌&&◌, not, arith,
  ◌==◌, nat_eq, leb, length, if◌then◌else◌, Bool-cases, ℕ_discrete, Bytes, bytes,
}
use cs2640_final_project.RdmaStore.{
  RdmaStore, RdmaSlot, slot_at, num_slots, key_max, value_max, slot_index,
}
use cs2640_final_project.RdmaStore.Probe.{slot_index-lt, probe_at_surjective}
use cs2640_final_project.RdmaStore.Lookup.{Passed}
use cs2640_final_project.RdmaStore.Valid.{IsKey, round, holds, IsValid, get-none}
use cs2640_final_project.RdmaStore.Writes.{position}
use cs2640_final_project.RdmaStore.Refine.{IsValue, rewrite_keeps, place_keeps, gap-absent}
use cs2640_final_project.OneSided.{done, Fabric, slot_address}
use cs2640_final_project.OneSided.Match.{slot_key_equals-strncmp}
use cs2640_final_project.OneSided.Get.{
  Exports, IsReliable, client_index-probe_at, read-Exports, read-slot,
}
use cs2640_final_project.OneSided.Export.{Fitting}
use cs2640_final_project.OneSided.Writer.{
  SetState, fails, write_slot, set_round, one_sided_set_loop, one_sided_set,
}
use cs2640_final_project.OneSided.Writer.Outcome.{Stored, Refused, write_slot-Stored}

module _ (f : Fabric) (base : ℕ) (store : RdmaStore) (k v : Bytes) (rel : IsReliable f)
    (fit : Fitting base) (valid : IsValid store) (key : IsKey k) (value : IsValue v) where
  -- `first_tombstone_addr` before round `i`: the first tombstone, or there was none
  abbrev Noted : ℕ → Bool → ℕ → Type 0
  Noted i saw first =
      ((saw ≡ false) × ((m : ℕ) → m < i → (round store k m).occupied ≢ 2))
      ⊎ ((saw ≡ true)
          × ((j : ℕ) × (j < i)
              × (first ≡ slot_address base (position k j))
              × ((round store k j).occupied ≡ 2)))

  abbrev Before : ℕ → Type 0
  Before i = (m : ℕ) → m < i → Passed store k (slot_index k) m

  -- the target of a new key at an empty slot
  gap-Stored :
      (i : ℕ) (saw : Bool) (first : ℕ) (slot : RdmaSlot) (w : f.World)
      → i < num_slots
      → (round store k i).occupied ≡ 0
      → Noted i saw first
      → Before i
      → Exports f base store w
      → Stored f base store k v
          (write_slot f base k v (if saw then first else slot_address base (position k i)) 0 slot w)
  gap-Stored i saw first slot w a empty n before x = go n
    where
      absent : (m : ℕ) → m < num_slots → holds store k m ≡ false
      absent = gap-absent store valid k key i a empty before

      go :
          Noted i saw first
          → Stored f base store k v (
              write_slot f base k v
                (if saw then first else slot_address base (position k i))
                0
                slot
                w)
      go (inl (e, _)) = rw e (
          write_slot-Stored f base store k v rel fit valid key value i 0 slot w a
            (place_keeps store valid k key i 0 v a (omega arith) (λ m l. (before m l).0) absent) x)
      go (inr (e, (j, l, g, tomb))) =
          rw (e, g)
            (write_slot-Stored f base store k v rel fit valid key value j 0 slot w (omega arith)
              (place_keeps store valid k key j 0 v (omega arith) (omega arith)
                (λ m b. (before m (omega arith)).0) absent)
              x)

  -- after the last round
  end-Outcome :
      (saw : Bool) (first : ℕ) (slot : RdmaSlot) (w : f.World)
      → Noted num_slots saw first
      → Before num_slots
      → Exports f base store w
      → let st =
          if saw
          then write_slot f base k v first 0 slot w
          else fails f (bytes "remote table full") slot w in
        Stored f base store k v st ⊎ Refused f base store k v st
  end-Outcome saw first slot w (inr (e, (j, l, g, tomb))) before x =
      rw (e, g)
        (inl (
          write_slot-Stored f base store k v rel fit valid key value j 0 slot w l
            (place_keeps store valid k key j 0 v l (omega arith) (λ m b. (before m (omega arith)).0)
              (λ m b. (before m b).1))
            x))
  end-Outcome saw first slot w (inl (e, none_seen)) before x = rw e (
      inr (
        refl,
        refl,
        x,
        get-none store k valid.states (λ m b. (before m b).1),
        λ p a.
            let (i, b, g) = probe_at_surjective (slot_index k) p (slot_index-lt k) a in
            subst (λ y. (slot_at store y).occupied ≡ 1) g
              (omega (arith, (before i b).0, none_seen i b, valid.states (position k i))),
      ))

  upto : (i : ℕ) → Before i → Passed store k (slot_index k) i → Before (i + 1)
  upto i h p m a = elim (ℕ_discrete i m) [ yes e ↦ rw (← e) p | no n ↦ h m (omega arith) ]

  Noted-later :
      (i : ℕ) (saw : Bool) (first : ℕ)
      → (saw ≡ true) ⊎ ((round store k i).occupied ≢ 2)
      → Noted i saw first
      → Noted (i + 1) saw first
  Noted-later i saw first o (inr (e, (j, l, g, tomb))) = inr (e, (j, omega arith, g, tomb))
  Noted-later i saw first (inl t) (inl (e, h)) = absurd (cc)
  Noted-later i saw first (inr n) (inl (e, h)) =
      inl (e, λ m a. elim (ℕ_discrete i m) [ yes d ↦ rw (← d) n | no d ↦ h m (omega arith) ])

  set_round-Outcome :
      (i : ℕ) (saw : Bool) (first : ℕ) (s slot : RdmaSlot) (w : f.World)
      → (next : Bool → ℕ → RdmaSlot → SetState f) → i < num_slots
      → s ≡ round store k i
      → Noted i saw first
      → Before i
      → Exports f base store w
      → ((b : Bool) (a : ℕ) (t : RdmaSlot)
          → Noted (i + 1) b a
          → Before (i + 1)
          → Stored f base store k v (next b a t) ⊎ Refused f base store k v (next b a t))
      → let st =
          set_round f base k v (slot_address base (position k i)) saw first (done s) slot w next in
        Stored f base store k v st ⊎ Refused f base store k v st
  unfolding set_round
  set_round-Outcome i saw first s slot w next a same n before x h =
      rw (slot_key_equals-strncmp s.key k key, same)
        (elim (Bool-cases (holds store k i)) [
          | inl here ↦ rw here (
              inl (
                write_slot-Stored f base store k v rel fit valid key value i
                  (round store k i).access_count (round store k i) w a
                  (rewrite_keeps store valid k key i (round store k i).access_count v a here) x))
          | inr past ↦ rw past (elim (Bool-cases ((round store k i).occupied == 2 && not saw)) [
            | inl tomb ↦ rw tomb (
                h true (slot_address base (position k i)) (round store k i)
                  (inr (refl, (i, omega arith, refl, ground arith)))
                  (upto i before (ground arith, past)))
            | inr other ↦ rw other (elim (Bool-cases ((round store k i).occupied == 0)) [
              | inl empty ↦
                  rw empty
                    (inl (gap-Stored i saw first (round store k i) w a (ground arith) n before x))
              | inr full ↦ rw full (
                  h saw first (round store k i)
                    (Noted-later i saw first
                      (elim (Bool-cases saw) [ inl t ↦ inl t | inr u ↦ inr (ground arith) ]) n)
                    (upto i before (ground arith, past)))
            ])
          ])
        ])

  loop-Outcome :
      (rounds i : ℕ) (saw : Bool) (first : ℕ) (slot : RdmaSlot) (w : f.World)
      → i + rounds ≡ num_slots
      → Noted i saw first
      → Before i
      → Exports f base store w
      → let st = one_sided_set_loop f base k v rounds i saw first slot w in
        Stored f base store k v st ⊎ Refused f base store k v st
  unfolding one_sided_set_loop
  loop-Outcome zero i saw first slot w e n before x =
      let same : i ≡ num_slots = omega arith in
      end-Outcome saw first slot w (subst (λ m. Noted m saw first) same n)
        (subst Before same before) x
  loop-Outcome (suc rounds) i saw first slot w e n before x =
      let a : ℕ = slot_address base (position k i) in
      let (s, done_read) = rel.reads w a in
      let w' : f.World = (f.read w a).1 in
      let whole : f.read w a ≡ (done s, w') = rw done_read in
      let x' = read-Exports f base store k w w' a (done s) whole x in
      let same : s ≡ round store k i =
        read-slot f base store k w w' i s (rw client_index-probe_at whole) x in
      rw (client_index-probe_at, done_read)
        (set_round-Outcome i saw first s slot w' _ (omega arith) same n before x'
          (λ b c t m p. loop-Outcome rounds (i + 1) b c t w' (omega arith) m p x'))

  -- Over a network without failures that exports a valid table in a region that does not wrap around, for
  -- a key and a value that fit and hold no NUL: the client's `one_sided_set` stores the value under the key,
  -- so that the server reads it, keeps every other key and the invariant, and says `true`; or it changes
  -- nothing and says that the table is full, and then the key is absent and every slot is live, none empty
  -- and no tombstone.
  pub one_sided_set-Outcome :
      (slot : RdmaSlot) (w : f.World)
      → Exports f base store w
      → Stored f base store k v (one_sided_set f base k v slot w)
        ⊎ Refused f base store k v (one_sided_set f base k v slot w)
  unfolding one_sided_set
  one_sided_set-Outcome slot w x =
      let a : leb key_max (length k) ≡ false = ground (arith, key.short) in
      let b : leb value_max (length v) ≡ false = ground (arith, value.short) in
      rw (a, b)
        (loop-Outcome num_slots 0 false 0 slot w refl (inl (refl, λ m l. absurd (omega arith)))
          (λ m l. absurd (omega arith)) x)
