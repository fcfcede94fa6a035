-- ===== src/RdmaStore/Refine.antt =====
-- The table refines a map from keys to values: what `set` and `erase` do to what `get` reads.
use cs2640_final_project.Prelude.{
  ℕ, ◌≤◌, ◌<◌, ◌≡◌, ◌≢◌, subst, inl, inr, true, false, Option, arith, length, has, if◌then◌else◌,
  Bool-cases, ◌==◌, nat_eq, list_eq, ==_iff, Bytes,
}
use cs2640_final_project.RdmaStore.{
  RdmaStore, RdmaSlot, slot_at, put_slot, fresh_slot, num_slots, key_max, value_max, get,
  slot_index,
}
use cs2640_final_project.RdmaStore.Arrays.{strncmp-fill, strncmp_unique}
use cs2640_final_project.RdmaStore.Probe.{probe_at-lt, probe_at_injective}
use cs2640_final_project.RdmaStore.Lookup.{Passed}
use cs2640_final_project.RdmaStore.Valid.{IsKey, round, holds, IsValid}
use cs2640_final_project.RdmaStore.Writes.{position, slot_live, Fits, put-IsValid, get-put_other}

-- a value that `set` accepts, without a NUL
pub record IsValue (v : Bytes) : Type 0 where
  pub no_nul : has 0 v ≡ false
  pub short : length v < value_max

-- `after` is valid and reads as `store` does, but for `k`, where it reads `v`.
pub record Writes (store after : RdmaStore) (k : Bytes) (v : Option Bytes) : Type 0 where
  pub valid : IsValid after
  pub reads : (q : Bytes) → IsKey q → get after q ≡ (if k == q then v else get store q)

same_key :
    (s : RdmaSlot) (k q : Bytes)
    → IsKey k
    → IsKey q
    → slot_live s k ≡ true
    → slot_live s q ≡ true
    → k ≡ q
same_key s k q a b h g =
    strncmp_unique key_max s.key k q a.no_nul b.no_nul a.short (ground arith) (ground arith)

pub reads_by_cases :
    (store after : RdmaStore) (k : Bytes) (v : Option Bytes)
    → get after k ≡ v
    → ((q : Bytes) → IsKey q → k ≢ q → get after q ≡ get store q)
    → (q : Bytes) → IsKey q
    → get after q ≡ (if k == q then v else get store q)
reads_by_cases store after k v h g q key = elim (Bool-cases (k == q)) [
  | inl e ↦ let e' : k ≡ q = (==_iff k q).0 e in rw (e, ← e') h
  | inr e ↦ rw e (g q key (λ f. ground (arith, ==_iff k q, f)))
]

-- No empty slot of `store` stands before round `i` of `q`, and no other round of it holds `q`.
abbrev Alone : RdmaStore → ℕ → Bytes → Type 0
Alone store i q =
    ((j : ℕ) → j < i → (round store q j).occupied ≢ 0)
    × ((j : ℕ) → j < num_slots → holds store q j ≡ true → j ≡ i)

-- a slot of `k` with the key written anew
abbrev pub keyed_slot : Bytes → ℕ → Bytes → RdmaSlot
keyed_slot k count v = record (fresh_slot k v) { access_count = count }

module _ (store : RdmaStore) (valid : IsValid store) (k : Bytes) (key : IsKey k) where
  -- a slot that only `k` matches may stand where `k` may
  fits_for :
      (j : ℕ) (s : RdmaSlot) (inside : position k j < num_slots)
      → j < num_slots
      → ((q : Bytes) → IsKey q → slot_live s q ≡ true → k ≡ q)
      → Alone store j k
      → Fits store valid (position k j) inside s
  fits_for j s inside a only alone q i b c e g =
      subst (λ x. position x i ≡ position k j → Alone store i x) (only q b g)
        (λ f. rw (probe_at_injective (slot_index k) i j c a f) alone) e

  -- A slot of `k` is written where `k` may stand, over one that no other key matches.
  pub write_keeps :
      (j : ℕ) (s : RdmaSlot)
      → j < num_slots
      → s.occupied ≢ 0
      → s.occupied ≤ 2
      → ((q : Bytes) → IsKey q → slot_live s q ≡ true → k ≡ q)
      → Alone store j k
      → ((q : Bytes) → IsKey q → slot_live (round store k j) q ≡ true → k ≡ q)
      → IsValid (put_slot store (position k j) s)
        × ((q : Bytes) → IsKey q → k ≢ q → get (put_slot store (position k j) s) q ≡ get store q)
  write_keeps j s a n small is_k alone was_k = (kept, others)
    where
      p : ℕ
      p = position k j

      inside : p < num_slots
      inside = probe_at-lt (slot_index k) j

      kept : IsValid (put_slot store p s)
      kept = put-IsValid store valid p inside s n small (fits_for j s inside a is_k alone)

      others : (q : Bytes) → IsKey q → k ≢ q → get (put_slot store p s) q ≡ get store q
      others q b d =
          get-put_other store valid p inside s kept q b (ground (arith, is_k q b, d))
            (λ i l g e. d (was_k q b (subst (λ x. slot_live (slot_at store x) q ≡ true) e g)))

  -- where `k` stands, it may stand
  holds-Alone : (j : ℕ) → j < num_slots → holds store k j ≡ true → Alone store j k
  holds-Alone j a h =
      (λ x l. valid.unbroken k j x key a l h, λ x l g. valid.single k x j key l a g h)

  -- the slot of `k` is written, with the key left as it is
  pub overwrite_keeps :
      (j : ℕ) (s : RdmaSlot)
      → j < num_slots
      → holds store k j ≡ true
      → s.key ≡ (round store k j).key
      → s.occupied ≢ 0
      → s.occupied ≤ 2
      → IsValid (put_slot store (position k j) s)
        × ((q : Bytes) → IsKey q → k ≢ q → get (put_slot store (position k j) s) q ≡ get store q)
  overwrite_keeps j s a h same n small =
      write_keeps j s a n small
        (λ q b g. same_key (round store k j) k q key b h (ground (arith, same, h, g)))
        (holds-Alone j a h) (λ q b g. same_key (round store k j) k q key b h g)

  keyed_slot-key :
      (count : ℕ) (v q : Bytes) → IsKey q → slot_live (keyed_slot k count v) q ≡ true → k ≡ q
  keyed_slot-key count v q b g =
      same_key (keyed_slot k count v) k q key b (strncmp-fill key_max k) g

  -- the slot of `k` is written, with its key
  pub rewrite_keeps :
      (j count : ℕ) (v : Bytes)
      → j < num_slots
      → holds store k j ≡ true
      → IsValid (put_slot store (position k j) (keyed_slot k count v))
        × ((q : Bytes)
            → IsKey q
            → k ≢ q
            → get (put_slot store (position k j) (keyed_slot k count v)) q ≡ get store q)
  rewrite_keeps j count v a h =
      write_keeps j (keyed_slot k count v) a (omega arith) (omega arith) (keyed_slot-key count v)
        (holds-Alone j a h) (λ q b g. same_key (round store k j) k q key b h g)

  -- a slot that is not valid, with no empty one before it, is written for `k`, which no slot holds
  pub place_keeps :
      (j count : ℕ) (v : Bytes)
      → j < num_slots
      → (round store k j).occupied ≢ 1
      → ((m : ℕ) → m < j → (round store k m).occupied ≢ 0)
      → ((m : ℕ) → m < num_slots → holds store k m ≡ false)
      → IsValid (put_slot store (position k j) (keyed_slot k count v))
        × ((q : Bytes)
            → IsKey q
            → k ≢ q
            → get (put_slot store (position k j) (keyed_slot k count v)) q ≡ get store q)
  place_keeps j count v a free before absent =
      write_keeps j (keyed_slot k count v) a (omega arith) (omega arith) (keyed_slot-key count v)
        (before, λ x l g. absurd (ground (arith, absent x l)))
        (λ q b g. absurd (free (ground arith)))

  -- No slot holds `k` where its search meets an empty one.
  pub gap-absent :
      (e : ℕ)
      → e < num_slots
      → (round store k e).occupied ≡ 0
      → ((m : ℕ) → m < e → Passed store k (slot_index k) m)
      → (m : ℕ) → m < num_slots
      → holds store k m ≡ false
  gap-absent e a gone before m l = elim (Bool-cases (holds store k m)) [
    | inr h ↦ h
    | inl h ↦ absurd (ground (arith, before m, valid.unbroken k m e key l))
  ]

  -- as the loop of `set` does it
  pub insert_keeps :
      (j e : ℕ) (v : Bytes)
      → j ≤ e
      → e < num_slots
      → (round store k j).occupied ≢ 1
      → (round store k e).occupied ≡ 0
      → ((m : ℕ) → m < e → Passed store k (slot_index k) m)
      → IsValid (put_slot store (position k j) (fresh_slot k v))
        × ((q : Bytes)
            → IsKey q
            → k ≢ q
            → get (put_slot store (position k j) (fresh_slot k v)) q ≡ get store q)
  insert_keeps j e v le a free gone before =
      place_keeps j 0 v (omega arith) free (λ m l. (before m (omega arith)).0)
        (gap-absent e a gone before)
