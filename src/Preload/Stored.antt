-- ===== src/Preload/Stored.antt =====
-- What the table holds after pre-loading.
use cs2640_final_project.Prelude.{
  ℕ, zero, suc, ◌+◌, ◌^◌, ◌≤◌, ◌<◌, ◌≡◌, ◌≢◌, refl, sym, ap, dec_lt, ltb, Bool, subst, ◌∙◌, inl,
  inr, none, some, arith, nat_eq, list_eq, ◌==◌, ==_refl, ==_ne, if◌then◌else◌, length-append,
  has-append_false, ℕ_discrete, Bytes, bytes, drop,
}
use cs2640_final_project.Prelude.Decimal.{decimal}
use cs2640_final_project.RdmaStore.{RdmaStore, get, set, new_store, num_slots}
use cs2640_final_project.RdmaStore.Valid.{
  IsKey, IsValid, new_slot, new_store-IsValid, get-new_store,
}
use cs2640_final_project.RdmaStore.Refine.{IsValue, Writes}
use cs2640_final_project.RdmaStore.Methods.{IsPacked, set-Writes, set-IsPacked}
use cs2640_final_project.RdmaStore.Count.{in_use, in_use-new_store, in_use_all, none_empty}
use cs2640_final_project.RdmaStore.Fresh.{NoTombstones, Filled, set-Filled}
use cs2640_final_project.Preload.{preload_key, preload_value, preload_loop, preload}
use cs2640_final_project.Preload.Numerals.{
  decimal_digits_injective, decimal_digits-length, decimal_digits-has,
}

-- what an `int` holds fits in twenty digits
abbrev pub IsInt : ℕ → Type 0
IsInt i = i < 2 ^ 31

pub preload_key-IsKey : (i : ℕ) → IsKey (preload_key i)
preload_key-IsKey i = record {
  no_nul =
      has-append_false 0 (bytes "key") (decimal i) refl (decimal_digits-has 0 20 i (omega arith));
  short = omega (arith, length-append (bytes "key") (decimal i), decimal_digits-length 20 i);
}

preload_value-IsValue : (i : ℕ) → IsValue (preload_value i)
preload_value-IsValue i = record {
  no_nul =
      has-append_false 0 (bytes "value") (decimal i) refl (decimal_digits-has 0 20 i (omega arith));
  short = omega (arith, length-append (bytes "value") (decimal i), decimal_digits-length 20 i);
}

preload_key_injective : (i j : ℕ) → IsInt i → IsInt j → preload_key i ≡ preload_key j → i ≡ j
preload_key_injective i j a b e =
    decimal_digits_injective 20 i j (omega (arith, a)) (omega (arith, b)) (ap (drop 3) e)

-- The state of the loop before round `n`: the table has the first `n` keys, or the first 4096 where there
-- are more, with their values, and nothing else, and no tombstone.
pub record Loaded (n : ℕ) (store : RdmaStore) : Type 0 where
  pub valid : IsValid store
  pub loaded : (i : ℕ) → i < n → i < num_slots → get store (preload_key i) ≡ some (preload_value i)
  pub nothing_else :
      (q : Bytes)
      → IsKey q
      → ((i : ℕ) → i < n → i < num_slots → preload_key i ≢ q)
      → get store q ≡ none
  pub clean : NoTombstones store
  pub used : in_use store.slots ≡ (if ltb n num_slots then n else num_slots)

packed-many : (store : RdmaStore) → IsValid store → IsPacked store → num_slots ≤ in_use store.slots
packed-many store valid packed =
    subst (λ m. m ≤ in_use store.slots) valid.width
      (in_use_all store.slots (λ p a. packed p (subst (λ m. p < m) valid.width a)))

many-IsPacked :
    (store : RdmaStore) → IsValid store → num_slots ≤ in_use store.slots → IsPacked store
many-IsPacked store valid many p a =
    none_empty store.slots p (subst (λ m. m ≤ in_use store.slots) (sym valid.width) many)
      (subst (λ m. p < m) (sym valid.width) a)

module _ (n : ℕ) (store : RdmaStore) (a : IsInt n) (l : Loaded n store) where
  new_key : get store (preload_key n) ≡ none
  new_key =
      l.nothing_else (preload_key n) (preload_key-IsKey n)
        (λ i b c e. ground (arith, b, preload_key_injective i n (omega (arith, a, b)) a e))

  written-Loaded :
      (after : RdmaStore)
      → n < num_slots
      → Writes store after (preload_key n) (some (preload_value n))
      → Filled store after
      → Loaded (n + 1) after
  written-Loaded after room w f = record {
    valid = w.valid;
    loaded = λ i b c. w.reads (preload_key i) (preload_key-IsKey i) ∙ elim (ℕ_discrete n i) [
      | yes same ↦
          subst
            (λ (j : ℕ).
              (if preload_key n == preload_key j
                then some (preload_value n)
                else get store (preload_key j))
              ≡ some (preload_value j))
            same (rw (==_refl (preload_key n)) refl)
      | no other ↦
          rw
            (==_ne (preload_key n) (preload_key i)
              (λ e. other (preload_key_injective n i a (omega (arith, a)) e)))
            (l.loaded i (omega (arith, other)) c)
    ];
    nothing_else = λ q key h.
        w.reads q key
        ∙ rw (==_ne (preload_key n) q (h n (omega arith) room))
            (l.nothing_else q key (λ i b. h i (omega (arith, b))));
    clean = f.none_dead;
    used = f.one_more ∙ ground (arith, l.used, room);
  }

  full-Loaded : num_slots ≤ n → Loaded (n + 1) store
  full-Loaded over = record {
    valid = l.valid;
    loaded = λ i b c. l.loaded i (omega (arith, over, c)) c;
    nothing_else = λ q key h. l.nothing_else q key (λ i b. h i (omega (arith, b)));
    clean = l.clean;
    used = ground (arith, l.used, over);
  }

  -- while an empty slot is left, the key is stored in one
  room-Loaded : n < num_slots → Loaded (n + 1) (set store (preload_key n) (preload_value n)).1
  room-Loaded room =
      elim (set-Writes store l.valid (preload_key n) (preload_key-IsKey n) (preload_value n)
        (preload_value-IsValue n)) [
          | inl (ok, w) ↦
              elim (set-Filled store l.valid l.clean (preload_key n) (preload_value n)
                (preload_key-IsKey n) (preload_value-IsValue n) new_key) [
                  | inl same ↦ absurd (cc (sym ok ∙ ap (λ (r : Bool × RdmaStore). r.0) same))
                  | inr f ↦ written-Loaded _ room w f
                ]
          | inr (_, _, packed) ↦
              absurd (ground (arith, packed-many store l.valid packed, l.used, room))
        ]

  set-Loaded : Loaded (n + 1) (set store (preload_key n) (preload_value n)).1
  set-Loaded = elim (dec_lt n num_slots) [
    | yes room ↦ room-Loaded room
    | no over ↦
        let many : num_slots ≤ in_use store.slots = ground (arith, l.used, over) in
        let same =
          set-IsPacked store l.valid (preload_key n) (preload_key-IsKey n) (preload_value n)
            (preload_value-IsValue n) (many-IsPacked store l.valid many) new_key in
        rw same (full-Loaded (omega (arith, over)))
  ]

preload_loop-Loaded :
    (rounds n : ℕ) (store : RdmaStore)
    → IsInt (n + rounds)
    → Loaded n store
    → Loaded (n + rounds) (preload_loop rounds n store)
unfolding preload_loop
preload_loop-Loaded zero n store a l = subst (λ m. Loaded m store) (omega arith) l
preload_loop-Loaded (suc rounds) n store a l =
    let h =
      preload_loop-Loaded rounds (n + 1) (set store (preload_key n) (preload_value n)).1
        (omega (arith, a)) (set-Loaded n store (omega (arith, a)) l) in
    subst (λ m. Loaded m (preload_loop (suc rounds) n store)) (omega arith) h

-- After the pre-loading of any number of keys that an `int` holds: the table is valid; each of these keys
-- that is among the first 4096, the number of slots, reads as its value; every other key is absent, also
-- the later ones of those that were to be pre-loaded; as many slots are in use as keys are there, and
-- there are no tombstones.
pub preload-Loaded : (preload_n : ℕ) → IsInt preload_n → Loaded preload_n (preload preload_n)
unfolding preload
preload-Loaded preload_n a =
    subst (λ m. Loaded m (preload_loop preload_n 0 new_store)) (omega arith)
      (preload_loop-Loaded preload_n 0 new_store (omega (arith, a)) new_Loaded)
  where
    new_Loaded : Loaded 0 new_store
    new_Loaded = record {
      valid = new_store-IsValid;
      loaded = λ i b c. absurd (omega (arith, b));
      nothing_else = λ q key h. get-new_store q;
      clean = λ p. rw (new_slot p) (omega arith);
      used = in_use-new_store;
    }
