-- ===== src/Assoc.antt =====
-- `std::unordered_map`, as far as the program uses it: the entries in some order, with no key twice.
-- `src/kvstore/kv_store.cpp` keeps texts under texts, `src/net/event_loop.cpp` coroutines under
-- descriptors. Clients have the laws below.
use cs2640_final_project.Prelude.{
  ℕ, ◌+◌, ◌≡◌, refl, Bool, true, false, Option, none, some, List, [], ◌∷◌, arith, Comparable, ◌==◌,
  ==_iff, if◌then◌else◌, length,
}

abbrev pub Assoc {ℓ} : Type ℓ → Type ℓ → Type ℓ
Assoc K V = List (K × V)

abbrev pub is_some {ℓ} : {A : Type ℓ} → Option A → Bool
is_some none = false
is_some (some a) = true

abbrev pub to_nat : Bool → ℕ
to_nat true = 1
to_nat false = 0

module _ {ℓ} {K V : Type ℓ} ⦃e : Comparable K⦄ where
  -- `m.insert_or_assign(k, v)` and `m[k] = v`
  unfoldable pub insert : K → V → Assoc K V → Assoc K V
  insert key x [] = (key, x) ∷ []
  insert key x ((other, old) ∷ rest) =
      if other == key then (other, x) ∷ rest else (other, old) ∷ insert key x rest

  -- `m.erase(k)`
  unfoldable pub without : K → Assoc K V → Assoc K V
  without key [] = []
  without key ((other, x) ∷ rest) =
      if other == key then without key rest else (other, x) ∷ without key rest

  -- `m.find(k)`, and `it->second` where it is not the end
  unfoldable pub lookup : K → Assoc K V → Option V
  lookup key [] = none
  lookup key ((other, x) ∷ rest) = if other == key then some x else lookup key rest

  pub lookup-insert :
      (key q : K) (x : V) (m : Assoc K V)
      → lookup q (insert key x m) ≡ (if key == q then some x else lookup q m)
  unfolding insert lookup
  lookup-insert key q x [] = refl
  lookup-insert key q x ((other, old) ∷ rest) =
      ground (arith, ==_iff other q, ==_iff other key, ==_iff key q, lookup-insert key q x rest)

  -- no key stands twice
  abbrev pub IsMap : Assoc K V → Type ℓ
  IsMap [] = Unit
  IsMap ((key, x) ∷ rest) = (lookup key rest ≡ none) × IsMap rest

  pub lookup-without :
      (k j : K) (m : Assoc K V) → lookup j (without k m) ≡ (if k == j then none else lookup j m)
  unfolding lookup without
  lookup-without k j [] = ground arith
  lookup-without k j ((i, w) ∷ m) =
      ground (arith, ==_iff k j, ==_iff i k, ==_iff i j, lookup-without k j m)

  pub insert-IsMap : (k : K) (v : V) (m : Assoc K V) → IsMap m → IsMap (insert k v m)
  unfolding insert lookup
  insert-IsMap k v [] h = (refl, tt)
  insert-IsMap k v ((i, w) ∷ m) h =
      ground (arith, insert-IsMap k v m, lookup-insert k i v m, ==_iff i k, ==_iff k i)

  pub without-IsMap : (k : K) (m : Assoc K V) → IsMap m → IsMap (without k m)
  unfolding without lookup
  without-IsMap k [] h = h
  without-IsMap k ((i, w) ∷ m) h =
      ground (arith, without-IsMap k m, lookup-without k i m, ==_iff i k, ==_iff k i)

  pub length-insert :
      (k : K) (v : V) (m : Assoc K V)
      → length (insert k v m) ≡ (if is_some (lookup k m) then length m else length m + 1)
  unfolding insert lookup
  length-insert k v [] = refl
  length-insert k v ((i, w) ∷ m) = ground (arith, length-insert k v m)

  pub without_absent : (k : K) (m : Assoc K V) → lookup k m ≡ none → without k m ≡ m
  unfolding without lookup
  without_absent k [] h = refl
  without_absent k ((i, w) ∷ m) h = ground (arith, without_absent k m)

  pub length-without :
      (k : K) (m : Assoc K V)
      → IsMap m
      → length (without k m) + to_nat (is_some (lookup k m)) ≡ length m
  unfolding without lookup
  length-without k [] h = refl
  length-without k ((i, w) ∷ m) h =
      ground (arith, length-without k m, without_absent k m, ==_iff i k)
