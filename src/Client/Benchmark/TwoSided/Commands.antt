-- ===== src/Client/Benchmark/TwoSided/Commands.antt =====
-- What the server does with the commands of the pre-filling.
use cs2640_final_project.Prelude.{
  ℕ, zero, suc, ◌+◌, ◌^◌, ◌≤◌, ◌<◌, ◌≡◌, ◌≢◌, refl, ap, ◌∙◌, subst, false, some, List, [], ◌∷◌,
  ◌++◌, arith, All, ◌==◌, ==_refl, ==_ne, nat_eq, list_eq, if◌then◌else◌, ℕ_discrete, Bytes, bytes,
}
use cs2640_final_project.Assoc.{lookup-insert}
use cs2640_final_project.KvStore
use cs2640_final_project.KvStore.{KeyValueStore}
use cs2640_final_project.Protocol.{set, serialize_response}
use cs2640_final_project.Protocol.RoundTrip.{command_line}
use cs2640_final_project.Server.{serve_line, handle_by}
use cs2640_final_project.Server.Wire.{serve_command}
use cs2640_final_project.Server.Session.Lines.{respond}
use cs2640_final_project.RdmaContext.{msg_size}
use cs2640_final_project.Client.TwoSided.Conversation.{Fits}
use cs2640_final_project.Client.Benchmark.TwoSided.{make_benchmark_key, make_value, set_command}
use cs2640_final_project.Client.Benchmark.TwoSided.Texts.{
  make_benchmark_key-IsKey, make_benchmark_key_injective, make_value-IsValue, set_command-length,
}

-- the commands of `n` keys, from key `i`
abbrev pub set_commands : ℕ → ℕ → ℕ → List Bytes
set_commands value_size zero i = []
set_commands value_size (suc n) i = set_command i value_size i ∷ set_commands value_size n (i + 1)

pub set_commands-Fits :
    (value_size n i : ℕ) → value_size + 128 ≤ msg_size → All Fits (set_commands value_size n i)
set_commands-Fits value_size zero i a = tt
set_commands-Fits value_size (suc n) i a =
    (omega (arith, set_command-length i value_size i, a), set_commands-Fits value_size n (i + 1) a)

respond-store :
    (store : KeyValueStore) (l : Bytes) (ls : List Bytes)
    → (serve_line store l).ends ≡ false
    → (respond store (l ∷ ls)).store ≡ (respond (serve_line store l).store ls).store
unfolding respond
respond-store store l ls e = rw e refl

set_command-command_line :
    (value_size i : ℕ)
    → set_command i value_size i ≡ command_line set (make_benchmark_key i) (make_value value_size i)
unfolding command_line
set_command-command_line value_size i = refl

module _ (value_size : ℕ) (some_value : 0 < value_size) where
  -- what the server does with one of the commands
  pub serve_set :
      (store : KeyValueStore) (i : ℕ)
      → let o = serve_line store (set_command i value_size i) in
        (o.output ≡ bytes "OK" ++ 10 ∷ [])
        × (o.ends ≡ false)
        × (o.store ≡ (KvStore.set store (make_benchmark_key i) (make_value value_size i)).1)
  unfolding handle_by serialize_response
  serve_set store i =
      let e =
        serve_command set (make_benchmark_key i) (make_value value_size i) store (λ e. cc)
          (make_benchmark_key-IsKey i, make_value-IsValue value_size i some_value, refl) in
      rw (set_command-command_line value_size i, e) (refl, refl, refl)

  pub stays_open :
      (n i : ℕ) (store : KeyValueStore) → (respond store (set_commands value_size n i)).ends ≡ false
  unfolding respond
  stays_open zero i store = refl
  stays_open (suc n) i store =
      let (_, goes, _) = serve_set store i in
      rw goes (stays_open n (i + 1) (serve_line store (set_command i value_size i)).store)

  -- the store after the commands
  abbrev pub filled : ℕ → ℕ → KeyValueStore → KeyValueStore
  filled n i store = (respond store (set_commands value_size n i)).store

  next_filled :
      (n i : ℕ) (store : KeyValueStore)
      → filled (suc n) i store
        ≡ filled n (i + 1) (serve_line store (set_command i value_size i)).store
  next_filled n i store =
      let (_, goes, _) = serve_set store i in
      respond-store store (set_command i value_size i) (set_commands value_size n (i + 1)) goes

  served :
      (j i : ℕ) (store : KeyValueStore)
      → KvStore.get (serve_line store (set_command i value_size i)).store (make_benchmark_key j) ≡ (
          if make_benchmark_key i == make_benchmark_key j
          then some (make_value value_size i)
          else KvStore.get store (make_benchmark_key j))
  unfolding KvStore.get KvStore.set
  served j i store =
      let (_, _, stored) = serve_set store i in
      rw stored (
        lookup-insert (make_benchmark_key i) (make_benchmark_key j) (make_value value_size i)
          store.entries)

  other_key :
      (i j : ℕ)
      → i < 2 ^ 64
      → j < 2 ^ 64
      → i ≢ j
      → (make_benchmark_key i == make_benchmark_key j) ≡ false
  other_key i j a b n =
      ==_ne (make_benchmark_key i) (make_benchmark_key j)
        (λ e. n (make_benchmark_key_injective i j a b e))

  -- keys before the first one are left alone
  filled_before :
      (n i j : ℕ) (store : KeyValueStore)
      → i + n < 2 ^ 64
      → j < i
      → KvStore.get (filled n i store) (make_benchmark_key j)
        ≡ KvStore.get store (make_benchmark_key j)
  filled_before zero i j store a b = unfold respond in refl
  filled_before (suc n) i j store a b =
      ap (λ (s : KeyValueStore). KvStore.get s (make_benchmark_key j)) (next_filled n i store)
      ∙ filled_before n (i + 1) j (serve_line store (set_command i value_size i)).store
          (omega (arith, a)) (omega (arith, b))
      ∙ served j i store
      ∙ rw (other_key i j (omega (arith, a)) (omega (arith, a, b)) (omega (arith, b))) refl

  pub filled_all :
      (n i j : ℕ) (store : KeyValueStore)
      → i + n < 2 ^ 64
      → i ≤ j
      → j < i + n
      → KvStore.get (filled n i store) (make_benchmark_key j) ≡ some (make_value value_size j)
  filled_all zero i j store a b c = absurd (omega (arith, b, c))
  filled_all (suc n) i j store a b c =
      ap (λ (s : KeyValueStore). KvStore.get s (make_benchmark_key j)) (next_filled n i store)
      ∙ elim (ℕ_discrete i j) [
        | yes same ↦
            filled_before n (i + 1) j (serve_line store (set_command i value_size i)).store
              (omega (arith, a)) (omega (arith, same))
            ∙ served j i store
            ∙ subst
                (λ (k : ℕ).
                  (if make_benchmark_key i == make_benchmark_key k
                    then some (make_value value_size i)
                    else KvStore.get store (make_benchmark_key k))
                  ≡ some (make_value value_size k))
                same (rw (==_refl (make_benchmark_key i)) refl)
        | no other ↦
            filled_all n (i + 1) j (serve_line store (set_command i value_size i)).store
              (omega (arith, a)) (omega (arith, b, other)) (omega (arith, c))
      ]
