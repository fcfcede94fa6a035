-- ===== src/Preload.antt =====
-- The pre-loading of the one-sided table in `main` of src/server/rdma_main.cpp, and `make_key` of
-- src/client/rdma_client.cpp, which names the keys in the same way.
pub mod Numerals
pub mod Stored
use cs2640_final_project.Prelude.{ℕ, zero, suc, ◌+◌, ◌++◌, Bytes, bytes}
use cs2640_final_project.Prelude.Decimal.{decimal}
use cs2640_final_project.RdmaStore.{RdmaStore, set, new_store}

-- `"key" + std::to_string(i)`
abbrev pub preload_key : ℕ → Bytes
preload_key i = bytes "key" ++ decimal i

abbrev pub preload_value : ℕ → Bytes
preload_value i = bytes "value" ++ decimal i

abbrev pub make_key : ℕ → Bytes
make_key i = bytes "key" ++ decimal i

-- the loop with `rounds` rounds left, from round `i`; the result of `set` is ignored
unfoldable pub preload_loop : ℕ → ℕ → RdmaStore → RdmaStore
preload_loop zero i store = store
preload_loop (suc rounds) i store =
    preload_loop rounds (i + 1) (set store (preload_key i) (preload_value i)).1

-- what the server exports, with `--preload preload_n`
unfoldable pub preload : ℕ → RdmaStore
preload preload_n = preload_loop preload_n 0 new_store
