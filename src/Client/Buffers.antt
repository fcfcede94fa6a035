-- ===== src/Client/Buffers.antt =====
-- The registered buffers of the one-sided client in src/client/rdma_client.cpp: what
-- `run_one_sided_interactive` and `run_one_sided_worker` register and deregister, and when they post
-- requests. The arguments say which of the calls of `reg_mr` succeed.
pub mod Released
use cs2640_final_project.Prelude.{
  ℕ, Bool, true, false, not, ◌||◌, Option, none, some, List, [], ◌∷◌, ◌++◌, ◌==◌, nat_eq,
  if◌then◌else◌,
}
use cs2640_final_project.RdmaStore.{num_slots}

pub data Buffer : Type 0 where
  local_slot atomic_result : Buffer

-- `requests m` is the loop that posts requests, with FETCH_AND_ADD among them where `m` is true.
pub data BufferCall : Type 0 where
  registers deregisters : Buffer → BufferCall
  requests : Bool → BufferCall
  destroys_context : BufferCall

-- the context belongs to `main`
unfoldable pub interactive_calls : Bool → Bool → List BufferCall
interactive_calls slot_registered atomic_registered =
    if slot_registered
    then (if atomic_registered
        then registers local_slot
          ∷ registers atomic_result
          ∷ requests true
          ∷ deregisters local_slot
          ∷ deregisters atomic_result
          ∷ []
        else registers local_slot ∷ deregisters local_slot ∷ [])
    else []

-- after the tests on the session; the context is a local variable
unfoldable pub phase_calls : Bool → Bool → Bool → List BufferCall
phase_calls metadata slot_registered atomic_registered =
    if slot_registered
    then (if metadata
        then (if atomic_registered
            then registers local_slot
              ∷ registers atomic_result
              ∷ requests true
              ∷ deregisters atomic_result
              ∷ deregisters local_slot
              ∷ destroys_context
              ∷ []
            else registers local_slot ∷ deregisters local_slot ∷ destroys_context ∷ [])
        else registers local_slot ∷ requests false ∷ deregisters local_slot ∷ destroys_context ∷ [])
    else destroys_context ∷ []

-- `session` is `addr` and `num_slots` of `server_info`, where `connect_rdma_session` succeeds
unfoldable pub worker_calls : Bool → Option (ℕ × ℕ) → Bool → Bool → List BufferCall
unfolding phase_calls
worker_calls metadata none slot_registered atomic_registered = destroys_context ∷ []
worker_calls metadata (some (addr, slots)) slot_registered atomic_registered =
    if addr == 0 || not (slots == num_slots)
    then destroys_context ∷ []
    else phase_calls metadata slot_registered atomic_registered
