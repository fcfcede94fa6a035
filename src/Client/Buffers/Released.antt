-- ===== src/Client/Buffers/Released.antt =====
-- No registration outlives the buffer or the context.
use cs2640_final_project.Prelude.{
  ℕ, ◌≡◌, refl, Bool, true, false, not, ◌&&◌, ◌||◌, Option, none, some, List, [], ◌∷◌, ◌==◌, nat_eq,
  Bool-cases, inl, inr,
}
use cs2640_final_project.RdmaStore.{num_slots}
use cs2640_final_project.Client.Buffers.{
  local_slot, atomic_result, BufferCall, registers, deregisters, requests, destroys_context,
  interactive_calls, phase_calls, worker_calls,
}

-- which buffers are registered, and whether the context exists
pub record Registrations : Type 0 where
  pub slot : Bool
  pub atomic : Bool
  pub context : Bool

abbrev pub only_when : Bool → Registrations → Option Registrations
only_when true r = some r
only_when false r = none

-- A buffer is registered once at a time, with a context that exists; it is deregistered only where it is
-- registered; requests go to registered buffers; and the context is destroyed when nothing is registered with it.
abbrev pub replay_call : BufferCall → Registrations → Option Registrations
replay_call (registers local_slot) r =
    only_when (r.context && not r.slot) (record r { slot = true })
replay_call (registers atomic_result) r =
    only_when (r.context && not r.atomic) (record r { atomic = true })
replay_call (deregisters local_slot) r = only_when r.slot (record r { slot = false })
replay_call (deregisters atomic_result) r = only_when r.atomic (record r { atomic = false })
replay_call (requests metadata) r =
    only_when (r.context && (r.slot && (not metadata || r.atomic))) r
replay_call destroys_context r =
    only_when (r.context && (not r.slot && not r.atomic)) (record r { context = false })

abbrev pub replay : List BufferCall → Registrations → Option Registrations
replay [] r = some r
replay (c ∷ cs) r = elim (replay_call c r) [ none ↦ none | some r' ↦ replay cs r' ]

abbrev pub only_context : Registrations
only_context = record { slot = false; atomic = false; context = true }

abbrev pub nothing_left : Registrations
nothing_left = record { slot = false; atomic = false; context = false }

interactive : (a b : Bool) → replay (interactive_calls a b) only_context ≡ some only_context
unfolding interactive_calls
interactive false b = refl
interactive true false = refl
interactive true true = refl

phase : (m a b : Bool) → replay (phase_calls m a b) only_context ≡ some nothing_left
unfolding phase_calls
phase m false b = refl
phase false true b = refl
phase true true false = refl
phase true true true = refl

worker :
    (m : Bool) (session : Option (ℕ × ℕ)) (a b : Bool)
    → replay (worker_calls m session a b) only_context ≡ some nothing_left
unfolding worker_calls
worker m none a b = refl
worker m (some (addr, slots)) a b = elim (Bool-cases (addr == 0 || not (slots == num_slots))) [
  | inl e ↦ rw e
  | inr e ↦ rw e (phase m a b)
]

-- Whichever of the calls fail, the interactive session and the worker of the benchmark deregister each
-- buffer that they have registered once, post requests only between the registration of the buffers
-- that these use and its end, and the worker destroys its context after that.
pub calls-released :
    (metadata : Bool) (session : Option (ℕ × ℕ)) (slot_registered atomic_registered : Bool)
    → (replay (interactive_calls slot_registered atomic_registered) only_context
        ≡ some only_context)
      × (replay (worker_calls metadata session slot_registered atomic_registered) only_context
          ≡ some nothing_left)
calls-released metadata session slot_registered atomic_registered = (
  interactive slot_registered atomic_registered,
  worker metadata session slot_registered atomic_registered,
)
