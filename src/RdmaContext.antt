-- ===== src/RdmaContext.antt =====
-- src/net/rdma_context.cpp: `RdmaContext`, the resources of one RDMA connection. libibverbs is the
-- parameter `Verbs`, which says what each call returns; `calls` lists what was created and destroyed,
-- the list of devices too, and `qp_state` is the state of the queue pair on the network card.
pub mod Teardown
pub mod DeviceList
pub mod Resources
pub mod Requests
use cs2640_final_project.Prelude.{
  ℕ, zero, ◌+◌, ◌≡◌, Bool, true, false, Option, none, some, List, [], ◌∷◌, ◌++◌, arith, length,
  take, drop, replicate, ltb, ◌==◌, nat_eq, list_eq, if◌then◌else◌, Bytes,
}

pub data Resource : Type 0 where
  device domain completion_queue queue_pair send_region recv_region : Resource

pub data QpState : Type 0 where
  reset init_state ready_to_receive ready_to_send : QpState

pub data VerbsCall : Type 0 where
  created destroyed : Resource → ℕ → VerbsCall
  got_device_list freed_device_list : VerbsCall

-- What libibverbs answers: the names in the list of devices, or none where it gives no list, the handle
-- or null of each creation, and whether the queue pair may go to a state.
pub record Verbs : Type 0 where
  pub devices : Option (List Bytes)
  pub creates : Resource → Option ℕ
  pub modifies : QpState → Bool

-- the pointers, `none` where null
pub record Handles : Type 0 where
  pub ctx : Option ℕ
  pub pd : Option ℕ
  pub cq : Option ℕ
  pub qp : Option ℕ
  pub send_mr : Option ℕ
  pub recv_mr : Option ℕ

abbrev pub null_handles : Handles
null_handles = record {
  ctx = none;
  pd = none;
  cq = none;
  qp = none;
  send_mr = none;
  recv_mr = none;
}

abbrev pub msg_size : ℕ
msg_size = 4096

pub record RdmaContext : Type 0 where
  pub handles : Handles
  pub qp_state : QpState
  pub send_buf : Bytes
  pub recv_buf : Bytes
  pub recv_len : ℕ
  pub calls : List VerbsCall

abbrev pub new_context : RdmaContext
new_context = record {
  handles = null_handles;
  qp_state = reset;
  send_buf = replicate 4096 0;
  recv_buf = replicate 4096 0;
  recv_len = 0;
  calls = [];
}

-- the library call and the assignment to the member
abbrev pub put : VerbsCall → Handles → RdmaContext → RdmaContext
put call h c = record c { handles = h; calls = c.calls ++ call ∷ [] }

-- `if (p) { ...; p = nullptr; }`
abbrev pub unless_null : Option ℕ → (ℕ → RdmaContext) → RdmaContext → RdmaContext
unless_null none release c = c
unless_null (some n) release c = release n

-- one line of `destroy` each
abbrev pub free_send_mr : RdmaContext → RdmaContext
free_send_mr c =
    unless_null c.handles.send_mr
      (λ n. put (destroyed send_region n) (record c.handles { send_mr = none }) c) c

abbrev pub free_recv_mr : RdmaContext → RdmaContext
free_recv_mr c =
    unless_null c.handles.recv_mr
      (λ n. put (destroyed recv_region n) (record c.handles { recv_mr = none }) c) c

abbrev pub free_qp : RdmaContext → RdmaContext
free_qp c =
    unless_null c.handles.qp
      (λ n. record (put (destroyed queue_pair n) (record c.handles { qp = none }) c) {
        qp_state = reset;
      })
      c

abbrev pub free_cq : RdmaContext → RdmaContext
free_cq c =
    unless_null c.handles.cq
      (λ n. put (destroyed completion_queue n) (record c.handles { cq = none }) c) c

abbrev pub free_pd : RdmaContext → RdmaContext
free_pd c =
    unless_null c.handles.pd (λ n. put (destroyed domain n) (record c.handles { pd = none }) c) c

abbrev pub free_ctx : RdmaContext → RdmaContext
free_ctx c =
    unless_null c.handles.ctx (λ n. put (destroyed device n) (record c.handles { ctx = none }) c) c

unfoldable pub destroy : RdmaContext → RdmaContext
destroy c = free_ctx (free_pd (free_cq (free_qp (free_recv_mr (free_send_mr c)))))

-- the first device, or the first one with the name that is asked for
unfoldable pub pick_device : Option Bytes → List Bytes → Option Bytes
pick_device name [] = none
pick_device none (d ∷ ds) = some d
pick_device (some n) (d ∷ ds) = if d == n then some d else pick_device (some n) ds

module _ (v : Verbs) where
  open v use {devices, creates, modifies}

  -- `init` from each of its calls on, the last one first
  unfoldable pub to_init : RdmaContext → Bool × RdmaContext
  to_init c =
      if modifies init_state then (true, record c { qp_state = init_state }) else (false, destroy c)

  unfoldable pub register_recv : RdmaContext → Bool × RdmaContext
  register_recv c = elim (creates recv_region) [
    | none ↦ (false, destroy c)
    | some n ↦ to_init (put (created recv_region n) (record c.handles { recv_mr = some n }) c)
  ]

  unfoldable pub register_send : RdmaContext → Bool × RdmaContext
  register_send c = elim (creates send_region) [
    | none ↦ (false, destroy c)
    | some n ↦ register_recv (put (created send_region n) (record c.handles { send_mr = some n }) c)
  ]

  unfoldable pub create_qp : RdmaContext → Bool × RdmaContext
  create_qp c = elim (creates queue_pair) [
    | none ↦ (false, destroy c)
    | some n ↦ register_send (put (created queue_pair n) (record c.handles { qp = some n }) c)
  ]

  unfoldable pub create_cq : RdmaContext → Bool × RdmaContext
  create_cq c = elim (creates completion_queue) [
    | none ↦ (false, destroy c)
    | some n ↦ create_qp (put (created completion_queue n) (record c.handles { cq = some n }) c)
  ]

  unfoldable pub alloc_pd : RdmaContext → Bool × RdmaContext
  alloc_pd c = elim (creates domain) [
    | none ↦ (false, destroy c)
    | some n ↦ create_cq (put (created domain n) (record c.handles { pd = some n }) c)
  ]

  -- a failure to open the device returns without `destroy`
  unfoldable pub open_device : RdmaContext → Bool × RdmaContext
  open_device c = elim (creates device) [
    | none ↦ (false, record c { handles = record c.handles { ctx = none } })
    | some n ↦ alloc_pd (put (created device n) (record c.handles { ctx = some n }) c)
  ]

  -- what follows `ibv_free_device_list`
  unfoldable pub open_picked : Option Bytes → RdmaContext → Bool × RdmaContext
  open_picked none c = (false, c)
  open_picked (some d) c = open_device c

  -- `if (!dev_list || num_devices == 0) return false;`, and the choice from the list, which is then freed
  unfoldable pub init_from : Option (List Bytes) → Option Bytes → RdmaContext → Bool × RdmaContext
  init_from none name c = (false, c)
  init_from (some []) name c = (false, put got_device_list c.handles c)
  init_from (some (d ∷ ds)) name c =
      open_picked (pick_device name (d ∷ ds))
        (put freed_device_list c.handles (put got_device_list c.handles c))

  unfoldable pub init : Option Bytes → RdmaContext → Bool × RdmaContext
  unfolding init_from open_picked open_device
  init name c = init_from devices name c

  -- INIT to RTR to RTS; the peer's numbers only go into the attributes
  unfoldable pub connect : RdmaContext → Bool × RdmaContext
  connect c =
      if modifies ready_to_receive
      then (if modifies ready_to_send
          then (true, record c { qp_state = ready_to_send })
          else (false, record c { qp_state = ready_to_receive }))
      else (false, c)

-- `memcpy` into the send buffer, and the bytes that the work request sends from it
unfoldable pub post_send : Bytes → RdmaContext → Bytes × RdmaContext
post_send text c =
    let len = if ltb (length text) msg_size then length text else msg_size in
    let buffer = take len text ++ drop len c.send_buf in
    (take len buffer, record c { send_buf = buffer })

-- what `ibv_poll_cq` finds: nothing yet, an error, a failed completion, that of a request, or a
-- message of the peer, which the card has put at the start of the receive buffer
pub data Polled : Type 0 where
  nothing poll_error failed_completion request_done : Polled
  message : Bytes → Polled

pub record Completion : Type 0 where
  pub result : Option Bool
  pub context : RdmaContext
  pub left : List Polled

-- `poll_completion`; `result` is `none` while it spins
unfoldable pub poll_completion : List Polled → RdmaContext → Completion
poll_completion [] c = record { result = none; context = c; left = [] }
poll_completion (nothing ∷ ps) c = poll_completion ps c
poll_completion (poll_error ∷ ps) c = record { result = some false; context = c; left = ps }
poll_completion (failed_completion ∷ ps) c = record { result = some false; context = c; left = ps }
poll_completion (request_done ∷ ps) c = record { result = some true; context = c; left = ps }
poll_completion (message m ∷ ps) c = record {
  result = some true;
  context = record c { recv_buf = m ++ drop (length m) c.recv_buf; recv_len = length m };
  left = ps;
}

unfoldable pub recv_data : RdmaContext → Bytes
recv_data c = take c.recv_len c.recv_buf
