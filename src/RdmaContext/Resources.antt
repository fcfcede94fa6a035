-- ===== src/RdmaContext/Resources.antt =====
-- What `init` creates, and releases where it fails, and what becomes of the list of devices.
use cs2640_final_project.Prelude.{
  ℕ, ◌≡◌, refl, ◌∙◌, Bool, true, false, Option, none, some, List, [], ◌∷◌, nat_eq, ◌⊎◌, Bool-cases,
  inl, inr, Bytes,
}
use cs2640_final_project.Assoc.{is_some}
use cs2640_final_project.RdmaContext.{
  device, domain, completion_queue, queue_pair, send_region, recv_region, init_state, created,
  got_device_list, freed_device_list, Verbs, null_handles, RdmaContext, new_context, put, destroy,
  pick_device, alloc_pd, create_cq, create_qp, register_send, register_recv, to_init, open_device,
  open_picked, init_from, init,
}
use cs2640_final_project.RdmaContext.Teardown.{replay, Tracks, destroy-Tracks}
use cs2640_final_project.RdmaContext.DeviceList.{
  is_empty_list, holds_list, opens_unlisted, destroy-SameList,
}

-- all that `init` sets up, and how: from a list that it had freed
pub record IsOpen (c : RdmaContext) : Type 0 where
  pub ctx : is_some c.handles.ctx ≡ true
  pub pd : is_some c.handles.pd ≡ true
  pub cq : is_some c.handles.cq ≡ true
  pub qp : is_some c.handles.qp ≡ true
  pub send_mr : is_some c.handles.send_mr ≡ true
  pub recv_mr : is_some c.handles.recv_mr ≡ true
  pub state : c.qp_state ≡ init_state
  pub unlisted : opens_unlisted c.calls false ≡ true

-- The six resources are used in a legal order and live as `init` says, and the list of devices is held
-- after it as `held` says.
abbrev pub Initialised : Bool → Bool × RdmaContext → Type 0
Initialised held r =
    Tracks r.1
    × (holds_list r.1.calls false ≡ held)
    × (((r.0 ≡ true) × IsOpen r.1) ⊎ ((r.0 ≡ false) × (r.1.handles ≡ null_handles)))

abbrev IsListed : Bool → RdmaContext → Type 0
IsListed held c = Tracks c × (holds_list c.calls false ≡ held)

destroyed-Initialised :
    (held : Bool) (c : RdmaContext) → IsListed held c → Initialised held (false, destroy c)
destroyed-Initialised held c (t, l) =
    let (a, e) = destroy-Tracks c t in (a, destroy-SameList c ∙ l, inr (refl, e))

creation_cases :
    (m : Option ℕ) (next : ℕ → Bool × RdmaContext) (c : RdmaContext)
    → IsListed false c
    → ((n : ℕ) → Initialised false (next n))
    → Initialised false (elim m [ none ↦ (false, destroy c) | some n ↦ next n ])
creation_cases none next c t f = destroyed-Initialised false c t
creation_cases (some n) next c t f = f n

-- a new context after the list of devices was got and freed, and after each of the creations
abbrev listed : RdmaContext
listed = record new_context { calls = got_device_list ∷ freed_device_list ∷ [] }

abbrev with_ctx : ℕ → RdmaContext
with_ctx a = let c = listed in put (created device a) (record c.handles { ctx = some a }) c

abbrev with_pd : ℕ → ℕ → RdmaContext
with_pd a b = let c = (with_ctx a) in put (created domain b) (record c.handles { pd = some b }) c

abbrev with_cq : ℕ → ℕ → ℕ → RdmaContext
with_cq a b q =
    let c = (with_pd a b) in put (created completion_queue q) (record c.handles { cq = some q }) c

abbrev with_qp : ℕ → ℕ → ℕ → ℕ → RdmaContext
with_qp a b q p =
    let c = (with_cq a b q) in put (created queue_pair p) (record c.handles { qp = some p }) c

abbrev with_send_mr : ℕ → ℕ → ℕ → ℕ → ℕ → RdmaContext
with_send_mr a b q p s =
    let c = (with_qp a b q p) in
    put (created send_region s) (record c.handles { send_mr = some s }) c

abbrev with_recv_mr : ℕ → ℕ → ℕ → ℕ → ℕ → ℕ → RdmaContext
with_recv_mr a b q p s r =
    let c = (with_send_mr a b q p s) in
    put (created recv_region r) (record c.handles { recv_mr = some r }) c

module _ (v : Verbs) where
  to_init-new : (a b q p s r : ℕ) → Initialised false (to_init v (with_recv_mr a b q p s r))
  unfolding replay holds_list opens_unlisted to_init
  to_init-new a b q p s r = elim (Bool-cases (v.modifies init_state)) [
    | inl e ↦ rw e (
      refl,
      refl,
      inl (
        refl,
        record {
          ctx = refl;
          pd = refl;
          cq = refl;
          qp = refl;
          send_mr = refl;
          recv_mr = refl;
          state = refl;
          unlisted = refl;
        },
      ),
    )
    | inr e ↦ rw e (destroyed-Initialised false (with_recv_mr a b q p s r) (refl, refl))
  ]

  register_recv-new : (a b q p s : ℕ) → Initialised false (register_recv v (with_send_mr a b q p s))
  unfolding replay holds_list opens_unlisted register_recv
  register_recv-new a b q p s =
      creation_cases (v.creates recv_region) (λ n. to_init v (with_recv_mr a b q p s n))
        (with_send_mr a b q p s) (refl, refl) (to_init-new a b q p s)

  register_send-new : (a b q p : ℕ) → Initialised false (register_send v (with_qp a b q p))
  unfolding replay holds_list opens_unlisted register_send
  register_send-new a b q p =
      creation_cases (v.creates send_region) (λ n. register_recv v (with_send_mr a b q p n))
        (with_qp a b q p) (refl, refl) (register_recv-new a b q p)

  create_qp-new : (a b q : ℕ) → Initialised false (create_qp v (with_cq a b q))
  unfolding replay holds_list opens_unlisted create_qp
  create_qp-new a b q =
      creation_cases (v.creates queue_pair) (λ n. register_send v (with_qp a b q n)) (with_cq a b q)
        (refl, refl) (register_send-new a b q)

  create_cq-new : (a b : ℕ) → Initialised false (create_cq v (with_pd a b))
  unfolding replay holds_list opens_unlisted create_cq
  create_cq-new a b =
      creation_cases (v.creates completion_queue) (λ n. create_qp v (with_cq a b n)) (with_pd a b)
        (refl, refl) (create_qp-new a b)

  alloc_pd-new : (a : ℕ) → Initialised false (alloc_pd v (with_ctx a))
  unfolding replay holds_list opens_unlisted alloc_pd
  alloc_pd-new a =
      creation_cases (v.creates domain) (λ n. create_cq v (with_pd a n)) (with_ctx a) (refl, refl)
        (create_cq-new a)

  opened-Initialised :
      (m : Option ℕ)
      → Initialised false (elim m [
        | none ↦ (false, record listed { handles = record null_handles { ctx = none } })
        | some n ↦ alloc_pd v (with_ctx n)
      ])
  unfolding replay holds_list
  opened-Initialised none = (refl, refl, inr (refl, refl))
  opened-Initialised (some a) = alloc_pd-new a

  picked-Initialised : (m : Option Bytes) → Initialised false (open_picked v m listed)
  unfolding open_picked open_device replay holds_list
  picked-Initialised none = (refl, refl, inr (refl, refl))
  picked-Initialised (some d) = opened-Initialised (v.creates device)

  from_list-Initialised :
      (m : Option (List Bytes)) (name : Option Bytes)
      → Initialised (is_empty_list m) (init_from v m name new_context)
  unfolding init_from replay holds_list
  from_list-Initialised none name = (refl, refl, inr (refl, refl))
  from_list-Initialised (some []) name = (refl, refl, inr (refl, refl))
  from_list-Initialised (some (d ∷ ds)) name = picked-Initialised (pick_device name (d ∷ ds))

-- `init` on a new context, whatever libibverbs answers. It creates and destroys the six resources in a
-- legal order: where it succeeds, all six are live and the queue pair is in INIT; where it fails, none
-- of them is. The list of devices is apart from this: `init` leaves it unfreed exactly where libibverbs
-- gives an empty one, and every `init` that succeeds has opened the device after it freed the list.
pub init-Initialised :
    (v : Verbs) (name : Option Bytes)
    → Initialised (is_empty_list v.devices) (init v name new_context)
unfolding init
init-Initialised v name = from_list-Initialised v v.devices name
