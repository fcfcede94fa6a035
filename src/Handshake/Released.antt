-- ===== src/Handshake/Released.antt =====
-- What the handshakes leave behind.
use cs2640_final_project.Prelude.{
  ◌≡◌, refl, ◌∙◌, Bool, true, false, ◌&&◌, not, Option, none, some, List, [], ◌∷◌, ◌++◌, arith,
  if◌then◌else◌,
}
use cs2640_final_project.KvStore.{KeyValueStore}
use cs2640_final_project.RdmaContext.{
  Verbs, RdmaContext, Polled, nothing, poll_error, failed_completion, request_done, message,
  new_context, init, connect, null_handles, poll_completion, recv_data, post_send,
}
use cs2640_final_project.RdmaContext.Teardown.{Tracks, destroy-Tracks}
use cs2640_final_project.RdmaContext.Resources.{init-Initialised}
use cs2640_final_project.Server.{serve_message}
use cs2640_final_project.Server.TwoSided.{Round, TwoSided, is_true, two_sided_loop}
use cs2640_final_project.Handshake.{
  HandlerCall, close_fd, register_store, deregister_store, destroy_context, Peer, Handled,
  exchanged, return_from, greet_two_sided, handle_two_sided_client, greet_exported, greet_one_sided,
  handle_one_sided_client,
}

-- whether the TCP descriptor is open, the table is registered, and the context exists
pub record Held : Type 0 where
  pub fd : Bool
  pub region : Bool
  pub context : Bool

-- A descriptor is closed once; the table is registered with a context, and that context is destroyed once,
-- when the table is not registered with it any more.
abbrev pub replay_call : HandlerCall → Held → Option Held
replay_call close_fd h = if h.fd then some (record h { fd = false }) else none
replay_call register_store h =
    if h.context && not h.region then some (record h { region = true }) else none
replay_call deregister_store h =
    if h.context && h.region then some (record h { region = false }) else none
replay_call destroy_context h =
    if h.context && not h.region then some (record h { context = false }) else none

abbrev pub replay : List HandlerCall → Held → Option Held
replay [] h = some h
replay (c ∷ cs) h = elim (replay_call c h) [ none ↦ none | some h' ↦ replay cs h' ]

abbrev pub at_start : Held
at_start = record { fd = true; region = false; context = true }

-- The calls of a handler are legal and release all, and nothing that the context made is live.
pub record Released (h : Handled) : Type 0 where
  pub replayed :
      replay h.calls at_start ≡ some (record { fd = false; region = false; context = false })
  pub legal : Tracks h.context
  pub empty : h.context.handles ≡ null_handles

-- two contexts that own the same
abbrev SameOwner : RdmaContext → RdmaContext → Type 0
SameOwner c d = (d.handles ≡ c.handles) × (d.calls ≡ c.calls)

same-Tracks : (c d : RdmaContext) → SameOwner c d → Tracks c → Tracks d
same-Tracks c d (a, b) t = rw (a, b) t

poll-SameOwner : (ps : List Polled) (c : RdmaContext) → SameOwner c (poll_completion ps c).context
unfolding poll_completion
poll-SameOwner [] c = (refl, refl)
poll-SameOwner (nothing ∷ ps) c = poll-SameOwner ps c
poll-SameOwner (poll_error ∷ ps) c = (refl, refl)
poll-SameOwner (failed_completion ∷ ps) c = (refl, refl)
poll-SameOwner (request_done ∷ ps) c = (refl, refl)
poll-SameOwner (message m ∷ ps) c = (refl, refl)

SameOwner-trans : (c d e : RdmaContext) → SameOwner c d → SameOwner d e → SameOwner c e
SameOwner-trans c d e (a, b) (a', b') = (a' ∙ a, b' ∙ b)

connect-SameOwner : (v : Verbs) (c : RdmaContext) → SameOwner c (connect v c).1
unfolding connect
connect-SameOwner v c = ground arith

if_SameOwner :
    (c : RdmaContext) (b : Bool) (x y : TwoSided)
    → SameOwner c x.context
    → SameOwner c y.context
    → SameOwner c (if b then x else y).context
if_SameOwner c true x y h g = h
if_SameOwner c false x y h g = g

two_sided_loop-SameOwner :
    (rs : List Round) (store : KeyValueStore) (c : RdmaContext)
    → SameOwner c (two_sided_loop rs store c).context
unfolding two_sided_loop
two_sided_loop-SameOwner [] store c = (refl, refl)
two_sided_loop-SameOwner (r ∷ rs) store c =
    let p = poll_completion r.arrival c in
    let first = poll-SameOwner r.arrival c in
    let o = serve_message store (recv_data p.context) in
    let d = (post_send o.output p.context).1 in
    let second : SameOwner c d =
      SameOwner-trans c p.context d first (unfold post_send in (refl, refl)) in
    let q = poll_completion r.departure d in
    let third = SameOwner-trans c d q.context second (poll-SameOwner r.departure d) in
    let rest =
      SameOwner-trans c q.context (two_sided_loop rs o.store q.context).context third
        (two_sided_loop-SameOwner rs o.store q.context) in
    if_SameOwner c r.armed _ _
      (if_SameOwner c (is_true p.result) _ _
        (if_SameOwner c r.accepted _ _
          (if_SameOwner c (is_true q.result) _ _ (if_SameOwner c o.ends _ _ third rest) third)
          second)
        first)
      (refl, refl)

returned :
    (p : Peer) (calls : List HandlerCall) (c : RdmaContext) (session : Option TwoSided)
    → replay (calls ++ destroy_context ∷ []) at_start
      ≡ some (record { fd = false; region = false; context = false })
    → Tracks c
    → Released (return_from p calls c session)
returned p calls c session e t =
    let (legal, empty) = destroy-Tracks c t in record { replayed = e; legal = legal; empty = empty }

module _ (p : Peer) where
  pub connected-Tracks : (c : RdmaContext) → Tracks c → Tracks (connect p.verbs c).1
  connected-Tracks c = same-Tracks c (connect p.verbs c).1 (connect-SameOwner p.verbs c)

  if_Released : (b : Bool) (x y : Handled) → Released x → Released y → Released (if b then x else y)
  if_Released true x y h g = h
  if_Released false x y h g = g

  greet_two_sided-Released :
      (rounds : List Round) (store : KeyValueStore) (r : Bool × RdmaContext)
      → Tracks r.1
      → Released (greet_two_sided p rounds store r)
  unfolding greet_two_sided
  greet_two_sided-Released rounds store (ready, c) t =
      let d = (connect p.verbs c).1 in
      let t' = connected-Tracks c t in
      let s = two_sided_loop rounds store d in
      let t'' = same-Tracks d s.context (two_sided_loop-SameOwner rounds store d) t' in
      let early = returned p (close_fd ∷ []) c none refl t in
      if_Released ready _ _
        (if_Released (exchanged p) _ _
          (if_Released (connect p.verbs c).0 _ _
            (returned p (close_fd ∷ []) s.context (some s) refl t'')
            (returned p (close_fd ∷ []) d none refl t'))
          early)
        early

  greet_one_sided-Released :
      (registered : Bool) (r : Bool × RdmaContext)
      → Tracks r.1
      → Released (greet_one_sided p registered r)
  unfolding greet_one_sided greet_exported
  greet_one_sided-Released registered (ready, c) t =
      let d = (connect p.verbs c).1 in
      let early = returned p (close_fd ∷ []) c none refl t in
      let late =
        returned p (register_store ∷ close_fd ∷ deregister_store ∷ []) d none refl
          (connected-Tracks c t) in
      if_Released ready _ _
        (if_Released registered _ _
          (if_Released (exchanged p) _ _ (if_Released (connect p.verbs c).0 _ _ late late)
            (returned p (register_store ∷ deregister_store ∷ close_fd ∷ []) c none refl t))
          early)
        early

  -- Whatever libibverbs, the sockets and the rounds of the session return, both handlers of the RDMA server
  -- close their TCP descriptor once, end the registration of the table before they destroy the context with
  -- which it was made, and destroy each of the six resources of that context that was created once, after
  -- those that were made from it. Nothing is said here of the list of devices.
  pub handlers-Released :
      (rounds : List Round) (store : KeyValueStore) (registered : Bool)
      → Released (handle_two_sided_client p rounds store)
        × Released (handle_one_sided_client p registered)
  unfolding handle_two_sided_client handle_one_sided_client
  handlers-Released rounds store registered =
      let t = (init-Initialised p.verbs p.device).0 in
      (
        greet_two_sided-Released rounds store (init p.verbs p.device new_context) t,
        greet_one_sided-Released registered (init p.verbs p.device new_context) t,
      )
