-- ===== src/RdmaContext/Teardown.antt =====
-- What `destroy` releases, replayed with all earlier calls against what libibverbs demands.
use cs2640_final_project.Prelude.{
  ℕ, ◌≡◌, refl, Bool, true, false, ◌&&◌, Option, none, some, List, [], ◌∷◌, ◌++◌, ◌==◌, nat_eq,
  ==_refl, if◌then◌else◌,
}
use cs2640_final_project.Assoc.{is_some}
use cs2640_final_project.RdmaContext.{
  device, domain, completion_queue, queue_pair, send_region, recv_region, VerbsCall, created,
  destroyed, got_device_list, freed_device_list, Handles, null_handles, RdmaContext, put,
  unless_null, free_send_mr, free_recv_mr, free_qp, free_cq, free_pd, free_ctx, destroy,
}

abbrev is_null : Option ℕ → Bool
is_null none = true
is_null (some n) = false

abbrev holds : Option ℕ → ℕ → Bool
holds none n = false
holds (some m) n = m == n

-- A resource is created from live ones, and destroyed once, when nothing made from it is live. The list
-- of devices is none of the six resources that the members point to, and is not replayed here.
abbrev pub replay_call : VerbsCall → Handles → Option Handles
replay_call (created device n) h = if is_null h.ctx then some (record h { ctx = some n }) else none
replay_call (created domain n) h =
    if is_null h.pd && is_some h.ctx then some (record h { pd = some n }) else none
replay_call (created completion_queue n) h =
    if is_null h.cq && is_some h.ctx then some (record h { cq = some n }) else none
replay_call (created queue_pair n) h =
    if is_null h.qp && (is_some h.pd && is_some h.cq) then some (record h { qp = some n }) else none
replay_call (created send_region n) h =
    if is_null h.send_mr && is_some h.pd then some (record h { send_mr = some n }) else none
replay_call (created recv_region n) h =
    if is_null h.recv_mr && is_some h.pd then some (record h { recv_mr = some n }) else none
replay_call (destroyed device n) h =
    if holds h.ctx n && (is_null h.pd && is_null h.cq) then some (record h { ctx = none }) else none
replay_call (destroyed domain n) h =
    if holds h.pd n && (is_null h.qp && (is_null h.send_mr && is_null h.recv_mr))
    then some (record h { pd = none })
    else none
replay_call (destroyed completion_queue n) h =
    if holds h.cq n && is_null h.qp then some (record h { cq = none }) else none
replay_call (destroyed queue_pair n) h =
    if holds h.qp n then some (record h { qp = none }) else none
replay_call (destroyed send_region n) h =
    if holds h.send_mr n then some (record h { send_mr = none }) else none
replay_call (destroyed recv_region n) h =
    if holds h.recv_mr n then some (record h { recv_mr = none }) else none
replay_call got_device_list h = some h
replay_call freed_device_list h = some h

-- after an illegal call, whatever follows is illegal
abbrev pub replay_step : VerbsCall → Option Handles → Option Handles
replay_step c none = none
replay_step c (some h) = replay_call c h

unfoldable pub replay : List VerbsCall → Option Handles → Option Handles
replay [] h = h
replay (c ∷ cs) h = replay cs (replay_step c h)

-- The creations and destructions of the six resources so far are in a legal order, and leave live
-- exactly what the members point to.
abbrev pub Tracks : RdmaContext → Type 0
Tracks c = replay c.calls (some null_handles) ≡ some c.handles

replay-append :
    (cs : List VerbsCall) (c : VerbsCall) (h : Option Handles)
    → replay (cs ++ c ∷ []) h ≡ replay_step c (replay cs h)
unfolding replay
replay-append [] c h = refl
replay-append (d ∷ cs) c h = replay-append cs c (replay_step d h)

put-Tracks :
    (call : VerbsCall) (h : Handles) (c : RdmaContext)
    → Tracks c
    → replay_call call c.handles ≡ some h
    → Tracks (put call h c)
put-Tracks call h c t e = rw (replay-append, t) e

pub unless_null_cases :
    (P : RdmaContext → Type 0) (m : Option ℕ) (release : ℕ → RdmaContext) (c : RdmaContext)
    → (m ≡ none → P c)
    → ((n : ℕ) → m ≡ some n → P (release n))
    → P (unless_null m release c)
unless_null_cases P none release c a b = a refl
unless_null_cases P (some n) release c a b = b n refl

module _ (c : RdmaContext) (t : Tracks c) where
  free_send_mr-Tracks : let h = free_send_mr c in Tracks h × (h.handles.send_mr ≡ none)
  free_send_mr-Tracks =
      unless_null_cases (λ h. Tracks h × (h.handles.send_mr ≡ none)) c.handles.send_mr _ c
        (λ e. (t, e))
        (λ n e. (put-Tracks (destroyed send_region n) _ c t (rw (e, ==_refl n) refl), refl))

  module _ (a : c.handles.send_mr ≡ none) where
    free_recv_mr-Tracks :
        let h = free_recv_mr c in Tracks h × (h.handles.send_mr ≡ none) × (h.handles.recv_mr ≡ none)
    free_recv_mr-Tracks =
        unless_null_cases (λ h. Tracks h × (h.handles.send_mr ≡ none) × (h.handles.recv_mr ≡ none))
          c.handles.recv_mr _ c (λ e. (t, a, e))
          (λ n e. (put-Tracks (destroyed recv_region n) _ c t (rw (e, ==_refl n) refl), a, refl))

    module _ (b : c.handles.recv_mr ≡ none) where
      free_qp-Tracks :
          let h = free_qp c in
          Tracks h × (h.handles.send_mr ≡ none) × (h.handles.recv_mr ≡ none) × (h.handles.qp ≡ none)
      free_qp-Tracks =
          unless_null_cases
            (λ h.
              Tracks h
              × (h.handles.send_mr ≡ none)
              × (h.handles.recv_mr ≡ none)
              × (h.handles.qp ≡ none))
            c.handles.qp _ c (λ e. (t, a, b, e))
            (λ n e.
              (put-Tracks (destroyed queue_pair n) _ c t (rw (e, ==_refl n) refl), a, b, refl))

      module _ (q : c.handles.qp ≡ none) where
        free_cq-Tracks :
            let h = free_cq c in
            Tracks h
            × (h.handles.send_mr ≡ none)
            × (h.handles.recv_mr ≡ none)
            × (h.handles.qp ≡ none)
            × (h.handles.cq ≡ none)
        free_cq-Tracks =
            unless_null_cases
              (λ h.
                Tracks h
                × (h.handles.send_mr ≡ none)
                × (h.handles.recv_mr ≡ none)
                × (h.handles.qp ≡ none)
                × (h.handles.cq ≡ none))
              c.handles.cq _ c (λ e. (t, a, b, q, e))
              (λ n e. (
                put-Tracks (destroyed completion_queue n) _ c t (rw (e, q, ==_refl n) refl),
                a,
                b,
                q,
                refl,
              ))

        module _ (r : c.handles.cq ≡ none) where
          free_pd-Tracks :
              let h = free_pd c in
              Tracks h
              × (h.handles.send_mr ≡ none)
              × (h.handles.recv_mr ≡ none)
              × (h.handles.qp ≡ none)
              × (h.handles.cq ≡ none)
              × (h.handles.pd ≡ none)
          free_pd-Tracks =
              unless_null_cases
                (λ h.
                  Tracks h
                  × (h.handles.send_mr ≡ none)
                  × (h.handles.recv_mr ≡ none)
                  × (h.handles.qp ≡ none)
                  × (h.handles.cq ≡ none)
                  × (h.handles.pd ≡ none))
                c.handles.pd _ c (λ e. (t, a, b, q, r, e))
                (λ n e. (
                  put-Tracks (destroyed domain n) _ c t (rw (e, q, a, b, ==_refl n) refl),
                  a,
                  b,
                  q,
                  r,
                  refl,
                ))

          free_ctx-Tracks :
              c.handles.pd ≡ none → let h = free_ctx c in Tracks h × (h.handles ≡ null_handles)
          free_ctx-Tracks p =
              unless_null_cases (λ h. Tracks h × (h.handles ≡ null_handles)) c.handles.ctx _ c
                (λ e. (t, cc))
                (λ n e. (put-Tracks (destroyed device n) _ c t (rw (e, p, r, ==_refl n) refl), cc))

-- `destroy` releases in a legal order, whatever was created before, and leaves none of the six live.
pub destroy-Tracks :
    (c : RdmaContext) → Tracks c → Tracks (destroy c) × ((destroy c).handles ≡ null_handles)
unfolding destroy
destroy-Tracks c t =
    let (t1, a1) = free_send_mr-Tracks c t in
    let (t2, a2, b2) = free_recv_mr-Tracks _ t1 a1 in
    let (t3, a3, b3, q3) = free_qp-Tracks _ t2 a2 b2 in
    let (t4, a4, b4, q4, r4) = free_cq-Tracks _ t3 a3 b3 q3 in
    let (t5, a5, b5, q5, r5, p5) = free_pd-Tracks _ t4 a4 b4 q4 r4 in
    free_ctx-Tracks _ t5 a5 b5 q5 r5 p5
