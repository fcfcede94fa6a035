-- ===== src/RdmaContext/DeviceList.antt =====
-- The list of devices, which `init` gets and frees, in the calls of a context.
use cs2640_final_project.Prelude.{
  ℕ, ◌≡◌, refl, ap, ◌∙◌, Bool, true, false, Option, some, List, [], ◌∷◌, ◌++◌, nat_eq,
  if◌then◌else◌, Bytes,
}
use cs2640_final_project.RdmaContext.{
  Resource, device, domain, completion_queue, queue_pair, send_region, recv_region, created,
  destroyed, got_device_list, freed_device_list, VerbsCall, RdmaContext, unless_null, free_send_mr,
  free_recv_mr, free_qp, free_cq, free_pd, destroy,
}
use cs2640_final_project.RdmaContext.Teardown.{unless_null_cases}

-- whether the list of devices is held after the calls
abbrev pub list_step : VerbsCall → Bool → Bool
list_step got_device_list held = true
list_step freed_device_list held = false
list_step call held = held

unfoldable pub holds_list : List VerbsCall → Bool → Bool
holds_list [] held = held
holds_list (c ∷ cs) held = holds_list cs (list_step c held)

-- whether libibverbs gives a list with no device
abbrev pub is_empty_list : Option (List Bytes) → Bool
is_empty_list (some []) = true
is_empty_list m = false

-- whether a device is opened while its list is not held
abbrev pub opens_unlisted : List VerbsCall → Bool → Bool
opens_unlisted [] held = false
opens_unlisted (created device n ∷ cs) held = if held then opens_unlisted cs held else true
opens_unlisted (c ∷ cs) held = opens_unlisted cs (list_step c held)

holds_list-destroyed :
    (cs : List VerbsCall) (x : Resource) (n : ℕ) (held : Bool)
    → holds_list (cs ++ destroyed x n ∷ []) held ≡ holds_list cs held
unfolding holds_list
holds_list-destroyed [] x n held = refl
holds_list-destroyed (c ∷ cs) x n held = holds_list-destroyed cs x n (list_step c held)

abbrev pub SameList : RdmaContext → RdmaContext → Type 0
SameList c d = holds_list d.calls false ≡ holds_list c.calls false

-- one line of `destroy`
free-SameList :
    (m : Option ℕ) (release : ℕ → RdmaContext) (x : Resource) (c : RdmaContext)
    → ((n : ℕ) → (release n).calls ≡ c.calls ++ destroyed x n ∷ [])
    → SameList c (unless_null m release c)
free-SameList m release x c f =
    unless_null_cases (SameList c) m release c (λ e. refl)
      (λ n e. ap (λ l. holds_list l false) (f n) ∙ holds_list-destroyed c.calls x n false)

pub destroy-SameList : (c : RdmaContext) → SameList c (destroy c)
unfolding destroy
destroy-SameList c =
    let a = free_send_mr c in
    let b = free_recv_mr a in
    let q = free_qp b in
    let r = free_cq q in
    let p = free_pd r in
    free-SameList p.handles.ctx _ device p (λ n. refl)
    ∙ free-SameList r.handles.pd _ domain r (λ n. refl)
    ∙ free-SameList q.handles.cq _ completion_queue q (λ n. refl)
    ∙ free-SameList b.handles.qp _ queue_pair b (λ n. refl)
    ∙ free-SameList a.handles.recv_mr _ recv_region a (λ n. refl)
    ∙ free-SameList c.handles.send_mr _ send_region c (λ n. refl)
