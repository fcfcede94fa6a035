-- ===== src/Server/TwoSided.antt =====
-- src/server/rdma_main.cpp: the loop of `handle_two_sided_client`. A round holds what the RDMA calls of
-- one turn of the loop return.
pub mod Replies
use cs2640_final_project.Prelude.{
  Bool, true, false, Option, none, some, List, [], ◌∷◌, if◌then◌else◌, Bytes,
}
use cs2640_final_project.KvStore.{KeyValueStore}
use cs2640_final_project.RdmaContext.{RdmaContext, Polled, poll_completion, recv_data, post_send}
use cs2640_final_project.Server.{serve_message}

-- whether `post_recv` succeeds, what `ibv_poll_cq` finds, whether `post_send` succeeds, and what is
-- found after it
pub record Round : Type 0 where
  pub armed : Bool
  pub arrival : List Polled
  pub accepted : Bool
  pub departure : List Polled

-- the messages that were posted, in order, the store, and the context
pub record TwoSided : Type 0 where
  pub posted : List Bytes
  pub store : KeyValueStore
  pub context : RdmaContext

-- `poll_completion()` returned true; a call that has not returned is no success
abbrev pub is_true : Option Bool → Bool
is_true none = false
is_true (some b) = b

-- `if (!poll_completion()) break; if (req.type == Quit) break;`, and the next turn
unfoldable pub two_sided_loop : List Round → KeyValueStore → RdmaContext → TwoSided
two_sided_loop [] store c = record { posted = []; store = store; context = c }
two_sided_loop (r ∷ rs) store c =
    let p = poll_completion r.arrival c in
    let o = serve_message store (recv_data p.context) in
    let (text, d) = post_send o.output p.context in
    let q = poll_completion r.departure d in
    let rest = two_sided_loop rs o.store q.context in
    if r.armed
    then (if is_true p.result
        then (if r.accepted
            then (if is_true q.result
                then (if o.ends
                    then record { posted = text ∷ []; store = o.store; context = q.context }
                    else record {
                      posted = text ∷ rest.posted;
                      store = rest.store;
                      context = rest.context;
                    })
                else record { posted = text ∷ []; store = o.store; context = q.context })
            else record { posted = []; store = o.store; context = d })
        else record { posted = []; store = store; context = p.context })
    else record { posted = []; store = store; context = c }
