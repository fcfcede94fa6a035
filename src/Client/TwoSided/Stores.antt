-- ===== src/Client/TwoSided/Stores.antt =====
-- What the conversation of `client_run` and the server's loop leaves in the store.
use cs2640_final_project.Prelude.{
  ◌≡◌, refl, ◌∙◌, false, List, [], ◌∷◌, arith, map, All, length, Bytes,
}
use cs2640_final_project.KvStore.{KeyValueStore}
use cs2640_final_project.RdmaContext.{RdmaContext}
use cs2640_final_project.Server.{serve_line}
use cs2640_final_project.Server.Session.Lines.{respond}
use cs2640_final_project.Server.TwoSided.{Round, two_sided_loop}
use cs2640_final_project.Client.TwoSided.{Exchange, Reply, two_sided_request_response, client_run}
use cs2640_final_project.Client.TwoSided.Conversation.{LinkedAll, Fits, still_open, first_link}

-- In a conversation where no RDMA call fails and each side is fed with what the other posts, the store that
-- the server's loop ends with is that of a TCP session that gets the same lines.
pub client_run-store :
    (es : List Exchange) (rs : List Round) (cs : List Bytes) (store : KeyValueStore)
    → (c d : RdmaContext) → All Fits cs
    → (respond store cs).ends ≡ false
    → LinkedAll es rs
        (map (λ (x : Reply). x.posted) (client_run es cs d))
        (two_sided_loop rs store c).posted
    → length es ≡ length cs
    → (two_sided_loop rs store c).store ≡ (respond store cs).store
unfolding client_run respond two_sided_loop
client_run-store [] [] [] store c d short open' link len = refl
client_run-store [] (r ∷ rs) [] store c d short open' link len = absurd link
client_run-store [] rs (l ∷ cs) store c d short open' link len = absurd (omega (arith, len))
client_run-store (e ∷ es) rs [] store c d short open' link len = absurd (omega (arith, len))
client_run-store (e ∷ es) [] (l ∷ cs) store c d short open' link len = absurd link
client_run-store (e ∷ es) (r ∷ rs) (l ∷ cs) store c d (s, short) open' link len =
    let x = two_sided_request_response e l d in
    let o = serve_line store l in
    let (going, later) = still_open store l cs open' in
    let (_, _, _, (t, links, kept)) =
      first_link e es r rs l store c d (map (λ (x : Reply). x.posted) (client_run es cs x.context))
        s going link in
    kept
    ∙ client_run-store es rs cs o.store t x.context short later links (omega (arith, len))
    ∙ rw going refl
