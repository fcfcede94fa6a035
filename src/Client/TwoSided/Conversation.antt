-- ===== src/Client/TwoSided/Conversation.antt =====
-- The client's requests and the server's answers, each side fed with what the other posts.
use cs2640_final_project.Prelude.{
  ◌<◌, ◌≡◌, refl, sym, ap, subst, ◌∙◌, ◌⊎◌, inl, inr, true, false, some, List, [], ◌∷◌, ◌++◌, arith,
  map, All, length, length-append, take, Bytes,
}
use cs2640_final_project.KvStore.{KeyValueStore}
use cs2640_final_project.RdmaContext.{
  RdmaContext, Polled, nothing, poll_error, failed_completion, request_done, message,
  poll_completion, recv_data, post_send, msg_size,
}
use cs2640_final_project.Server.{serve_line}
use cs2640_final_project.Server.Session.Lines.{respond}
use cs2640_final_project.Server.TwoSided.{Round, two_sided_loop}
use cs2640_final_project.Server.TwoSided.Replies.{
  Carries, found, replies, post_send-take, poll-message, poll-done, one_round, take_beyond,
}
use cs2640_final_project.Client.TwoSided.{
  Exchange, Reply, strip_line_end, two_sided_request_response, client_run,
}

-- The completion of the send and the response are found in either order.
abbrev pub Finds : Exchange → Bytes → Type 0
Finds e answer =
    ((found e.first ≡ some request_done) × (found e.second ≡ some (message answer)))
    ⊎ ((found e.first ≡ some (message answer)) × (found e.second ≡ some request_done))

-- The network takes what the client posts to the server's round, and the answer to the client.
pub record Linked (e : Exchange) (r : Round) (request answer : Bytes) : Type 0 where
  pub client_armed : e.armed ≡ true
  pub client_accepted : e.accepted ≡ true
  pub server_armed : r.armed ≡ true
  pub server_accepted : r.accepted ≡ true
  pub arrival : found r.arrival ≡ some (message request)
  pub departure : found r.departure ≡ some request_done
  pub answers : Finds e answer

abbrev pub LinkedAll : List Exchange → List Round → List Bytes → List Bytes → Type 0
LinkedAll [] [] [] [] = Unit
LinkedAll (e ∷ es) (r ∷ rs) (m ∷ ms) (a ∷ as') = Linked e r m a × LinkedAll es rs ms as'
LinkedAll es rs ms as' = ⊥

-- polling past the completion of a request changes nothing in the context
poll-done_keeps :
    (ps : List Polled) (c : RdmaContext)
    → found ps ≡ some request_done
    → (poll_completion ps c).context ≡ c
unfolding found poll_completion
poll-done_keeps [] c e = refl
poll-done_keeps (nothing ∷ ps) c e = poll-done_keeps ps c e
poll-done_keeps (poll_error ∷ ps) c e = refl
poll-done_keeps (failed_completion ∷ ps) c e = refl
poll-done_keeps (request_done ∷ ps) c e = refl
poll-done_keeps (message n ∷ ps) c e = absurd (cc)

-- both polls succeed, and the response is in the buffer
pub polls_lem :
    (e : Exchange) (answer : Bytes) (c : RdmaContext)
    → Finds e answer
    → let p = poll_completion e.first c in
      let q = poll_completion e.second p.context in
      (p.result ≡ some true) × (q.result ≡ some true) × (recv_data q.context ≡ answer)
polls_lem e answer c (inl (a, b)) =
    let p = poll_completion e.first c in
    let (arrived, text) = poll-message e.second answer p.context b in
    (poll-done e.first c a, arrived, text)
polls_lem e answer c (inr (a, b)) =
    let p = poll_completion e.first c in
    let (arrived, text) = poll-message e.first answer c a in
    (
      arrived,
      poll-done e.second p.context b,
      ap recv_data (poll-done_keeps e.second p.context b) ∙ text,
    )

-- what one exchange returns
exchange-response :
    (e : Exchange) (command answer : Bytes) (d : RdmaContext)
    → e.armed ≡ true
    → e.accepted ≡ true
    → Finds e answer
    → let x = two_sided_request_response e command d in
      (x.ok ≡ true)
      × (x.response ≡ strip_line_end answer)
      × (x.posted ≡ take msg_size (command ++ 10 ∷ []))
unfolding two_sided_request_response
exchange-response e command answer d a b f =
    let (p, q, text) = polls_lem e answer (post_send (command ++ 10 ∷ []) d).1 f in
    simp (a, b, p, q) (refl, ap strip_line_end text, post_send-take (command ++ 10 ∷ []) d)

-- a command that fits in a message with its newline
abbrev pub Fits : Bytes → Type 0
Fits command = length command < msg_size

posted_line :
    (e : Exchange) (command answer : Bytes) (d : RdmaContext)
    → Fits command
    → e.armed ≡ true
    → e.accepted ≡ true
    → Finds e answer
    → (two_sided_request_response e command d).posted ≡ command ++ 10 ∷ []
posted_line e command answer d short a b f =
    (exchange-response e command answer d a b f).2
    ∙ take_beyond msg_size (command ++ 10 ∷ []) (omega (arith, length-append command (10 ∷ [])))

pub still_open :
    (store : KeyValueStore) (l : Bytes) (cs : List Bytes)
    → (respond store (l ∷ cs)).ends ≡ false
    → ((serve_line store l).ends ≡ false) × ((respond (serve_line store l).store cs).ends ≡ false)
unfolding respond
still_open store l cs h = ground arith

pub cons_injective : {a b : Bytes} → {xs ys : List Bytes} → a ∷ xs ≡ b ∷ ys → (a ≡ b) × (xs ≡ ys)
cons_injective e = (cc, cc)

-- the first link of a conversation: what the server answers, and the rest of the links
pub first_link :
    (e : Exchange) (es : List Exchange) (r : Round) (rs : List Round) (l : Bytes)
    → (store : KeyValueStore) (c d : RdmaContext) (ms : List Bytes) → Fits l
    → (serve_line store l).ends ≡ false
    → LinkedAll
        (e ∷ es)
        (r ∷ rs)
        ((two_sided_request_response e l d).posted ∷ ms)
        (two_sided_loop (r ∷ rs) store c).posted
    → (answer : Bytes) × Linked e r (two_sided_request_response e l d).posted answer
      × (answer ≡ take msg_size (serve_line store l).output)
      × ((t : RdmaContext) × LinkedAll es rs ms
            (two_sided_loop rs (serve_line store l).store t).posted
          × ((two_sided_loop (r ∷ rs) store c).store
              ≡ (two_sided_loop rs (serve_line store l).store t).store))
first_link e es r rs l store c d ms short going link =
    go (two_sided_loop (r ∷ rs) store c).posted refl link
  where
    go :
        (ps : List Bytes)
        → (two_sided_loop (r ∷ rs) store c).posted ≡ ps
        → LinkedAll (e ∷ es) (r ∷ rs) ((two_sided_request_response e l d).posted ∷ ms) ps
        → (answer : Bytes) × Linked e r (two_sided_request_response e l d).posted answer
          × (answer ≡ take msg_size (serve_line store l).output)
          × ((t : RdmaContext) × LinkedAll es rs ms
                (two_sided_loop rs (serve_line store l).store t).posted
              × ((two_sided_loop (r ∷ rs) store c).store
                  ≡ (two_sided_loop rs (serve_line store l).store t).store))
    go [] p k = absurd k
    go (a ∷ as') p (first, others) =
        let carried : Carries r l = record {
          armed = first.server_armed;
          arrival =
              first.arrival
              ∙ ap (λ (m : Bytes). some (message m))
                  (posted_line e l a d short first.client_armed first.client_accepted
                    first.answers);
          accepted = first.server_accepted;
          departure = first.departure;
        } in
        let (t, (posted, kept)) = one_round r rs l store c carried in
        let same : a ∷ as'
            ≡ take msg_size (serve_line store l).output
              ∷ (two_sided_loop rs (serve_line store l).store t).posted =
          sym p ∙ (rw going at posted) in
        let (head_same, tail_same) = cons_injective same in
        (a, first, head_same, (t, subst (LinkedAll es rs ms) tail_same others, rw going at kept))

-- Client and server in conversation, where no RDMA call fails and each side is fed with what the other
-- posts: for commands that fit in a message with their newline and do not end the session, every request
-- of the client succeeds, and its response is the answer that a TCP session gives to that line, cut off at
-- 4096 bytes, without its line end.
pub client_run-replies :
    (es : List Exchange) (rs : List Round) (cs : List Bytes) (store : KeyValueStore)
    → (c d : RdmaContext) → All Fits cs
    → (respond store cs).ends ≡ false
    → LinkedAll es rs
        (map (λ (x : Reply). x.posted) (client_run es cs d))
        (two_sided_loop rs store c).posted
    → length es ≡ length cs
    → (map (λ (x : Reply). x.response) (client_run es cs d)
        ≡ map (λ (m : Bytes). strip_line_end (take msg_size m)) (replies store cs))
      × All (λ (x : Reply). x.ok ≡ true) (client_run es cs d)
unfolding client_run replies respond
client_run-replies [] rs [] store c d short open' link len = (refl, tt)
client_run-replies [] rs (l ∷ cs) store c d short open' link len = absurd (omega (arith, len))
client_run-replies (e ∷ es) rs [] store c d short open' link len = absurd (omega (arith, len))
client_run-replies (e ∷ es) [] (l ∷ cs) store c d short open' link len = absurd link
client_run-replies (e ∷ es) (r ∷ rs) (l ∷ cs) store c d (s, short) open' link len =
    let x = two_sided_request_response e l d in
    let o = serve_line store l in
    let (going, later) = still_open store l cs open' in
    let (answer, linked, served, (t, links, _)) =
      first_link e es r rs l store c d (map (λ (x : Reply). x.posted) (client_run es cs x.context))
        s going link in
    let (ok, text, _) =
      exchange-response e l answer d linked.client_armed linked.client_accepted linked.answers in
    let (more, oks) =
      client_run-replies es rs cs o.store t x.context short later links (omega (arith, len)) in
    (rw (going, more, text, served) refl, (ok, oks))
