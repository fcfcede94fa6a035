-- ===== src/Server/TwoSided/Replies.antt =====
-- A two-sided session against a TCP session with the same lines.
use cs2640_final_project.Prelude.{
  ℕ, ◌≤◌, ◌≡◌, ◌∙◌, sym, ap, refl, true, Option, none, some, List, [], ◌∷◌, ◌++◌, arith, zero, suc,
  append-nil, map, All, length, take, drop, ltb, take-length_append, if◌then◌else◌, Bool-cases, inl,
  inr, Bytes,
}
use cs2640_final_project.KvStore.{KeyValueStore}
use cs2640_final_project.RdmaContext.{
  RdmaContext, Polled, nothing, poll_error, failed_completion, request_done, message,
  poll_completion, recv_data, post_send, msg_size,
}
use cs2640_final_project.Server.{serve_line, serve_message}
use cs2640_final_project.Server.Wire.{serve_message-serve_line}
use cs2640_final_project.Server.Session.Lines.{respond}
use cs2640_final_project.Server.TwoSided.{Round, two_sided_loop}

-- the answers to the lines one by one, up to one that ends the session
unfoldable pub replies : KeyValueStore → List Bytes → List Bytes
replies store [] = []
replies store (l ∷ ls) =
    let o = serve_line store l in
    let rest = replies o.store ls in if o.ends then o.output ∷ [] else o.output ∷ rest

unfoldable pub flatten : List Bytes → Bytes
flatten [] = []
flatten (x ∷ xs) = x ++ flatten xs

flatten-replies :
    (store : KeyValueStore) (ls : List Bytes)
    → flatten (replies store ls) ≡ (respond store ls).output
unfolding replies respond flatten
flatten-replies store [] = refl
flatten-replies store (l ∷ ls) =
    ground
      (arith, append-nil (serve_line store l).output, flatten-replies (serve_line store l).store ls)

-- the first thing that polling finds
unfoldable pub found : List Polled → Option Polled
found [] = none
found (nothing ∷ ps) = found ps
found (poll_error ∷ ps) = some poll_error
found (failed_completion ∷ ps) = some failed_completion
found (request_done ∷ ps) = some request_done
found (message m ∷ ps) = some (message m)

-- Round by round the lines arrive, each with its newline, and no RDMA call fails.
pub record Carries (r : Round) (line : Bytes) : Type 0 where
  pub armed : r.armed ≡ true
  pub arrival : found r.arrival ≡ some (message (line ++ 10 ∷ []))
  pub accepted : r.accepted ≡ true
  pub departure : found r.departure ≡ some request_done

abbrev pub CarriesAll : List Round → List Bytes → Type 0
CarriesAll [] [] = Unit
CarriesAll (r ∷ rs) (l ∷ ls) = Carries r l × CarriesAll rs ls
CarriesAll [] (l ∷ ls) = ⊥
CarriesAll (r ∷ rs) [] = ⊥

pub poll-message :
    (ps : List Polled) (m : Bytes) (c : RdmaContext)
    → found ps ≡ some (message m)
    → ((poll_completion ps c).result ≡ some true) × (recv_data (poll_completion ps c).context ≡ m)
unfolding found poll_completion recv_data
poll-message [] m c e = absurd (cc)
poll-message (nothing ∷ ps) m c e = poll-message ps m c e
poll-message (poll_error ∷ ps) m c e = absurd (cc)
poll-message (failed_completion ∷ ps) m c e = absurd (cc)
poll-message (request_done ∷ ps) m c e = absurd (cc)
poll-message (message n ∷ ps) m c e =
    let same : n ≡ m = cc in rw same (refl, take-length_append m (drop (length m) c.recv_buf))

pub poll-done :
    (ps : List Polled) (c : RdmaContext)
    → found ps ≡ some request_done
    → (poll_completion ps c).result ≡ some true
unfolding found poll_completion
poll-done [] c e = absurd (cc)
poll-done (nothing ∷ ps) c e = poll-done ps c e
poll-done (poll_error ∷ ps) c e = absurd (cc)
poll-done (failed_completion ∷ ps) c e = absurd (cc)
poll-done (request_done ∷ ps) c e = refl
poll-done (message n ∷ ps) c e = refl

take_prefix : (n : ℕ) (xs ys : Bytes) → n ≤ length xs → take n (take n xs ++ ys) ≡ take n xs
take_prefix zero xs ys h = refl
take_prefix (suc n) [] ys h = absurd (omega arith)
take_prefix (suc n) (x ∷ xs) ys h = rw (take_prefix n xs ys (omega arith))

pub take_beyond : (n : ℕ) (xs : Bytes) → length xs ≤ n → take n xs ≡ xs
take_beyond zero [] h = refl
take_beyond (suc n) [] h = refl
take_beyond zero (x ∷ xs) h = absurd (omega arith)
take_beyond (suc n) (x ∷ xs) h = rw (take_beyond n xs (omega arith))

-- A message is cut off at the size of the buffer.
pub post_send-take : (text : Bytes) (c : RdmaContext) → (post_send text c).0 ≡ take msg_size text
unfolding post_send
post_send-take text c = elim (Bool-cases (ltb (length text) msg_size)) [
  | inl e ↦ rw e (
      take_prefix (length text) text _ (omega arith)
      ∙ (take_beyond (length text) text (omega arith)
          ∙ sym (take_beyond msg_size text (ground arith))))
  | inr e ↦ rw e (take_prefix msg_size text _ (ground arith))
]

pub one_round :
    (r : Round) (rs : List Round) (l : Bytes) (store : KeyValueStore) (c : RdmaContext)
    → Carries r l
    → (d : RdmaContext) × (let o = serve_line store l in
        let rest = two_sided_loop rs o.store d in
        let t = two_sided_loop (r ∷ rs) store c in
        (t.posted ≡ take msg_size o.output ∷ (if o.ends then [] else rest.posted))
        × (t.store ≡ (if o.ends then o.store else rest.store)))
unfolding two_sided_loop
one_round r rs l store c h =
    let p = poll_completion r.arrival c in
    let (arrived, text) = poll-message r.arrival (l ++ 10 ∷ []) c h.arrival in
    let e : serve_message store (recv_data p.context) ≡ serve_line store l =
      ap (serve_message store) text ∙ serve_message-serve_line store l in
    let d = (post_send (serve_line store l).output p.context).1 in
    let q = poll_completion r.departure d in
    let left = poll-done r.departure d h.departure in
    (
      q.context,
      simp (h.armed, h.accepted, arrived, e, left, post_send-take)
          (elim (Bool-cases (serve_line store l).ends) [
            | inl x ↦ rw x (refl, refl)
            | inr x ↦ rw x (refl, refl)
          ]),
    )

-- Where no RDMA call fails and each request line arrives with its newline, the two-sided session posts
-- one message per line, the TCP answer cut off at 4096 bytes, up to the end of the session, and leaves
-- the store as the TCP session does.
pub two_sided_loop-replies :
    (rs : List Round) (ls : List Bytes) (store : KeyValueStore) (c : RdmaContext)
    → CarriesAll rs ls
    → ((two_sided_loop rs store c).posted ≡ map (take msg_size) (replies store ls))
      × ((two_sided_loop rs store c).store ≡ (respond store ls).store)
unfolding replies respond
two_sided_loop-replies [] [] store c h = unfold two_sided_loop in (refl, refl)
two_sided_loop-replies [] (l ∷ ls) store c h = absurd h
two_sided_loop-replies (r ∷ rs) [] store c h = absurd h
two_sided_loop-replies (r ∷ rs) (l ∷ ls) store c h =
    let (d, (posted, left)) = one_round r rs l store c h.0 in
    let (more, kept) = two_sided_loop-replies rs ls (serve_line store l).store d h.1 in
    elim (Bool-cases (serve_line store l).ends) [
      | inl x ↦ (rw (posted, x) refl, rw (left, x) refl)
      | inr x ↦ (rw (posted, x, more) refl, rw (left, x, kept) refl)
    ]

-- Where moreover each answer fits in a message, the messages together are the bytes that the TCP
-- session sends.
pub two_sided_loop-respond :
    (rs : List Round) (ls : List Bytes) (store : KeyValueStore) (c : RdmaContext)
    → CarriesAll rs ls
    → All (λ (x : Bytes). length x ≤ msg_size) (replies store ls)
    → flatten (two_sided_loop rs store c).posted ≡ (respond store ls).output
two_sided_loop-respond rs ls store c h fits =
    ap flatten ((two_sided_loop-replies rs ls store c h).0 ∙ go (replies store ls) fits)
    ∙ flatten-replies store ls
  where
    go :
        (xs : List Bytes)
        → All (λ (x : Bytes). length x ≤ msg_size) xs
        → map (take msg_size) xs ≡ xs
    go [] h = refl
    go (x ∷ xs) h = rw (take_beyond msg_size x h.0, go xs h.1)
