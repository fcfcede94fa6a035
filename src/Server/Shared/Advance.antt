-- ===== src/Server/Shared/Advance.antt =====
-- One step of one coroutine: it takes no line out, or one, and owes its answer.
use cs2640_final_project.Prelude.{
  ℕ, ◌+◌, ◌<◌, ◌≡◌, refl, ap, sym, ◌∙◌, Bool, true, false, [], ◌∷◌, ◌++◌, ltb, arith, append-nil,
  if◌then◌else◌, take, drop, length, Bool-cases, Option-cases, inl, inr, Bytes,
}
use cs2640_final_project.KvStore.{KeyValueStore}
use cs2640_final_project.Protocol.{find}
use cs2640_final_project.Protocol.Find.{has, find-eq-none, find-eq-some}
use cs2640_final_project.Protocol.Serialize.{serialize_response_pos}
use cs2640_final_project.Server.{serve_line}
use cs2640_final_project.Server.Session.{
  Place, receiving, sending, await_writable, await_readable, closed, Session, Event, next_line,
  send_rest, step_at, step, Allowed, chunk_of, received, end_of_file, recv_interrupted,
  recv_would_block, recv_failed, accepted, send_interrupted, send_would_block, send_failed, resumed,
}
use cs2640_final_project.Server.Shared.Log.{quits}
use cs2640_final_project.Server.Session.Progress.{take-drop_regroup, drop-drop, drop_all}

-- The answers `a` due so far, compared with what is sent and what the session holds.
abbrev pub Owes : Place → Bytes → Bytes → Bytes → Type 0
Owes receiving a sent inbound = a ≡ sent
Owes (sending out offset ends) a sent inbound =
    (offset < length out) × (a ≡ sent ++ drop offset out)
Owes (await_writable out offset ends) a sent inbound =
    (offset < length out) × (a ≡ sent ++ drop offset out)
Owes await_readable a sent inbound = (a ≡ sent) × (has 10 inbound ≡ false)
Owes closed a sent inbound = (rest : Bytes) × (a ≡ sent ++ rest)

-- the session is over when what it sends is sent
abbrev pub ended : Place → Bool
ended receiving = false
ended (sending out offset ends) = ends
ended (await_writable out offset ends) = ends
ended await_readable = false
ended closed = true

-- From the store `store`, the bytes `bytes` not yet looked at and the answers `a` to the session `s`;
-- `was` says whether the session was over before.
pub data Advance (was : Bool) (store : KeyValueStore) (a bytes : Bytes) (s : Session) : Type 0 where
  quiet :
      s.store ≡ store
      → bytes ≡ s.inbound
      → Owes s.place a s.sent s.inbound
      → (ended s.place ≡ false → was ≡ false)
      → Advance was store a bytes s
  serves :
      (l : Bytes)
      → has 10 l ≡ false
      → s.store ≡ (serve_line store l).store
      → bytes ≡ l ++ 10 ∷ s.inbound
      → Owes s.place (a ++ (serve_line store l).output) s.sent s.inbound
      → was ≡ false
      → ended s.place ≡ quits l
      → Advance was store a bytes s

next_line-Advance : (s : Session) → Advance false s.store s.sent s.inbound (next_line s)
unfolding next_line serve_line
next_line-Advance s = elim (Option-cases (find 10 s.inbound)) [
  | inl e ↦ rw (e, next_line) (quiet refl refl (refl, find-eq-none 10 s.inbound e) (λ h. refl))
  | inr (n, e) ↦
      let (clean, cut) = find-eq-some 10 s.inbound n e in
      rw (e, next_line)
        (serves (take n s.inbound) clean refl cut (serialize_response_pos _, refl) refl refl)
]

-- after `accepted n`
send_rest-Advance :
    (out : Bytes) (offset : ℕ) (ends : Bool) (s : Session)
    → Advance ends s.store (s.sent ++ drop offset out) s.inbound (send_rest out offset ends s)
unfolding send_rest
send_rest-Advance out offset ends s = elim (Bool-cases (ltb offset (length out))) [
  | inl more ↦ rw more (quiet refl refl (ground arith, refl) (λ h. h))
  | inr done ↦
      let nothing : drop offset out ≡ [] = drop_all offset out (ground arith) in
      rw (done, nothing, append-nil) (go ends)
]
  where
    go :
        (e : Bool)
        → Advance e s.store s.sent s.inbound
            (if e then record s { place = closed } else next_line s)
    go true = quiet refl refl ([], rw append-nil) (λ h. h)
    go false = next_line-Advance s

pub step-Advance :
    (s : Session) (event : Event) (a : Bytes)
    → Owes s.place a s.sent s.inbound
    → Allowed s.place event
    → Advance (ended s.place) s.store a (s.inbound ++ chunk_of event) (step s event)
unfolding step
step-Advance s event a o ok = go s.place event refl o ok
  where
    kept : s.inbound ++ [] ≡ s.inbound
    kept = append-nil s.inbound

    moved :
        (was : Bool) (place : Place)
        → Owes place a s.sent s.inbound
        → (ended place ≡ false → was ≡ false)
        → Advance was s.store a (s.inbound ++ []) (record s { place = place })
    moved was place h over = quiet refl kept h over

    stays : (place : Place) → s.place ≡ place → Advance (ended place) s.store a (s.inbound ++ []) s
    stays place e = quiet refl kept o (λ h. ap ended (sym e) ∙ h)

    never : true ≡ false → ⊥
    never x = cc

    go :
        (place : Place) (ev : Event)
        → s.place ≡ place
        → Owes place a s.sent s.inbound
        → Allowed place ev
        → Advance (ended place) s.store a (s.inbound ++ chunk_of ev) (step_at place ev s)
    go receiving (received chunk) e h k = quiet refl refl (rw e h) (λ x. refl)
    go receiving end_of_file e h k = moved false closed ([], h ∙ rw append-nil) (λ x. refl)
    go receiving recv_interrupted e h k = stays receiving e
    go receiving recv_would_block e h k = rw (h, append-nil) (next_line-Advance s)
    go receiving recv_failed e h k = moved false closed ([], h ∙ rw append-nil) (λ x. refl)
    go (sending out offset ends) (accepted n) e h k =
        let t : Session = record s { sent = s.sent ++ take n (drop offset out) } in
        let due : a ≡ t.sent ++ drop (offset + n) out =
          h.1 ∙ rw (← drop-drop n offset out, take-drop_regroup) in
        rw (due, append-nil) (send_rest-Advance out (offset + n) ends t)
    go (sending out offset ends) send_interrupted e h k = stays (sending out offset ends) e
    go (sending out offset ends) send_would_block e h k =
        moved ends (await_writable out offset ends) h (λ x. x)
    go (sending out offset ends) send_failed e h k =
        moved ends closed (drop offset out, h.1) (λ x. absurd (never x))
    go (await_writable out offset ends) resumed e h k =
        moved ends (sending out offset ends) h (λ x. x)
    go await_readable resumed e h k = moved false receiving h.0 (λ x. refl)
    go place ev e h k = absurd k
