-- ===== src/Client/Tcp/Session.antt =====
-- The TCP client in conversation with the server.
use cs2640_final_project.Prelude.{
  ◌≡◌, refl, sym, ◌∙◌, true, false, some, List, [], ◌∷◌, ◌++◌, arith, map, All, ◌==◌, nat_eq,
  list_eq, if◌then◌else◌, Bool-cases, inl, inr, has, Bytes,
}
use cs2640_final_project.KvStore.{KeyValueStore}
use cs2640_final_project.Protocol.{parse_request}
use cs2640_final_project.Server.{is_quit, serve_line}
use cs2640_final_project.Server.TwoSided.Replies.{replies}
use cs2640_final_project.Sockets.{byte, write_all}
use cs2640_final_project.Sockets.Write.{write_all-Delivers}
use cs2640_final_project.Sockets.Read.{uninterrupted, without_cr, read_line-line}
use cs2640_final_project.Client.Tcp.{Trip, send_request, client_session}

-- The request is sent, and the answer arrives, byte by byte and with interruptions anywhere.
pub record Answered (t : Trip) (line answer : Bytes) : Type 0 where
  pub text : Bytes
  pub one_line : has 10 text ≡ false
  pub whole : answer ≡ text ++ 10 ∷ []
  pub sent : (write_all (line ++ 10 ∷ []) 0 [] t.sends).result ≡ some true
  pub received : uninterrupted t.receives ≡ map byte text ++ byte 10 ∷ []

abbrev pub AnsweredAll : KeyValueStore → List Bytes → List Trip → Type 0
AnsweredAll store [] [] = Unit
AnsweredAll store [] (t ∷ ts) = ⊥
AnsweredAll store (l ∷ ls) [] = ⊥
AnsweredAll store (l ∷ ls) (t ∷ ts) =
    let o = serve_line store l in
    Answered t l o.output × (if o.ends then Unit else AnsweredAll o.store ls ts)

-- the lines up to the one that ends the session, each with its newline
abbrev pub requests : KeyValueStore → List Bytes → Bytes
requests store [] = []
requests store (l ∷ ls) =
    let o = serve_line store l in (l ++ 10 ∷ []) ++ (if o.ends then [] else requests o.store ls)

without_cr-line : (text : Bytes) → without_cr (text ++ 10 ∷ []) ≡ without_cr text ++ 10 ∷ []
unfolding without_cr
without_cr-line [] = refl
without_cr-line (c ∷ text) = ground (arith, without_cr-line text)

sent_all :
    (t : Trip) (line : Bytes)
    → (write_all (line ++ 10 ∷ []) 0 [] t.sends).result ≡ some true
    → (write_all (line ++ 10 ∷ []) 0 [] t.sends).taken ≡ line ++ 10 ∷ []
sent_all t line e = (write_all-Delivers (line ++ 10 ∷ []) t.sends).whole e

send_request-Answered :
    (t : Trip) (line answer : Bytes)
    → Answered t line answer
    → send_request t line
      ≡ record { ok = true; printed = without_cr answer ∷ []; delivered = line ++ 10 ∷ [] }
unfolding send_request
send_request-Answered t line answer h =
    let (good, text) = read_line-line h.text t.receives [] h.one_line h.received in
    rw (h.sent, good, text, h.whole, without_cr-line h.text, sent_all t line h.sent) refl

ends_lem :
    (store : KeyValueStore) (l : Bytes) → (serve_line store l).ends ≡ is_quit (parse_request l).type
unfolding serve_line
ends_lem store l = refl

-- A user's lines, none of them empty, over trips in which every request is sent and the server's answer, a
-- single line, arrives, byte by byte and with interruptions anywhere: the client prints the answers of a server
-- session to these lines, in order and without carriage returns, and the bytes that it sends are these
-- lines up to the QUIT at which the server ends the session.
pub client_session-replies :
    (lines : List Bytes) (ts : List Trip) (store : KeyValueStore)
    → All (λ (l : Bytes). (l == []) ≡ false) lines
    → AnsweredAll store lines ts
    → ((client_session lines ts).printed ≡ map without_cr (replies store lines))
      × ((client_session lines ts).delivered ≡ requests store lines)
unfolding client_session replies
client_session-replies [] [] store full h = (refl, refl)
client_session-replies [] (t ∷ ts) store full h = absurd h
client_session-replies (l ∷ ls) [] store full h = absurd h
client_session-replies (l ∷ ls) (t ∷ ts) store (f, full) (a, h) =
    let o = serve_line store l in
    let s = send_request-Answered t l o.output a in
    elim (Bool-cases o.ends) [
      | inl e ↦
          let q : is_quit (parse_request l).type ≡ true = sym (ends_lem store l) ∙ e in
          rw (f, s, e, q) (refl, refl)
      | inr e ↦
          let q : is_quit (parse_request l).type ≡ false = sym (ends_lem store l) ∙ e in
          let (printed, delivered) = client_session-replies ls ts o.store full (rw e at h) in
          rw (f, s, e, q, printed, delivered) (refl, refl)
    ]
