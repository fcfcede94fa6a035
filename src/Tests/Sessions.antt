-- ===== src/Tests/Sessions.antt =====
-- The TCP session: a run, and the theorems at concrete connections.
use cs2640_final_project.Prelude.{
  ◌<◌, ◌≡◌, refl, ap, false, some, [], ◌∷◌, ◌++◌, arith, length, nat_eq, list_eq, Bytes, bytes,
}
use cs2640_final_project.Assoc.{lookup, insert}
use cs2640_final_project.KvStore
use cs2640_final_project.KvStore.{KeyValueStore, new_store}
use cs2640_final_project.Protocol.{serialize_response}
use cs2640_final_project.Server.{serve_line, serve_message, handle_request}
use cs2640_final_project.Server.Wire.{serve_message-serve_line}
use cs2640_final_project.Server.Session.{
  Session, start_session, step, Reaches, begin, next, received, recv_would_block, accepted, closed,
  receiving, await_readable, end_of_file,
}
use cs2640_final_project.Server.Session.Lines.{respond, outcome}
use cs2640_final_project.Server.Session.Answers.{lines_of, await_readable-respond, sent-prefix}
use cs2640_final_project.Server.Session.EndOfFile.{steps, end_of_file_loses}
use cs2640_final_project.Tests.Protocol.{program}

unfoldable pub server : Unit {0}
unfolding program serve_line serialize_response handle_request step KvStore.get KvStore.set
    KvStore.erase lookup insert
server = tt

abbrev line_a : Bytes
line_a = bytes "SET a x" ++ 10 ∷ []

-- the line comes in two pieces, and the response leaves in two
abbrev piece : Session
piece =
    step (step (start_session new_store) (received (bytes "SET a")))
      (received (bytes " x" ++ 10 ∷ []))

abbrev halfway : Session
halfway = step (step piece recv_would_block) (accepted 2)

abbrev after : Session
after = step halfway (accepted 1)

piece-Reaches : Reaches new_store line_a piece
unfolding server
piece-Reaches =
    next (received (bytes " x" ++ 10 ∷ [])) (next (received (bytes "SET a")) begin (omega arith))
      (omega arith)

halfway-Reaches : Reaches new_store line_a halfway
unfolding server
halfway-Reaches =
    next (accepted 2) (next recv_would_block piece-Reaches tt) (omega arith, omega arith)

after-Reaches : Reaches new_store line_a after
unfolding server
after-Reaches = next (accepted 1) halfway-Reaches (omega arith, omega arith)

after_runs : (after.sent ≡ bytes "OK" ++ 10 ∷ []) × (after.place ≡ await_readable)
unfolding server
after_runs = (refl, refl)

await_readable-respond_example :
    respond new_store (lines_of line_a) ≡ outcome after.sent after.store false
await_readable-respond_example = await_readable-respond after-Reaches after_runs.1

sent-prefix_example :
    (rest : Bytes) × ((respond new_store (lines_of line_a)).output ≡ halfway.sent ++ rest)
sent-prefix_example = sent-prefix halfway-Reaches

pending_one : (piece.place ≡ receiving) × (lines_of piece.inbound ≡ bytes "SET a x" ∷ [])
unfolding server lines_of
pending_one = (refl, refl)

end_of_file_loses_example :
    let t = steps (step piece end_of_file) (recv_would_block ∷ []) in
    (t.place ≡ closed)
    × (t.sent ≡ piece.sent)
    × (t.store ≡ piece.store)
    × (length t.sent < length (respond new_store (lines_of line_a)).output)
end_of_file_loses_example =
    end_of_file_loses (recv_would_block ∷ []) piece-Reaches pending_one.0
      (omega (arith, ap (λ l. length l) pending_one.1))

two_lines_go_on : (respond new_store (bytes "GET a" ∷ bytes "SET a x" ∷ [])).ends ≡ false
unfolding server respond
two_lines_go_on = refl

no_values : (k v : Bytes) → lookup k new_store.entries ≡ some v → ⊥
unfolding lookup
no_values k v e = cc

serve_message-serve_line_example :
    serve_message new_store (bytes "GET a" ++ 10 ∷ []) ≡ serve_line new_store (bytes "GET a")
serve_message-serve_line_example = serve_message-serve_line new_store (bytes "GET a")
