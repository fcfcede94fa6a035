-- ===== src/Client/Tcp.antt =====
-- The TCP client, src/client/main.cpp: `send_request` and the loop of `main`. A trip holds what the
-- calls of `send` and `recv` return for one request.
pub mod Session
use cs2640_final_project.Prelude.{
  Bool, true, false, List, [], ◌∷◌, ◌++◌, ◌==◌, nat_eq, list_eq, if◌then◌else◌, Bytes,
}
use cs2640_final_project.Protocol.{parse_request}
use cs2640_final_project.Server.{is_quit}
use cs2640_final_project.Server.TwoSided.{is_true}
use cs2640_final_project.Sockets.{Sent, write_all, Received, read_line}

pub record Trip : Type 0 where
  pub sends : List Sent
  pub receives : List Received

-- what is returned, what was printed on the standard output, and what the kernel took
pub record Sending : Type 0 where
  pub ok : Bool
  pub printed : List Bytes
  pub delivered : Bytes

unfoldable pub send_request : Trip → Bytes → Sending
send_request t line =
    let w = write_all (line ++ 10 ∷ []) 0 [] t.sends in
    let r = read_line [] t.receives in
    if is_true w.result
    then (if is_true r.result
        then record { ok = true; printed = (r.line ++ 10 ∷ []) ∷ []; delivered = w.taken }
        else record { ok = false; printed = []; delivered = w.taken })
    else record { ok = false; printed = []; delivered = w.taken }

-- all that is printed and all that the kernel took
pub record Transcript : Type 0 where
  pub printed : List Bytes
  pub delivered : Bytes

abbrev pub before : Sending → Transcript → Transcript
before s rest = record {
  printed = s.printed ++ rest.printed;
  delivered = s.delivered ++ rest.delivered;
}

abbrev pub over : Transcript
over = record { printed = []; delivered = [] }

-- the loop over the lines of the standard input
unfoldable pub client_session : List Bytes → List Trip → Transcript
client_session [] ts = over
client_session (line ∷ lines) [] = over
client_session (line ∷ lines) (t ∷ ts) =
    let s = send_request t line in
    let skipped = client_session lines (t ∷ ts) in
    let rest = client_session lines ts in
    if line == []
    then skipped
    else if s.ok
    then (if is_quit (parse_request line).type then before s over else before s rest)
    else before s over
