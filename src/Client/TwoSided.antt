-- ===== src/Client/TwoSided.antt =====
-- The two-sided sessions of src/client/rdma_client.cpp: `two_sided_request_response` and
-- `run_two_sided`. An exchange holds what the RDMA calls of one request return.
pub mod Conversation
pub mod Stores
pub mod Bye
use cs2640_final_project.Prelude.{
  Bool, true, false, ◌&&◌, ◌||◌, List, [], ◌∷◌, ◌++◌, ◌==◌, nat_eq, list_eq, if◌then◌else◌, Bytes,
  bytes,
}
use cs2640_final_project.Protocol.{is_empty}
use cs2640_final_project.RdmaContext.{RdmaContext, Polled, poll_completion, recv_data, post_send}
use cs2640_final_project.Server.TwoSided.{is_true}
use cs2640_final_project.Client.Interactive.{starts_with}

-- whether `post_recv` and `post_send` succeed, and what `ibv_poll_cq` finds in the two polls
pub record Exchange : Type 0 where
  pub armed : Bool
  pub accepted : Bool
  pub first : List Polled
  pub second : List Polled

-- what is returned, the response, the message that was posted, and the context
pub record Reply : Type 0 where
  pub ok : Bool
  pub response : Bytes
  pub posted : Bytes
  pub context : RdmaContext

-- `while (!response.empty() && (response.back() == '\n' || response.back() == '\r')) pop_back();`
unfoldable pub strip_line_end : Bytes → Bytes
strip_line_end [] = []
strip_line_end (c ∷ cs) =
    let rest = strip_line_end cs in if is_empty rest && (c == 10 || c == 13) then [] else c ∷ rest

-- where a call fails, the response is left as it was, which is empty
unfoldable pub two_sided_request_response : Exchange → Bytes → RdmaContext → Reply
two_sided_request_response e command d =
    let (text, sent) = post_send (command ++ 10 ∷ []) d in
    let p = poll_completion e.first sent in
    let q = poll_completion e.second p.context in
    if e.armed
    then (if e.accepted
        then (if is_true p.result
            then (if is_true q.result
                then record {
                  ok = true;
                  response = strip_line_end (recv_data q.context);
                  posted = text;
                  context = q.context;
                }
                else record { ok = false; response = []; posted = text; context = q.context })
            else record { ok = false; response = []; posted = text; context = p.context })
        else record { ok = false; response = []; posted = []; context = sent })
    else record { ok = false; response = []; posted = []; context = d }

-- one request after the other, as the benchmarks send them
unfoldable pub client_run : List Exchange → List Bytes → RdmaContext → List Reply
client_run [] cs d = []
client_run (e ∷ es) [] d = []
client_run (e ∷ es) (c ∷ cs) d =
    let x = two_sided_request_response e c d in x ∷ client_run es cs x.context

-- `text.find(part) != npos`
unfoldable pub contains : Bytes → Bytes → Bool
unfolding starts_with
contains part [] = starts_with part []
contains part (c ∷ cs) = starts_with part (c ∷ cs) || contains part cs

-- the loop of `run_two_sided` over the lines of the standard input, and what it prints
unfoldable pub run_two_sided : List Bytes → List Exchange → RdmaContext → List Bytes
run_two_sided [] es d = []
run_two_sided (line ∷ lines) [] d = []
run_two_sided (line ∷ lines) (e ∷ es) d =
    let sent = (post_send (line ++ 10 ∷ []) d).1 in
    let p = poll_completion e.first sent in
    let q = poll_completion e.second p.context in
    let received = recv_data q.context in
    let skipped = run_two_sided lines (e ∷ es) d in
    let rest = run_two_sided lines es q.context in
    if line == []
    then skipped
    else if e.armed && (e.accepted && (is_true p.result && is_true q.result))
    then (if contains (bytes "BYE") received
        then (received ++ 10 ∷ []) ∷ []
        else (received ++ 10 ∷ []) ∷ rest)
    else []
