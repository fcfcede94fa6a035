-- ===== src/Server/Wire.antt =====
-- One request line and its answer, in bytes.
use cs2640_final_project.Prelude.{
  ◌≡◌, ◌≢◌, refl, sym, ◌∙◌, ap, true, [], ◌∷◌, ◌++◌, arith, nat_eq, list_eq, ==_refl, append-nil,
  Bytes, bytes,
}
use cs2640_final_project.Assoc.{lookup-insert, lookup-without}
use cs2640_final_project.KvStore
use cs2640_final_project.KvStore.{KeyValueStore}
use cs2640_final_project.Protocol.{
  RequestType, Request, get, set, del, quit, invalid, parse_request, request, serialize_response,
}
use cs2640_final_project.Protocol.Trim.{ends_ink}
use cs2640_final_project.Protocol.Parse.{IsKey, IsValue, WellFormedAs}
use cs2640_final_project.Protocol.RoundTrip.{command_line, parse_request-command_line}
use cs2640_final_project.Server.{
  handle_by, handle_request, serve_line, two_sided_switch, serve_message, strip_newline, is_quit,
}

strip_newline_line : (l : Bytes) → strip_newline (l ++ 10 ∷ []) ≡ l
unfolding strip_newline
strip_newline_line [] = refl
strip_newline_line (c ∷ []) = refl
strip_newline_line (c ∷ d ∷ cs) = ap (λ x. c ∷ x) (strip_newline_line (d ∷ cs))

same_switch :
    (t : RequestType) (store : KeyValueStore) (r : Request)
    → two_sided_switch t store r ≡ handle_by t store r
unfolding two_sided_switch handle_by
same_switch get store r = ground arith
same_switch set store r = refl
same_switch del store r = ground arith
same_switch quit store r = refl
same_switch invalid store r = refl

-- For a message that the client ends by a newline, the RDMA handler prepares what the TCP handler prepares
-- for that line: the same response text, the same store, and the same decision to end the session. Nothing
-- is said of what `post_send` then sends of the text, which it cuts off at 4096 bytes.
pub serve_message-serve_line :
    (store : KeyValueStore) (line : Bytes)
    → serve_message store (line ++ 10 ∷ []) ≡ serve_line store line
unfolding serve_message serve_line handle_request
serve_message-serve_line store line = rw (strip_newline_line, same_switch)

-- a line that a client builds
pub serve_command :
    (t : RequestType) (k v : Bytes) (store : KeyValueStore)
    → t ≢ invalid
    → WellFormedAs t k v []
    → serve_line store (command_line t k v) ≡ record {
      output = serialize_response (handle_by t store (request t k v)).0;
      store = (handle_by t store (request t k v)).1;
      ends = is_quit t;
    }
unfolding serve_line handle_request
serve_command t k v store n w =
    let e : parse_request (command_line t k v) ≡ request t k v =
      ap parse_request (sym (append-nil (command_line t k v)))
      ∙ parse_request-command_line t k v [] [] n w tt tt in
    rw e

module _ (store : KeyValueStore) (k : Bytes) (key : IsKey k) (ends : ends_ink k ≡ true) where
  -- After `DEL k` the line `GET k` is answered by `NOT_FOUND`, for a key that a GET can name.
  pub del-get_line :
      (serve_line (serve_line store (command_line del k [])).store (command_line get k [])).output
      ≡ bytes "NOT_FOUND" ++ 10 ∷ []
  unfolding handle_by serialize_response KvStore.get KvStore.erase
  del-get_line =
      rw
        (
          serve_command del k [] store (cc) (key, ends, refl, refl),
          serve_command get k [] _ (cc) (key, ends, refl, refl),
          lookup-without,
          ==_refl k,
        )
        refl

  module _ (v : Bytes) (value : IsValue v) where
    -- The line `SET k v` is answered by `OK`, and `GET k` after it by `VALUE v`, for a key that a GET can
    -- name and a value that starts and ends in ink.
    pub set-get_line :
        ((serve_line store (command_line set k v)).output ≡ bytes "OK" ++ 10 ∷ [])
        × ((serve_line
              (serve_line store (command_line set k v)).store
              (command_line get k [])).output
            ≡ bytes "VALUE " ++ (v ++ 10 ∷ []))
    unfolding handle_by serialize_response KvStore.get KvStore.set
    set-get_line = rw (serve_command set k v store (cc) (key, value, refl)) (
      refl,
      rw (serve_command get k [] _ (cc) (key, ends, refl, refl), lookup-insert, ==_refl k) refl,
    )
