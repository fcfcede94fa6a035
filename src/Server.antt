-- ===== src/Server.antt =====
-- The request handlers: `handle_request` of src/server/main.cpp, the switch in
-- `handle_two_sided_client` of src/server/rdma_main.cpp, and one round trip of each server.
pub mod Wire
pub mod Session
pub mod Shared
pub mod TwoSided
use cs2640_final_project.Prelude.{
  ℕ, zero, suc, Bool, true, false, Option, none, some, [], ◌∷◌, ◌==◌, nat_eq, if◌then◌else◌, Bytes,
}
use cs2640_final_project.KvStore
use cs2640_final_project.KvStore.{KeyValueStore}
use cs2640_final_project.Protocol.{
  RequestType, Request, Response, ResponseType, get, set, del, quit, invalid, parse_request,
  serialize_response,
}

abbrev pub response : ResponseType → Bytes → Response
response t p = record { type = t; payload = p }

abbrev value_or_not_found : Option Bytes → Response
value_or_not_found none = response ResponseType.not_found []
value_or_not_found (some v) = response ResponseType.value v

abbrev ok_or_not_found : Bool → Response
ok_or_not_found true = response ResponseType.ok []
ok_or_not_found false = response ResponseType.not_found []

-- the switch on `request.type`
unfoldable pub handle_by : RequestType → KeyValueStore → Request → Response × KeyValueStore
handle_by get store r = (value_or_not_found (KvStore.get store r.key), store)
handle_by set store r = (response ResponseType.ok [], (KvStore.set store r.key r.value).1)
handle_by del store r = let (erased, t) = KvStore.erase store r.key in (ok_or_not_found erased, t)
handle_by quit store r = (response ResponseType.bye [], store)
handle_by invalid store r = (response ResponseType.error r.error, store)

unfoldable pub handle_request : KeyValueStore → Request → Response × KeyValueStore
unfolding handle_by
handle_request store r = handle_by r.type store r

abbrev pub is_quit : RequestType → Bool
is_quit quit = true
is_quit t = false

-- What one request line does: the bytes to send, the store, and whether the session ends.
pub record Outcome : Type 0 where
  pub output : Bytes
  pub store : KeyValueStore
  pub ends : Bool

-- the body of the loop over the lines in `handle_client`
unfoldable pub serve_line : KeyValueStore → Bytes → Outcome
serve_line store line =
    let r = parse_request line in
    let (answer, t) = handle_request store r in
    record { output = serialize_response answer; store = t; ends = is_quit r.type }

-- `if (!line.empty() && line.back() == '\n') line.pop_back();`
unfoldable pub strip_newline : Bytes → Bytes
strip_newline [] = []
strip_newline (c ∷ []) = if c == 10 then [] else c ∷ []
strip_newline (c ∷ d ∷ cs) = c ∷ strip_newline (d ∷ cs)

-- the switch of the two-sided server, written out once more there
unfoldable pub two_sided_switch : RequestType → KeyValueStore → Request → Response × KeyValueStore
two_sided_switch get store r =
    let found = KvStore.get store r.key in
    (
      elim found [
        | some v ↦ response ResponseType.value v
        | none ↦ response ResponseType.not_found []
      ],
      store,
    )
two_sided_switch set store r = (response ResponseType.ok [], (KvStore.set store r.key r.value).1)
two_sided_switch del store r =
    let (erased, t) = KvStore.erase store r.key in
    (if erased then response ResponseType.ok [] else response ResponseType.not_found [], t)
two_sided_switch quit store r = (response ResponseType.bye [], store)
two_sided_switch invalid store r = (response ResponseType.error r.error, store)

-- one message of the loop in `handle_two_sided_client`
unfoldable pub serve_message : KeyValueStore → Bytes → Outcome
unfolding two_sided_switch
serve_message store message =
    let r = parse_request (strip_newline message) in
    let (answer, t) = two_sided_switch r.type store r in
    record { output = serialize_response answer; store = t; ends = is_quit r.type }
