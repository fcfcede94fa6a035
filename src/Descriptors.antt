-- ===== src/Descriptors.antt =====
-- The file descriptors that the program opens and closes: `set_non_blocking`, `create_server_socket` and
-- `create_client_socket` of src/net/socket_utils.cpp, `make_tcp_listener` of src/server/rdma_main.cpp,
-- `tcp_connect` of src/client/rdma_client.cpp, and `accept_loop` of src/server/main.cpp. The system's
-- answers are arguments; -1 is `none`.
pub mod Owners
use cs2640_final_project.Prelude.{
  ℕ, Bool, true, false, ◌&&◌, Option, none, some, List, [], ◌∷◌, ◌==◌, nat_eq, if◌then◌else◌,
}

-- the descriptors that are open, and whether only open ones were closed
pub record Fds : Type 0 where
  pub open_fds : List ℕ
  pub sound : Bool

abbrev pub contains_fd : ℕ → List ℕ → Bool
contains_fd n [] = false
contains_fd n (m ∷ ms) = if m == n then true else contains_fd n ms

abbrev pub remove_fd : ℕ → List ℕ → List ℕ
remove_fd n [] = []
remove_fd n (m ∷ ms) = if m == n then ms else m ∷ remove_fd n ms

abbrev pub opened : ℕ → Fds → Fds
opened n s = record s { open_fds = n ∷ s.open_fds }

unfoldable pub close_socket : ℕ → Fds → Fds
close_socket n s = record {
  open_fds = remove_fd n s.open_fds;
  sound = s.sound && contains_fd n s.open_fds;
}

-- the two calls of `fcntl`
unfoldable pub set_non_blocking : Option ℕ → Bool → Bool
set_non_blocking none set = false
set_non_blocking (some flags) set = set

-- what `socket`, `setsockopt`, `bind`, `listen` and `fcntl` answer
pub record Listening : Type 0 where
  pub socket : Option ℕ
  pub reuses : Bool
  pub binds : Bool
  pub listens : Bool
  pub flags : Option ℕ
  pub unblocks : Bool

abbrev refuse : ℕ → Fds → Option ℕ × Fds
refuse fd s = (none, close_socket fd s)

-- the calls after `socket`
unfoldable pub prepare_server_socket : Listening → ℕ → Fds → Option ℕ × Fds
prepare_server_socket a fd s =
    if a.reuses
    then (if a.binds
        then (if a.listens
            then (if set_non_blocking a.flags a.unblocks then (some fd, s) else refuse fd s)
            else refuse fd s)
        else refuse fd s)
    else refuse fd s

-- `if (fd < 0) return -1;`, and what follows
unfoldable pub from_socket : (ℕ → Fds → Option ℕ × Fds) → Option ℕ → Fds → Option ℕ × Fds
from_socket next none s = (none, s)
from_socket next (some fd) s = next fd (opened fd s)

unfoldable pub create_server_socket : Listening → Fds → Option ℕ × Fds
create_server_socket a s = from_socket (prepare_server_socket a) a.socket s

-- `make_tcp_listener`, which does not look at `setsockopt` and leaves the socket blocking
unfoldable pub prepare_tcp_listener : Listening → ℕ → Fds → Option ℕ × Fds
prepare_tcp_listener a fd s = if a.binds && a.listens then (some fd, s) else refuse fd s

unfoldable pub make_tcp_listener : Listening → Fds → Option ℕ × Fds
make_tcp_listener a s = from_socket (prepare_tcp_listener a) a.socket s

-- an address of `getaddrinfo`: what `socket` and `connect` answer for it
pub record Candidate : Type 0 where
  pub socket : Option ℕ
  pub connects : Bool

unfoldable pub try_candidates : List Candidate → Fds → Option ℕ × Fds
try_candidates [] s = (none, s)
try_candidates (c ∷ cs) s =
    let skipped = try_candidates cs s in
    elim c.socket [
      | none ↦ skipped
      | some fd ↦
          let later = try_candidates cs (close_socket fd (opened fd s)) in
          if c.connects then (some fd, opened fd s) else later
    ]

-- `none` where `getaddrinfo` fails
unfoldable pub create_client_socket : Option (List Candidate) → Fds → Option ℕ × Fds
create_client_socket none s = (none, s)
create_client_socket (some cs) s = try_candidates cs s

-- what `accept` answers, with the answers of `fcntl` for a new descriptor
pub data Accept : Type 0 where
  connection : ℕ → Option ℕ → Bool → Accept
  interrupted : Accept
  would_block : Accept
  failed : Accept

-- the descriptors, and those that were handed to a `handle_client`, the last one first
pub record Accepting : Type 0 where
  pub fds : Fds
  pub spawned : List ℕ

-- the loop over `accept` after one wake-up
unfoldable pub accept_all : List Accept → Accepting → Accepting
accept_all [] s = s
accept_all (interrupted ∷ answers) s = accept_all answers s
accept_all (would_block ∷ answers) s = s
accept_all (failed ∷ answers) s = s
accept_all (connection fd flags unblocks ∷ answers) s =
    let taken = opened fd s.fds in
    accept_all answers (
      if set_non_blocking flags unblocks
      then record { fds = taken; spawned = fd ∷ s.spawned }
      else record s { fds = close_socket fd taken })

-- `accept_loop`: one list of answers for each wake-up by the event loop
unfoldable pub accept_loop : List (List Accept) → Accepting → Accepting
accept_loop [] s = s
accept_loop (answers ∷ wakes) s = accept_loop wakes (accept_all answers s)
