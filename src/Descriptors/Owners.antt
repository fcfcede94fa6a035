-- ===== src/Descriptors/Owners.antt =====
-- Who owns the descriptors that are open.
use cs2640_final_project.Prelude.{
  ℕ, ◌≡◌, refl, ap, ◌∙◌, Bool, true, false, ◌&&◌, Option, none, some, List, [], ◌∷◌, ◌++◌,
  append_assoc, arith, ==_refl, nat_eq, if◌then◌else◌, Bool-cases, Option-cases, inl, inr,
}
use cs2640_final_project.Descriptors.{
  Fds, opened, close_socket, set_non_blocking, Listening, from_socket, prepare_server_socket,
  prepare_tcp_listener, create_server_socket, make_tcp_listener, Candidate, try_candidates,
  create_client_socket, Accept, connection, interrupted, would_block, failed, Accepting, accept_all,
  accept_loop,
}

-- A descriptor that is returned is open besides those that were, and where none is returned all is as before.
abbrev pub Owned : Fds → Option ℕ × Fds → Type 0
Owned s (none, t) = t ≡ s
Owned s (some fd, t) = t ≡ opened fd s

close-opened : (fd : ℕ) (s : Fds) → close_socket fd (opened fd s) ≡ s
unfolding close_socket
close-opened fd s =
    rw (==_refl fd) (ap (λ b. record { open_fds = s.open_fds; sound = b }) (and-true s.sound))
  where
    and-true : (b : Bool) → (b && true) ≡ b
    and-true true = refl
    and-true false = refl

from_socket-Owned :
    (next : ℕ → Fds → Option ℕ × Fds) (o : Option ℕ) (s : Fds)
    → ((fd : ℕ) → Owned s (next fd (opened fd s)))
    → Owned s (from_socket next o s)
unfolding from_socket
from_socket-Owned next none s h = refl
from_socket-Owned next (some fd) s h = h fd

prepared-Owned :
    (a : Listening) (fd : ℕ) (s : Fds) → Owned s (prepare_server_socket a fd (opened fd s))
unfolding prepare_server_socket
prepared-Owned a fd s = ground (arith, close-opened fd s)

create_server_socket-Owned : (a : Listening) (s : Fds) → Owned s (create_server_socket a s)
unfolding create_server_socket
create_server_socket-Owned a s =
    from_socket-Owned (prepare_server_socket a) a.socket s (λ fd. prepared-Owned a fd s)

make_tcp_listener-Owned : (a : Listening) (s : Fds) → Owned s (make_tcp_listener a s)
unfolding make_tcp_listener
make_tcp_listener-Owned a s =
    from_socket-Owned (prepare_tcp_listener a) a.socket s
      (λ fd. unfold prepare_tcp_listener in ground (arith, close-opened fd s))

try_candidates-Owned : (cs : List Candidate) (s : Fds) → Owned s (try_candidates cs s)
unfolding try_candidates
try_candidates-Owned [] s = refl
try_candidates-Owned (c ∷ cs) s =
    let later = try_candidates-Owned cs s in
    elim (Option-cases c.socket) [
      | inl e ↦ simp e later
      | inr (fd, e) ↦
          simp (e, close-opened fd s)
            (elim (Bool-cases c.connects) [ inl b ↦ rw b refl | inr b ↦ rw b later ])
    ]

-- The three functions that make a socket: where one returns a descriptor, that is open besides those
-- that were open before, and nothing else; where it returns -1, every socket that it made is closed; and
-- none is closed twice.
pub sockets-Owned :
    (a : Listening) (addresses : Option (List Candidate)) (s : Fds)
    → Owned s (create_server_socket a s)
      × Owned s (make_tcp_listener a s)
      × Owned s (create_client_socket addresses s)
unfolding create_client_socket
sockets-Owned a none s = (create_server_socket-Owned a s, make_tcp_listener-Owned a s, refl)
sockets-Owned a (some cs) s =
    (create_server_socket-Owned a s, make_tcp_listener-Owned a s, try_candidates-Owned cs s)

-- the connections that are answered for before `accept` has no more
abbrev pub served : List Accept → List ℕ
served [] = []
served (interrupted ∷ answers) = served answers
served (would_block ∷ answers) = []
served (failed ∷ answers) = []
served (connection fd flags unblocks ∷ answers) =
    if set_non_blocking flags unblocks then served answers ++ fd ∷ [] else served answers

abbrev pub served_all : List (List Accept) → List ℕ
served_all [] = []
served_all (answers ∷ wakes) = served_all wakes ++ served answers

-- so many connections more are owned by their coroutines
abbrev pub extended : List ℕ → Accepting → Accepting
extended fds s = record {
  fds = record s.fds { open_fds = fds ++ s.fds.open_fds };
  spawned = fds ++ s.spawned;
}

extended_twice :
    (new newer : List ℕ) (s : Accepting)
    → extended newer (extended new s) ≡ extended (newer ++ new) s
extended_twice new newer s =
    rw (append_assoc newer new s.fds.open_fds, append_assoc newer new s.spawned) refl

accept_all_lem :
    (answers : List Accept) (s : Accepting) → accept_all answers s ≡ extended (served answers) s
unfolding accept_all
accept_all_lem [] s = refl
accept_all_lem (interrupted ∷ answers) s = accept_all_lem answers s
accept_all_lem (would_block ∷ answers) s = refl
accept_all_lem (failed ∷ answers) s = refl
accept_all_lem (connection fd flags unblocks ∷ answers) s =
    elim (Bool-cases (set_non_blocking flags unblocks)) [
      | inl b ↦ rw b (
          accept_all_lem answers (record { fds = opened fd s.fds; spawned = fd ∷ s.spawned })
          ∙ extended_twice (fd ∷ []) (served answers) s)
      | inr b ↦ rw b (rw (close-opened fd s.fds) (accept_all_lem answers s))
    ]

-- Over any number of wake-ups and whatever `accept` and `fcntl` answer, the descriptors that
-- `accept_loop` leaves open are those that were open and those of the connections that were switched
-- to nonblocking mode, each of which was handed to one coroutine, in the same order; every other
-- connection is closed, and none is closed twice.
pub accept_loop-served :
    (wakes : List (List Accept)) (s : Accepting)
    → accept_loop wakes s ≡ extended (served_all wakes) s
unfolding accept_loop
accept_loop-served [] s = refl
accept_loop-served (answers ∷ wakes) s = rw (accept_all_lem answers s) (
    accept_loop-served wakes (extended (served answers) s)
    ∙ extended_twice (served answers) (served_all wakes) s)
