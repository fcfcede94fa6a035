-- ===== src/EventLoop/Conserve.antt =====
-- A round of `run` loses no coroutine and resumes none twice, and asks `poll` about every waiter.
use cs2640_final_project.Prelude.{
  ℕ, ◌+◌, ◌≡◌, refl, ◌∙◌, Bool, true, false, ◌||◌, Option, none, some, List, [], ◌∷◌, ◌++◌, arith,
  ◌==◌, ==_iff, nat_eq, if◌then◌else◌, Option-cases, inl, inr,
}
use cs2640_final_project.Assoc.{
  Assoc, is_some, to_nat, lookup, without, IsMap, without-IsMap, without_absent,
}
use cs2640_final_project.EventLoop.{
  EventLoop, Handle, PollFd, Revents, Woken, is_readable, is_writable, wake_reader, wake_writer,
  wake_fd, wake_all, read_fds, write_fds, poll_fds, with_revents, dispatch,
}

abbrev pub count : Handle → List Handle → ℕ
count h [] = 0
count h (x ∷ xs) = to_nat (x == h) + count h xs

abbrev pub count_waiting : Handle → Assoc ℕ Handle → ℕ
count_waiting h [] = 0
count_waiting h ((fd, x) ∷ m) = to_nat (x == h) + count_waiting h m

pub count-append : (h : Handle) (xs ys : List Handle) → count h (xs ++ ys) ≡ count h xs + count h ys
count-append h [] ys = omega arith
count-append h (x ∷ xs) ys = omega (arith, count-append h xs ys)

count-without :
    (h : Handle) (fd : ℕ) (m : Assoc ℕ Handle) (x : Handle)
    → IsMap m
    → lookup fd m ≡ some x
    → count_waiting h (without fd m) + to_nat (x == h) ≡ count_waiting h m
unfolding lookup without
count-without h fd [] x u e = cc
count-without h fd ((d, y) ∷ m) x u e =
    ground (arith, count-without h fd m x, without_absent fd m, ==_iff d fd)

-- how often the handle is scheduled or waits
abbrev pub total : Handle → Woken → ℕ
total h w = count h w.handles + count_waiting h w.readers + count_waiting h w.writers

abbrev pub AreMaps : Woken → Type 0
AreMaps w = IsMap w.readers × IsMap w.writers

wake_reader-total :
    (h : Handle) (fd : ℕ) (w : Woken) → AreMaps w → total h (wake_reader fd w) ≡ total h w
unfolding wake_reader
wake_reader-total h fd w u = elim (Option-cases (lookup fd w.readers)) [
  | inl e ↦ rw (e, wake_reader)
  | inr (x, e) ↦
      rw (e, wake_reader)
        (omega (arith, count-append h w.handles (x ∷ []), count-without h fd w.readers x u.0 e))
]

wake_writer-total :
    (h : Handle) (fd : ℕ) (w : Woken) → AreMaps w → total h (wake_writer fd w) ≡ total h w
unfolding wake_writer
wake_writer-total h fd w u = elim (Option-cases (lookup fd w.writers)) [
  | inl e ↦ rw (e, wake_writer)
  | inr (x, e) ↦
      rw (e, wake_writer)
        (omega (arith, count-append h w.handles (x ∷ []), count-without h fd w.writers x u.1 e))
]

wake_reader-AreMaps : (fd : ℕ) (w : Woken) → AreMaps w → AreMaps (wake_reader fd w)
unfolding wake_reader
wake_reader-AreMaps fd w u = elim (Option-cases (lookup fd w.readers)) [
  | inl e ↦ rw (e, wake_reader) u
  | inr (x, e) ↦ rw (e, wake_reader) (without-IsMap fd w.readers u.0, u.1)
]

wake_writer-AreMaps : (fd : ℕ) (w : Woken) → AreMaps w → AreMaps (wake_writer fd w)
unfolding wake_writer
wake_writer-AreMaps fd w u = elim (Option-cases (lookup fd w.writers)) [
  | inl e ↦ rw (e, wake_writer) u
  | inr (x, e) ↦ rw (e, wake_writer) (u.0, without-IsMap fd w.writers u.1)
]

wake_fd_keeps :
    (h : Handle) (fd : ℕ) (r : Revents) (w : Woken)
    → AreMaps w
    → (total h (wake_fd fd r w) ≡ total h w) × AreMaps (wake_fd fd r w)
unfolding wake_fd
wake_fd_keeps h fd r w u = go (is_readable r) (is_writable r)
  where
    second :
        (v : Woken) (b : Bool)
        → AreMaps v
        → (total h (if b then wake_writer fd v else v) ≡ total h v)
          × AreMaps (if b then wake_writer fd v else v)
    second v true m = (wake_writer-total h fd v m, wake_writer-AreMaps fd v m)
    second v false m = (refl, m)

    go :
        (a b : Bool)
        → let v = if a then wake_reader fd w else w in
          (total h (if b then wake_writer fd v else v) ≡ total h w)
          × AreMaps (if b then wake_writer fd v else v)
    go true b =
        let (e, m) = second (wake_reader fd w) b (wake_reader-AreMaps fd w u) in
        (e ∙ wake_reader-total h fd w u, m)
    go false b = second w b u

wake_all_keeps :
    (h : Handle) (reports : List (ℕ × Revents)) (w : Woken)
    → AreMaps w
    → (total h (wake_all reports w) ≡ total h w) × AreMaps (wake_all reports w)
unfolding wake_all
wake_all_keeps h [] w u = (refl, u)
wake_all_keeps h ((fd, r) ∷ rest) w u =
    let (e, m) = wake_fd_keeps h fd r w u in
    let (f, n) = wake_all_keeps h rest (wake_fd fd r w) m in (f ∙ e, n)

-- how often a coroutine is ready or waits
abbrev pub pending : Handle → EventLoop → ℕ
pending h l = count h l.ready + count_waiting h l.read_waiters + count_waiting h l.write_waiters

abbrev pub IsLoop : EventLoop → Type 0
IsLoop l = IsMap l.read_waiters × IsMap l.write_waiters

-- Whatever `poll` answers, if no descriptor has two waiters of a kind, a round moves coroutines from the waiters to the ready queue and no more:
-- each one is ready or waiting as often as before, and no descriptor gets two waiters of a kind.
pub dispatch_conserves :
    (rs : List Revents) (l : EventLoop) (h : Handle)
    → IsLoop l
    → (pending h (dispatch rs l) ≡ pending h l) × IsLoop (dispatch rs l)
unfolding dispatch
dispatch_conserves rs l h u =
    let (e, m) =
      wake_all_keeps h (with_revents (poll_fds l) rs)
        (record { handles = []; readers = l.read_waiters; writers = l.write_waiters }) u in
    (omega (arith, count-append h l.ready, e), m)

-- the first `pollfd` of a descriptor, as the events that it asks for
abbrev pub asked : ℕ → List PollFd → Option (Bool × Bool)
asked fd [] = none
asked fd (p ∷ ps) = if p.fd == fd then some (p.wants_read, p.wants_write) else asked fd ps

asked-append :
    (fd : ℕ) (ps qs : List PollFd)
    → asked fd (ps ++ qs) ≡ elim (asked fd ps) [ none ↦ asked fd qs | some a ↦ some a ]
asked-append fd [] qs = refl
asked-append fd (p ∷ ps) qs = ground (arith, asked-append fd ps qs)

asked-read_fds :
    (fd : ℕ) (m writers : Assoc ℕ Handle)
    → asked fd (read_fds m writers)
      ≡ (if is_some (lookup fd m) then some (true, is_some (lookup fd writers)) else none)
unfolding read_fds lookup
asked-read_fds fd [] writers = refl
asked-read_fds fd ((d, h) ∷ m) writers = ground (arith, asked-read_fds fd m writers, ==_iff d fd)

asked-write_fds :
    (fd : ℕ) (readers m : Assoc ℕ Handle)
    → lookup fd readers ≡ none
    → asked fd (write_fds readers m) ≡ (if is_some (lookup fd m) then some (false, true) else none)
unfolding write_fds lookup
asked-write_fds fd readers [] e = refl
asked-write_fds fd readers ((d, h) ∷ m) e =
    ground (arith, asked-write_fds fd readers m, ==_iff d fd)

-- `poll` is asked about a descriptor exactly when a coroutine waits on it, and for the events that
-- are waited for.
pub asked-poll_fds :
    (l : EventLoop) (fd : ℕ)
    → let reader = is_some (lookup fd l.read_waiters) in
      let writer = is_some (lookup fd l.write_waiters) in
      asked fd (poll_fds l) ≡ (if reader || writer then some (reader, writer) else none)
unfolding poll_fds
asked-poll_fds l fd =
    asked-append fd (read_fds l.read_waiters l.write_waiters)
      (write_fds l.read_waiters l.write_waiters)
    ∙ ground (
      arith,
      asked-read_fds fd l.read_waiters l.write_waiters,
      asked-write_fds fd l.read_waiters l.write_waiters,
    )
