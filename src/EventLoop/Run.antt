-- ===== src/EventLoop/Run.antt =====
-- How `run` ends, and what a second awaiter on one descriptor does.
use cs2640_final_project.Prelude.{
  ℕ, zero, suc, ◌+◌, ◌≡◌, ◌≢◌, refl, ap, true, false, some, List, [], ◌∷◌, arith, ◌==◌, ==_iff,
  nat_eq, List-cases, Option-cases, Bool-cases, inl, inr,
}
use cs2640_final_project.Assoc.{Assoc, to_nat, lookup, insert}
use cs2640_final_project.EventLoop.{
  EventLoop, Handle, Tasks, act_all, drain, run, no_waiter, PollResult, interrupted, failed,
  answered, Exit, no_waiters, poll_failed, wait_read, dispatch,
}
use cs2640_final_project.EventLoop.Conserve.{count_waiting, pending}

module _ (t : Tasks) where
  -- The inner loop leaves nothing ready.
  drain-ready :
      (fuel : ℕ) (fs gs : t.Frames) (l m : EventLoop)
      → drain t fuel fs l ≡ some (gs, m)
      → m.ready ≡ []
  unfolding drain
  drain-ready zero fs gs l m e = cc
  drain-ready (suc fuel) fs gs l m e = elim (List-cases l.ready) [
    | inl q ↦ let e' = rw (q, drain) at e in ground (arith, e', q)
    | inr (h, rest, q) ↦
        let popped : EventLoop = record l { ready = rest } in
        let (fs', actions) = t.resume fs h in
        elim (Bool-cases (t.done fs h)) [
          | inl d ↦ drain-ready fuel fs gs popped m (rw (q, drain, d) at e)
          | inr d ↦ drain-ready fuel fs' gs (act_all actions popped) m (rw (q, drain, d) at e)
        ]
  ]

  -- nothing is left to do
  abbrev pub IsOver : EventLoop → Type 0
  IsOver m = (m.ready ≡ []) × (m.read_waiters ≡ []) × (m.write_waiters ≡ []) × (m.stopping ≡ false)

  no_waiter-empty :
      (m : EventLoop) → no_waiter t m ≡ true → (m.read_waiters ≡ []) × (m.write_waiters ≡ [])
  no_waiter-empty m e = go m.read_waiters m.write_waiters refl refl e
    where
      go :
          (a b : Assoc ℕ Handle)
          → m.read_waiters ≡ a
          → m.write_waiters ≡ b
          → (elim a [ [] ↦ elim b [ [] ↦ true | e ∷ c ↦ false ] | e ∷ c ↦ false ]) ≡ true
          → (m.read_waiters ≡ []) × (m.write_waiters ≡ [])
      go [] [] p q h = (p, q)
      go [] (x ∷ b) p q h = cc
      go (x ∷ a) b p q h = cc

  after_poll :
      (fuel : ℕ) (p : PollResult) (ps : List PollResult) (fs gs : t.Frames) (n m : EventLoop)
      → ((x : EventLoop) → run t fuel ps fs x ≡ (no_waiters, gs, m) → IsOver m)
      → (elim p [
        | interrupted ↦ run t fuel ps fs n
        | failed ↦ (poll_failed, fs, n)
        | answered rs ↦ run t fuel ps fs (dispatch rs n)
      ])
        ≡ (no_waiters, gs, m)
      → IsOver m
  after_poll fuel interrupted ps fs gs n m rec e = rec n e
  after_poll fuel failed ps fs gs n m rec e = cc
  after_poll fuel (answered rs) ps fs gs n m rec e = rec (dispatch rs n) e

  -- Whatever the coroutines do and `poll` answers, `run` leaves its loop for want of work only when nothing is ready, no coroutine waits on any
  -- descriptor, and no coroutine has asked it to stop.
  pub run-no_waiters :
      (fuel : ℕ) (ps : List PollResult) (fs gs : t.Frames) (l m : EventLoop)
      → run t fuel ps fs l ≡ (no_waiters, gs, m)
      → IsOver m
  unfolding run
  run-no_waiters fuel [] fs gs l m e = ground arith
  run-no_waiters fuel (p ∷ ps) fs gs l m e = elim (Bool-cases l.stopping) [
    | inl s ↦ let e' = simp (s, run) at e in cc
    | inr s ↦ elim (Option-cases (drain t fuel fs l)) [
      | inl d ↦ let e' = simp (s, run, d) at e in cc
      | inr ((fs', n), d) ↦ elim (Bool-cases n.stopping) [
        | inl q ↦ let e' = simp (s, run, d, q) at e in cc
        | inr q ↦ elim (Bool-cases (no_waiter t n)) [
          | inl w ↦
              let e' = simp (s, run, d, q, w) at e in
              let same : n ≡ m = ap (λ (x : Exit × t.Frames × EventLoop). x.2) e' in
              let (readers, writers) = no_waiter-empty n w in
              rw (← same) (drain-ready fuel fs fs' l n d, readers, writers, q)
          | inr w ↦
              after_poll fuel p ps fs' gs n m (λ x. run-no_waiters fuel ps fs' gs x m)
                (simp (s, run, d, q, w) at e)
        ]
      ]
    ]
  ]

count-insert :
    (h fd x old : ℕ) (m : Assoc ℕ Handle)
    → lookup fd m ≡ some old
    → count_waiting h (insert fd x m) + to_nat (old == h) ≡ count_waiting h m + to_nat (x == h)
unfolding lookup insert
count-insert h fd x old [] e = cc
count-insert h fd x old ((d, y) ∷ m) e = ground (arith, count-insert h fd x old m)

-- A second coroutine that awaits readability of a descriptor takes the place of the first, which is
-- then neither ready nor waiting: it is pending once less, and so is lost where it was pending once.
pub wait_read_replaces :
    (fd : ℕ) (h old : Handle) (l : EventLoop)
    → lookup fd l.read_waiters ≡ some old
    → h ≢ old
    → pending old (wait_read fd h l) + 1 ≡ pending old l
unfolding wait_read
wait_read_replaces fd h old l e n =
    ground (arith, count-insert old fd h old l.read_waiters, ==_iff h old, ==_iff old old)
