-- ===== src/EventLoop/Wake.antt =====
-- Which waiters a round of `run` wakes.
use cs2640_final_project.Prelude.{
  ℕ, ◌≡◌, refl, Bool, false, ◌&&◌, ◌||◌, none, List, [], ◌∷◌, arith, ◌==◌, ==_iff, nat_eq,
  if◌then◌else◌,
}
use cs2640_final_project.Assoc.{lookup, lookup-without}
use cs2640_final_project.EventLoop.{Revents, Woken, is_readable, is_writable, wake_fd, wake_all}

-- some report says that `fd` is readable, or writable
abbrev pub any_report : (Revents → Bool) → ℕ → List (ℕ × Revents) → Bool
any_report test fd [] = false
any_report test fd ((d, r) ∷ rest) = (d == fd && test r) || any_report test fd rest

wake_fd-readers :
    (d fd : ℕ) (r : Revents) (w : Woken)
    → lookup fd (wake_fd d r w).readers
      ≡ (if d == fd && is_readable r then none else lookup fd w.readers)
unfolding wake_fd
wake_fd-readers d fd r w = ground (arith, lookup-without d fd w.readers, ==_iff d fd)

wake_fd-writers :
    (d fd : ℕ) (r : Revents) (w : Woken)
    → lookup fd (wake_fd d r w).writers
      ≡ (if d == fd && is_writable r then none else lookup fd w.writers)
unfolding wake_fd
wake_fd-writers d fd r w = ground (arith, lookup-without d fd w.writers, ==_iff d fd)

-- After the reports are inspected no reader waits on a descriptor that was reported readable, or
-- failing, and every other reader still waits; and so for the writers.
pub wake_all-waiters :
    (reports : List (ℕ × Revents)) (w : Woken) (fd : ℕ)
    → (lookup fd (wake_all reports w).readers
        ≡ (if any_report is_readable fd reports then none else lookup fd w.readers))
      × (lookup fd (wake_all reports w).writers
          ≡ (if any_report is_writable fd reports then none else lookup fd w.writers))
unfolding wake_all
wake_all-waiters [] w fd = (refl, refl)
wake_all-waiters ((d, r) ∷ rest) w fd =
    let (a, b) = wake_all-waiters rest (wake_fd d r w) fd in
    (ground (arith, a, wake_fd-readers d fd r w), ground (arith, b, wake_fd-writers d fd r w))
