-- ===== src/EventLoop/Frames/Owners.antt =====
-- Every frame has one owner.
use cs2640_final_project.Prelude.{
  ℕ, zero, suc, ◌+◌, ◌<◌, ◌≡◌, refl, ap, true, false, Option, none, some, List, [], ◌∷◌, ◌++◌,
  arith, ◌==◌, nat_eq, length, get_or, get_or-set_ne, set as list_set, Bool-cases, inl, inr,
}
use cs2640_final_project.Assoc.{to_nat}
use cs2640_final_project.EventLoop.{Handle}
use cs2640_final_project.EventLoop.Conserve.{count, count-append}
use cs2640_final_project.EventLoop.Frames.{
  Frames, held_by, destroy_held, hold, contains_handle, remove_handle, TaskCall, construct,
  move_construct, move_assign, destruct, start, finish, start_held, IsAllowed, call_task,
  call_tasks, AllAllowed,
}

abbrev pub holds : Handle → Option Handle → ℕ
holds h none = 0
holds h (some x) = to_nat (x == h)

abbrev pub held : Handle → List (Option Handle) → ℕ
held h [] = 0
held h (o ∷ os) = holds h o + held h os

-- how many Task objects hold the frame, how often the loop has it, and how often it was destroyed
abbrev pub owners : Handle → Frames → ℕ
owners h s = held h s.objects + count h s.in_loop + count h s.destroyed

held-append :
    (h : Handle) (os ps : List (Option Handle)) → held h (os ++ ps) ≡ held h os + held h ps
held-append h [] ps = omega arith
held-append h (o ∷ os) ps = omega (arith, held-append h os ps)

held-set :
    (h : Handle) (os : List (Option Handle)) (i : ℕ) (o : Option Handle)
    → i < length os
    → held h (list_set os i o) + holds h (get_or os i none) ≡ held h os + holds h o
held-set h [] i o a = absurd (omega (arith, a))
held-set h (p ∷ os) zero o a = omega arith
held-set h (p ∷ os) (suc i) o a = omega (arith, held-set h os i o (omega (arith, a)))

-- emptying an object, which may be none of the list
held-empty :
    (h : Handle) (os : List (Option Handle)) (i : ℕ)
    → held h (list_set os i none) + holds h (get_or os i none) ≡ held h os
held-empty h [] i = omega arith
held-empty h (p ∷ os) zero = omega arith
held-empty h (p ∷ os) (suc i) = omega (arith, held-empty h os i)

get-set_other :
    (os : List (Option Handle)) (i j : ℕ) (o : Option Handle)
    → (i == j) ≡ false
    → get_or (list_set os i o) j none ≡ get_or os j none
get-set_other os i j o n = get_or-set_ne os i j o none (λ e. ground (arith, n, e))

remove-count :
    (h x : Handle) (xs : List Handle)
    → contains_handle x xs ≡ true
    → count h (remove_handle x xs) + holds h (some x) ≡ count h xs
remove-count h x [] e = cc
remove-count h x (y ∷ ys) e = elim (Bool-cases (y == x)) [
  | inl same ↦ rw same (ground (arith, same))
  | inr other ↦ rw other (omega (arith, remove-count h x ys (rw other at e)))
]

-- what a call makes a frame of
abbrev pub constructed : Handle → TaskCall → ℕ
constructed h (construct x) = to_nat (x == h)
constructed h c = 0

destruct-owners :
    (h : Handle) (s : Frames) (i : ℕ) (o : Option Handle)
    → held_by s i ≡ o
    → owners h (hold i none (destroy_held o s)) ≡ owners h s
unfolding destroy_held
destruct-owners h s i none e = omega (arith, held-empty h s.objects i, ap (holds h) e)
destruct-owners h s i (some x) e = omega (arith, held-empty h s.objects i, ap (holds h) e)

assign-owners :
    (h : Handle) (s : Frames) (i j : ℕ) (o : Option Handle)
    → held_by s i ≡ o
    → (i == j) ≡ false
    → i < length s.objects
    → owners h (hold j none (hold i (held_by s j) (destroy_held o s))) ≡ owners h s
unfolding destroy_held
assign-owners h s i j none e n a =
    let moved = held-set h s.objects i (held_by s j) a in
    let emptied = held-empty h (list_set s.objects i (held_by s j)) j in
    let source = ap (holds h) (get-set_other s.objects i j (held_by s j) n) in
    omega (arith, moved, emptied, source, ap (holds h) e)
assign-owners h s i j (some x) e n a =
    let moved = held-set h s.objects i (held_by s j) a in
    let emptied = held-empty h (list_set s.objects i (held_by s j)) j in
    let source = ap (holds h) (get-set_other s.objects i j (held_by s j) n) in
    omega (arith, moved, emptied, source, ap (holds h) e)

finish-owners :
    (h x : Handle) (s : Frames)
    → contains_handle x s.in_loop ≡ true
    → owners h (destroy_held (some x) (record s { in_loop = remove_handle x s.in_loop }))
      ≡ owners h s
unfolding destroy_held
finish-owners h x s e = omega (arith, remove-count h x s.in_loop e)

start-owners :
    (h : Handle) (i : ℕ) (o : Option Handle) (s : Frames)
    → held_by s i ≡ o
    → owners h (start_held i o s) ≡ owners h s
unfolding start_held
start-owners h i none s e = refl
start-owners h i (some x) s e =
    let emptied = held-empty h s.objects i in
    let added = count-append h s.in_loop (x ∷ []) in
    let same = ap (holds h) e in omega (arith, emptied, added, same)

call_task-owners :
    (h : Handle) (c : TaskCall) (s : Frames)
    → IsAllowed c s
    → owners h (call_task c s) ≡ owners h s + constructed h c
unfolding call_task
call_task-owners h (construct x) s allowed = omega (arith, held-append h s.objects (some x ∷ []))
call_task-owners h (move_construct i) s allowed =
    omega (
      arith,
      held-append h (list_set s.objects i none) (held_by s i ∷ []),
      held-empty h s.objects i,
    )
call_task-owners h (move_assign i j) s (exists, _) = elim (Bool-cases (i == j)) [
  | inl e ↦ rw e (omega arith)
  | inr e ↦ rw e (omega (arith, assign-owners h s i j (held_by s i) refl e exists))
]
call_task-owners h (destruct i) s allowed = omega (arith, destruct-owners h s i (held_by s i) refl)
call_task-owners h (start i) s allowed = omega (arith, start-owners h i (held_by s i) s refl)
call_task-owners h (finish x) s allowed = omega (arith, finish-owners h x s allowed)

-- how often the calls make the frame
abbrev pub all_constructed : Handle → List TaskCall → ℕ
all_constructed h [] = 0
all_constructed h (c ∷ cs) = constructed h c + all_constructed h cs

-- Over any calls of constructors, assignments, destructors, `start` and the ends of coroutines, on Task
-- objects that exist and where a coroutine ends only while the loop has it: as often as a frame was made,
-- so often it is held by a Task object, owned by the loop, or destroyed, taken together. So, from a
-- start without it, a frame that is made once has one owner until it is destroyed, and none after that, and
-- is never destroyed twice.
pub call_tasks-owners :
    (h : Handle) (cs : List TaskCall) (s : Frames)
    → AllAllowed cs s
    → owners h (call_tasks cs s) ≡ owners h s + all_constructed h cs
unfolding call_tasks
call_tasks-owners h [] s allowed = omega arith
call_tasks-owners h (c ∷ cs) s (first, others) =
    omega (arith, call_tasks-owners h cs (call_task c s) others, call_task-owners h c s first)
