-- ===== src/EventLoop/Frames.antt =====
-- Who destroys the frame of a coroutine: `EventLoop::Task` and `FinalAwaiter` of include/net/event_loop.hpp and
-- src/net/event_loop.cpp. A Task object is a place in a list; one that was destructed holds nothing.
pub mod Owners
use cs2640_final_project.Prelude.{
  ℕ, ◌<◌, ◌≡◌, Bool, true, false, ◌||◌, not, Option, none, some, List, [], ◌∷◌, ◌++◌, ◌==◌, nat_eq,
  ltb, length, get_or, set as list_set, if◌then◌else◌,
}
use cs2640_final_project.EventLoop.{Handle}

-- The Task objects, and two lists that only say what happened: the handles that `start` gave to the loop
-- and that have not ended, and the handles whose frame was destroyed.
pub record Frames : Type 0 where
  pub objects : List (Option Handle)
  pub in_loop : List Handle
  pub destroyed : List Handle

abbrev pub no_frames : Frames
no_frames = record { objects = []; in_loop = []; destroyed = [] }

abbrev pub held_by : Frames → ℕ → Option Handle
held_by s i = get_or s.objects i none

-- `if (handle_ != nullptr) handle_.destroy();`
unfoldable pub destroy_held : Option Handle → Frames → Frames
destroy_held none s = s
destroy_held (some h) s = record s { destroyed = h ∷ s.destroyed }

abbrev pub hold : ℕ → Option Handle → Frames → Frames
hold i o s = record s { objects = list_set s.objects i o }

abbrev pub contains_handle : Handle → List Handle → Bool
contains_handle h [] = false
contains_handle h (x ∷ xs) = if x == h then true else contains_handle h xs

abbrev pub remove_handle : Handle → List Handle → List Handle
remove_handle h [] = []
remove_handle h (x ∷ xs) = if x == h then xs else x ∷ remove_handle h xs

pub data TaskCall : Type 0 where
  construct : Handle → TaskCall
  move_construct : ℕ → TaskCall
  move_assign : ℕ → ℕ → TaskCall
  destruct : ℕ → TaskCall
  start : ℕ → TaskCall
  finish : Handle → TaskCall

unfoldable pub start_held : ℕ → Option Handle → Frames → Frames
start_held i none s = s
start_held i (some h) s = hold i none (record s { in_loop = s.in_loop ++ h ∷ [] })

-- What each call does. When a coroutine ends, its final awaiter destroys it through `complete`.
unfoldable pub call_task : TaskCall → Frames → Frames
call_task (construct h) s = record s { objects = s.objects ++ some h ∷ [] }
call_task (move_construct i) s = record s {
  objects = list_set s.objects i none ++ held_by s i ∷ [];
}
call_task (move_assign i j) s =
    if i == j then s else hold j none (hold i (held_by s j) (destroy_held (held_by s i) s))
call_task (destruct i) s = hold i none (destroy_held (held_by s i) s)
call_task (start i) s = start_held i (held_by s i) s
call_task (finish h) s = destroy_held (some h) (record s { in_loop = remove_handle h s.in_loop })

-- Which calls a program can make: on Task objects that it has, and a coroutine ends only while it runs,
-- which is what the loop does with a handle that was started and has not ended.
abbrev pub IsAllowed : TaskCall → Frames → Type 0
IsAllowed (construct h) s = Unit
IsAllowed (move_construct i) s = i < length s.objects
IsAllowed (move_assign i j) s = (i < length s.objects) × (j < length s.objects)
IsAllowed (destruct i) s = i < length s.objects
IsAllowed (start i) s = i < length s.objects
IsAllowed (finish h) s = contains_handle h s.in_loop ≡ true

unfoldable pub call_tasks : List TaskCall → Frames → Frames
call_tasks [] s = s
call_tasks (c ∷ cs) s = call_tasks cs (call_task c s)

-- each call is one that can be made then
abbrev pub AllAllowed : List TaskCall → Frames → Type 0
AllAllowed [] s = Unit
AllAllowed (c ∷ cs) s = IsAllowed c s × AllAllowed cs (call_task c s)
