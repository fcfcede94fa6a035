-- ===== src/KvStore/Refine.antt =====
-- The store is a finite map: a function from keys to values, and the number of its keys.
use cs2640_final_project.Prelude.{
  ℕ, ◌+◌, ◌-◌, ◌≡◌, refl, not, Option, none, some, List, [], ◌∷◌, arith, ◌==◌, nat_eq, list_eq,
  if◌then◌else◌, length, Bytes,
}
use cs2640_final_project.Assoc.{
  is_some, lookup, IsMap, lookup-insert, lookup-without, insert-IsMap, without-IsMap, length-insert,
  length-without,
}
use cs2640_final_project.KvStore.{
  KeyValueStore, new_store, set, get, erase, size, Call, set_call, get_call, erase_call, size_call,
  Reply, flag, found, count, invoke, invoke_all,
}

-- The specification.
pub record FiniteMap : Type 0 where
  pub at : Bytes → Option Bytes
  pub keys : ℕ

abbrev pub empty_map : FiniteMap
empty_map = record { at = λ k. none; keys = 0 }

abbrev pub update : (Bytes → Option Bytes) → Bytes → Option Bytes → Bytes → Option Bytes
update f k v q = if k == q then v else f q

pub specify : Call → FiniteMap → Reply × FiniteMap
specify (set_call k v) m = (
  flag (not (is_some (m.at k))),
  record { at = update m.at k (some v); keys = (if is_some (m.at k) then m.keys else m.keys + 1) },
)
specify (get_call k) m = (found (m.at k), m)
specify (erase_call k) m = (
  flag (is_some (m.at k)),
  record { at = update m.at k none; keys = (if is_some (m.at k) then m.keys - 1 else m.keys) },
)
specify size_call m = (count m.keys, m)

pub specify_all : List Call → FiniteMap → List Reply
specify_all [] m = []
specify_all (c ∷ cs) m = let (r, n) = specify c m in r ∷ specify_all cs n

pub record Models (m : FiniteMap) (s : KeyValueStore) : Type 0 where
  pub is_map : IsMap s.entries
  pub at : (q : Bytes) → lookup q s.entries ≡ m.at q
  pub keys : length s.entries ≡ m.keys

empty-Models : Models empty_map new_store
unfolding lookup
empty-Models = record { is_map = tt; at = λ q. refl; keys = refl }

-- Each method answers as the finite map does, and keeps the correspondence.
pub invoke-Models :
    (c : Call) (m : FiniteMap) (s : KeyValueStore)
    → Models m s
    → ((invoke c s).0 ≡ (specify c m).0) × Models (specify c m).1 (invoke c s).1
unfolding invoke specify set get erase size
invoke-Models (set_call k v) m s h = (
  rw (h.at k),
  record {
    is_map = insert-IsMap k v s.entries h.is_map;
    at = λ q. rw (lookup-insert, h.at q);
    keys = rw (length-insert, h.at k, h.keys);
  },
)
invoke-Models (get_call k) m s h = (rw (h.at k), h)
invoke-Models (erase_call k) m s h = (
  ground (arith, h.at k),
  record {
    is_map = without-IsMap k s.entries h.is_map;
    at = λ q. rw (lookup-without, h.at q);
    keys = ground (arith, length-without k s.entries, h.at k, h.keys);
  },
)
invoke-Models size_call m s h = (rw h.keys, h)

-- The answers to a sequence of calls are those of the finite map that the store models.
pub invoke_all-specify_all :
    (cs : List Call) (m : FiniteMap) (s : KeyValueStore)
    → Models m s
    → invoke_all cs s ≡ specify_all cs m
unfolding invoke_all specify_all
invoke_all-specify_all [] m s h = refl
invoke_all-specify_all (c ∷ cs) m s h =
    let (e, n) = invoke-Models c m s h in rw (e, invoke_all-specify_all cs _ _ n)

-- Whatever calls the threads make, in whatever order the mutex admits them, the answers of a new store
-- are those of a finite map that starts empty.
pub invoke_all-new_store : (cs : List Call) → invoke_all cs new_store ≡ specify_all cs empty_map
invoke_all-new_store cs = invoke_all-specify_all cs empty_map new_store empty-Models
