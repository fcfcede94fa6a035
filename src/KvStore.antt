-- ===== src/KvStore.antt =====
-- The store of the request and response modes: include/kvstore/kv_store.hpp and
-- src/kvstore/kv_store.cpp. Every method holds the mutex from its first statement to its end, so a
-- call is one step on the map. The proofs are in the module below.
pub mod Refine
use cs2640_final_project.Prelude.{
  ℕ, Bool, not, Option, none, some, List, [], ◌∷◌, length, ltb, nat_eq, list_eq, Bytes,
}
use cs2640_final_project.Assoc.{Assoc, is_some, to_nat, lookup, without, insert}

pub record KeyValueStore : Type 0 where
  pub entries : Assoc Bytes Bytes

abbrev pub new_store : KeyValueStore
new_store = record { entries = [] }

-- `insert_or_assign` says whether the key is new.
unfoldable pub set : KeyValueStore → Bytes → Bytes → Bool × KeyValueStore
set s k v = (not (is_some (lookup k s.entries)), record { entries = insert k v s.entries })

unfoldable pub get : KeyValueStore → Bytes → Option Bytes
get s k = lookup k s.entries

-- `unordered_map::erase` returns how many entries it removed, which is 0 or 1.
unfoldable pub erase : KeyValueStore → Bytes → Bool × KeyValueStore
erase s k =
    let removed = to_nat (is_some (lookup k s.entries)) in
    (ltb 0 removed, record { entries = without k s.entries })

unfoldable pub size : KeyValueStore → ℕ
size s = length s.entries

-- A client's call, what it gets back, and the calls of all threads in the order of the mutex.
pub data Call : Type 0 where
  set_call : Bytes → Bytes → Call
  get_call erase_call : Bytes → Call
  size_call : Call

pub data Reply : Type 0 where
  flag : Bool → Reply
  found : Option Bytes → Reply
  count : ℕ → Reply

unfoldable pub invoke : Call → KeyValueStore → Reply × KeyValueStore
invoke (set_call k v) s = let (r, t) = set s k v in (flag r, t)
invoke (get_call k) s = (found (get s k), s)
invoke (erase_call k) s = let (r, t) = erase s k in (flag r, t)
invoke size_call s = (count (size s), s)

unfoldable pub invoke_all : List Call → KeyValueStore → List Reply
invoke_all [] s = []
invoke_all (c ∷ cs) s = let (r, t) = invoke c s in r ∷ invoke_all cs t
