-- ===== src/OneSided/Regions.antt =====
-- The memory that a one-sided session registers, on the server and in src/client/rdma_client.cpp, and
-- the requests that such a registration admits.
use cs2640_final_project.Prelude.{
  ℕ, ◌+◌, ◌%◌, ◌≤◌, ◌≡◌, ◌⊎◌, Bool, true, false, ◌||◌, Option, some, List, [], ◌∷◌,
}
use cs2640_final_project.RdmaContext.Requests.{
  Opcode, send, rdma_read, rdma_write, atomic_fetch_and_add, Sge, SendRequest, Access, local_write,
  remote_read, remote_write, remote_atomic, Region, reg_mr,
}
use cs2640_final_project.Handshake.{QpInfo}
use cs2640_final_project.Handshake.Region.{register_mr}
use cs2640_final_project.OneSided.{slot_size}
use cs2640_final_project.OneSided.Export.{Fitting}
use cs2640_final_project.OneSided.Card.{Binding}

-- the registrations of `local_slot` and `atomic_result`
unfoldable pub slot_region : Option (ℕ × ℕ) → ℕ → Option Region
unfolding reg_mr
slot_region keys slot = reg_mr keys slot slot_size (local_write ∷ remote_write ∷ [])

unfoldable pub atomic_region : Option (ℕ × ℕ) → ℕ → Option Region
unfolding reg_mr
atomic_region keys atomic = reg_mr keys atomic 8 (local_write ∷ [])

-- what the client passes: the server's key, and its own two buffers
abbrev pub binding : QpInfo → Region → Region → Binding
binding info slot_mr atomic_mr = record {
  rkey = info.rkey;
  slot = slot_mr.addr;
  slot_lkey = slot_mr.lkey;
  atomic = atomic_mr.addr;
  atomic_lkey = atomic_mr.lkey;
}

abbrev same_access : Access → Access → Bool
same_access local_write local_write = true
same_access remote_read remote_read = true
same_access remote_write remote_write = true
same_access remote_atomic remote_atomic = true
same_access a b = false

abbrev pub grants : List Access → Access → Bool
unfolding same_access
grants [] a = false
grants (f ∷ fs) a = same_access f a || grants fs a

-- what the server's registration must allow
abbrev pub allows : Opcode → List Access → Bool
unfolding grants
allows send flags = false
allows rdma_read flags = grants flags remote_read
allows rdma_write flags = grants flags remote_write
allows atomic_fetch_and_add flags = grants flags remote_atomic

abbrev pub is_atomic : Opcode → Bool
is_atomic atomic_fetch_and_add = true
is_atomic o = false

-- `len` bytes from `a` on lie in the region
abbrev pub Covers : Region → ℕ → ℕ → Type 0
Covers m a len = (m.addr ≤ a) × (a + len ≤ m.addr + m.length)

-- the local buffer of a request
abbrev pub Backed : Region → Sge → Type 0
Backed m s = (s.lkey ≡ m.lkey) × Covers m s.addr s.length × (grants m.flags local_write ≡ true)

-- A one-sided request that the cards of both sides must accept: the server's key, an address range and an
-- access that its registration of `table` allows, the alignment of an atomic, and a local buffer that is
-- registered under the local key.
pub record IsLegal (table slot_mr atomic_mr : Region) (r : SendRequest) : Type 0 where
  pub keyed : r.rkey ≡ table.rkey
  pub within : Covers table r.remote_addr r.sg.length
  pub allowed : allows r.opcode table.flags ≡ true
  pub aligned : is_atomic r.opcode ≡ true → r.remote_addr % 8 ≡ 0
  pub backed : Backed slot_mr r.sg ⊎ Backed atomic_mr r.sg

-- `alignas(1024)` and a place in the address space
pub record IsPlaced (slots : ℕ) : Type 0 where
  pub aligned : slots % 1024 ≡ 0
  pub fits : Fitting slots

-- the three registrations succeed
pub record Registered (slots slot atomic : ℕ) (table slot_mr atomic_mr : Region) : Type 0 where
  pub table_keys : Option (ℕ × ℕ)
  pub slot_keys : Option (ℕ × ℕ)
  pub atomic_keys : Option (ℕ × ℕ)
  pub exported : register_mr table_keys slots ≡ some table
  pub slot_done : slot_region slot_keys slot ≡ some slot_mr
  pub atomic_done : atomic_region atomic_keys atomic ≡ some atomic_mr
