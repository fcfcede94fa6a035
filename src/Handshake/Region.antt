-- ===== src/Handshake/Region.antt =====
-- What `handle_one_sided_client` of src/server/rdma_main.cpp tells its client: the table registered by
-- `RdmaStore::register_mr`, as `local_info` of src/net/rdma_context.cpp reports it.
use cs2640_final_project.Prelude.{ℕ, ◌*◌, Option, [], ◌∷◌, Bytes}
use cs2640_final_project.RdmaStore.{num_slots}
use cs2640_final_project.OneSided.{slot_size}
use cs2640_final_project.RdmaContext.Requests.{
  local_write, remote_read, remote_write, remote_atomic, Region, reg_mr, Exported,
  set_exported_region,
}
use cs2640_final_project.Handshake.{QpInfo}

-- `region_size`
abbrev pub region_size : ℕ
region_size = num_slots * slot_size

-- `register_mr` of the table whose array stands at `slots`
unfoldable pub register_mr : Option (ℕ × ℕ) → ℕ → Option Region
unfolding reg_mr
register_mr keys slots =
    reg_mr keys slots region_size (local_write ∷ remote_read ∷ remote_write ∷ remote_atomic ∷ [])

-- what the queue pair and the port of the card say
pub record Port : Type 0 where
  pub qp_num : ℕ
  pub lid : ℕ
  pub gid : Bytes

-- the members of a new context
abbrev pub not_exported : Exported
not_exported = record { rkey = 0; addr = 0; num_slots = 0 }

unfoldable pub local_info : Port → Exported → QpInfo
local_info port e = record {
  qp_num = port.qp_num;
  lid = port.lid;
  gid = port.gid;
  rkey = e.rkey;
  addr = e.addr;
  num_slots = e.num_slots;
}

-- the QpInfo that the handler sends
unfoldable pub exported_info : Port → Region → QpInfo
unfolding local_info set_exported_region
exported_info port mr = local_info port (set_exported_region mr num_slots not_exported)
