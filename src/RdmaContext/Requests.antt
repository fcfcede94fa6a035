-- ===== src/RdmaContext/Requests.antt =====
-- The work requests of src/net/rdma_context.cpp, and the registration of memory. `ibv_post_send`,
-- which says whether it returns 0, and the keys that `ibv_reg_mr` hands out are parameters. A pointer
-- is the address that it holds.
use cs2640_final_project.Prelude.{
  ℕ, ◌≤◌, arith, Bool, Option, none, some, List, ltb, if◌then◌else◌, length, Bytes,
}
use cs2640_final_project.RdmaContext.{msg_size}

pub data Opcode : Type 0 where
  send rdma_read rdma_write atomic_fetch_and_add : Opcode

-- `ibv_sge`
pub record Sge : Type 0 where
  pub addr : ℕ
  pub length : ℕ
  pub lkey : ℕ

-- `ibv_send_wr`; what an opcode does not use is 0
pub record SendRequest : Type 0 where
  pub wr_id : ℕ
  pub sg : Sge
  pub opcode : Opcode
  pub remote_addr : ℕ
  pub rkey : ℕ
  pub compare_add : ℕ

-- `ibv_recv_wr`
pub record RecvRequest : Type 0 where
  pub wr_id : ℕ
  pub sg : Sge

abbrev pub sge : ℕ → ℕ → ℕ → Sge
sge addr len lkey = record { addr = addr; length = len; lkey = lkey }

-- `post_recv` and `post_send`, from the buffer and the key of its region
unfoldable pub receive_request : ℕ → ℕ → RecvRequest
receive_request recv_buf lkey = record { wr_id = 0; sg = sge recv_buf msg_size lkey }

unfoldable pub message_request : Bytes → ℕ → ℕ → SendRequest
message_request text send_buf lkey = record {
  wr_id = 1;
  sg = sge send_buf (if ltb (length text) msg_size then length text else msg_size) lkey;
  opcode = send;
  remote_addr = 0;
  rkey = 0;
  compare_add = 0;
}

module _ {W : Type 0} (ibv_post_send : W → SendRequest → Bool × W) where
  unfoldable pub post_rdma_read : ℕ → ℕ → ℕ → ℕ → ℕ → W → Bool × W
  post_rdma_read remote_addr remote_rkey local_dst len local_lkey w = ibv_post_send w record {
    wr_id = 2;
    sg = sge local_dst len local_lkey;
    opcode = rdma_read;
    remote_addr = remote_addr;
    rkey = remote_rkey;
    compare_add = 0;
  }

  unfoldable pub post_rdma_write : ℕ → ℕ → ℕ → ℕ → ℕ → W → Bool × W
  post_rdma_write remote_addr remote_rkey local_src len local_lkey w = ibv_post_send w record {
    wr_id = 4;
    sg = sge local_src len local_lkey;
    opcode = rdma_write;
    remote_addr = remote_addr;
    rkey = remote_rkey;
    compare_add = 0;
  }

  unfoldable pub post_fetch_and_add : ℕ → ℕ → ℕ → ℕ → ℕ → W → Bool × W
  post_fetch_and_add remote_addr remote_rkey local_dst add_val local_lkey w =
      ibv_post_send w record {
        wr_id = 3;
        sg = sge local_dst 8 local_lkey;
        opcode = atomic_fetch_and_add;
        remote_addr = remote_addr;
        rkey = remote_rkey;
        compare_add = add_val;
      }

-- the access flags of a registration
pub data Access : Type 0 where
  local_write remote_read remote_write remote_atomic : Access

-- `ibv_mr`
pub record Region : Type 0 where
  pub addr : ℕ
  pub length : ℕ
  pub flags : List Access
  pub lkey : ℕ
  pub rkey : ℕ

-- `reg_mr`; `keys` are the two keys, or `none` where `ibv_reg_mr` returns null
unfoldable pub reg_mr : Option (ℕ × ℕ) → ℕ → ℕ → List Access → Option Region
reg_mr none buf len flags = none
reg_mr (some (lkey, rkey)) buf len flags =
    some record { addr = buf; length = len; flags = flags; lkey = lkey; rkey = rkey }

-- the members `exported_rkey_`, `exported_addr_` and `exported_num_slots_`
pub record Exported : Type 0 where
  pub rkey : ℕ
  pub addr : ℕ
  pub num_slots : ℕ

unfoldable pub set_exported_region : Region → ℕ → Exported → Exported
set_exported_region mr num_slots e = record {
  rkey = mr.rkey;
  addr = mr.addr;
  num_slots = num_slots;
}

-- What `post_send` sends fits in the buffer that the peer's `post_recv` posts.
pub message_request-Fits :
    (text : Bytes) (send_buf lkey recv_buf lkey' : ℕ)
    → (message_request text send_buf lkey).sg.length ≤ (receive_request recv_buf lkey').sg.length
unfolding message_request receive_request
message_request-Fits text send_buf lkey recv_buf lkey' = ground arith
