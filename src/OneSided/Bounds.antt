-- ===== src/OneSided/Bounds.antt =====
-- Every work request of a one-sided client stays within what was registered: the table that the server
-- exports, and the two buffers of the client.
use cs2640_final_project.Prelude.{
  ℕ, ◌+◌, ◌*◌, ◌%◌, ◌^◌, ◌≤◌, ◌<◌, ◌≡◌, refl, ◌∙◌, inl, inr, Bool, true, false, Option, none, some,
  List, [], ◌∷◌, ◌++◌, arith, All, All-append, Bytes,
}
use cs2640_final_project.RdmaStore.{RdmaSlot, num_slots}
use cs2640_final_project.RdmaContext.Requests.{
  Opcode, rdma_read, rdma_write, atomic_fetch_and_add, SendRequest, Access, local_write,
  remote_read, remote_write, remote_atomic, Region, reg_mr, post_rdma_read, post_rdma_write,
  post_fetch_and_add,
}
use cs2640_final_project.Handshake.Region.{register_mr, Port, exported_info}
use cs2640_final_project.OneSided.{slot_size, slot_address, one_sided_get}
use cs2640_final_project.OneSided.Writer.{one_sided_set}
use cs2640_final_project.OneSided.Card.{
  Card, Binding, Traced, driver, card_read, card_write, card_add,
}
use cs2640_final_project.OneSided.Accesses.{IsSlot, KeptBy, one_sided_get-P, one_sided_set-P}
use cs2640_final_project.OneSided.Regions.{
  slot_region, atomic_region, binding, allows, is_atomic, Backed, IsLegal, IsPlaced, Registered,
}

reg_mr-eq-some :
    (keys : Option (ℕ × ℕ)) (a n : ℕ) (flags : List Access) {m : Region}
    → reg_mr keys a n flags ≡ some m
    → (m.addr ≡ a) × (m.length ≡ n) × (m.flags ≡ flags)
unfolding reg_mr
reg_mr-eq-some none a n flags e = cc
reg_mr-eq-some (some (lkey, rkey)) a n flags e = (ground arith, ground arith, ground arith)

module _ (c : Card) (port : Port) (slots slot atomic : ℕ) (placed : IsPlaced slots)
    (table slot_mr atomic_mr : Region)
    (set_up : Registered slots slot atomic table slot_mr atomic_mr) where
  abbrev bound : Binding
  bound = binding (exported_info port table) slot_mr atomic_mr

  abbrev pub AllLegal : Traced c bound → Type 0
  AllLegal w = All (IsLegal table slot_mr atomic_mr) w.1

  pub table_is :
      (table.addr ≡ slots)
      × (table.length ≡ num_slots * slot_size)
      × (table.flags ≡ local_write ∷ remote_read ∷ remote_write ∷ remote_atomic ∷ [])
  unfolding register_mr
  table_is = reg_mr-eq-some set_up.table_keys slots (num_slots * slot_size) _ set_up.exported

  slot_is :
      (slot_mr.addr ≡ slot)
      × (slot_mr.length ≡ slot_size)
      × (slot_mr.flags ≡ local_write ∷ remote_write ∷ [])
  unfolding slot_region
  slot_is = reg_mr-eq-some set_up.slot_keys slot slot_size _ set_up.slot_done

  atomic_is :
      (atomic_mr.addr ≡ atomic) × (atomic_mr.length ≡ 8) × (atomic_mr.flags ≡ local_write ∷ [])
  unfolding atomic_region
  atomic_is = reg_mr-eq-some set_up.atomic_keys atomic 8 _ set_up.atomic_done

  info_is :
      ((exported_info port table).addr ≡ table.addr)
      × ((exported_info port table).rkey ≡ table.rkey)
  unfolding exported_info
  info_is = (refl, refl)

  slot_bounds :
      (a : ℕ)
      → IsSlot slots a
      → (slots ≤ a) × (a + 1024 ≤ slots + num_slots * slot_size) × (a % 8 ≡ 0) × (a + 8 < 2 ^ 64)
  unfolding slot_address
  slot_bounds a (p, lt, e) = let al = placed.aligned in let fits = placed.fits in rw e (omega arith)

  slot-Backed :
      Backed slot_mr (record { addr = slot_mr.addr; length = slot_size; lkey = slot_mr.lkey })
  slot-Backed = let (a, n, f) = slot_is in (refl, (omega arith, omega arith), rw f)

  atomic-Backed :
      Backed atomic_mr (record { addr = atomic_mr.addr; length = 8; lkey = atomic_mr.lkey })
  atomic-Backed = let (a, n, f) = atomic_is in (refl, (omega arith, omega arith), rw f)

  logged :
      (log : List SendRequest) (r : SendRequest)
      → All (IsLegal table slot_mr atomic_mr) log
      → IsLegal table slot_mr atomic_mr r
      → All (IsLegal table slot_mr atomic_mr) (log ++ r ∷ [])
  logged log r h l = All-append _ log (r ∷ []) h (l, tt)

  -- a READ or a WRITE of a slot
  transfer-IsLegal :
      (id : ℕ) (o : Opcode) (a : ℕ)
      → IsSlot slots a
      → is_atomic o ≡ false
      → allows o (local_write ∷ remote_read ∷ remote_write ∷ remote_atomic ∷ []) ≡ true
      → IsLegal table slot_mr atomic_mr (record {
        wr_id = id;
        sg = record { addr = slot_mr.addr; length = slot_size; lkey = slot_mr.lkey };
        opcode = o;
        remote_addr = a;
        rkey = (exported_info port table).rkey;
        compare_add = 0;
      })
  transfer-IsLegal id o a at plain ok =
      let (low, high, _, _) = slot_bounds a at in
      let (addr, len, flags) = table_is in
      record {
        keyed = info_is.1;
        within = (omega arith, omega arith);
        allowed = rw flags ok;
        aligned = λ e. cc;
        backed = inl slot-Backed;
      }

  count-IsLegal :
      (a n : ℕ)
      → IsSlot slots a
      → IsLegal table slot_mr atomic_mr (record {
        wr_id = 3;
        sg = record { addr = atomic_mr.addr; length = 8; lkey = atomic_mr.lkey };
        opcode = atomic_fetch_and_add;
        remote_addr = (a + 8) % 2 ^ 64;
        rkey = (exported_info port table).rkey;
        compare_add = n;
      })
  count-IsLegal a n at =
      let (low, high, even, small) = slot_bounds a at in
      let (addr, len, flags) = table_is in
      record {
        keyed = info_is.1;
        within = (omega arith, omega arith);
        allowed = rw flags;
        aligned = λ e. omega arith;
        backed = inr atomic-Backed;
      }

  legal-KeptBy : KeptBy (driver c bound) slots AllLegal
  unfolding card_read card_write card_add post_rdma_read post_rdma_write post_fetch_and_add
  legal-KeptBy = record {
    reads = λ w a at h. logged w.1 _ h (transfer-IsLegal 2 rdma_read a at refl refl);
    writes = λ w a s at h. logged w.1 _ h (transfer-IsLegal 4 rdma_write a at refl refl);
    adds = λ w a n at h. logged w.1 _ h (count-IsLegal a n at);
  }

  -- The table of the server is registered as `handle_one_sided_client` does it, and the client goes by
  -- the QpInfo that the handler sends. Then whatever the card answers, `one_sided_get` and
  -- `one_sided_set` post only legal requests: each names the server's key, stays in the registered table, asks
  -- for an access that the registration allows, has an address that is a multiple of 8 where it is a
  -- FETCH_AND_ADD, and moves its bytes to or from a registered buffer of the client.
  pub one_sided-AllLegal :
      (k v : Bytes) (metadata : Bool) (local_slot : RdmaSlot) (atomic_result : ℕ)
      (w : Traced c bound)
      → AllLegal w
      → let base = (exported_info port table).addr in
        AllLegal (one_sided_get (driver c bound) base k metadata local_slot atomic_result w).world
        × AllLegal (one_sided_set (driver c bound) base k v local_slot w).world
  one_sided-AllLegal k v metadata local_slot atomic_result w h =
      let at : (exported_info port table).addr ≡ slots = info_is.0 ∙ table_is.0 in
      rw at (
        one_sided_get-P (driver c bound) slots k AllLegal legal-KeptBy metadata local_slot
            atomic_result w h,
        one_sided_set-P (driver c bound) slots k AllLegal legal-KeptBy v local_slot w h,
      )
