-- ===== src/Tests/Card.antt =====
-- A network card, and the requests of a one-sided client on it.
use cs2640_final_project.Prelude.{
  ℕ, ◌+◌, ◌-◌, ◌%◌, ◌^◌, ◌≤◌, ◌≡◌, refl, sym, ap, ◌∙◌, ◌⊎◌, Bool, true, false, some, [], ◌∷◌, arith,
  All, ◌==◌, nat_eq, if◌then◌else◌, bytes,
}
use cs2640_final_project.RdmaStore.{RdmaSlot, slot_at, new_store}
use cs2640_final_project.OneSided.{Verb, done, one_sided_get}
use cs2640_final_project.OneSided.Writer.{one_sided_set}
use cs2640_final_project.RdmaContext.Requests.{
  Opcode, send, rdma_read, rdma_write, atomic_fetch_and_add, SendRequest, post_rdma_read,
  post_rdma_write, post_fetch_and_add, Region, reg_mr, local_write, remote_read, remote_write,
  remote_atomic,
}
use cs2640_final_project.Handshake.Region.{Port, register_mr, exported_info}
use cs2640_final_project.OneSided.Card.{Card, perform, driver}
use cs2640_final_project.OneSided.Regions.{
  IsLegal, IsPlaced, Registered, binding, slot_region, atomic_region,
}
use cs2640_final_project.OneSided.Bounds.{one_sided-AllLegal}
use cs2640_final_project.Client.Buffers.{interactive_calls, worker_calls}
use cs2640_final_project.Client.Buffers.Released.{
  replay, only_context, nothing_left, calls-released,
}
use cs2640_final_project.Tests.OneSided.{
  Memory, stored_at, added, stored_here, stored_apart, added_apart, back,
}

-- the server's memory, and the buffers of the client
pub record Machines : Type 0 where
  pub server : Memory
  pub slots : Memory
  pub words : ℕ → ℕ

abbrev pub fill_local : Machines → ℕ → RdmaSlot → Machines
fill_local w d s = record w { slots = stored_at w.slots d s }

abbrev pub word_at : (ℕ → ℕ) → ℕ → ℕ → ℕ → ℕ
word_at f a n b = if b == a then n else f b

-- a posted request is done at once
abbrev pub execute : Opcode → Machines → SendRequest → Machines
execute send w r = w
execute rdma_read w r = fill_local w r.sg.addr (w.server r.remote_addr)
execute rdma_write w r = record w { server = stored_at w.server r.remote_addr (w.slots r.sg.addr) }
execute atomic_fetch_and_add w r = record w {
  server = added w.server (r.remote_addr - 8) r.compare_add;
  words = word_at w.words r.sg.addr (w.server (r.remote_addr - 8)).access_count;
}

abbrev pub posting : Machines → SendRequest → Bool × Machines
posting w r = (true, execute r.opcode w r)

abbrev pub polling : Machines → Bool × Machines
polling w = (true, w)

after : (w w' : Machines) → ◌≡◌ {A = Verb (Unit {0}) × Machines} (done tt, w) (done tt, w') → w ≡ w'
after w w' e = ap (λ (p : Verb (Unit {0}) × Machines). p.1) e

word_here : (f : ℕ → ℕ) (a n : ℕ) → word_at f a n a ≡ n
word_here f a n = ground arith

pub read_arrives :
    (w w' : Machines) (a key dst lkey : ℕ)
    → perform (post_rdma_read posting a key dst 1024 lkey) polling w ≡ (done tt, w')
    → w'.slots dst ≡ w.server a
unfolding post_rdma_read
read_arrives w w' a key dst lkey e =
    ap (λ (m : Machines). m.slots dst) (sym (after _ w' e)) ∙ stored_here w.slots dst (w.server a)

pub read_leaves :
    (w : Machines) (a key dst lkey b : ℕ)
    → (perform (post_rdma_read posting a key dst 1024 lkey) polling w).1.server b ≡ w.server b
unfolding post_rdma_read
read_leaves w a key dst lkey b = refl

pub write_arrives :
    (w w' : Machines) (a key src lkey : ℕ)
    → perform (post_rdma_write posting a key src 1024 lkey) polling w ≡ (done tt, w')
    → w'.server a ≡ w.slots src
unfolding post_rdma_write
write_arrives w w' a key src lkey e =
    ap (λ (m : Machines). m.server a) (sym (after _ w' e)) ∙ stored_here w.server a (w.slots src)

pub write_leaves :
    (w : Machines) (a key src lkey b : ℕ)
    → (a + 1024 ≤ b) ⊎ (b + 1024 ≤ a)
    → (perform (post_rdma_write posting a key src 1024 lkey) polling w).1.server b ≡ w.server b
unfolding post_rdma_write
write_leaves w a key src lkey b h = stored_apart w.server a b (w.slots src) h

pub add_arrives :
    (w w' : Machines) (a key dst n lkey : ℕ)
    → perform (post_fetch_and_add posting (a + 8) key dst n lkey) polling w ≡ (done tt, w')
    → (w'.words dst ≡ (w.server a).access_count)
      × (w'.server a
          ≡ record (w.server a) { access_count = ((w.server a).access_count + n) % 2 ^ 64 })
unfolding post_fetch_and_add
add_arrives w w' a key dst n lkey e =
    let same = sym (after _ w' e) in
    (
      ap (λ (m : Machines). m.words dst) same
          ∙ word_here w.words dst _
          ∙ ap (λ x. (w.server x).access_count) (back a),
      ap (λ (m : Machines). m.server a) same
          ∙ ap (λ x. added w.server x n a) (back a)
          ∙ stored_here w.server a _,
    )

pub add_leaves :
    (w : Machines) (a key dst n lkey b : ℕ)
    → (a + 1024 ≤ b) ⊎ (b + 1024 ≤ a)
    → (perform (post_fetch_and_add posting (a + 8) key dst n lkey) polling w).1.server b
      ≡ w.server b
unfolding post_fetch_and_add
add_leaves w a key dst n lkey b h = added_apart w.server a b n h

abbrev pub card : Card
card = record {
  World = Machines;
  ibv_post_send = λ w r. posting w r;
  poll = λ w. polling w;
  memory = λ w a. w.server a;
  slot_in = λ w d. w.slots d;
  word_in = λ w d. w.words d;
  fill_slot = λ w d s. fill_local w d s;
  filled = λ w d s. stored_here w.slots d s;
  fill_keeps = λ w d b s. refl;
  read_delivers = λ w w' a key dst lkey e. read_arrives w w' a key dst lkey e;
  read_keeps = λ w a key dst lkey b. read_leaves w a key dst lkey b;
  write_delivers = λ w w' a key src lkey e. write_arrives w w' a key src lkey e;
  write_keeps = λ w a key src lkey b h. write_leaves w a key src lkey b h;
  add_delivers = λ w w' a key dst n lkey e. add_arrives w w' a key dst n lkey e;
  add_keeps = λ w a key dst n lkey b h. add_leaves w a key dst n lkey b h;
}

abbrev pub port : Port
port = record { qp_num = 7; lid = 0; gid = [] }

-- the table at 2^20, `local_slot` at 2^30, and `atomic_result` behind it
abbrev pub table_region : Region
table_region = record {
  addr = 1048576;
  length = 4194304;
  flags = local_write ∷ remote_read ∷ remote_write ∷ remote_atomic ∷ [];
  lkey = 1;
  rkey = 2;
}

abbrev pub slot_mr : Region
slot_mr = record {
  addr = 1073741824;
  length = 1024;
  flags = local_write ∷ remote_write ∷ [];
  lkey = 3;
  rkey = 4;
}

abbrev pub atomic_mr : Region
atomic_mr = record { addr = 1073742848; length = 8; flags = local_write ∷ []; lkey = 5; rkey = 6 }

pub set_up : Registered 1048576 1073741824 1073742848 table_region slot_mr atomic_mr
unfolding register_mr slot_region atomic_region reg_mr
set_up = record {
  table_keys = some (1, 2);
  slot_keys = some (3, 4);
  atomic_keys = some (5, 6);
  exported = refl;
  slot_done = refl;
  atomic_done = refl;
}

pub placed : IsPlaced 1048576
placed = record { aligned = refl; fits = omega arith }

abbrev pub machines : Machines
machines = record {
  server = λ a. slot_at new_store 0;
  slots = λ d. slot_at new_store 0;
  words = λ d. 0;
}

one_sided-AllLegal_example :
    let b = binding (exported_info port table_region) slot_mr atomic_mr in
    let base = (exported_info port table_region).addr in
    All
      (IsLegal table_region slot_mr atomic_mr)
      (one_sided_get
        (driver card b)
        base
        (bytes "a")
        true
        (slot_at new_store 0)
        0
        (machines, [])).world.1
    × All
        (IsLegal table_region slot_mr atomic_mr)
        (one_sided_set
          (driver card b)
          base
          (bytes "a")
          (bytes "x")
          (slot_at new_store 0)
          (machines, [])).world.1
one_sided-AllLegal_example =
    one_sided-AllLegal card port 1048576 1073741824 1073742848 placed table_region slot_mr atomic_mr
      set_up (bytes "a") (bytes "x") true (slot_at new_store 0) 0 (machines, []) tt

calls-released_example :
    (replay (interactive_calls true false) only_context ≡ some only_context)
    × (replay (worker_calls true (some (1048576, 4096)) true false) only_context
        ≡ some nothing_left)
calls-released_example = calls-released true (some (1048576, 4096)) true false
