-- ===== src/Tests/OneSided.antt =====
-- The one-sided client: runs, and the theorems at concrete inputs.
use cs2640_final_project.Prelude.{
  ℕ, ◌+◌, ◌-◌, ◌%◌, ◌^◌, ◌/◌, sym, ap, subst, ◌∙◌, ◌≤◌, ◌<◌, ◌≡◌, refl, true, none, some, List, [],
  ◌∷◌, arith, All, if◌then◌else◌, ◌==◌, ==_ne, ◌⊎◌, nat_eq, Bytes, bytes,
}
use cs2640_final_project.RdmaStore.{
  fnv, fnv_round, RdmaSlot, slot_at, new_store, get, c_string, num_slots,
}
use cs2640_final_project.RdmaStore.Valid.{IsKey}
use cs2640_final_project.OneSided.Writer.{
  SetState, one_sided_set, one_sided_set_loop, set_round, write_slot, write_prepared, finish_write,
  prepare_slot,
}
use cs2640_final_project.OneSided.{client_index, Verb, done, Fabric, slot_address, one_sided_get}
use cs2640_final_project.RdmaStore.Valid.{new_store-IsValid, get-new_store}
use cs2640_final_project.RdmaStore.Refine.{IsValue}
use cs2640_final_project.OneSided.Export.{Fitting}
use cs2640_final_project.OneSided.Writer.Outcome.{Stored, Refused}
use cs2640_final_project.OneSided.Writer.Refine.{one_sided_set-Outcome}
use cs2640_final_project.Client.Interactive.{starts_with, one_sided_session}
use cs2640_final_project.Client.Interactive.Answers.{Contents, Answers, LineFits, Serves}
use cs2640_final_project.Client.Interactive.Session.{one_sided_session-Answers}
use cs2640_final_project.Tests.Protocol.{program}
use cs2640_final_project.OneSided.Get.{Exports, IsReliable, one_sided_get-get}

abbrev pub Memory : Type 0
Memory = ℕ → RdmaSlot

abbrev pub delivery : RdmaSlot → Memory → Verb RdmaSlot × Memory
delivery s w = (done s, w)

pub delivered : (w w' : Memory) (s t : RdmaSlot) → delivery s w ≡ delivery t w' → t ≡ s
delivered w w' s t e = ground arith

abbrev pub stored_at : Memory → ℕ → RdmaSlot → Memory
stored_at w a s b = if b == a then s else w b

pub stored_apart :
    (w : Memory) (a b : ℕ) (s : RdmaSlot)
    → (a + 1024 ≤ b) ⊎ (b + 1024 ≤ a)
    → stored_at w a s b ≡ w b
stored_apart w a b s h = rw (==_ne b a (λ e. ground (arith, h, e))) refl

-- what FETCH_AND_ADD does to the slot at an address
abbrev pub added : Memory → ℕ → ℕ → Memory
added w a n = stored_at w a (record (w a) { access_count = ((w a).access_count + n) % 2 ^ 64 })

pub stored_here : (w : Memory) (a : ℕ) (s : RdmaSlot) → stored_at w a s a ≡ s
stored_here w a s = ground arith

abbrev pub writing : Memory → ℕ → RdmaSlot → Verb (Unit {0}) × Memory
writing w a s = (done tt, stored_at w a s)

pub written : (w w' : Memory) (a : ℕ) (s : RdmaSlot) → writing w a s ≡ (done tt, w') → w' a ≡ s
written w w' a s e =
    ap (λ (m : Memory). m a) (sym (ap (λ (p : Verb (Unit {0}) × Memory). p.1) e))
    ∙ stored_here w a s

pub back : (a : ℕ) → a + 8 - 8 ≡ a
back a = omega arith

abbrev pub adding : Memory → ℕ → ℕ → Verb ℕ × Memory
adding w a n = (done (w a).access_count, added w a n)

done_injective :
    (w w' : Memory) (a n old : ℕ)
    → adding w a n ≡ (done old, w')
    → ((w a).access_count ≡ old) × (added w a n ≡ w')
done_injective w w' a n old e = (ground arith, ap (λ (p : Verb ℕ × Memory). p.1) e)

pub counted_up :
    (w w' : Memory) (a n old : ℕ)
    → adding w (a + 8 - 8) n ≡ (done old, w')
    → (old ≡ (w a).access_count) × (w' a ≡ record (w a) { access_count = (old + n) % 2 ^ 64 })
counted_up w w' a n old e =
    let (x, m) =
      done_injective w w' a n old (subst (λ b. adding w b n ≡ (done old, w')) (back a) e) in
    (
      sym x,
      ap (λ (m : Memory). m a) (sym m)
          ∙ stored_here w a _
          ∙ ap (λ c. record (w a) { access_count = (c + n) % 2 ^ 64 }) x,
    )

pub added_apart :
    (w : Memory) (a b n : ℕ) → (a + 1024 ≤ b) ⊎ (b + 1024 ≤ a) → added w (a + 8 - 8) n b ≡ w b
added_apart w a b n h = rw back (stored_apart w a b _ h)

-- A network that delivers and stores slots, and never fails.
abbrev pub fabric : Fabric
fabric = record {
  World = Memory;
  memory = λ w a. w a;
  read = λ w a. (done (w a), w);
  write = λ w a s. writing w a s;
  fetch_and_add = λ w a n. adding w (a - 8) n;
  read_delivers = λ w w' a s e. delivered w w' (w a) s e;
  read_keeps = λ w a b. refl;
  write_delivers = λ w w' a s e. written w w' a s e;
  write_keeps = λ w a b s h. stored_apart w a b s h;
  add_delivers = λ w w' a n old e. counted_up w w' a n old e;
  add_keeps = λ w a b n h. added_apart w a b n h;
}

-- the memory of a server with an empty table at address 0
abbrev empty_memory : Memory
empty_memory a = slot_at new_store (a / 1024)

address_back : (p : ℕ) → p < num_slots → slot_address 0 p / 1024 ≡ p
unfolding slot_address
address_back p h = omega arith

fabric-Exports : Exports fabric 0 new_store empty_memory
fabric-Exports = record { holds = λ p h. rw (address_back p h) }

pub fabric-IsReliable : IsReliable fabric
fabric-IsReliable = record {
  reads = λ w a. (_, refl);
  writes = λ w a s. refl;
  atomics = λ w a n. (_, refl);
}

key_a : IsKey (bytes "a")
key_a = record { no_nul = refl; short = omega arith }

one_sided_get-get_example :
    let st = one_sided_get fabric 0 (bytes "a") true (slot_at new_store 0) 0 empty_memory in
    get new_store (bytes "a") ≡ (if st.found then some (c_string st.slot.value) else none)
one_sided_get-get_example =
    one_sided_get-get fabric 0 new_store (bytes "a") key_a true fabric-IsReliable
      (slot_at new_store 0) 0 empty_memory fabric-Exports

-- the address to which the key is written
abbrev address_a : ℕ
address_a = slot_address 0 (client_index (bytes "a") 0)

set_state : SetState fabric
set_state = one_sided_set fabric 0 (bytes "a") (bytes "x y") (slot_at new_store 0) empty_memory

one_sided_set_stores :
    (set_state.stored ≡ true) × (c_string (set_state.world address_a).value ≡ bytes "x y")
unfolding set_state one_sided_set one_sided_set_loop set_round write_slot write_prepared
    finish_write prepare_slot slot_address client_index c_string new_store fnv fnv_round
one_sided_set_stores = (refl, refl)

fits : Fitting 0
fits = omega arith

value_x : IsValue (bytes "x y")
value_x = record { no_nul = refl; short = omega arith }

one_sided_set-Outcome_example :
    Stored fabric 0 new_store (bytes "a") (bytes "x y") set_state
    ⊎ Refused fabric 0 new_store (bytes "a") (bytes "x y") set_state
unfolding set_state
one_sided_set-Outcome_example =
    one_sided_set-Outcome fabric 0 new_store (bytes "a") (bytes "x y") fabric-IsReliable fits
      new_store-IsValid key_a value_x (slot_at new_store 0) empty_memory fabric-Exports

abbrev nothing_stored : Contents
nothing_stored q = none

abbrev session_lines : List Bytes
session_lines = bytes "SET a x y" ∷ bytes "GET_META a" ∷ bytes "DEL a" ∷ []

set_fits : LineFits (bytes "SET a x y")
unfolding program starts_with
set_fits = (λ e. ground arith, (key_a, value_x))

meta_fits : LineFits (bytes "GET_META a")
unfolding program starts_with
meta_fits = (λ e. key_a, tt)

del_fits : LineFits (bytes "DEL a")
unfolding program starts_with
del_fits = (λ e. ground arith, tt)

session_lines_fit : All LineFits session_lines
session_lines_fit = (set_fits, (meta_fits, (del_fits, tt)))

serves : Serves fabric 0 nothing_stored empty_memory
serves = record {
  store = new_store;
  valid = new_store-IsValid;
  same = λ q key. get-new_store q;
  exported = fabric-Exports;
}

one_sided_session-Answers_example :
    Answers nothing_stored session_lines
      (one_sided_session fabric 0 session_lines (slot_at new_store 0) 0 empty_memory)
one_sided_session-Answers_example =
    one_sided_session-Answers fabric 0 fabric-IsReliable fits session_lines nothing_stored
      (slot_at new_store 0) 0 empty_memory serves session_lines_fit
