-- ===== src/Client/Interactive.antt =====
-- `run_one_sided_interactive` of src/client/rdma_client.cpp: the lines that the user types, and what is
-- printed for each. The registered buffers are `local_slot` and `atomic_result`.
pub mod Answers
pub mod Turns
pub mod Session
use cs2640_final_project.Prelude.{
  ℕ, Bool, true, false, List, [], ◌∷◌, ◌++◌, ◌&&◌, ◌==◌, nat_eq, list_eq, if◌then◌else◌, drop,
  Bytes, bytes,
}
use cs2640_final_project.Prelude.Decimal.{decimal}
use cs2640_final_project.Protocol.{
  RequestType, get, set, del, quit, invalid, Request, parse_request,
}
use cs2640_final_project.RdmaStore.{RdmaSlot, c_string}
use cs2640_final_project.OneSided.{Fabric, one_sided_get}
use cs2640_final_project.OneSided.Writer.{one_sided_set}

-- `line.rfind(prefix, 0) == 0`
unfoldable pub starts_with : Bytes → Bytes → Bool
starts_with [] line = true
starts_with (c ∷ cs) [] = false
starts_with (c ∷ cs) (x ∷ xs) = c == x && starts_with cs xs

abbrev pub meta_prefix : Bytes
meta_prefix = bytes "GET_META "

abbrev pub value_line : Bytes → Bytes
value_line v = bytes "VALUE " ++ (v ++ 10 ∷ [])

abbrev pub not_found_line : Bytes
not_found_line = bytes "NOT_FOUND" ++ 10 ∷ []

abbrev pub ok_line : Bytes
ok_line = bytes "OK" ++ 10 ∷ []

abbrev pub error_line : Bytes → Bytes
error_line message = bytes "ERROR " ++ (message ++ 10 ∷ [])

abbrev pub count_line : ℕ → Bytes
count_line n = bytes "  [access_count was " ++ (decimal n ++ (bytes "]" ++ 10 ∷ []))

module _ (f : Fabric) (base : ℕ) where
  open f use {World}

  -- what one line does: what is printed, whether the loop ends, and the buffers and the network
  pub record Turn : Type 0 where
    pub printed : List Bytes
    pub ends : Bool
    pub slot : RdmaSlot
    pub atomic : ℕ
    pub world : World

  unfoldable pub one_sided_meta : Bytes → RdmaSlot → ℕ → World → Turn
  one_sided_meta key slot atomic w =
      let st = one_sided_get f base key true slot atomic w in
      record {
        printed =
            if st.found
            then value_line (c_string st.slot.value) ∷ count_line st.atomic ∷ []
            else not_found_line ∷ [];
        ends = false;
        slot = st.slot;
        atomic = st.atomic;
        world = st.world;
      }

  unfoldable pub one_sided_request : RequestType → Request → RdmaSlot → ℕ → World → Turn
  one_sided_request get r slot atomic w =
      let st = one_sided_get f base r.key false slot atomic w in
      record {
        printed = (if st.found then value_line (c_string st.slot.value) else not_found_line) ∷ [];
        ends = false;
        slot = st.slot;
        atomic = st.atomic;
        world = st.world;
      }
  one_sided_request set r slot atomic w =
      let st = one_sided_set f base r.key r.value slot w in
      record {
        printed = (if st.stored then ok_line else error_line st.error) ∷ [];
        ends = false;
        slot = st.slot;
        atomic = atomic;
        world = st.world;
      }
  one_sided_request quit r slot atomic w = record {
    printed = [];
    ends = true;
    slot = slot;
    atomic = atomic;
    world = w;
  }
  one_sided_request del r slot atomic w = record {
    printed = error_line r.error ∷ [];
    ends = false;
    slot = slot;
    atomic = atomic;
    world = w;
  }
  one_sided_request invalid r slot atomic w = record {
    printed = error_line r.error ∷ [];
    ends = false;
    slot = slot;
    atomic = atomic;
    world = w;
  }

  unfoldable pub one_sided_line : Bytes → RdmaSlot → ℕ → World → Turn
  one_sided_line line slot atomic w =
      if line == []
      then record { printed = []; ends = false; slot = slot; atomic = atomic; world = w }
      else if line == bytes "QUIT"
      then record { printed = []; ends = true; slot = slot; atomic = atomic; world = w }
      else if starts_with meta_prefix line
      then one_sided_meta (drop 9 line) slot atomic w
      else one_sided_request (parse_request line).type (parse_request line) slot atomic w

  -- the loop over the lines of the standard input
  unfoldable pub one_sided_session : List Bytes → RdmaSlot → ℕ → World → List Bytes
  one_sided_session [] slot atomic w = []
  one_sided_session (line ∷ lines) slot atomic w =
      let t = one_sided_line line slot atomic w in
      let rest = one_sided_session lines t.slot t.atomic t.world in
      if t.ends then t.printed else t.printed ++ rest
