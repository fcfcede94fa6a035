-- ===== src/Client/Interactive/Turns.antt =====
-- One line of the one-sided session prints what the exported table holds.
use cs2640_final_project.Prelude.{
  ℕ, ◌≡◌, ◌≢◌, refl, sym, ◌∙◌, ap, subst, ◌⊎◌, inl, inr, Bool, true, false, Option, none, some, [],
  ◌∷◌, ◌==◌, ==_iff, nat_eq, list_eq, if◌then◌else◌, Bool-cases, drop, Bytes, bytes,
}
use cs2640_final_project.Protocol.{
  RequestType, get, set, del, quit, invalid, parse_request, trim_left, trim_end, trim_right, trim,
  lower_copy, find, parse_key, check_set, parse_set, parse_command, parse_cleaned,
}
use cs2640_final_project.RdmaStore.{RdmaSlot, c_string}
use cs2640_final_project.RdmaStore.Valid.{IsKey}
use cs2640_final_project.RdmaStore.Refine.{IsValue}
use cs2640_final_project.OneSided.{Fabric, one_sided_get}
use cs2640_final_project.OneSided.Get.{IsReliable, one_sided_get-get}
use cs2640_final_project.OneSided.Export.{Fitting}
use cs2640_final_project.OneSided.Counts.{one_sided_get-Kept}
use cs2640_final_project.OneSided.Writer.{one_sided_set}
use cs2640_final_project.OneSided.Writer.Outcome.{Stored, Refused}
use cs2640_final_project.OneSided.Writer.Refine.{one_sided_set-Outcome}
use cs2640_final_project.Client.Interactive.{
  starts_with, meta_prefix, value_line, not_found_line, ok_line, error_line, count_line, Turn,
  one_sided_meta, one_sided_request, one_sided_line,
}
use cs2640_final_project.Client.Interactive.Answers.{
  Contents, update, get_lines, meta_lines, IsPlain, Answer, blank, counted, fetched, stored, full,
  wrong, RequestFits, LineFits, Serves,
}

get_printed :
    (b : Bool) (v : Bytes) (o : Option Bytes)
    → o ≡ (if b then some v else none)
    → (if b then value_line v else not_found_line) ∷ [] ≡ get_lines o
get_printed true v o e = rw e refl
get_printed false v o e = rw e refl

meta_printed :
    (b : Bool) (v : Bytes) (n : ℕ) (o : Option Bytes)
    → o ≡ (if b then some v else none)
    → (if b then value_line v ∷ count_line n ∷ [] else not_found_line ∷ []) ≡ meta_lines o n
meta_printed true v n o e = rw e refl
meta_printed false v n o e = rw e refl

quit_line : (parse_request (bytes "QUIT")).type ≡ quit
unfolding trim_left trim_end trim_right trim lower_copy find parse_key check_set parse_set
    parse_command parse_cleaned parse_request
quit_line = refl

module _ (f : Fabric) (base : ℕ) (rel : IsReliable f) (fit : Fitting base) (m : Contents)
    (line : Bytes) (slot : RdmaSlot) (atomic : ℕ) (w : f.World) (s : Serves f base m w) where
  -- the answer, and the table after it
  abbrev pub Served : Turn f base → Type 0
  Served t = (m' : Contents) × Answer m line m' t.printed × Serves f base m' t.world

  -- a read of a key, with the table that it leaves
  read_lem :
      (k : Bytes) (metadata : Bool)
      → IsKey k
      → let st = one_sided_get f base k metadata slot atomic w in
        (m k ≡ (if st.found then some (c_string st.slot.value) else none))
        × Serves f base m st.world
  read_lem k metadata key =
      let kept =
        one_sided_get-Kept f base s.store k rel fit s.valid key metadata slot atomic w s.exported in
      (
        sym (s.same k key)
            ∙ one_sided_get-get f base s.store k key metadata rel slot atomic w s.exported,
        record {
          store = kept.after;
          valid = kept.valid;
          same = λ q b. kept.same q b ∙ s.same q b;
          exported = kept.exported;
        },
      )

  meta-Served :
      starts_with meta_prefix line ≡ true
      → IsKey (drop 9 line)
      → Served (one_sided_meta f base (drop 9 line) slot atomic w)
  unfolding one_sided_meta
  meta-Served e key =
      let (found, after) = read_lem (drop 9 line) true key in
      let st = one_sided_get f base (drop 9 line) true slot atomic w in
      (
        m,
        subst (Answer m line m)
            (sym (meta_printed st.found (c_string st.slot.value) st.atomic (m (drop 9 line)) found))
            (counted st.atomic e),
        after,
      )

  set-Served :
      (k v : Bytes)
      → IsPlain line
      → (parse_request line).type ≡ set
      → k ≡ (parse_request line).key
      → v ≡ (parse_request line).value
      → IsKey k
      → IsValue v
      → let st = one_sided_set f base k v slot w in
        (m' : Contents) × Answer m line m'
          ((if st.stored then ok_line else error_line st.error) ∷ [])
        × Serves f base m' st.world
  set-Served k v plain e ek ev key value =
      go (one_sided_set-Outcome f base s.store k v rel fit s.valid key value slot w s.exported)
    where
      go :
          Stored f base s.store k v (one_sided_set f base k v slot w)
            ⊎ Refused f base s.store k v (one_sided_set f base k v slot w)
          → let st = one_sided_set f base k v slot w in
            (m' : Contents) × Answer m line m'
              ((if st.stored then ok_line else error_line st.error) ∷ [])
            × Serves f base m' st.world
      go (inl (done, (after, change, x))) = (
        update m k v,
        rw (done, ek, ev) (stored plain e),
        record {
          store = after;
          valid = change.valid;
          same = λ q b. change.reads q b ∙ ap (λ o. if k == q then some v else o) (s.same q b);
          exported = x;
        },
      )
      go (inr (no_store, message, x, missing, _)) = (
        m,
        rw (no_store, message) (full plain e (sym (ap m ek) ∙ sym (s.same k key) ∙ missing)),
        record { store = s.store; valid = s.valid; same = s.same; exported = x },
      )

  request-Served :
      (t : RequestType)
      → IsPlain line
      → (parse_request line).type ≡ t
      → t ≢ quit
      → RequestFits t (parse_request line)
      → Served (one_sided_request f base t (parse_request line) slot atomic w)
        × ((one_sided_request f base t (parse_request line) slot atomic w).ends ≡ false)
  unfolding one_sided_request
  request-Served get plain e n key =
      let k : Bytes = (parse_request line).key in
      let (found, after) = read_lem k false key in
      let st = one_sided_get f base k false slot atomic w in
      (
        (
          m,
          subst (Answer m line m) (sym (get_printed st.found (c_string st.slot.value) (m k) found))
              (fetched plain e),
          after,
        ),
        refl,
      )
  request-Served set plain e n (key, value) = (
    set-Served (parse_request line).key (parse_request line).value plain e refl refl key value,
    refl,
  )
  request-Served del plain e n h = ((m, wrong plain (inl e), s), refl)
  request-Served quit plain e n h = absurd (n refl)
  request-Served invalid plain e n h = ((m, wrong plain (inr e), s), refl)

  request_turn :
      (t : RequestType)
      → IsPlain line
      → (parse_request line).type ≡ t
      → RequestFits t (parse_request line)
      → let turn = one_sided_request f base t (parse_request line) slot atomic w in
        ((turn.ends ≡ true) × (turn.printed ≡ []) × ((parse_request line).type ≡ quit))
        ⊎ ((turn.ends ≡ false) × Served turn)
  request_turn get plain e h = let (a, b) = request-Served get plain e (λ x. cc) h in inr (b, a)
  request_turn set plain e h = let (a, b) = request-Served set plain e (λ x. cc) h in inr (b, a)
  request_turn del plain e h = let (a, b) = request-Served del plain e (λ x. cc) h in inr (b, a)
  request_turn quit plain e h = unfold one_sided_request in inl (refl, refl, e)
  request_turn invalid plain e h =
      let (a, b) = request-Served invalid plain e (λ x. cc) h in inr (b, a)

  pub line_turn :
      LineFits line
      → let turn = one_sided_line f base line slot atomic w in
        ((turn.ends ≡ true) × (turn.printed ≡ []) × ((parse_request line).type ≡ quit))
        ⊎ ((turn.ends ≡ false) × Served turn)
  unfolding one_sided_line
  line_turn (meta, fits) = elim (Bool-cases (line == [])) [
    | inl empty ↦ rw empty (inr (refl, (m, blank ((==_iff line []).0 empty), s)))
    | inr text ↦ rw text (elim (Bool-cases (line == bytes "QUIT")) [
      | inl last ↦ rw last (
          inl (
            refl,
            refl,
            ap (λ l. (parse_request l).type) ((==_iff line (bytes "QUIT")).0 last) ∙ quit_line,
          ))
      | inr more ↦ rw more (elim (Bool-cases (starts_with meta_prefix line)) [
        | inl counts ↦
            rw counts (inr (unfold one_sided_meta in refl, meta-Served counts (meta counts)))
        | inr plain ↦ rw plain (request_turn (parse_request line).type plain refl fits)
      ])
    ])
  ]
