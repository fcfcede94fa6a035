-- ===== src/Server/Shared/Serial.antt =====
-- What the connections of one server see is what they would see if the lines came one at a time.
use cs2640_final_project.Prelude.{
  ℕ, ◌≡◌, refl, sym, ap, subst, ◌∙◌, true, false, List, [], ◌∷◌, ◌++◌, append_assoc, append-nil,
  ◌==◌, ==_iff, nat_eq, All, All-append, Bool-cases, inl, inr, Bytes,
}
use cs2640_final_project.KvStore.{KeyValueStore}
use cs2640_final_project.Protocol.Find.{has}
use cs2640_final_project.Server.{serve_line}
use cs2640_final_project.Server.Session.{Session, Event, step, Allowed, chunk_of}
use cs2640_final_project.Server.Session.Lines.{join}
use cs2640_final_project.Server.Session.Progress.{join_snoc}
use cs2640_final_project.Server.Shared.{
  Process, Runs, here, turns, update, start_process, seen_by, turn,
}
use cs2640_final_project.Server.Shared.Log.{
  Log, store_after, answers, lines_by, store_after-snoc, answers-snoc, lines_by-snoc, quits,
  until_quit, until_quit-snoc,
}
use cs2640_final_project.Server.Shared.Advance.{Owes, ended, Advance, quiet, serves, step-Advance}

-- One connection: `input` has arrived, `ls` of it is served and `a` is due for that. A line that
-- ends the session is the last one served.
pub record Stands (input : Bytes) (ls : List Bytes) (a : Bytes) (s : Session) : Type 0 where
  pub whole : All (λ l. has 10 l ≡ false) ls
  pub split : input ≡ join ls ++ s.inbound
  pub owes : Owes s.place a s.sent s.inbound
  pub going : ended s.place ≡ false → All (λ l. quits l ≡ false) ls
  pub cut : until_quit ls ≡ ls

pub record IsSerial (start : KeyValueStore) (p : Process) (log : Log) : Type 0 where
  pub stored : p.store ≡ store_after start log
  pub each : (i : ℕ) → Stands (p.received i) (lines_by i log) (answers i start log) (p.sessions i)

eq_self : (i : ℕ) → (i == i) ≡ true
eq_self i = (==_iff i i).1 refl

module _ (start : KeyValueStore) (p : Process) (log : Log) (h : IsSerial start p log) (i : ℕ) where
  -- Connection `i` has changed, and the log has grown by `more`.
  combine :
      (s : Session) (chunk : Bytes) (more : Log)
      → s.store ≡ store_after start (log ++ more)
      → Stands (p.received i ++ chunk) (lines_by i (log ++ more)) (answers i start (log ++ more)) s
      → ((j : ℕ)
          → (i == j) ≡ false
          → Stands
              (p.received j)
              (lines_by j (log ++ more))
              (answers j start (log ++ more))
              (p.sessions j))
      → IsSerial start
          (record {
            store = s.store;
            sessions = update p.sessions i s;
            received = update p.received i (p.received i ++ chunk);
          })
          (log ++ more)
  combine s chunk more stored own others = record {
    stored = stored;
    each = λ j. elim (Bool-cases (i == j)) [
      | inl e ↦ rw e (
          subst
            (λ k.
              Stands (p.received i ++ chunk) (lines_by k (log ++ more))
                (answers k start (log ++ more)) s)
            ((==_iff i j).0 e) own)
      | inr e ↦ rw e (others j e)
    ];
  }

  abbrev Grown : Session → Bytes → Type 0
  Grown s chunk =
      (more : Log) × IsSerial start
        (record {
          store = s.store;
          sessions = update p.sessions i s;
          received = update p.received i (p.received i ++ chunk);
        })
        (log ++ more)

  Advance-Grown :
      (s : Session) (chunk : Bytes)
      → Advance
          (ended (p.sessions i).place)
          p.store
          (answers i start log)
          ((p.sessions i).inbound ++ chunk)
          s
      → Grown s chunk
  Advance-Grown s chunk (quiet same rest owes over) =
      let st = h.each i in
      let own : Stands (p.received i ++ chunk) (lines_by i log) (answers i start log) s = record {
        whole = st.whole;
        split =
            ap (λ b. b ++ chunk) st.split
            ∙ append_assoc (join (lines_by i log)) (p.sessions i).inbound chunk
            ∙ ap (λ b. join (lines_by i log) ++ b) rest;
        owes = owes;
        going = λ e. st.going (over e);
        cut = st.cut;
      } in
      (
        [],
        combine s chunk [] (same ∙ h.stored ∙ ap (store_after start) (sym (append-nil log)))
            (rw append-nil own) (λ j ne. rw append-nil (h.each j)),
      )
  Advance-Grown s chunk (serves l clean next rest owes was now) =
      let st = h.each i in
      let grown : Stands (p.received i ++ chunk) (lines_by i log ++ l ∷ [])
          (answers i start log ++ (serve_line p.store l).output) s =
        record {
          whole = All-append _ (lines_by i log) (l ∷ []) st.whole (clean, tt);
          split =
              ap (λ b. b ++ chunk) st.split
              ∙ append_assoc (join (lines_by i log)) (p.sessions i).inbound chunk
              ∙ ap (λ b. join (lines_by i log) ++ b) rest
              ∙ sym (join_snoc (lines_by i log) l s.inbound);
          owes = owes;
          going = λ e. All-append _ (lines_by i log) (l ∷ []) (st.going was) (sym now ∙ e, tt);
          cut = until_quit-snoc (lines_by i log) l (st.going was);
        } in
      let own : Stands (p.received i ++ chunk) (lines_by i (log ++ (i, l) ∷ []))
          (answers i start (log ++ (i, l) ∷ [])) s =
        rw (lines_by-snoc, answers-snoc, eq_self i, ← h.stored) grown in
      (
        (i, l) ∷ [],
        combine s chunk ((i, l) ∷ [])
            (next
              ∙ ap (λ t. (serve_line t l).store) h.stored
              ∙ sym (store_after-snoc start log i l))
            own (λ j ne. rw (lines_by-snoc, answers-snoc, ne, append-nil, append-nil) (h.each j)),
      )

  turn-IsSerial :
      (event : Event)
      → Allowed (p.sessions i).place event
      → (more : Log) × IsSerial start (turn p i event) (log ++ more)
  unfolding turn
  turn-IsSerial event ok =
      Advance-Grown (step (seen_by p i) event) (chunk_of event)
        (step-Advance (seen_by p i) event (answers i start log) (h.each i).owes ok)

module _ (start : KeyValueStore) where
  pub Runs-IsSerial :
      {p q : Process} (log : Log)
      → IsSerial start p log
      → Runs p q
      → (more : Log) × IsSerial start q (log ++ more)
  Runs-IsSerial {p} log h here = ([], rw append-nil h)
  Runs-IsSerial {p} log h (turns {p = m} i event r ok) =
      let (more, h') = Runs-IsSerial log h r in
      let (last, h'') = turn-IsSerial start m (log ++ more) h' i event ok in
      (more ++ last, rw (← append_assoc) h'')

  start-IsSerial : IsSerial start (start_process start) []
  unfolding store_after answers lines_by join
  start-IsSerial = record {
    stored = refl;
    each = λ i. record {
      whole = tt;
      split = refl;
      owes = refl;
      going = λ e. tt;
      cut = unfold until_quit in refl;
    };
  }

  pub start_Runs-IsSerial :
      {p : Process} → Runs (start_process start) p → (log : Log) × IsSerial start p log
  start_Runs-IsSerial r = Runs-IsSerial [] start-IsSerial r
