-- ===== src/Server/Shared/Linear.antt =====
-- The many connections of one server are linearizable.
use cs2640_final_project.Prelude.{ℕ, ◌≡◌, sym, ap, ◌∙◌, false, List, [], ◌++◌, append-nil, Bytes}
use cs2640_final_project.KvStore.{KeyValueStore}
use cs2640_final_project.Protocol.Find.{has}
use cs2640_final_project.Server.Session.{
  Place, receiving, sending, await_writable, await_readable, closed, Session,
}
use cs2640_final_project.Server.Session.Answers.{lines_of, lines_of-join, lines_of_part}
use cs2640_final_project.Server.Shared.{Process, Runs, start_process}
use cs2640_final_project.Server.Shared.Log.{
  Log, store_after, answers, lines_by, until_quit, until_quit-append,
}
use cs2640_final_project.Server.Shared.Advance.{Owes}
use cs2640_final_project.Server.Shared.Serial.{Stands, IsSerial, Runs-IsSerial, start_Runs-IsSerial}

-- The state `p` is one that `log` leaves, served one line after the other on the store `start`: its
-- store is; the lines of each connection stand in it in the order in which they arrived, from the
-- first on, and up to a QUIT at most; what is sent on a connection is the start of the answers to them; and a connection that
-- waits for input has all its complete lines in the log, and all answers sent.
pub record IsLinear (start : KeyValueStore) (p : Process) (log : Log) : Type 0 where
  pub stored : p.store ≡ store_after start log
  pub in_order :
      (i : ℕ)
      → (rest : List Bytes) × (until_quit (lines_of (p.received i)) ≡ lines_by i log ++ rest)
  pub sent : (i : ℕ) → (rest : Bytes) × (answers i start log ≡ (p.sessions i).sent ++ rest)
  pub settled :
      (i : ℕ)
      → (p.sessions i).place ≡ await_readable
      → (lines_of (p.received i) ≡ lines_by i log) × (answers i start log ≡ (p.sessions i).sent)

Owes-prefix :
    (place : Place) (a sent inbound : Bytes)
    → Owes place a sent inbound
    → (rest : Bytes) × (a ≡ sent ++ rest)
Owes-prefix receiving a sent inbound h = ([], h ∙ sym (append-nil sent))
Owes-prefix (sending out n ends) a sent inbound h = (_, h.1)
Owes-prefix (await_writable out n ends) a sent inbound h = (_, h.1)
Owes-prefix await_readable a sent inbound h = ([], h.0 ∙ sym (append-nil sent))
Owes-prefix closed a sent inbound h = h

module _ {input : Bytes} {ls : List Bytes} {a : Bytes} {s : Session} where
  taken : Stands input ls a s → lines_of input ≡ ls ++ lines_of s.inbound
  taken st = ap lines_of st.split ∙ lines_of-join ls s.inbound st.whole

  counted : Stands input ls a s → (rest : List Bytes) × (until_quit (lines_of input) ≡ ls ++ rest)
  counted st =
      let (rest, e) = until_quit-append ls (lines_of s.inbound) st.cut in
      (rest, ap until_quit (taken st) ∙ e)

  waiting : Stands input ls a s → s.place ≡ await_readable → (lines_of input ≡ ls) × (a ≡ s.sent)
  waiting st e =
      let (all_sent, clean) = owed st in
      (taken st ∙ rw (lines_of_part s.inbound clean, append-nil), all_sent)
    where
      owed : Stands input ls a s → (a ≡ s.sent) × (has 10 s.inbound ≡ false)
      owed h = rw e at h.owes

IsSerial-IsLinear :
    (start : KeyValueStore) {p : Process} {log : Log} → IsSerial start p log → IsLinear start p log
IsSerial-IsLinear start {p} h = record {
  stored = h.stored;
  in_order = λ i. counted (h.each i);
  sent = λ i.
      Owes-prefix (p.sessions i).place _ (p.sessions i).sent (p.sessions i).inbound (h.each i).owes;
  settled = λ i. waiting (h.each i);
}

-- However the kernel schedules the connections and cuts their bytes up, the server does as if the
-- request lines had come one at a time: there is a log of lines that leaves the state reached, and for
-- a state reached later the log only grows at its end, so a line taken out before another is served
-- before it, on whatever connections the two came.
pub Runs-IsLinear :
    (start : KeyValueStore) {p q : Process}
    → Runs (start_process start) p
    → Runs p q
    → (log : Log) × (more : Log) × IsLinear start p log × IsLinear start q (log ++ more)
Runs-IsLinear start r later =
    let (log, h) = start_Runs-IsSerial start r in
    let (more, h') = Runs-IsSerial start log h later in
    (log, more, IsSerial-IsLinear start h, IsSerial-IsLinear start h')
