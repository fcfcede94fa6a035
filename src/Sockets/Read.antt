-- ===== src/Sockets/Read.antt =====
-- What `read_line` takes off the stream.
use cs2640_final_project.Prelude.{
  ◌≡◌, refl, true, false, some, List, [], ◌∷◌, ◌++◌, map, arith, ◌==◌, nat_eq, if◌then◌else◌, has,
  append_assoc, append-nil, Bytes,
}
use cs2640_final_project.Sockets.{Received, byte, end_of_stream, interrupted, failed, read_line}

-- the answers without those that were interrupted
unfoldable pub uninterrupted : List Received → List Received
uninterrupted [] = []
uninterrupted (interrupted ∷ rest) = uninterrupted rest
uninterrupted (byte c ∷ rest) = byte c ∷ uninterrupted rest
uninterrupted (end_of_stream ∷ rest) = end_of_stream ∷ uninterrupted rest
uninterrupted (failed ∷ rest) = failed ∷ uninterrupted rest

-- the text without carriage returns
unfoldable pub without_cr : Bytes → Bytes
without_cr [] = []
without_cr (c ∷ cs) = if c == 13 then without_cr cs else c ∷ without_cr cs

loop-line :
    (acc l : Bytes) (after : List Received)
    → has 10 l ≡ false
    → read_line acc (map byte l ++ byte 10 ∷ after)
      ≡ record { result = some true; line = acc ++ without_cr l; left = after }
unfolding read_line without_cr
loop-line acc [] after h = rw append-nil
loop-line acc (c ∷ l) after h = ground (
  arith,
  loop-line acc l after,
  loop-line (acc ++ c ∷ []) l after,
  append_assoc acc (c ∷ []) (without_cr l),
)

loop-interrupted :
    (acc : Bytes) (answers : List Received)
    → ((read_line acc (uninterrupted answers)).result ≡ (read_line acc answers).result)
      × ((read_line acc (uninterrupted answers)).line ≡ (read_line acc answers).line)
unfolding read_line uninterrupted
loop-interrupted acc [] = (refl, refl)
loop-interrupted acc (byte c ∷ rest) =
    ground (arith, loop-interrupted acc rest, loop-interrupted (acc ++ c ∷ []) rest)
loop-interrupted acc (end_of_stream ∷ rest) = (refl, refl)
loop-interrupted acc (interrupted ∷ rest) = loop-interrupted acc rest
loop-interrupted acc (failed ∷ rest) = (refl, refl)

-- A line that arrives byte by byte, with interruptions anywhere, is read up to its newline, without
-- its carriage returns, whatever follows it.
pub read_line-line :
    (l : Bytes) (answers after : List Received)
    → has 10 l ≡ false
    → uninterrupted answers ≡ map byte l ++ byte 10 ∷ after
    → ((read_line [] answers).result ≡ some true) × ((read_line [] answers).line ≡ without_cr l)
read_line-line l answers after h e =
    let (r, x) = loop-interrupted [] answers in ground (arith, r, x, e, loop-line [] l after h)
