-- ===== src/Server/Shared/Log.antt =====
-- One sequence of request lines, each with the connection that sent it, served one after the other.
use cs2640_final_project.Prelude.{
  ℕ, ◌≡◌, refl, ap, All, Bool-cases, inl, inr, Bool, true, false, List, [], ◌∷◌, ◌++◌, append_assoc,
  append-nil, arith, ◌==◌, nat_eq, if◌then◌else◌, Bytes,
}
use cs2640_final_project.KvStore.{KeyValueStore}
use cs2640_final_project.Protocol.{parse_request}
use cs2640_final_project.Server.{is_quit, serve_line}

abbrev pub Log : Type 0
Log = List (ℕ × Bytes)

-- the store that the lines leave
unfoldable pub store_after : KeyValueStore → Log → KeyValueStore
store_after store [] = store
store_after store ((j, l) ∷ log) = store_after (serve_line store l).store log

abbrev tail : List Bytes → List Bytes
tail [] = []
tail (l ∷ ls) = ls

abbrev pub only_if : Bool → Bytes → Bytes
only_if true b = b
only_if false b = []

-- what is answered on connection `i`
unfoldable pub answers : ℕ → KeyValueStore → Log → Bytes
answers i store [] = []
answers i store ((j, l) ∷ log) =
    let o = serve_line store l in only_if (j == i) o.output ++ answers i o.store log

-- the lines of connection `i`
unfoldable pub lines_by : ℕ → Log → List Bytes
lines_by i [] = []
lines_by i ((j, l) ∷ log) = let rest = lines_by i log in if j == i then l ∷ rest else rest

-- whether a line ends its session, and the lines up to the first that does
abbrev pub quits : Bytes → Bool
quits l = is_quit (parse_request l).type

unfoldable pub until_quit : List Bytes → List Bytes
until_quit [] = []
until_quit (l ∷ ls) = let rest = until_quit ls in l ∷ (if quits l then [] else rest)

pub until_quit-snoc :
    (ls : List Bytes) (l : Bytes)
    → All (λ m. quits m ≡ false) ls
    → until_quit (ls ++ l ∷ []) ≡ ls ++ l ∷ []
unfolding until_quit
until_quit-snoc [] l h = elim (Bool-cases (quits l)) [ inl e ↦ rw e | inr e ↦ rw e ]
until_quit-snoc (m ∷ ls) l h = rw (h.0, until_quit-snoc ls l h.1) refl

pub until_quit-append :
    (ls ms : List Bytes)
    → until_quit ls ≡ ls
    → (rest : List Bytes) × (until_quit (ls ++ ms) ≡ ls ++ rest)
unfolding until_quit
until_quit-append [] ms e = (until_quit ms, refl)
until_quit-append (l ∷ ls) ms e = elim (Bool-cases (quits l)) [
  | inl q ↦
      let none_left : [] ≡ ls = ap tail (rw q at e) in
      ([], rw q (ap (λ r. l ∷ (r ++ [])) none_left))
  | inr q ↦
      let (rest, h) = until_quit-append ls ms (ap tail (rw q at e)) in
      (rest, rw q (ap (λ r. l ∷ r) h))
]

pub store_after-snoc :
    (store : KeyValueStore) (log : Log) (j : ℕ) (l : Bytes)
    → store_after store (log ++ (j, l) ∷ []) ≡ (serve_line (store_after store log) l).store
unfolding store_after
store_after-snoc store [] j l = refl
store_after-snoc store ((k, m) ∷ log) j l = store_after-snoc (serve_line store m).store log j l

pub answers-snoc :
    (i : ℕ) (store : KeyValueStore) (log : Log) (j : ℕ) (l : Bytes)
    → answers i store (log ++ (j, l) ∷ [])
      ≡ answers i store log ++ only_if (j == i) (serve_line (store_after store log) l).output
unfolding answers store_after
answers-snoc i store [] j l = append-nil _
answers-snoc i store ((k, m) ∷ log) j l =
    rw (answers-snoc i (serve_line store m).store log j l, append_assoc)

pub lines_by-snoc :
    (i : ℕ) (log : Log) (j : ℕ) (l : Bytes)
    → lines_by i (log ++ (j, l) ∷ []) ≡ lines_by i log ++ (if j == i then l ∷ [] else [])
unfolding lines_by
lines_by-snoc i [] j l = refl
lines_by-snoc i ((k, m) ∷ log) j l = ground (arith, lines_by-snoc i log j l)
