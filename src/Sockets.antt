-- ===== src/Sockets.antt =====
-- The loops over socket calls in src/net/socket_utils.cpp and src/server/rdma_main.cpp: `read_line`
-- and both `write_all`. The kernel's answers are lists of results.
pub mod Write
pub mod Read
pub mod Exactly
use cs2640_final_project.Prelude.{
  ℕ, zero, suc, ◌+◌, ◌-◌, Bool, true, false, not, Option, none, some, List, [], ◌∷◌, ◌++◌, ltb, leb,
  ◌==◌, nat_eq, if◌then◌else◌, length, take, drop, Bytes,
}

-- `send` and `write`: how many bytes the kernel took, or an error, `EINTR` or another
pub data Sent : Type 0 where
  sent : ℕ → Sent
  interrupted failed : Sent

-- What a write loop has done: its result, what the kernel took, and the answers that are left. `none`
-- stands for a loop that still waits for an answer.
pub record Written : Type 0 where
  pub result : Option Bool
  pub taken : Bytes
  pub left : List Sent

abbrev pub written : Option Bool → Bytes → List Sent → Written
written r b l = record { result = r; taken = b; left = l }

-- `net::write_all`, from `total_written` on; an answer of 0 bytes is not an error here, and the loop
-- calls `send` again
unfoldable pub write_all : Bytes → ℕ → Bytes → List Sent → Written
write_all text total acc [] =
    if ltb total (length text) then written none acc [] else written (some true) acc []
write_all text total acc (a ∷ rest) =
    let next = λ (n : ℕ). write_all text (total + n) (acc ++ take n (drop total text)) rest in
    let again = write_all text total acc rest in
    if ltb total (length text)
    then elim a [ sent n ↦ next n | interrupted ↦ again | failed ↦ written (some false) acc rest ]
    else written (some true) acc (a ∷ rest)

-- `write_all` of the RDMA programs, where an answer of 0 bytes fails
unfoldable pub write_exactly : Bytes → ℕ → Bytes → List Sent → Written
write_exactly text total acc [] =
    if ltb total (length text) then written none acc [] else written (some true) acc []
write_exactly text total acc (a ∷ rest) =
    let next = λ (n : ℕ). write_exactly text (total + n) (acc ++ take n (drop total text)) rest in
    let again = write_exactly text total acc rest in
    if ltb total (length text)
    then elim a [
      | sent n ↦ if n == 0 then written (some false) acc rest else next n
      | interrupted ↦ again
      | failed ↦ written (some false) acc rest
    ]
    else written (some true) acc (a ∷ rest)

-- `recv` of one byte: a byte, the end of the stream, or an error
pub data Received : Type 0 where
  byte : ℕ → Received
  end_of_stream interrupted failed : Received

pub record Line : Type 0 where
  pub result : Option Bool
  pub line : Bytes
  pub left : List Received

abbrev not_empty : Bytes → Bool
not_empty [] = false
not_empty (c ∷ cs) = true

-- `read_line`, which drops carriage returns
unfoldable pub read_line : Bytes → List Received → Line
read_line line [] = record { result = none; line = line; left = [] }
read_line line (byte c ∷ rest) =
    let more = read_line (if c == 13 then line else line ++ c ∷ []) rest in
    if c == 10 then record { result = some true; line = line; left = rest } else more
read_line line (end_of_stream ∷ rest) = record {
  result = some (not_empty line);
  line = line;
  left = rest;
}
read_line line (interrupted ∷ rest) = read_line line rest
read_line line (failed ∷ rest) = record { result = some false; line = line; left = rest }
