-- ===== src/Client/TwoSided/Bye.antt =====
-- Where `run_two_sided` of src/client/rdma_client.cpp stops to read lines.
use cs2640_final_project.Prelude.{
  ℕ, ◌+◌, ◌≡◌, refl, Bool, inl, inr, true, false, List, [], ◌∷◌, ◌++◌, arith, length, if◌then◌else◌,
  Bool-cases, Bytes, bytes, ◌==◌, nat_eq, list_eq,
}
use cs2640_final_project.RdmaContext.{RdmaContext, poll_completion, post_send}
use cs2640_final_project.Client.TwoSided.{Exchange, contains, run_two_sided}
use cs2640_final_project.Client.TwoSided.Conversation.{Finds, polls_lem}

-- an exchange in which no RDMA call fails, and the answer that comes
pub record Heard (e : Exchange) (answer : Bytes) : Type 0 where
  pub armed : e.armed ≡ true
  pub accepted : e.accepted ≡ true
  pub answers : Finds e answer

abbrev pub HeardAll : List Exchange → List Bytes → Type 0
HeardAll [] [] = Unit
HeardAll (e ∷ es) (a ∷ as') = Heard e a × HeardAll es as'
HeardAll es as' = ⊥

-- how many lines are requests: the empty ones are skipped
abbrev pub requests : List Bytes → ℕ
requests [] = 0
requests (line ∷ lines) = if line == [] then requests lines else 1 + requests lines

-- the answers up to the first one with BYE in it
abbrev pub until_bye : List Bytes → List Bytes
until_bye [] = []
until_bye (a ∷ as') = (a ++ 10 ∷ []) ∷ (if contains (bytes "BYE") a then [] else until_bye as')

if_line :
    (b : Bool) (line : Bytes) (rest : List Bytes)
    → (if b then line ∷ [] else line ∷ rest) ≡ line ∷ (if b then [] else rest)
if_line true line rest = refl
if_line false line rest = refl

-- Where no RDMA call fails and there is an answer for each non-empty line, `run_two_sided` prints
-- the answers, each with a line end, up to the first one that has "BYE" anywhere in it, and then it
-- stops: also where that answer is a value and lines are left.
pub run_two_sided-until_bye :
    (lines : List Bytes) (es : List Exchange) (answers : List Bytes) (d : RdmaContext)
    → HeardAll es answers
    → length answers ≡ requests lines
    → run_two_sided lines es d ≡ until_bye answers
unfolding run_two_sided
run_two_sided-until_bye [] es [] d h n = refl
run_two_sided-until_bye [] es (a ∷ as') d h n = absurd (omega (arith, n))
run_two_sided-until_bye (line ∷ lines) [] [] d h n = refl
run_two_sided-until_bye (line ∷ lines) [] (a ∷ as') d h n = absurd h
run_two_sided-until_bye (line ∷ lines) (e ∷ es) [] d h n = absurd h
run_two_sided-until_bye (line ∷ lines) (e ∷ es) (a ∷ as') d (h, hs) n =
    let p = poll_completion e.first (post_send (line ++ 10 ∷ []) d).1 in
    let q = poll_completion e.second p.context in
    let (first, second, text) = polls_lem e a (post_send (line ++ 10 ∷ []) d).1 h.answers in
    elim (Bool-cases (line == [])) [
      | inl empty ↦
          let later =
            run_two_sided-until_bye lines (e ∷ es) (a ∷ as') d (h, hs)
              (omega (arith, rw empty at n)) in
          rw (empty) later
      | inr full ↦
          let later =
            run_two_sided-until_bye lines es as' q.context hs (omega (arith, rw full at n)) in
          rw (full, h.armed, h.accepted, first, second, text, later)
            (if_line (contains (bytes "BYE") a) (a ++ 10 ∷ []) (until_bye as'))
    ]
