-- ===== src/Sockets/Write.antt =====
-- What the write loops hand to the kernel.
use cs2640_final_project.Prelude.{
  ℕ, zero, suc, ◌+◌, ◌≤◌, ◌≡◌, ◌≢◌, refl, Bool, true, false, Option, none, some, List, [], ◌∷◌,
  ◌++◌, arith, ltb, nat_eq, length, take, drop, take-append-drop, Bool-cases, inl, inr, Bytes,
}
use cs2640_final_project.Sockets.{Sent, sent, interrupted, failed, Written, written, write_all}

take-add : (a n : ℕ) (xs : Bytes) → take (a + n) xs ≡ take a xs ++ take n (drop a xs)
take-add zero n xs = let e : 0 + n ≡ n = omega arith in rw e
take-add (suc a) zero [] = let e : suc a + 0 ≡ suc a = omega arith in rw e
take-add (suc a) (suc n) [] = let e : suc a + suc n ≡ suc (a + suc n) = omega arith in rw e
take-add (suc a) n (x ∷ xs) =
    let e : suc a + n ≡ suc (a + n) = omega arith in rw (e, take-add a n xs)

take_all : (n : ℕ) (xs : Bytes) → length xs ≤ n → take n xs ≡ xs
take_all zero [] h = refl
take_all zero (x ∷ xs) h = absurd (omega arith)
take_all (suc n) [] h = refl
take_all (suc n) (x ∷ xs) h = rw (take_all n xs (omega arith))

-- What the kernel took is the start of the text, and all of it if the loop reports success.
pub record Delivers (text : Bytes) (w : Written) : Type 0 where
  pub rest : Bytes
  pub start : w.taken ++ rest ≡ text
  pub whole : w.result ≡ some true → w.taken ≡ text

partly :
    (text : Bytes) (n : ℕ) (r : Option Bool) (l : List Sent)
    → r ≢ some true
    → Delivers text (written r (take n text) l)
partly text n r l h = record {
  rest = drop n text;
  start = take-append-drop n text;
  whole = λ e. absurd (h e);
}

fully :
    (text : Bytes) (n : ℕ) (l : List Sent)
    → ltb n (length text) ≡ false
    → Delivers text (written (some true) (take n text) l)
fully text n l h = record {
  rest = drop n text;
  start = take-append-drop n text;
  whole = λ e. take_all n text (ground arith);
}

loop-Delivers :
    (text : Bytes) (total : ℕ) (answers : List Sent)
    → Delivers text (write_all text total (take total text) answers)
unfolding write_all
loop-Delivers text total [] = elim (Bool-cases (ltb total (length text))) [
  | inl more ↦ rw more (partly text total none [] (λ e. cc e))
  | inr end ↦ rw end (fully text total [] end)
]
loop-Delivers text total (a ∷ rest) = elim (Bool-cases (ltb total (length text))) [
  | inr end ↦ rw end (fully text total (a ∷ rest) end)
  | inl more ↦
      rw more (go a (λ n. loop-Delivers text (total + n) rest) (loop-Delivers text total rest))
]
  where
    go :
        (b : Sent)
        → ((n : ℕ) → Delivers text (write_all text (total + n) (take (total + n) text) rest))
        → Delivers text (write_all text total (take total text) rest)
        → Delivers text (elim b [
          | sent n ↦ write_all text (total + n) (take total text ++ take n (drop total text)) rest
          | interrupted ↦ write_all text total (take total text) rest
          | failed ↦ written (some false) (take total text) rest
        ])
    go (sent n) p q = rw (← take-add total n text) (p n)
    go interrupted p q = q
    go failed p q = partly text total (some false) rest (λ e. cc e)

-- Whatever the kernel answers, what `write_all` has handed over is the start of the text, in order and
-- with nothing sent twice; and it is the whole text if `write_all` returns true.
pub write_all-Delivers :
    (text : Bytes) (answers : List Sent) → Delivers text (write_all text 0 [] answers)
write_all-Delivers text answers = loop-Delivers text 0 answers

-- how much the kernel takes in all, and whether it never fails
unfoldable pub total_taken : List Sent → ℕ
total_taken [] = 0
total_taken (sent n ∷ rest) = n + total_taken rest
total_taken (interrupted ∷ rest) = total_taken rest
total_taken (failed ∷ rest) = total_taken rest

abbrev pub never_fails : List Sent → Bool
never_fails [] = true
never_fails (sent n ∷ rest) = never_fails rest
never_fails (interrupted ∷ rest) = never_fails rest
never_fails (failed ∷ rest) = false

loop-result :
    (text : Bytes) (total : ℕ) (acc : Bytes) (answers : List Sent)
    → never_fails answers ≡ true
    → length text ≤ total + total_taken answers
    → (write_all text total acc answers).result ≡ some true
unfolding write_all total_taken
loop-result text total acc [] h l = ground arith
loop-result text total acc (sent n ∷ rest) h l =
    ground (arith, loop-result text (total + n) (acc ++ take n (drop total text)) rest)
loop-result text total acc (interrupted ∷ rest) h l =
    ground (arith, loop-result text total acc rest)
loop-result text total acc (failed ∷ rest) h l = cc

-- `write_all` ends with success once the kernel, interrupted or not, has taken as many bytes as the
-- text has.
pub write_all-result :
    (text : Bytes) (answers : List Sent)
    → never_fails answers ≡ true
    → length text ≤ total_taken answers
    → (write_all text 0 [] answers).result ≡ some true
write_all-result text answers h l = loop-result text 0 [] answers h (omega arith)
