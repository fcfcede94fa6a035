-- ===== src/Protocol/Trim.antt =====
-- What the trimming loops of src/protocol/text_protocol.cpp leave.
use cs2640_final_project.Prelude.{
  ℕ, zero, suc, ◌≤◌, ◌≡◌, refl, ◌⊎◌, inl, inr, Bool, true, false, not, ◌&&◌, [], ◌∷◌, ◌++◌, arith,
  if◌then◌else◌, take, length, Bytes, All, ◌==◌, nat_eq,
}
use cs2640_final_project.Protocol.{is_space, is_empty, trim_left, trim_end, trim_right, trim}

abbrev pub IsBlank : Bytes → Type 0
IsBlank = All (λ c. is_space c ≡ true)

-- the first byte, or the last one, is there and is not whitespace
abbrev pub starts_ink : Bytes → Bool
starts_ink [] = false
starts_ink (c ∷ cs) = not (is_space c)

abbrev pub ends_ink : Bytes → Bool
ends_ink [] = false
ends_ink (c ∷ []) = not (is_space c)
ends_ink (c ∷ d ∷ cs) = ends_ink (d ∷ cs)

pub trim_left-starts : (xs : Bytes) → (trim_left xs ≡ []) ⊎ (starts_ink (trim_left xs) ≡ true)
unfolding trim_left
trim_left-starts [] = inl refl
trim_left-starts (c ∷ cs) = ground (arith, trim_left-starts cs)

pub trim_left-ink : (xs : Bytes) → starts_ink xs ≡ true → trim_left xs ≡ xs
unfolding trim_left
trim_left-ink [] h = refl
trim_left-ink (c ∷ cs) h = ground arith

pub trim_left-blank : (pre xs : Bytes) → IsBlank pre → trim_left (pre ++ xs) ≡ trim_left xs
unfolding trim_left
trim_left-blank [] xs h = refl
trim_left-blank (c ∷ pre) xs h = rw h.0 (trim_left-blank pre xs h.1)

-- The same trimming from the right by structural recursion.
pub rtrim : Bytes → Bytes
rtrim [] = []
rtrim (c ∷ cs) = let rest = rtrim cs in if is_empty rest && is_space c then [] else c ∷ rest

trim_end-le : (xs : Bytes) (n : ℕ) → trim_end xs n ≤ n
unfolding trim_end
trim_end-le xs zero = omega arith
trim_end-le xs (suc n) = ground (arith, trim_end-le xs n)

trim_end-cons :
    (c : ℕ) (xs : Bytes) (n : ℕ)
    → trim_end (c ∷ xs) (suc n)
      ≡ (if trim_end xs n == 0 && is_space c then 0 else suc (trim_end xs n))
unfolding trim_end
trim_end-cons c xs zero = ground arith
trim_end-cons c xs (suc n) = ground (arith, trim_end-cons c xs n)

is_empty-take : (n : ℕ) (xs : Bytes) → n ≤ length xs → is_empty (take n xs) ≡ (n == 0)
is_empty-take zero xs h = refl
is_empty-take (suc n) [] h = absurd (omega arith)
is_empty-take (suc n) (x ∷ xs) h = ground arith

-- The loop over the index does what the structural recursion does.
pub trim_right-rtrim : (xs : Bytes) → trim_right xs ≡ rtrim xs
unfolding trim_right rtrim trim_end
trim_right-rtrim [] = refl
trim_right-rtrim (c ∷ cs) =
    let z = trim_end cs (length cs) in
    rw
      (
        trim_end-cons c cs (length cs),
        ← trim_right-rtrim cs,
        is_empty-take z cs (trim_end-le cs (length cs)),
      )
      (ground (arith))

rtrim-ends : (xs : Bytes) → (rtrim xs ≡ []) ⊎ (ends_ink (rtrim xs) ≡ true)
unfolding rtrim
rtrim-ends [] = inl refl
rtrim-ends (c ∷ cs) = go (rtrim cs) (rtrim-ends cs)
  where
    go :
        (rest : Bytes)
        → (rest ≡ []) ⊎ (ends_ink rest ≡ true)
        → ((if is_empty rest && is_space c then [] else c ∷ rest) ≡ [])
          ⊎ (ends_ink (if is_empty rest && is_space c then [] else c ∷ rest) ≡ true)
    go [] h = ground arith
    go (d ∷ ds) h = ground arith

rtrim-blank : (post : Bytes) → IsBlank post → rtrim post ≡ []
unfolding rtrim
rtrim-blank [] h = refl
rtrim-blank (c ∷ cs) h = rw (rtrim-blank cs h.1, h.0)

rtrim-ink : (xs post : Bytes) → ends_ink xs ≡ true → IsBlank post → rtrim (xs ++ post) ≡ xs
unfolding rtrim
rtrim-ink [] post h b = cc
rtrim-ink (c ∷ []) post h b = rw (rtrim-blank post b) (ground arith)
rtrim-ink (c ∷ d ∷ cs) post h b = rw (rtrim-ink (d ∷ cs) post h b)

-- Trimming a text between blanks gives it back, if it starts and ends in ink.
pub trim_between :
    (pre xs post : Bytes)
    → IsBlank pre
    → starts_ink xs ≡ true
    → ends_ink xs ≡ true
    → IsBlank post
    → trim (pre ++ (xs ++ post)) ≡ xs
unfolding trim
trim_between pre [] post p s e q = cc
trim_between pre (c ∷ cs) post p s e q =
    rw (trim_left-blank pre (c ∷ cs ++ post) p, trim_left-ink (c ∷ cs ++ post) s, trim_right-rtrim)
      (rtrim-ink (c ∷ cs) post e q)

pub starts_ink-append : (xs ys : Bytes) → starts_ink xs ≡ true → starts_ink (xs ++ ys) ≡ true
starts_ink-append [] ys h = cc
starts_ink-append (c ∷ cs) ys h = h

pub ends_ink-append : (xs ys : Bytes) → ends_ink ys ≡ true → ends_ink (xs ++ ys) ≡ true
ends_ink-append [] ys h = h
ends_ink-append (c ∷ []) [] h = cc
ends_ink-append (c ∷ []) (d ∷ ds) h = h
ends_ink-append (c ∷ d ∷ cs) ys h = ends_ink-append (d ∷ cs) ys h

-- The end of a text is the end of any part of it that is not empty.
pub append-ends_ink :
    (xs : Bytes) (c : ℕ) (cs : Bytes) → ends_ink (xs ++ c ∷ cs) ≡ true → ends_ink (c ∷ cs) ≡ true
append-ends_ink [] c cs h = h
append-ends_ink (a ∷ []) c cs h = h
append-ends_ink (a ∷ b ∷ xs) c cs h = append-ends_ink (b ∷ xs) c cs h

pub trim_left-ends : (xs : Bytes) → ends_ink xs ≡ true → ends_ink (trim_left xs) ≡ true
unfolding trim_left
trim_left-ends [] h = h
trim_left-ends (c ∷ []) h = ground arith
trim_left-ends (c ∷ d ∷ cs) h = ground (arith, trim_left-ends (d ∷ cs))

-- `trim` leaves nothing, or a text that starts and ends in ink.
pub trim_ink :
    (xs : Bytes) → (trim xs ≡ []) ⊎ ((starts_ink (trim xs) ≡ true) × (ends_ink (trim xs) ≡ true))
unfolding trim rtrim
trim_ink xs =
    rw trim_right-rtrim (go (trim_left xs) (trim_left-starts xs) (rtrim-ends (trim_left xs)))
  where
    go :
        (ys : Bytes)
        → (ys ≡ []) ⊎ (starts_ink ys ≡ true)
        → (rtrim ys ≡ []) ⊎ (ends_ink (rtrim ys) ≡ true)
        → (rtrim ys ≡ []) ⊎ ((starts_ink (rtrim ys) ≡ true) × (ends_ink (rtrim ys) ≡ true))
    go [] h (inl e) = inl e
    go [] h (inr e) = inl refl
    go (c ∷ cs) h (inl e) = inl e
    go (c ∷ cs) h (inr e) = ground arith
