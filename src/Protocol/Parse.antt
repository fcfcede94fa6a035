-- ===== src/Protocol/Parse.antt =====
-- Which requests `parse_request` of src/protocol/text_protocol.cpp returns.
use cs2640_final_project.Prelude.{
  ℕ, zero, suc, ◌≡◌, refl, ◌∙◌, ◌⊎◌, inl, inr, true, false, ◌||◌, some, [], ◌∷◌, ◌++◌, arith, ◌==◌,
  nat_eq, list_eq, if◌then◌else◌, take, drop, Bool-cases, Option-cases, Bytes, bytes,
}
use cs2640_final_project.Protocol.{
  RequestType, Request, get, set, del, quit, invalid, is_empty, lower_copy, find, trim_left, trim,
  parse_key, check_set, parse_set, parse_command, parse_cleaned, parse_request, request,
  invalid_request,
}
use cs2640_final_project.Protocol.Trim.{
  starts_ink, ends_ink, trim_left-starts, trim_left-ends, append-ends_ink, trim_ink,
}
use cs2640_final_project.Protocol.Find.{has, find-eq-none, find-eq-some, find-nil}

-- a key that starts in ink and holds no space
pub record IsKey (k : Bytes) : Type 0 where
  pub starts : starts_ink k ≡ true
  pub one_word : has b' ' k ≡ false

pub record IsValue (v : Bytes) : Type 0 where
  pub starts : starts_ink v ≡ true
  pub ends : ends_ink v ≡ true

-- the explanations that a refused line can get
pub data IsMessage (m : Bytes) : Type 0 where
  empty_request : m ≡ bytes "empty request" → IsMessage m
  no_get_key : m ≡ bytes "GET requires a key" → IsMessage m
  many_get_keys : m ≡ bytes "GET accepts exactly one key" → IsMessage m
  no_del_key : m ≡ bytes "DEL requires a key" → IsMessage m
  many_del_keys : m ≡ bytes "DEL accepts exactly one key" → IsMessage m
  no_set_arguments : m ≡ bytes "SET requires a key and a value" → IsMessage m
  unknown_command :
      (command : Bytes)
      → has b' ' command ≡ false
      → m ≡ bytes "unknown command: " ++ command
      → IsMessage m

abbrev pub WellFormedAs : RequestType → Bytes → Bytes → Bytes → Type 0
WellFormedAs get k v e = IsKey k × (ends_ink k ≡ true) × (v ≡ []) × (e ≡ [])
WellFormedAs del k v e = IsKey k × (ends_ink k ≡ true) × (v ≡ []) × (e ≡ [])
WellFormedAs set k v e = IsKey k × IsValue v × (e ≡ [])
WellFormedAs quit k v e = (k ≡ []) × (v ≡ []) × (e ≡ [])
WellFormedAs invalid k v e = (k ≡ []) × (v ≡ []) × IsMessage e

abbrev pub IsWellFormed : Request → Type 0
IsWellFormed r = WellFormedAs r.type r.key r.value r.error

-- the argument area: nothing, or a text that starts and ends in ink
abbrev IsArea : Bytes → Type 0
IsArea xs = (xs ≡ []) ⊎ ((starts_ink xs ≡ true) × (ends_ink xs ≡ true))

pub has-lower_copy : (xs : Bytes) → has b' ' (lower_copy xs) ≡ has b' ' xs
unfolding lower_copy
has-lower_copy [] = refl
has-lower_copy (c ∷ cs) = ground (arith, has-lower_copy cs)

-- the text after a space in a text that ends in ink
area_after :
    (xs : Bytes) (n : ℕ)
    → ends_ink xs ≡ true
    → find b' ' xs ≡ some n
    → (starts_ink (trim_left (drop (suc n) xs)) ≡ true)
      × (ends_ink (trim_left (drop (suc n) xs)) ≡ true)
area_after xs n e f =
    let (before, split) = find-eq-some b' ' xs n f in
    let tail : ends_ink (b' ' ∷ drop (suc n) xs) ≡ true =
      append-ends_ink (take n xs) b' ' (drop (suc n) xs) (rw split at e) in
    go (drop (suc n) xs) tail
  where
    go :
        (rest : Bytes)
        → ends_ink (b' ' ∷ rest) ≡ true
        → (starts_ink (trim_left rest) ≡ true) × (ends_ink (trim_left rest) ≡ true)
    go [] h = cc
    go (c ∷ cs) h = ground (arith, trim_left-starts (c ∷ cs), trim_left-ends (c ∷ cs))

area_ink :
    (c : ℕ) (cs : Bytes)
    → IsArea (c ∷ cs)
    → (starts_ink (c ∷ cs) ≡ true) × (ends_ink (c ∷ cs) ≡ true)
area_ink c cs (inl e) = cc
area_ink c cs (inr p) = p

-- the outcomes of GET and DEL
data KeyOutcome (t : RequestType) (missing several xs : Bytes) (r : Request) : Type 0 where
  none_given : r ≡ invalid_request missing → KeyOutcome t missing several xs r
  many_given : r ≡ invalid_request several → KeyOutcome t missing several xs r
  one_given :
      r ≡ request t xs [] → IsKey xs → ends_ink xs ≡ true → KeyOutcome t missing several xs r

parse_key-KeyOutcome :
    (t : RequestType) (m n xs : Bytes) → IsArea xs → KeyOutcome t m n xs (parse_key t m n xs)
unfolding parse_key
parse_key-KeyOutcome t m n [] h = none_given refl
parse_key-KeyOutcome t m n (c ∷ cs) h = elim (Option-cases (find b' ' (c ∷ cs))) [
  | inr (i, e) ↦ many_given (rw e)
  | inl e ↦
      let (s, z) = area_ink c cs h in
      one_given (rw e) (record { starts = s; one_word = find-eq-none b' ' (c ∷ cs) e }) z
]

parse_get-IsWellFormed :
    (m n xs : Bytes) (r : Request)
    → IsMessage m
    → IsMessage n
    → KeyOutcome get m n xs r
    → IsWellFormed r
parse_get-IsWellFormed m n xs r p q (none_given e) = rw e (refl, refl, p)
parse_get-IsWellFormed m n xs r p q (many_given e) = rw e (refl, refl, q)
parse_get-IsWellFormed m n xs r p q (one_given e k z) = rw e (k, z, refl, refl)

parse_del-IsWellFormed :
    (m n xs : Bytes) (r : Request)
    → IsMessage m
    → IsMessage n
    → KeyOutcome del m n xs r
    → IsWellFormed r
parse_del-IsWellFormed m n xs r p q (none_given e) = rw e (refl, refl, p)
parse_del-IsWellFormed m n xs r p q (many_given e) = rw e (refl, refl, q)
parse_del-IsWellFormed m n xs r p q (one_given e k z) = rw e (k, z, refl, refl)

-- a prefix that is not empty starts as the text does
starts_ink-take :
    (n : ℕ) (xs : Bytes)
    → starts_ink xs ≡ true
    → find b' ' xs ≡ some n
    → starts_ink (take n xs) ≡ true
unfolding find
starts_ink-take n [] s f = cc
starts_ink-take zero (c ∷ cs) s f = ground arith
starts_ink-take (suc n) (c ∷ cs) s f = s

pub check_set-IsWellFormed : (k v : Bytes) → IsKey k → IsValue v → check_set k v ≡ request set k v
unfolding check_set
check_set-IsWellFormed [] v p q = cc (p.starts)
check_set-IsWellFormed (c ∷ cs) [] p q = cc (q.starts)
check_set-IsWellFormed (c ∷ cs) (d ∷ ds) p q = refl

parse_set-IsWellFormed : (xs : Bytes) → IsArea xs → IsWellFormed (parse_set xs)
unfolding parse_set
parse_set-IsWellFormed xs h = elim (Option-cases (find b' ' xs)) [
  | inl e ↦ rw (e, parse_set) (refl, refl, no_set_arguments refl)
  | inr (n, e) ↦ rw (e, parse_set) (split xs n h e)
]
  where
    split :
        (ys : Bytes) (n : ℕ)
        → IsArea ys
        → find b' ' ys ≡ some n
        → IsWellFormed (check_set (take n ys) (trim_left (drop (suc n) ys)))
    split [] n h e = absurd (find-nil b' ' n e)
    split (c ∷ cs) n h e =
        let (s, z) = area_ink c cs h in
        let (vs, vz) = area_after (c ∷ cs) n z e in
        let k : IsKey (take n (c ∷ cs)) = record {
          starts = starts_ink-take n (c ∷ cs) s e;
          one_word = (find-eq-some b' ' (c ∷ cs) n e).0;
        } in
        let v : IsValue (trim_left (drop (suc n) (c ∷ cs))) = record { starts = vs; ends = vz } in
        rw (check_set-IsWellFormed _ _ k v) (k, v, refl)

-- a command without a space, and its argument area
parse_command-IsWellFormed :
    (command xs : Bytes)
    → has b' ' command ≡ false
    → IsArea xs
    → IsWellFormed (parse_command command xs)
unfolding parse_command
parse_command-IsWellFormed command xs h a = elim (Bool-cases (command == bytes "get")) [
  | inl e ↦ rw e (
      parse_get-IsWellFormed _ _ xs _ (no_get_key refl) (many_get_keys refl)
        (parse_key-KeyOutcome get _ _ xs a))
  | inr e ↦ rw e (elim (Bool-cases (command == bytes "del" || command == bytes "delete")) [
    | inl d ↦ rw d (
        parse_del-IsWellFormed _ _ xs _ (no_del_key refl) (many_del_keys refl)
          (parse_key-KeyOutcome del _ _ xs a))
    | inr d ↦ rw d (elim (Bool-cases (command == bytes "set")) [
      | inl s ↦ rw s (parse_set-IsWellFormed xs a)
      | inr s ↦ rw s (elim (Bool-cases (command == bytes "quit" || command == bytes "exit")) [
        | inl q ↦ rw q (refl, refl, refl)
        | inr q ↦ rw q (refl, refl, unknown_command command h refl)
      ])
    ])
  ])
]

parse_cleaned-IsWellFormed : (xs : Bytes) → ends_ink xs ≡ true → IsWellFormed (parse_cleaned xs)
unfolding parse_cleaned
parse_cleaned-IsWellFormed xs z = elim (Option-cases (find b' ' xs)) [
  | inl e ↦
      rw (e, parse_cleaned)
        (parse_command-IsWellFormed (lower_copy xs) [] (has-lower_copy xs ∙ find-eq-none b' ' xs e)
          (inl refl))
  | inr (n, e) ↦
      rw (e, parse_cleaned)
        (parse_command-IsWellFormed (lower_copy (take n xs)) _
          (has-lower_copy (take n xs) ∙ (find-eq-some b' ' xs n e).0) (inr (area_after xs n z e)))
]

-- Whatever the line, the request is well formed: GET and DEL have one key without spaces that starts
-- and ends in ink, SET has a key without spaces that starts in ink and a value that starts and ends
-- in ink, QUIT has neither, and a refused line has one of seven messages. So the two messages of SET
-- about an empty key or value are never given.
pub parse_request-IsWellFormed : (line : Bytes) → IsWellFormed (parse_request line)
unfolding parse_request
parse_request-IsWellFormed line = go (trim line) (trim_ink line)
  where
    go :
        (xs : Bytes)
        → IsArea xs
        → IsWellFormed
            (if is_empty xs then invalid_request (bytes "empty request") else parse_cleaned xs)
    go [] h = (refl, refl, empty_request refl)
    go (c ∷ cs) h = parse_cleaned-IsWellFormed (c ∷ cs) (area_ink c cs h).1
