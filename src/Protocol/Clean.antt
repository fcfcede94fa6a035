-- ===== src/Protocol/Clean.antt =====
-- A line without a newline gives a request without one.
use cs2640_final_project.Prelude.{
  ℕ, zero, suc, ◌≡◌, refl, false, ◌||◌, [], ◌∷◌, arith, ◌==◌, nat_eq, list_eq, take, drop, has,
  has-append_false, if◌then◌else◌, Option-cases, inl, inr, Bytes, bytes, Bool, true,
}
use cs2640_final_project.Protocol.{
  RequestType, Request, get, del, is_empty, lower_copy, find, trim_left, trim_right, trim,
  invalid_request, parse_key, check_set, parse_set, parse_command, parse_cleaned, parse_request,
}

abbrev pub IsClean : Bytes → Type 0
IsClean xs = has 10 xs ≡ false

pub record CleanRequest (r : Request) : Type 0 where
  pub key : IsClean r.key
  pub value : IsClean r.value
  pub error : IsClean r.error

take-IsClean : (n : ℕ) (xs : Bytes) → IsClean xs → IsClean (take n xs)
take-IsClean zero xs h = refl
take-IsClean (suc n) [] h = refl
take-IsClean (suc n) (c ∷ cs) h = ground (arith, take-IsClean n cs)

drop-IsClean : (n : ℕ) (xs : Bytes) → IsClean xs → IsClean (drop n xs)
drop-IsClean zero xs h = h
drop-IsClean (suc n) [] h = refl
drop-IsClean (suc n) (c ∷ cs) h = drop-IsClean n cs (ground arith)

trim_left-IsClean : (xs : Bytes) → IsClean xs → IsClean (trim_left xs)
unfolding trim_left
trim_left-IsClean [] h = refl
trim_left-IsClean (c ∷ cs) h = ground (arith, trim_left-IsClean cs)

trim-IsClean : (xs : Bytes) → IsClean xs → IsClean (trim xs)
unfolding trim trim_right
trim-IsClean xs h = take-IsClean _ (trim_left xs) (trim_left-IsClean xs h)

lower_copy-IsClean : (xs : Bytes) → IsClean xs → IsClean (lower_copy xs)
unfolding lower_copy
lower_copy-IsClean [] h = refl
lower_copy-IsClean (c ∷ cs) h = ground (arith, lower_copy-IsClean cs)

refused-CleanRequest : (m : Bytes) → IsClean m → CleanRequest (invalid_request m)
refused-CleanRequest m h = record { key = refl; value = refl; error = h }

parse_key-CleanRequest :
    (t : RequestType) (m n xs : Bytes)
    → IsClean m
    → IsClean n
    → IsClean xs
    → CleanRequest (parse_key t m n xs)
unfolding parse_key
parse_key-CleanRequest t m n [] p q h = refused-CleanRequest m p
parse_key-CleanRequest t m n (c ∷ cs) p q h = elim (Option-cases (find b' ' (c ∷ cs))) [
  | inr (i, e) ↦ rw e (refused-CleanRequest n q)
  | inl e ↦ rw e (record { key = h; value = refl; error = refl })
]

check_set-CleanRequest : (k v : Bytes) → IsClean k → IsClean v → CleanRequest (check_set k v)
unfolding check_set
check_set-CleanRequest [] v p q = refused-CleanRequest _ refl
check_set-CleanRequest (c ∷ cs) [] p q = refused-CleanRequest _ refl
check_set-CleanRequest (c ∷ cs) (d ∷ ds) p q = record { key = p; value = q; error = refl }

parse_set-CleanRequest : (xs : Bytes) → IsClean xs → CleanRequest (parse_set xs)
unfolding parse_set
parse_set-CleanRequest xs h = elim (Option-cases (find b' ' xs)) [
  | inl e ↦ rw (e, parse_set) (refused-CleanRequest _ refl)
  | inr (n, e) ↦
      rw (e, parse_set)
        (check_set-CleanRequest _ _ (take-IsClean n xs h)
          (trim_left-IsClean _ (drop-IsClean (suc n) xs h)))
]

if-CleanRequest :
    (b : Bool) (r s : Request) → CleanRequest r → CleanRequest s → CleanRequest (if b then r else s)
if-CleanRequest true r s p q = p
if-CleanRequest false r s p q = q

parse_command-CleanRequest :
    (command xs : Bytes) → IsClean command → IsClean xs → CleanRequest (parse_command command xs)
unfolding parse_command
parse_command-CleanRequest command xs h k =
    if-CleanRequest (command == bytes "get") _ _ (parse_key-CleanRequest get _ _ xs refl refl k) (
      if-CleanRequest (command == bytes "del" || command == bytes "delete") _ _
        (parse_key-CleanRequest del _ _ xs refl refl k)
        (if-CleanRequest (command == bytes "set") _ _ (parse_set-CleanRequest xs k) (
          if-CleanRequest (command == bytes "quit" || command == bytes "exit") _ _
            (record { key = refl; value = refl; error = refl })
            (refused-CleanRequest _
              (has-append_false 10 (bytes "unknown command: ") command refl h)))))

parse_cleaned-CleanRequest : (xs : Bytes) → IsClean xs → CleanRequest (parse_cleaned xs)
unfolding parse_cleaned
parse_cleaned-CleanRequest xs h = elim (Option-cases (find b' ' xs)) [
  | inl e ↦ rw (e, parse_cleaned) (parse_command-CleanRequest _ [] (lower_copy-IsClean xs h) refl)
  | inr (n, e) ↦
      rw (e, parse_cleaned)
        (parse_command-CleanRequest _ _ (lower_copy-IsClean _ (take-IsClean n xs h))
          (trim_left-IsClean _ (drop-IsClean (suc n) xs h)))
]

-- The request of a line without a newline holds none: not in the key, the value or the message.
pub parse_request-CleanRequest : (line : Bytes) → IsClean line → CleanRequest (parse_request line)
unfolding parse_request
parse_request-CleanRequest line h =
    if-CleanRequest (is_empty (trim line)) _ _ (refused-CleanRequest _ refl)
      (parse_cleaned-CleanRequest (trim line) (trim-IsClean line h))
