-- ===== src/Protocol/Serialize.antt =====
-- The response lines of `serialize_response`.
use cs2640_final_project.Prelude.{
  ℕ, ◌<◌, ◌≡◌, refl, false, [], ◌∷◌, ◌++◌, arith, length, has-append_false, Bytes, bytes, nat_eq,
}
use cs2640_final_project.Protocol.{
  ResponseType, Response, ok, value, not_found, error, bye, serialize_by, serialize_response,
}
use cs2640_final_project.Protocol.Find.{has}

pub serialize_response_pos : (r : Response) → 0 < length (serialize_response r)
unfolding serialize_response
serialize_response_pos r = go r.type
  where
    go : (t : ResponseType) → 0 < length (serialize_by t r.payload)
    go ok = omega arith
    go value = omega arith
    go not_found = omega arith
    go error = omega arith
    go bye = omega arith

-- A response whose payload holds no newline is one line: text without a newline, and a newline.
pub serialize_response_line :
    (r : Response)
    → has 10 r.payload ≡ false
    → (text : Bytes) × (serialize_response r ≡ text ++ 10 ∷ []) × (has 10 text ≡ false)
unfolding serialize_response
serialize_response_line r h = go r.type
  where
    go :
        (t : ResponseType)
        → (text : Bytes) × (serialize_by t r.payload ≡ text ++ 10 ∷ []) × (has 10 text ≡ false)
    go ok = (bytes "OK", refl, refl)
    go value =
        (bytes "VALUE " ++ r.payload, refl, has-append_false 10 (bytes "VALUE ") r.payload refl h)
    go not_found = (bytes "NOT_FOUND", refl, refl)
    go error =
        (bytes "ERROR " ++ r.payload, refl, has-append_false 10 (bytes "ERROR ") r.payload refl h)
    go bye = (bytes "BYE", refl, refl)

-- only VALUE and ERROR carry a payload
abbrev pub CarriesPayload : ResponseType → Bytes → Type 0
CarriesPayload value p = Unit
CarriesPayload error p = Unit
CarriesPayload t p = p ≡ []

append_cancel : (c : ℕ) (xs ys : Bytes) → xs ++ c ∷ [] ≡ ys ++ c ∷ [] → xs ≡ ys
append_cancel c [] [] h = refl
append_cancel c [] (y ∷ []) h = cc
append_cancel c [] (y ∷ z ∷ ys) h = cc
append_cancel c (x ∷ []) [] h = cc
append_cancel c (x ∷ z ∷ xs) [] h = cc
append_cancel c (x ∷ xs) (y ∷ ys) h = ground (arith, append_cancel c xs ys)

by_injective :
    (t u : ResponseType) (p q : Bytes)
    → CarriesPayload t p
    → CarriesPayload u q
    → serialize_by t p ≡ serialize_by u q
    → (t ≡ u) × (p ≡ q)
unfolding serialize_by
by_injective ok ok p q a b h = (refl, cc)
by_injective not_found not_found p q a b h = (refl, cc)
by_injective bye bye p q a b h = (refl, cc)
by_injective value value p q a b h = (refl, append_cancel 10 p q (cc))
by_injective error error p q a b h = (refl, append_cancel 10 p q (cc))
by_injective t u p q a b h = ground arith

-- No two responses have the same text, where a response whose type has no payload carries none: a client can tell from the line what the server answered.
pub serialize_response_injective :
    (r s : Response)
    → CarriesPayload r.type r.payload
    → CarriesPayload s.type s.payload
    → serialize_response r ≡ serialize_response s
    → r ≡ s
unfolding serialize_response
serialize_response_injective r s a b h =
    let (t, p) = by_injective r.type s.type r.payload s.payload a b h in cc
