-- ===== src/Protocol.antt =====
-- The text protocol: include/protocol/text_protocol.hpp and src/protocol/text_protocol.cpp.
-- The proofs are in the modules below.
pub mod Trim
pub mod Find
pub mod Parse
pub mod RoundTrip
pub mod Serialize
pub mod Clean
use cs2640_final_project.Prelude.{
  ℕ, zero, suc, ◌+◌, Bool, true, false, ◌&&◌, ◌||◌, Option, none, some, List, [], ◌∷◌, ◌++◌, map,
  ltb, leb, ◌==◌, nat_eq, list_eq, if◌then◌else◌, take, drop, length, get_or, Bytes, bytes,
}

pub data RequestType : Type 0 where
  get set del quit invalid : RequestType

pub data ResponseType : Type 0 where
  ok value not_found error bye : ResponseType

pub record Request : Type 0 where
  pub type : RequestType
  pub key : Bytes
  pub value : Bytes
  pub error : Bytes

pub record Response : Type 0 where
  pub type : ResponseType
  pub payload : Bytes

-- `std::isspace` and `std::tolower` in the C locale
abbrev pub is_space : ℕ → Bool
is_space c = c == 32 || (leb 9 c && leb c 13)

abbrev pub to_lower : ℕ → ℕ
to_lower c = if leb b'A' c && leb c b'Z' then c + 32 else c

-- `text.substr(start)` after `start` has passed the leading whitespace
unfoldable pub trim_left : Bytes → Bytes
trim_left [] = []
trim_left (c ∷ cs) = if is_space c then trim_left cs else c ∷ cs

-- the loop over `end`, which moves left while whitespace remains
unfoldable pub trim_end : Bytes → ℕ → ℕ
trim_end text zero = 0
trim_end text (suc end) = if is_space (get_or text end 0) then trim_end text end else suc end

unfoldable pub trim_right : Bytes → Bytes
trim_right text = take (trim_end text (length text)) text

unfoldable pub trim : Bytes → Bytes
trim text = trim_right (trim_left text)

unfoldable pub lower_copy : Bytes → Bytes
lower_copy = map to_lower

-- `text.find(b)`, where `none` is `npos`
unfoldable pub find : ℕ → Bytes → Option ℕ
find b [] = none
find b (c ∷ cs) =
    if c == b then some 0 else elim (find b cs) [ none ↦ none | some n ↦ some (suc n) ]

abbrev pub is_empty : Bytes → Bool
is_empty [] = true
is_empty (c ∷ cs) = false

abbrev pub invalid_request : Bytes → Request
invalid_request message = record { type = invalid; key = []; value = []; error = message }

abbrev pub request : RequestType → Bytes → Bytes → Request
request t k v = record { type = t; key = k; value = v; error = [] }

-- the branches for GET and DEL: exactly one key
unfoldable pub parse_key : RequestType → Bytes → Bytes → Bytes → Request
parse_key type missing several remainder =
    if is_empty remainder then invalid_request missing else elim (find b' ' remainder) [
      | some _ ↦ invalid_request several
      | none ↦ request type remainder []
    ]

-- the checks of SET after the split of the arguments
unfoldable pub check_set : Bytes → Bytes → Request
check_set k v =
    if is_empty k
    then invalid_request (bytes "SET requires a non-empty key")
    else if is_empty v
    then invalid_request (bytes "SET requires a non-empty value")
    else request set k v

-- the branch for SET: the first space separates the key from the value
unfoldable pub parse_set : Bytes → Request
parse_set remainder = elim (find b' ' remainder) [
  | none ↦ invalid_request (bytes "SET requires a key and a value")
  | some key_end ↦ check_set (take key_end remainder) (trim_left (drop (suc key_end) remainder))
]

unfoldable pub parse_command : Bytes → Bytes → Request
parse_command command remainder =
    if command == bytes "get"
    then parse_key get (bytes "GET requires a key") (bytes "GET accepts exactly one key") remainder
    else if command == bytes "del" || command == bytes "delete"
    then parse_key del (bytes "DEL requires a key") (bytes "DEL accepts exactly one key") remainder
    else if command == bytes "set"
    then parse_set remainder
    else if command == bytes "quit" || command == bytes "exit"
    then request quit [] []
    else invalid_request (bytes "unknown command: " ++ command)

-- a line that is trimmed and not empty: the first space ends the command
unfoldable pub parse_cleaned : Bytes → Request
parse_cleaned cleaned = elim (find b' ' cleaned) [
  | none ↦ parse_command (lower_copy cleaned) []
  | some first_space ↦
      parse_command (lower_copy (take first_space cleaned))
        (trim_left (drop (suc first_space) cleaned))
]

unfoldable pub parse_request : Bytes → Request
parse_request line =
    let cleaned = trim line in
    if is_empty cleaned then invalid_request (bytes "empty request") else parse_cleaned cleaned

unfoldable pub serialize_by : ResponseType → Bytes → Bytes
serialize_by ok payload = bytes "OK" ++ 10 ∷ []
serialize_by value payload = bytes "VALUE " ++ (payload ++ 10 ∷ [])
serialize_by not_found payload = bytes "NOT_FOUND" ++ 10 ∷ []
serialize_by error payload = bytes "ERROR " ++ (payload ++ 10 ∷ [])
serialize_by bye payload = bytes "BYE" ++ 10 ∷ []

unfoldable pub serialize_response : Response → Bytes
unfolding serialize_by
serialize_response response = serialize_by response.type response.payload
