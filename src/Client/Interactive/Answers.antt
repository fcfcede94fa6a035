-- ===== src/Client/Interactive/Answers.antt =====
-- What the one-sided session prints, against a map from keys to values.
use cs2640_final_project.Prelude.{
  ℕ, ◌≡◌, ◌⊎◌, true, false, Option, none, some, List, [], ◌∷◌, ◌++◌, ◌==◌, nat_eq, list_eq,
  if◌then◌else◌, drop, Bytes, bytes,
}
use cs2640_final_project.Protocol.{
  RequestType, get, set, del, quit, invalid, Request, parse_request,
}
use cs2640_final_project.RdmaStore
use cs2640_final_project.RdmaStore.{RdmaStore, RdmaSlot, c_string}
use cs2640_final_project.RdmaStore.Valid.{IsKey, IsValid}
use cs2640_final_project.RdmaStore.Refine.{IsValue}
use cs2640_final_project.OneSided.{Fabric}
use cs2640_final_project.OneSided.Get.{Exports}
use cs2640_final_project.Client.Interactive.{
  starts_with, meta_prefix, value_line, not_found_line, ok_line, error_line, count_line,
}

abbrev pub Contents : Type 0
Contents = Bytes → Option Bytes

abbrev pub update : Contents → Bytes → Bytes → Contents
update m k v q = if k == q then some v else m q

abbrev pub get_lines : Option Bytes → List Bytes
get_lines none = not_found_line ∷ []
get_lines (some v) = value_line v ∷ []

abbrev pub meta_lines : Option Bytes → ℕ → List Bytes
meta_lines none n = not_found_line ∷ []
meta_lines (some v) n = value_line v ∷ count_line n ∷ []

abbrev pub IsPlain : Bytes → Type 0
IsPlain line = starts_with meta_prefix line ≡ false

-- what may be printed for a line that does not end the session, and the contents after it
pub data Answer (m : Contents) (line : Bytes) : Contents → List Bytes → Type 0 where
  blank : line ≡ [] → Answer m line m []
  counted :
      (n : ℕ)
      → starts_with meta_prefix line ≡ true
      → Answer m line m (meta_lines (m (drop 9 line)) n)
  fetched :
      IsPlain line
      → (parse_request line).type ≡ get
      → Answer m line m (get_lines (m (parse_request line).key))
  stored :
      IsPlain line
      → (parse_request line).type ≡ set
      → Answer m line (update m (parse_request line).key (parse_request line).value) (ok_line ∷ [])
  full :
      IsPlain line
      → (parse_request line).type ≡ set
      → m (parse_request line).key ≡ none
      → Answer m line m (error_line (bytes "remote table full") ∷ [])
  wrong :
      IsPlain line
      → ((parse_request line).type ≡ del) ⊎ ((parse_request line).type ≡ invalid)
      → Answer m line m (error_line (parse_request line).error ∷ [])

-- what may be printed for all lines
pub data Answers : Contents → List Bytes → List Bytes → Type 0 where
  finished : {m : Contents} → Answers m [] []
  ended :
      {m : Contents} {line : Bytes} {ls : List Bytes}
      → (parse_request line).type ≡ quit
      → Answers m (line ∷ ls) []
  answered :
      {m m' : Contents} {line : Bytes} {ls out rest : List Bytes}
      → Answer m line m' out
      → Answers m' ls rest
      → Answers m (line ∷ ls) (out ++ rest)

-- The keys and values of a line fit in a slot and hold no NUL.
abbrev pub RequestFits : RequestType → Request → Type 0
RequestFits get r = IsKey r.key
RequestFits set r = IsKey r.key × IsValue r.value
RequestFits t r = Unit

abbrev pub LineFits : Bytes → Type 0
LineFits line =
    (starts_with meta_prefix line ≡ true → IsKey (drop 9 line))
    × RequestFits (parse_request line).type (parse_request line)

-- A valid table with these contents is exported.
pub record Serves (f : Fabric) (base : ℕ) (m : Contents) (w : f.World) : Type 0 where
  pub store : RdmaStore
  pub valid : IsValid store
  pub same : (q : Bytes) → IsKey q → RdmaStore.get store q ≡ m q
  pub exported : Exports f base store w
