-- ===== src/Client/Benchmark/Csv/Sheet.antt =====
-- A CSV file with some rows: what `append_row` makes of it, and what is read back.
use cs2640_final_project.Prelude.{
  ℕ, ◌≡◌, refl, ap, ◌∙◌, Bool, true, false, not, ◌&&◌, Option, none, some, List, [], ◌∷◌, ◌++◌,
  arith, has, All, Bytes, bytes, append_assoc,
}
use cs2640_final_project.Prelude.Decimal.{decimal}
use cs2640_final_project.Preload.Numerals.{decimal_digits-has}
use cs2640_final_project.Server.Session.Answers.{lines_of}
use cs2640_final_project.Client.Benchmark.Csv.{
  header_text, row_text, contents, write_header, append_row,
}
use cs2640_final_project.Client.Benchmark.Csv.Fields.{table_of, IsField, table_of_row}

-- the names of the columns
abbrev pub columns : List Bytes
columns =
    bytes "port"
    ∷ bytes "clients"
    ∷ bytes "operations"
    ∷ bytes "keys"
    ∷ bytes "value_size"
    ∷ bytes "get_ratio"
    ∷ bytes "zipf_s"
    ∷ bytes "warmup"
    ∷ bytes "prefill"
    ∷ bytes "elapsed_seconds"
    ∷ bytes "throughput_rps"
    ∷ bytes "mean_latency_us"
    ∷ bytes "p50_latency_us"
    ∷ bytes "p95_latency_us"
    ∷ bytes "p99_latency_us"
    ∷ bytes "measured_ok_responses"
    ∷ bytes "measured_errors"
    ∷ bytes "warmup_ok_responses"
    ∷ bytes "warmup_errors"
    ∷ []

abbrev pub header_row : List Bytes
header_row = bytes "host" ∷ columns

header_text_row : header_text ≡ row_text (bytes "host") columns
unfolding row_text
header_text_row = refl

is_field : Bytes → Bool
is_field f = not (has 44 f) && not (has 10 f)

all_fields : List Bytes → Bool
unfolding is_field
all_fields [] = true
all_fields (f ∷ fs) = is_field f && all_fields fs

all_fields_sound : (fs : List Bytes) → all_fields fs ≡ true → All IsField fs
unfolding all_fields
all_fields_sound [] e = tt
all_fields_sound (f ∷ fs) e = (
  record { no_comma = ground (arith, e); no_newline = ground (arith, e) },
  all_fields_sound fs (ground (arith, e)),
)

columns-IsField : All IsField columns
unfolding all_fields
columns-IsField = all_fields_sound columns refl

pub decimal-IsField : (n : ℕ) → IsField (decimal n)
decimal-IsField n = record {
  no_comma = decimal_digits-has 44 20 n (omega arith);
  no_newline = decimal_digits-has 10 20 n (omega arith);
}

-- the first field of a row, and the others
abbrev pub Row : Type 0
Row = Bytes × List Bytes

abbrev pub Holds : Row → Type 0
Holds (f, fs) = IsField f × All IsField fs

-- the table of a file with these rows; a file without a row has no header either
abbrev pub cells : List Row → List (List Bytes)
cells [] = []
cells ((f, fs) ∷ rs) = (f ∷ fs) ∷ cells rs

abbrev pub with_header : List (List Bytes) → List (List Bytes)
with_header [] = []
with_header (r ∷ rs) = header_row ∷ r ∷ rs

body : List Row → Bytes
body [] = []
body ((f, fs) ∷ rs) = row_text f fs ++ 10 ∷ body rs

unfoldable pub sheet : List Row → Bytes
unfolding body
sheet [] = []
sheet (r ∷ rs) = header_text ++ 10 ∷ body (r ∷ rs)

body-snoc :
    (rs : List Row) (f : Bytes) (fs : List Bytes)
    → body rs ++ (row_text f fs ++ 10 ∷ []) ≡ body (rs ++ (f, fs) ∷ [])
unfolding body
body-snoc [] f fs = refl
body-snoc ((g, gs) ∷ rs) f fs = rw (append_assoc, ← body-snoc rs f fs)

table_of_nothing : table_of [] ≡ []
unfolding table_of lines_of
table_of_nothing = refl

table_of-body : (rs : List Row) → All Holds rs → table_of (body rs) ≡ cells rs
unfolding body
table_of-body [] h = table_of_nothing
table_of-body ((f, fs) ∷ rs) ((a, b), h) =
    table_of_row f fs (body rs) a b ∙ ap (λ t. (f ∷ fs) ∷ t) (table_of-body rs h)

pub table_of-sheet : (rs : List Row) → All Holds rs → table_of (sheet rs) ≡ with_header (cells rs)
unfolding sheet
table_of-sheet [] h = table_of_nothing
table_of-sheet ((f, fs) ∷ rs) h =
    let host : IsField (bytes "host") = record { no_comma = refl; no_newline = refl } in
    ap (λ t. table_of (t ++ 10 ∷ body ((f, fs) ∷ rs))) header_text_row
    ∙ table_of_row (bytes "host") columns (body ((f, fs) ∷ rs)) host columns-IsField
    ∙ ap (λ t. header_row ∷ t) (table_of-body ((f, fs) ∷ rs) h)

-- the row goes to the end, and the header in front of the first one
write_header-sheet :
    (file : Option Bytes) (r : Row) (rs : List Row)
    → contents file ≡ sheet (r ∷ rs)
    → write_header true file ≡ false
unfolding write_header sheet
write_header-sheet none r rs e = absurd (cc)
write_header-sheet (some []) r rs e = absurd (cc)
write_header-sheet (some (c ∷ cs)) r rs e = refl

write_header-empty : (file : Option Bytes) → contents file ≡ [] → write_header true file ≡ true
unfolding write_header
write_header-empty none e = refl
write_header-empty (some []) e = refl
write_header-empty (some (c ∷ cs)) e = absurd (cc)

pub appended-sheet :
    (file : Option Bytes) (rs : List Row) (f : Bytes) (fs : List Bytes)
    → contents file ≡ sheet rs
    → contents (append_row true true (row_text f fs) file) ≡ sheet (rs ++ (f, fs) ∷ [])
unfolding append_row sheet
appended-sheet file [] f fs e = rw (write_header-empty file e, e, append_assoc) refl
appended-sheet file (r ∷ rs) f fs e =
    rw (write_header-sheet file r rs e, e, append_assoc)
      (ap (λ b. header_text ++ 10 ∷ b) (body-snoc (r ∷ rs) f fs))
