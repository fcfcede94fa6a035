-- ===== src/Client/Benchmark/Csv/Fields.antt =====
-- Reading a CSV text: its lines, and their fields.
use cs2640_final_project.Prelude.{
  ◌≡◌, refl, ap, ◌∙◌, false, List, [], ◌∷◌, ◌++◌, arith, has, has-append_false, ◌==◌, nat_eq,
  if◌then◌else◌, All, Bytes, map,
}
use cs2640_final_project.Server.Session.Answers.{prepend, lines_of, lines_of_line}
use cs2640_final_project.Client.Benchmark.Csv.{row_text}

-- the fields of a row
unfoldable pub fields_of : Bytes → List Bytes
fields_of [] = [] ∷ []
fields_of (c ∷ cs) = let rest = fields_of cs in if c == 44 then [] ∷ rest else prepend c rest

-- A file as its rows, each as its fields.
unfoldable pub table_of : Bytes → List (List Bytes)
unfolding fields_of
table_of b = map fields_of (lines_of b)

fields_of_field :
    (f rest : Bytes) → has 44 f ≡ false → fields_of (f ++ 44 ∷ rest) ≡ f ∷ fields_of rest
unfolding fields_of
fields_of_field [] rest h = refl
fields_of_field (c ∷ f) rest h = ground (arith, fields_of_field f rest)

fields_of_last : (f : Bytes) → has 44 f ≡ false → fields_of f ≡ f ∷ []
unfolding fields_of
fields_of_last [] h = refl
fields_of_last (c ∷ f) h = ground (arith, fields_of_last f)

-- a field that a row can hold
pub record IsField (f : Bytes) : Type 0 where
  pub no_comma : has 44 f ≡ false
  pub no_newline : has 10 f ≡ false

pub fields_of-row_text :
    (f : Bytes) (fs : List Bytes) → IsField f → All IsField fs → fields_of (row_text f fs) ≡ f ∷ fs
unfolding row_text
fields_of-row_text f [] h a = fields_of_last f h.no_comma
fields_of-row_text f (g ∷ fs) h (hg, a) =
    fields_of_field f (row_text g fs) h.no_comma ∙ ap (λ r. f ∷ r) (fields_of-row_text g fs hg a)

row_text-line :
    (f : Bytes) (fs : List Bytes) → IsField f → All IsField fs → has 10 (row_text f fs) ≡ false
unfolding row_text
row_text-line f [] h a = h.no_newline
row_text-line f (g ∷ fs) h (hg, a) =
    let rest = row_text-line g fs hg a in
    has-append_false 10 f (44 ∷ row_text g fs) h.no_newline (ground (arith, rest))

-- a row in front of the others
pub table_of_row :
    (f : Bytes) (fs : List Bytes) (rest : Bytes)
    → IsField f
    → All IsField fs
    → table_of (row_text f fs ++ 10 ∷ rest) ≡ (f ∷ fs) ∷ table_of rest
unfolding table_of
table_of_row f fs rest h a =
    rw (lines_of_line (row_text f fs) rest (row_text-line f fs h a), fields_of-row_text f fs h a)
