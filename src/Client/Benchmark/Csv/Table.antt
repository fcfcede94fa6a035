-- ===== src/Client/Benchmark/Csv/Table.antt =====
-- What the runs of the benchmarks leave in their CSV file.
use cs2640_final_project.Prelude.{
  ◌≡◌, refl, ap, ◌∙◌, Bool, true, false, Option, none, List, [], ◌∷◌, ◌++◌, length, if◌then◌else◌,
  All, Bytes, append_assoc, append-nil,
}
use cs2640_final_project.Client.Benchmark.Csv.{
  Run, Load, row_text, contents, append_row, benchmark_fields, only_gets, Entry, one_sided,
  two_sided, write_entries,
}
use cs2640_final_project.Client.Benchmark.Csv.Fields.{table_of, IsField}
use cs2640_final_project.Client.Benchmark.Csv.Sheet.{
  Row, Holds, cells, with_header, header_row, sheet, table_of-sheet, appended-sheet,
  decimal-IsField,
}

module _ (D : Type 0) (show : D → Bytes) (one zero : D) where
  -- the row of an entry, where the file could be opened
  abbrev pub row_of : Entry D show one zero → List Row
  row_of (one_sided opened r) =
      if opened
      then (r.host, benchmark_fields D show one zero r (only_gets D show one zero)) ∷ []
      else []
  row_of (two_sided opened r l) =
      if opened then (r.host, benchmark_fields D show one zero r l) ∷ [] else []

  abbrev pub rows_of : List (Entry D show one zero) → List Row
  rows_of [] = []
  rows_of (e ∷ es) = row_of e ++ rows_of es

  abbrev pub host_of : Entry D show one zero → Bytes
  host_of (one_sided opened r) = r.host
  host_of (two_sided opened r l) = r.host

  append-sheet :
      (opened : Bool) (file : Option Bytes) (rs : List Row) (f : Bytes) (fs : List Bytes)
      → contents file ≡ sheet rs
      → contents (append_row true opened (row_text f fs) file)
        ≡ sheet (rs ++ (if opened then (f, fs) ∷ [] else []))
  append-sheet true file rs f fs e = appended-sheet file rs f fs e
  append-sheet false file rs f fs e = unfold append_row in rw append-nil e

  entries-sheet :
      (es : List (Entry D show one zero)) (file : Option Bytes) (rs : List Row)
      → contents file ≡ sheet rs
      → contents (write_entries D show one zero es file) ≡ sheet (rs ++ rows_of es)
  unfolding write_entries
  entries-sheet [] file rs e = rw append-nil e
  entries-sheet (one_sided opened r ∷ es) file rs e =
      let fs = benchmark_fields D show one zero r (only_gets D show one zero) in
      entries-sheet es _ (rs ++ row_of (one_sided opened r))
        (append-sheet opened file rs r.host fs e)
      ∙ ap sheet (append_assoc rs (row_of (one_sided opened r)) (rows_of es))
  entries-sheet (two_sided opened r l ∷ es) file rs e =
      let fs = benchmark_fields D show one zero r l in
      entries-sheet es _ (rs ++ row_of (two_sided opened r l))
        (append-sheet opened file rs r.host fs e)
      ∙ ap sheet (append_assoc rs (row_of (two_sided opened r l)) (rows_of es))

  module _ (shows : (d : D) → IsField (show d)) where
    fields-IsField : (r : Run D) (l : Load D) → All IsField (benchmark_fields D show one zero r l)
    unfolding benchmark_fields
    fields-IsField r l = (
      decimal-IsField r.port,
      (
        decimal-IsField r.clients,
        (
          decimal-IsField r.ops,
          (
            decimal-IsField r.key_count,
            (
              decimal-IsField l.value_size,
              (
                shows l.get_ratio,
                (
                  shows l.zipf_s,
                  (
                    decimal-IsField r.warmup,
                    (
                      decimal-IsField (if l.prefill then 1 else 0),
                      (
                        shows r.elapsed_s,
                        (
                          shows r.throughput,
                          (
                            shows r.mean_us,
                            (
                              shows r.p50_us,
                              (
                                shows r.p95_us,
                                (
                                  shows r.p99_us,
                                  (
                                    decimal-IsField r.measured_ok,
                                    (
                                      decimal-IsField r.measured_errors,
                                      (
                                        decimal-IsField r.warmup_ok,
                                        (decimal-IsField r.warmup_errors, tt),
                                      ),
                                    ),
                                  ),
                                ),
                              ),
                            ),
                          ),
                        ),
                      ),
                    ),
                  ),
                ),
              ),
            ),
          ),
        ),
      ),
    )

    rows-Holds :
        (es : List (Entry D show one zero))
        → All (λ e. IsField (host_of e)) es
        → All Holds (rows_of es)
    rows-Holds [] h = tt
    rows-Holds (one_sided true r ∷ es) (a, h) =
        ((a, fields-IsField r (only_gets D show one zero)), rows-Holds es h)
    rows-Holds (one_sided false r ∷ es) (a, h) = rows-Holds es h
    rows-Holds (two_sided true r l ∷ es) (a, h) = ((a, fields-IsField r l), rows-Holds es h)
    rows-Holds (two_sided false r l ∷ es) (a, h) = rows-Holds es h

    rows-width :
        (es : List (Entry D show one zero))
        → All (λ r. length r ≡ length header_row) (cells (rows_of es))
    unfolding benchmark_fields
    rows-width [] = tt
    rows-width (one_sided true r ∷ es) = (refl, rows-width es)
    rows-width (one_sided false r ∷ es) = rows-width es
    rows-width (two_sided true r l ∷ es) = (refl, rows-width es)
    rows-width (two_sided false r l ∷ es) = rows-width es

    -- Runs of both benchmarks that write to one CSV file, which was not there before and can be read
    -- back, leave a table with one header in front and behind it a row for each run that
    -- could open the file, in the order of the runs; and each row has as many fields as the header. This
    -- needs host names and printed numbers without commas and newlines.
    pub write_entries-table :
        (es : List (Entry D show one zero))
        → All (λ e. IsField (host_of e)) es
        → (table_of (contents (write_entries D show one zero es none))
            ≡ with_header (cells (rows_of es)))
          × All (λ r. length r ≡ length header_row) (cells (rows_of es))
    write_entries-table es h = (
      ap table_of (entries-sheet es none [] (unfold sheet in refl))
          ∙ table_of-sheet (rows_of es) (rows-Holds es h),
      rows-width es,
    )
