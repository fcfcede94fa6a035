-- ===== src/Tests/Csv.antt =====
-- A CSV file after two benchmarks.
use cs2640_final_project.Prelude.{
  ℕ, ◌≡◌, refl, true, false, none, [], ◌∷◌, length, All, bytes, List, nat_eq,
}
use cs2640_final_project.Prelude.Decimal.{decimal}
use cs2640_final_project.Client.Benchmark.Csv.{
  Run, Load, contents, Entry, one_sided, two_sided, write_entries,
}
use cs2640_final_project.Client.Benchmark.Csv.Fields.{table_of, IsField}
use cs2640_final_project.Client.Benchmark.Csv.Sheet.{
  cells, with_header, header_row, decimal-IsField,
}
use cs2640_final_project.Client.Benchmark.Csv.Table.{rows_of, write_entries-table}

-- numbers stand for the floating-point ones
abbrev run : Run ℕ
run = record {
  host = bytes "node0";
  port = 9091;
  clients = 2;
  ops = 100;
  key_count = 16;
  warmup = 10;
  elapsed_s = 1;
  throughput = 100;
  mean_us = 5;
  p50_us = 4;
  p95_us = 8;
  p99_us = 9;
  measured_ok = 99;
  measured_errors = 1;
  warmup_ok = 10;
  warmup_errors = 0;
}

abbrev load : Load ℕ
load = record { value_size = 64; get_ratio = 1; zipf_s = 0; prefill = true }

-- the second run cannot open the file
abbrev entries : List (Entry ℕ decimal 1 0)
entries = one_sided true run ∷ two_sided false run load ∷ two_sided true run load ∷ []

entries_rows : length (rows_of ℕ decimal 1 0 entries) ≡ 2
entries_rows = refl

node0 : IsField (bytes "node0")
node0 = record { no_comma = refl; no_newline = refl }

write_entries-table_example :
    let es = entries in
    (table_of (contents (write_entries ℕ decimal 1 0 es none))
      ≡ with_header (cells (rows_of ℕ decimal 1 0 es)))
    × All (λ r. length r ≡ length header_row) (cells (rows_of ℕ decimal 1 0 es))
write_entries-table_example =
    write_entries-table ℕ decimal 1 0 decimal-IsField entries (node0, (node0, (node0, tt)))
