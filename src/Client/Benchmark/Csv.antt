-- ===== src/Client/Benchmark/Csv.antt =====
-- The CSV file of the benchmarks of src/client/rdma_client.cpp: `write_csv_row` of the one-sided and
-- `write_benchmark_csv_row` of the two-sided one. Floating-point numbers are the parameter `D`, and
-- `show` is what a stream prints for one.
pub mod Fields
pub mod Sheet
pub mod Table
use cs2640_final_project.Prelude.{
  ℕ, Bool, true, false, not, Option, none, some, [], ◌∷◌, ◌++◌, List, if◌then◌else◌, Bytes, bytes,
}
use cs2640_final_project.Prelude.Decimal.{decimal}

abbrev pub header_text : Bytes
header_text =
    bytes "host,port,clients,operations,keys,value_size,get_ratio,zipf_s,"
    ++ (bytes "warmup,prefill,elapsed_seconds,throughput_rps,mean_latency_us,"
        ++ (bytes "p50_latency_us,p95_latency_us,p99_latency_us,"
            ++ (bytes "measured_ok_responses,measured_errors,"
                ++ bytes "warmup_ok_responses,warmup_errors")))

-- what both functions are given
pub record Run (D : Type 0) : Type 0 where
  pub host : Bytes
  pub port : ℕ
  pub clients : ℕ
  pub ops : ℕ
  pub key_count : ℕ
  pub warmup : ℕ
  pub elapsed_s : D
  pub throughput : D
  pub mean_us : D
  pub p50_us : D
  pub p95_us : D
  pub p99_us : D
  pub measured_ok : ℕ
  pub measured_errors : ℕ
  pub warmup_ok : ℕ
  pub warmup_errors : ℕ

-- what the two-sided one is given besides
pub record Load (D : Type 0) : Type 0 where
  pub value_size : ℕ
  pub get_ratio : D
  pub zipf_s : D
  pub prefill : Bool

-- a row, with a comma between two fields
unfoldable pub row_text : Bytes → List Bytes → Bytes
row_text f [] = f
row_text f (g ∷ fs) = f ++ 44 ∷ row_text g fs

-- The file before and after: `none` where there is none. `readable` says whether the probe can read
-- it, `opened` whether it can be opened for appending.
abbrev pub contents : Option Bytes → Bytes
contents none = []
contents (some b) = b

unfoldable pub write_header : Bool → Option Bytes → Bool
write_header readable none = true
write_header readable (some []) = true
write_header readable (some (c ∷ cs)) = not readable

unfoldable pub append_row : Bool → Bool → Bytes → Option Bytes → Option Bytes
append_row readable opened row file =
    let header = if write_header readable file then header_text ++ 10 ∷ [] else [] in
    if opened then some (contents file ++ (header ++ (row ++ 10 ∷ []))) else file

module _ (D : Type 0) (show : D → Bytes) (one zero : D) where
  -- the fields behind the first one
  unfoldable pub benchmark_fields : Run D → Load D → List Bytes
  benchmark_fields r l =
      decimal r.port
      ∷ decimal r.clients
      ∷ decimal r.ops
      ∷ decimal r.key_count
      ∷ decimal l.value_size
      ∷ show l.get_ratio
      ∷ show l.zipf_s
      ∷ decimal r.warmup
      ∷ decimal (if l.prefill then 1 else 0)
      ∷ show r.elapsed_s
      ∷ show r.throughput
      ∷ show r.mean_us
      ∷ show r.p50_us
      ∷ show r.p95_us
      ∷ show r.p99_us
      ∷ decimal r.measured_ok
      ∷ decimal r.measured_errors
      ∷ decimal r.warmup_ok
      ∷ decimal r.warmup_errors
      ∷ []

  -- the constants of the one-sided benchmark
  abbrev pub only_gets : Load D
  only_gets = record { value_size = 0; get_ratio = one; zipf_s = zero; prefill = true }

  unfoldable pub write_csv_row : Bool → Bool → Run D → Option Bytes → Option Bytes
  unfolding benchmark_fields
  write_csv_row readable opened r file =
      append_row readable opened (row_text r.host (benchmark_fields r only_gets)) file

  unfoldable pub write_benchmark_csv_row :
      Bool → Bool → Run D → Load D → Option Bytes → Option Bytes
  unfolding benchmark_fields
  write_benchmark_csv_row readable opened r l file =
      append_row readable opened (row_text r.host (benchmark_fields r l)) file

  -- the runs of both benchmarks that write to one file, each with `opened`
  pub data Entry : Type 0 where
    one_sided : Bool → Run D → Entry
    two_sided : Bool → Run D → Load D → Entry

  unfoldable pub write_entries : List Entry → Option Bytes → Option Bytes
  unfolding write_csv_row write_benchmark_csv_row
  write_entries [] file = file
  write_entries (one_sided opened r ∷ es) file = write_entries es (write_csv_row true opened r file)
  write_entries (two_sided opened r l ∷ es) file =
      write_entries es (write_benchmark_csv_row true opened r l file)
