-- ===== src/Arguments/Client/Settings.antt =====
-- The command line of a list of settings is read back as them.
use cs2640_final_project.Prelude.{
  ℕ, ◌^◌, ◌<◌, ◌≡◌, refl, ap, ◌∙◌, true, false, Option, none, some, List, [], ◌∷◌, ◌++◌, ◌==◌,
  nat_eq, list_eq, arith, All, Bytes, bytes,
}
use cs2640_final_project.Prelude.Decimal.{decimal}
use cs2640_final_project.Arguments.{stoi, stoul, to_port}
use cs2640_final_project.Arguments.Numbers.{stoul-decimal, stoi-decimal, to_port-small}
use cs2640_final_project.Arguments.Client.{
  Options, Valued, host, port, mode, device, ops, warmup, keys, clients, value_size, get_ratio,
  zipf_s, csv, valued, set_flag, assign, set_value, parse_arguments,
}

-- what a user can ask for
pub data Setting (D : Type 0) : Type 0 where
  set_host : Bytes → Setting D
  set_port : ℕ → Setting D
  set_mode : Bytes → Setting D
  set_device : Bytes → Setting D
  set_ops : ℕ → Setting D
  set_warmup : ℕ → Setting D
  set_keys : ℕ → Setting D
  set_clients : ℕ → Setting D
  set_value_size : ℕ → Setting D
  set_get_ratio : D → Setting D
  set_zipf_s : D → Setting D
  set_csv : Bytes → Setting D
  set_benchmark set_no_prefill set_metadata : Setting D

-- its effect
abbrev pub apply : {D : Type 0} → Setting D → Options D → Options D
apply (set_host b) o = record o { host = b }
apply (set_port n) o = record o { port = n }
apply (set_mode b) o = record o { one_sided = b == bytes "one-sided" }
apply (set_device b) o = record o { device = some b }
apply (set_ops n) o = record o { ops = n }
apply (set_warmup n) o = record o { warmup_count = n }
apply (set_keys n) o = record o { key_count = n }
apply (set_clients n) o = record o { clients = n }
apply (set_value_size n) o = record o { value_size = n }
apply (set_get_ratio d) o = record o { get_ratio = d }
apply (set_zipf_s d) o = record o { zipf_s = d }
apply (set_csv b) o = record o { csv_path = b }
apply set_benchmark o = record o { benchmark_mode = true }
apply set_no_prefill o = record o { prefill = false }
apply set_metadata o = record o { simulate_metadata = true }

abbrev pub apply_all : {D : Type 0} → List (Setting D) → Options D → Options D
apply_all [] o = o
apply_all (s ∷ ss) o = apply_all ss (apply s o)

-- the numbers that the types of the options hold
abbrev pub IsInRange : {D : Type 0} → Setting D → Type 0
IsInRange (set_port n) = n < 65536
IsInRange (set_ops n) = n < 2 ^ 64
IsInRange (set_warmup n) = n < 2 ^ 64
IsInRange (set_keys n) = n < 2 ^ 64
IsInRange (set_clients n) = n < 2 ^ 64
IsInRange (set_value_size n) = n < 2 ^ 64
IsInRange s = Unit

module _ (D : Type 0) (stod : Bytes → Option D) (show : D → Bytes) where
  -- its arguments
  abbrev pub arguments : Setting D → List Bytes
  arguments (set_host b) = bytes "--host" ∷ b ∷ []
  arguments (set_port n) = bytes "--port" ∷ decimal n ∷ []
  arguments (set_mode b) = bytes "--mode" ∷ b ∷ []
  arguments (set_device b) = bytes "--device" ∷ b ∷ []
  arguments (set_ops n) = bytes "--ops" ∷ decimal n ∷ []
  arguments (set_warmup n) = bytes "--warmup" ∷ decimal n ∷ []
  arguments (set_keys n) = bytes "--keys" ∷ decimal n ∷ []
  arguments (set_clients n) = bytes "--clients" ∷ decimal n ∷ []
  arguments (set_value_size n) = bytes "--value-size" ∷ decimal n ∷ []
  arguments (set_get_ratio d) = bytes "--get-ratio" ∷ show d ∷ []
  arguments (set_zipf_s d) = bytes "--zipf-s" ∷ show d ∷ []
  arguments (set_csv b) = bytes "--csv" ∷ b ∷ []
  arguments set_benchmark = bytes "--benchmark" ∷ []
  arguments set_no_prefill = bytes "--no-prefill" ∷ []
  arguments set_metadata = bytes "--metadata" ∷ []

  abbrev pub argument_line : List (Setting D) → List Bytes
  argument_line [] = []
  argument_line (s ∷ ss) = arguments s ++ argument_line ss

  parse_value :
      (x : Valued) (arg v : Bytes) (rest : List Bytes) (o o' : Options D)
      → valued arg ≡ some x
      → set_value D stod x v o ≡ some o'
      → parse_arguments D stod (arg ∷ v ∷ rest) o ≡ parse_arguments D stod rest o'
  unfolding parse_arguments
  parse_value x arg v rest o o' a b = rw (a, parse_arguments, b) refl

  parse_flag :
      (arg : Bytes) (rest : List Bytes) (o : Options D)
      → valued arg ≡ none
      → parse_arguments D stod (arg ∷ rest) o ≡ parse_arguments D stod rest (set_flag arg o)
  unfolding parse_arguments
  parse_flag arg [] o a = refl
  parse_flag arg (v ∷ rest) o a = rw (a, parse_arguments) refl

  assigned :
      {A : Type 0} (r : Option A) (a : A) (f : A → Options D) → r ≡ some a → assign r f ≡ some (f a)
  assigned r a f e = rw e

  module _ (reads : (d : D) → stod (show d) ≡ some d) where
    parse_setting :
        (s : Setting D) (rest : List Bytes) (o : Options D)
        → IsInRange s
        → parse_arguments D stod (arguments s ++ rest) o ≡ parse_arguments D stod rest (apply s o)
    unfolding valued set_flag set_value
    parse_setting (set_host b) rest o h = parse_value host (bytes "--host") _ rest o _ refl refl
    parse_setting (set_port n) rest o h = parse_value port (bytes "--port") _ rest o _ refl (
        assigned (stoi (decimal n)) (false, n) (λ m. record o { port = to_port m })
          (stoi-decimal n (omega (arith, h)))
        ∙ ap (λ m. some (record o { port = m })) (to_port-small n h))
    parse_setting (set_mode b) rest o h = parse_value mode (bytes "--mode") _ rest o _ refl refl
    parse_setting (set_device b) rest o h =
        parse_value device (bytes "--device") _ rest o _ refl refl
    parse_setting (set_ops n) rest o h =
        parse_value ops (bytes "--ops") _ rest o _ refl
          (assigned (stoul (decimal n)) n _ (stoul-decimal n h))
    parse_setting (set_warmup n) rest o h =
        parse_value warmup (bytes "--warmup") _ rest o _ refl
          (assigned (stoul (decimal n)) n _ (stoul-decimal n h))
    parse_setting (set_keys n) rest o h =
        parse_value keys (bytes "--keys") _ rest o _ refl
          (assigned (stoul (decimal n)) n _ (stoul-decimal n h))
    parse_setting (set_clients n) rest o h =
        parse_value clients (bytes "--clients") _ rest o _ refl
          (assigned (stoul (decimal n)) n _ (stoul-decimal n h))
    parse_setting (set_value_size n) rest o h =
        parse_value value_size (bytes "--value-size") _ rest o _ refl
          (assigned (stoul (decimal n)) n _ (stoul-decimal n h))
    parse_setting (set_get_ratio d) rest o h =
        parse_value get_ratio (bytes "--get-ratio") _ rest o _ refl
          (assigned (stod (show d)) d _ (reads d))
    parse_setting (set_zipf_s d) rest o h =
        parse_value zipf_s (bytes "--zipf-s") _ rest o _ refl
          (assigned (stod (show d)) d _ (reads d))
    parse_setting (set_csv b) rest o h = parse_value csv (bytes "--csv") _ rest o _ refl refl
    parse_setting set_benchmark rest o h = parse_flag (bytes "--benchmark") rest o refl
    parse_setting set_no_prefill rest o h = parse_flag (bytes "--no-prefill") rest o refl
    parse_setting set_metadata rest o h = parse_flag (bytes "--metadata") rest o refl

    -- A command line made of settings is read back as these settings, one after the other, so that the
    -- last of two that disagree wins: whatever the options were before, if the numbers fit their
    -- types and `std::stod` reads what is written for a floating-point number.
    pub parse_arguments-argument_line :
        (ss : List (Setting D)) (o : Options D)
        → All IsInRange ss
        → parse_arguments D stod (argument_line ss) o ≡ some (apply_all ss o)
    parse_arguments-argument_line [] o h = unfold parse_arguments in refl
    parse_arguments-argument_line (s ∷ ss) o h =
        parse_setting s (argument_line ss) o h.0 ∙ parse_arguments-argument_line ss (apply s o) h.1
