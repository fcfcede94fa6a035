-- ===== src/Arguments/Tcp.antt =====
-- `main` of src/server/main.cpp and of src/client/main.cpp: the arguments, and the result of the program.
use cs2640_final_project.Prelude.{
  ℕ, ◌<◌, ◌≡◌, refl, Bool, Option, none, some, List, [], ◌∷◌, arith, Bytes, bytes,
}
use cs2640_final_project.Prelude.Decimal.{decimal}
use cs2640_final_project.Arguments.{stoi, to_port}
use cs2640_final_project.Arguments.Numbers.{stoi-decimal, to_port-small}

abbrev pub port_read : Option (Bool × ℕ) → Option ℕ
port_read none = none
port_read (some n) = some (to_port n)

-- the first argument, or 9090
unfoldable pub server_port : List Bytes → Option ℕ
server_port [] = some 9090
server_port (arg ∷ rest) = port_read (stoi arg)

-- the host and the port; `none` where the port cannot be read
abbrev pub at_host : Bytes → Option ℕ → Option (Bytes × ℕ)
at_host h none = none
at_host h (some p) = some (h, p)

unfoldable pub client_address : List Bytes → Option (Bytes × ℕ)
unfolding server_port
client_address [] = some (bytes "127.0.0.1", 9090)
client_address (arg ∷ rest) = at_host arg (server_port rest)

-- Both programs read the port that a numeral stands for.
server_port-decimal :
    (host : Bytes) (n : ℕ)
    → n < 65536
    → (server_port (decimal n ∷ []) ≡ some n)
      × (client_address (host ∷ decimal n ∷ []) ≡ some (host, n))
unfolding client_address
server_port-decimal host n h = (
  rw (stoi-decimal n (omega (arith, h)), to_port-small n h) refl,
  rw (stoi-decimal n (omega (arith, h)), to_port-small n h) refl,
)
