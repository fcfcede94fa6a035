-- ===== src/Sockets/Exactly.antt =====
-- The two copies of `write_all`, in src/net/socket_utils.cpp and in src/server/rdma_main.cpp.
use cs2640_final_project.Prelude.{
  ℕ, ◌+◌, ◌≡◌, sym, subst, refl, Bool, true, not, ◌&&◌, List, [], ◌∷◌, ◌++◌, arith, take, drop,
  ◌==◌, nat_eq, Bytes,
}
use cs2640_final_project.Sockets.{Sent, sent, interrupted, failed, write_all, write_exactly}
use cs2640_final_project.Sockets.Write.{Delivers, write_all-Delivers}

-- no call reports 0 bytes taken
unfoldable pub never_zero : List Sent → Bool
never_zero [] = true
never_zero (sent n ∷ rest) = not (n == 0) && never_zero rest
never_zero (interrupted ∷ rest) = never_zero rest
never_zero (failed ∷ rest) = never_zero rest

loops_agree :
    (text : Bytes) (total : ℕ) (acc : Bytes) (answers : List Sent)
    → never_zero answers ≡ true
    → write_exactly text total acc answers ≡ write_all text total acc answers
unfolding never_zero write_exactly write_all
loops_agree text total acc [] h = refl
loops_agree text total acc (sent n ∷ rest) h =
    ground (arith, loops_agree text (total + n) (acc ++ take n (drop total text)) rest)
loops_agree text total acc (interrupted ∷ rest) h =
    ground (arith, loops_agree text total acc rest h)
loops_agree text total acc (failed ∷ rest) h = refl

-- Unless a call reports 0 bytes taken, the RDMA server's `write_all` does what that of the TCP
-- programs does, with the same result; so what it has handed over is the start of the text, and the
-- whole text if it returns true.
pub write_exactly-write_all :
    (text : Bytes) (answers : List Sent)
    → never_zero answers ≡ true
    → (write_exactly text 0 [] answers ≡ write_all text 0 [] answers)
      × Delivers text (write_exactly text 0 [] answers)
write_exactly-write_all text answers h =
    let e = loops_agree text 0 [] answers h in
    (e, subst (λ w. Delivers text w) (sym e) (write_all-Delivers text answers))
