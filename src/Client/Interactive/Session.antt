-- ===== src/Client/Interactive/Session.antt =====
-- The one-sided session prints what the exported table holds.
use cs2640_final_project.Prelude.{
  ℕ, ◌≡◌, ◌⊎◌, inl, inr, true, false, List, [], ◌∷◌, ◌++◌, nat_eq, list_eq, if◌then◌else◌, All,
  Bytes,
}
use cs2640_final_project.Protocol.{quit, parse_request}
use cs2640_final_project.RdmaStore.{RdmaSlot}
use cs2640_final_project.OneSided.{Fabric}
use cs2640_final_project.OneSided.Get.{IsReliable}
use cs2640_final_project.OneSided.Export.{Fitting}
use cs2640_final_project.Client.Interactive.{one_sided_line, one_sided_session}
use cs2640_final_project.Client.Interactive.Answers.{
  Contents, Answers, finished, ended, answered, LineFits, Serves,
}
use cs2640_final_project.Client.Interactive.Turns.{Served, line_turn}

-- Over a network without failures that exports a valid table with some contents, the one-sided session
-- prints what those contents have: for GET and GET_META the value or NOT_FOUND, and the lookups change
-- nothing but counters; for SET either OK, and the contents then have the value and are otherwise the
-- same, or, for a key that is absent, that the table is full, and nothing changes. It ends at a QUIT
-- line. The keys and values of the lines fit in a slot and hold no NUL, and the region does not wrap.
pub one_sided_session-Answers :
    (f : Fabric) (base : ℕ)
    → IsReliable f
    → Fitting base
    → (lines : List Bytes) (m : Contents) (slot : RdmaSlot) (atomic : ℕ) (w : f.World)
    → Serves f base m w
    → All LineFits lines
    → Answers m lines (one_sided_session f base lines slot atomic w)
unfolding one_sided_session
one_sided_session-Answers f base rel fit [] m slot atomic w s h = finished
one_sided_session-Answers f base rel fit (line ∷ lines) m slot atomic w s (h, hs) =
    let t = one_sided_line f base line slot atomic w in
    go (line_turn f base rel fit m line slot atomic w s h)
      (λ (m' : Contents) (s' : Serves f base m' t.world).
        one_sided_session-Answers f base rel fit lines m' t.slot t.atomic t.world s' hs)
  where
    go :
        let t = one_sided_line f base line slot atomic w in
        (((t.ends ≡ true) × (t.printed ≡ []) × ((parse_request line).type ≡ quit))
          ⊎ ((t.ends ≡ false) × Served f base rel fit m line slot atomic w s t))
        → ((m' : Contents)
            → Serves f base m' t.world
            → Answers m' lines (one_sided_session f base lines t.slot t.atomic t.world))
        → Answers m (line ∷ lines) (
            if t.ends
            then t.printed
            else t.printed ++ one_sided_session f base lines t.slot t.atomic t.world)
    go (inl (e, p, q)) next = rw (e, p) (ended q)
    go (inr (e, (m', a, after))) next = rw e (answered a (next m' after))
