-- ===== src/Server/Session/Lines.antt =====
-- What a server answers to a list of request lines.
use cs2640_final_project.Prelude.{
  ◌≡◌, refl, Bool, false, List, [], ◌∷◌, ◌++◌, append_assoc, append-nil, if◌then◌else◌, arith,
  Bytes,
}
use cs2640_final_project.KvStore.{KeyValueStore}
use cs2640_final_project.Server.{Outcome, serve_line}

-- The lines in turn, up to one that ends the session.
unfoldable pub respond : KeyValueStore → List Bytes → Outcome
respond store [] = record { output = []; store = store; ends = false }
respond store (l ∷ ls) =
    let o = serve_line store l in
    let r = respond o.store ls in
    if o.ends then o else record { output = o.output ++ r.output; store = r.store; ends = r.ends }

-- the bytes of the lines
unfoldable pub join : List Bytes → Bytes
join [] = []
join (l ∷ ls) = l ++ 10 ∷ join ls

abbrev pub outcome : Bytes → KeyValueStore → Bool → Outcome
outcome out store ends = record { output = out; store = store; ends = ends }

pub join-append : (ls : List Bytes) (l : Bytes) → join (ls ++ l ∷ []) ≡ join ls ++ (l ++ 10 ∷ [])
unfolding join
join-append [] l = refl
join-append (k ∷ ls) l = rw (join-append ls l, append_assoc)

pub respond-append :
    (store : KeyValueStore) (ls : List Bytes) (l out : Bytes) (t : KeyValueStore)
    → respond store ls ≡ outcome out t false
    → respond store (ls ++ l ∷ [])
      ≡ outcome (out ++ (serve_line t l).output) (serve_line t l).store (serve_line t l).ends
unfolding respond
respond-append store [] l out t h = ground (arith, append-nil (serve_line store l).output, h)
respond-append store (k ∷ ls) l out t h =
    let o = serve_line store k in
    let r = respond o.store ls in
    ground (
      arith,
      respond-append o.store ls l r.output r.store,
      append_assoc o.output r.output (serve_line r.store l).output,
    )
