-- ===== src/OneSided/Card.antt =====
-- The network of a one-sided client, made of what src/net/rdma_context.cpp posts: each verb is a work
-- request and the `poll_completion` behind it, on a card that is the parameter `Card`.
use cs2640_final_project.Prelude.{
  ℕ, ◌+◌, ◌%◌, ◌^◌, ◌≤◌, ◌≡◌, refl, sym, ap, ◌∙◌, ◌⊎◌, Bool, true, List, [], ◌∷◌, ◌++◌,
  if◌then◌else◌,
}
use cs2640_final_project.RdmaStore.{RdmaSlot}
use cs2640_final_project.OneSided.{Verb, post_failed, completion_failed, done, Fabric, slot_size}
use cs2640_final_project.RdmaContext.Requests.{
  SendRequest, post_rdma_read, post_rdma_write, post_fetch_and_add,
}

-- A post and, where it is accepted, the wait for its completion.
abbrev pub perform : {W : Type 0} → (W → Bool × W) → (W → Bool × W) → W → Verb (Unit {0}) × W
perform post poll w =
    let (posted, w') = post w in
    let (completed, w'') = poll w' in
    if posted
    then (if completed then (done tt, w'') else (completion_failed, w''))
    else (post_failed, w')

-- `ibv_post_send`, `poll_completion`, and the two memories: `memory w a` is the slot at the server's
-- address `a`, `slot_in` and `word_in` are what stands at the client's. The laws say what a request
-- does that completes, and that one that fails writes no other part of the server's memory.
pub record Card : Type 1 where
  pub World : Type 0
  pub ibv_post_send : World → SendRequest → Bool × World
  pub poll : World → Bool × World
  pub memory : World → ℕ → RdmaSlot
  pub slot_in : World → ℕ → RdmaSlot
  pub word_in : World → ℕ → ℕ
  pub fill_slot : World → ℕ → RdmaSlot → World
  pub filled : (w : World) (d : ℕ) (s : RdmaSlot) → slot_in (fill_slot w d s) d ≡ s
  pub fill_keeps : (w : World) (d b : ℕ) (s : RdmaSlot) → memory (fill_slot w d s) b ≡ memory w b
  pub read_delivers :
      (w w' : World) (a key dst lkey : ℕ)
      → perform (post_rdma_read ibv_post_send a key dst 1024 lkey) poll w ≡ (done tt, w')
      → slot_in w' dst ≡ memory w a
  pub read_keeps :
      (w : World) (a key dst lkey b : ℕ)
      → memory (perform (post_rdma_read ibv_post_send a key dst 1024 lkey) poll w).1 b ≡ memory w b
  pub write_delivers :
      (w w' : World) (a key src lkey : ℕ)
      → perform (post_rdma_write ibv_post_send a key src 1024 lkey) poll w ≡ (done tt, w')
      → memory w' a ≡ slot_in w src
  pub write_keeps :
      (w : World) (a key src lkey b : ℕ)
      → (a + 1024 ≤ b) ⊎ (b + 1024 ≤ a)
      → memory (perform (post_rdma_write ibv_post_send a key src 1024 lkey) poll w).1 b ≡ memory w b
  pub add_delivers :
      (w w' : World) (a key dst n lkey : ℕ)
      → perform (post_fetch_and_add ibv_post_send (a + 8) key dst n lkey) poll w ≡ (done tt, w')
      → (word_in w' dst ≡ (memory w a).access_count)
        × (memory w' a
            ≡ record (memory w a) { access_count = ((memory w a).access_count + n) % 2 ^ 64 })
  pub add_keeps :
      (w : World) (a key dst n lkey b : ℕ)
      → (a + 1024 ≤ b) ⊎ (b + 1024 ≤ a)
      → memory (perform (post_fetch_and_add ibv_post_send (a + 8) key dst n lkey) poll w).1 b
        ≡ memory w b

-- What the client passes with each request: the server's key, its two buffers, and their keys.
pub record Binding : Type 0 where
  pub rkey : ℕ
  pub slot : ℕ
  pub slot_lkey : ℕ
  pub atomic : ℕ
  pub atomic_lkey : ℕ

-- the value that a completed verb has left in a buffer
module _ {A : Type 0} where
  abbrev pub deliver : Verb (Unit {0}) → A → Verb A
  deliver post_failed x = post_failed
  deliver completion_failed x = completion_failed
  deliver (done _) x = done x

  deliver-eq-done : (r : Verb (Unit {0})) (x y : A) → deliver r x ≡ done y → (r ≡ done tt) × (x ≡ y)
  deliver-eq-done post_failed x y e = cc
  deliver-eq-done completion_failed x y e = cc
  deliver-eq-done (done tt) x y e = (refl, cc)

-- a list of requests in place of the card
abbrev pub note : List SendRequest → SendRequest → Bool × List SendRequest
note log r = (true, log ++ r ∷ [])

split_at : {A B : Type 0} (p : A × B) (x : A) → p.0 ≡ x → p ≡ (x, p.1)
split_at p x e = ap (λ y. (y, p.1)) e

module _ (c : Card) (b : Binding) where
  open c use {World, ibv_post_send, poll, memory, slot_in, word_in, fill_slot}

  abbrev pub Traced : Type 0
  Traced = World × List SendRequest

  -- the READ of a slot into `local_slot`
  unfoldable pub card_read : Traced → ℕ → Verb RdmaSlot × Traced
  card_read (w, log) a =
      let (r, w') =
        perform (post_rdma_read ibv_post_send a b.rkey b.slot slot_size b.slot_lkey) poll w in
      (
        deliver r (slot_in w' b.slot),
        (w', (post_rdma_read note a b.rkey b.slot slot_size b.slot_lkey log).1),
      )

  -- the WRITE of `local_slot`, which `prepare_slot` has filled
  unfoldable pub card_write : Traced → ℕ → RdmaSlot → Verb (Unit {0}) × Traced
  card_write (w, log) a s =
      let (r, w') =
        perform (post_rdma_write ibv_post_send a b.rkey b.slot slot_size b.slot_lkey) poll
          (fill_slot w b.slot s) in
      (r, (w', (post_rdma_write note a b.rkey b.slot slot_size b.slot_lkey log).1))

  -- the FETCH_AND_ADD into `atomic_result`
  unfoldable pub card_add : Traced → ℕ → ℕ → Verb ℕ × Traced
  card_add (w, log) a n =
      let (r, w') =
        perform (post_fetch_and_add ibv_post_send a b.rkey b.atomic n b.atomic_lkey) poll w in
      (
        deliver r (word_in w' b.atomic),
        (w', (post_fetch_and_add note a b.rkey b.atomic n b.atomic_lkey log).1),
      )

  abbrev pub memory_of : Traced → ℕ → RdmaSlot
  memory_of (w, log) = memory w

  same_world :
      {A : Type 0} (r r' : Verb A) (x x' : Traced)
      → ◌≡◌ {A = Verb A × Traced} (r, x) (r', x')
      → x ≡ x'
  same_world r r' x x' e = ap (λ p. p.1) e

  same_result :
      {A : Type 0} (r r' : Verb A) (x x' : Traced)
      → ◌≡◌ {A = Verb A × Traced} (r, x) (r', x')
      → r ≡ r'
  same_result r r' x x' e = ap (λ p. p.0) e

  pub read_delivers :
      (w w' : Traced) (a : ℕ) (s : RdmaSlot) → card_read w a ≡ (done s, w') → s ≡ memory_of w a
  unfolding card_read
  read_delivers (w, log) w' a s e =
      let (ok, slot) = deliver-eq-done _ _ s (same_result _ _ _ w' e) in
      sym slot ∙ c.read_delivers w _ a b.rkey b.slot b.slot_lkey (split_at _ _ ok)

  pub write_delivers :
      (w w' : Traced) (a : ℕ) (s : RdmaSlot) → card_write w a s ≡ (done tt, w') → memory_of w' a ≡ s
  unfolding card_write
  write_delivers (w, log) w' a s e =
      ap (λ x. memory_of x a) (sym (same_world _ _ _ w' e))
      ∙ c.write_delivers (fill_slot w b.slot s) _ a b.rkey b.slot b.slot_lkey
          (split_at _ _ (same_result _ _ _ w' e))
      ∙ c.filled w b.slot s

  pub add_delivers :
      (w w' : Traced) (a n old : ℕ)
      → card_add w (a + 8) n ≡ (done old, w')
      → (old ≡ (memory_of w a).access_count)
        × (memory_of w' a ≡ record (memory_of w a) { access_count = (old + n) % 2 ^ 64 })
  unfolding card_add
  add_delivers (w, log) w' a n old e =
      let (ok, word) = deliver-eq-done _ _ old (same_result _ _ _ w' e) in
      let (count, after) = c.add_delivers w _ a b.rkey b.atomic n b.atomic_lkey (split_at _ _ ok) in
      let first : old ≡ (memory w a).access_count = sym word ∙ count in
      (
        first,
        ap (λ x. memory_of x a) (sym (same_world _ _ _ w' e))
            ∙ after
            ∙ ap (λ m. record (memory w a) { access_count = (m + n) % 2 ^ 64 }) (sym first),
      )

  pub read_keeps : (w : Traced) (a x : ℕ) → memory_of (card_read w a).1 x ≡ memory_of w x
  unfolding card_read
  read_keeps w a x = c.read_keeps w.0 a b.rkey b.slot b.slot_lkey x

  pub write_keeps :
      (w : Traced) (a x : ℕ) (s : RdmaSlot)
      → (a + 1024 ≤ x) ⊎ (x + 1024 ≤ a)
      → memory_of (card_write w a s).1 x ≡ memory_of w x
  unfolding card_write
  write_keeps w a x s h =
      c.write_keeps (fill_slot w.0 b.slot s) a b.rkey b.slot b.slot_lkey x h
      ∙ c.fill_keeps w.0 b.slot x s

  pub add_keeps :
      (w : Traced) (a x n : ℕ)
      → (a + 1024 ≤ x) ⊎ (x + 1024 ≤ a)
      → memory_of (card_add w (a + 8) n).1 x ≡ memory_of w x
  unfolding card_add
  add_keeps w a x n h = c.add_keeps w.0 a b.rkey b.atomic n b.atomic_lkey x h

  abbrev pub driver : Fabric
  driver = record {
    World = Traced;
    memory = λ w. memory_of w;
    read = λ w a. card_read w a;
    write = λ w a s. card_write w a s;
    fetch_and_add = λ w a n. card_add w a n;
    read_delivers = λ w w' a s e. read_delivers w w' a s e;
    read_keeps = λ w a x. read_keeps w a x;
    write_delivers = λ w w' a s e. write_delivers w w' a s e;
    write_keeps = λ w a x s h. write_keeps w a x s h;
    add_delivers = λ w w' a n old e. add_delivers w w' a n old e;
    add_keeps = λ w a x n h. add_keeps w a x n h;
  }
