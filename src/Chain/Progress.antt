-- ===== src/Chain/Progress.antt =====
-- A chain that stands still is noticed after `lastBlockThreshold` readings.
use habs.Base.{
  ℕ, zero, suc, ◌+◌, ◌≡◌, refl, ◌∙◌, ap, true, false, ltb, arith, ok, Number, same, int,
}
use habs.Env.{Env}
use habs.Chain.{Chain, note_block, get_best_number, chain_moving_forward}

-- The state after `n` readings of the same block number.
abbrev pub readings : ℕ → Number → Chain → Chain
readings zero b c = c
readings (suc n) b c = (note_block b (readings n b c)).1

-- A chain state that has just seen block `b`.
abbrev pub Seen : Number → Chain → Type 0
Seen b c = (same c.last_block_number b ≡ true) × (c.last_block_accumulator ≡ 0)

same_self : (a b : Number) → same a b ≡ true → same b b ≡ true
same_self (int x) (int y) h = ground arith
same_self _ _ h = ground arith

-- One more reading of the block that was seen last.
note_block_seen :
    (b : Number) (c : Chain)
    → same c.last_block_number b ≡ true
    → same b b ≡ true
    → (same (note_block b c).1.last_block_number b ≡ true)
      × ((note_block b c).1.last_block_accumulator ≡ c.last_block_accumulator + 1)
      × ((note_block b c).1.last_block_threshold ≡ c.last_block_threshold)
      × ((note_block b c).0 ≡ ok (ltb (c.last_block_accumulator + 1) c.last_block_threshold))
unfolding note_block
note_block_seen b c h k = ground arith

readings-Seen :
    (n : ℕ) (b : Number) (c : Chain)
    → Seen b c
    → (same (readings n b c).last_block_number b ≡ true)
      × ((readings n b c).last_block_accumulator ≡ n)
      × ((readings n b c).last_block_threshold ≡ c.last_block_threshold)
readings-Seen zero b c h = (h.0, h.1, refl)
readings-Seen (suc n) b c h =
    let ih = readings-Seen n b c h in
    let step = note_block_seen b (readings n b c) ih.0 (same_self c.last_block_number b h.0) in
    (step.0, omega (arith, step.1, ih.1), step.2 ∙ ih.2)

module _ {W : Type 0} (env : Env W) where
  -- The state after `n` polls of the chain.
  abbrev pub polls : ℕ → Chain × W → Chain × W
  polls zero s = s
  polls (suc n) s = (chain_moving_forward env (polls n s)).1

  -- The best block number is `b`, now and after any other call.
  abbrev pub StandsAt : Number → Type 0
  StandsAt b = (w : W) → (get_best_number env w).0 ≡ ok b

  poll_stuck :
      (b : Number) (s : Chain × W)
      → StandsAt b
      → ((chain_moving_forward env s).0 ≡ (note_block b s.0).0)
        × ((chain_moving_forward env s).1.0 ≡ (note_block b s.0).1)
  unfolding chain_moving_forward
  poll_stuck b s h = ground (arith, h s.1)

  polls-readings :
      (n : ℕ) (b : Number) (s : Chain × W) → StandsAt b → (polls n s).0 ≡ readings n b s.0
  polls-readings zero b s h = refl
  polls-readings (suc n) b s h =
      (poll_stuck b (polls n s) h).1 ∙ ap (λ c. (note_block b c).1) (polls-readings n b s h)

  -- On a chain that stands still at the block seen last, poll number `n + 1` answers true while
  -- `n + 1` is below the threshold, and false from then on.
  pub stuck_chain_noticed :
      (n : ℕ) (b : Number) (s : Chain × W)
      → StandsAt b
      → Seen b s.0
      → (chain_moving_forward env (polls n s)).0 ≡ ok (ltb (n + 1) s.0.last_block_threshold)
  stuck_chain_noticed n b s h seen =
      let ih = readings-Seen n b s.0 seen in
      ground (
        arith,
        poll_stuck b (polls n s) h,
        polls-readings n b s h,
        ih,
        note_block_seen b (readings n b s.0) ih.0 (same_self _ b seen.0),
      )

  -- A block other than the one seen last is always progress, and the count starts anew from it.
  pub new_block_resets :
      (b : Number) (s : Chain × W)
      → StandsAt b
      → same s.0.last_block_number b ≡ false
      → ((chain_moving_forward env s).0 ≡ ok true)
        × ((chain_moving_forward env s).1.0.last_block_accumulator ≡ 0)
        × ((chain_moving_forward env s).1.0.last_block_number ≡ b)
  unfolding note_block
  new_block_resets b s h fresh = ground (arith, poll_stuck b s h)
