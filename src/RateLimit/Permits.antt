-- ===== src/RateLimit/Permits.antt =====
-- The permits of the token bucket's second semaphore, which limits the tasks at once.
use gossip_observer.Prelude.{
  ℕ, zero, suc, ◌+◌, ◌≤◌, ◌≡◌, refl, List, [], ◌∷◌, Option, none, some, arith,
}
use gossip_observer.RateLimit.{
  Semaphore, TokenBucket, Event, refill, with_token, with_permit, without_permit, step, run,
}

-- How often the number of tasks was raised and lowered.
abbrev pub increases : List Event → ℕ
increases [] = 0
increases (Event.increase_concurrency ∷ es) = suc (increases es)
increases (_ ∷ es) = increases es

abbrev pub decreases : List Event → ℕ
decreases [] = 0
decreases (Event.decrease_concurrency ∷ es) = suc (decreases es)
decreases (_ ∷ es) = decreases es

module _ (s : Semaphore) where
  -- The permits that are held or available.
  abbrev pub permits : TokenBucket s → ℕ
  permits b = b.running + s.available_permits b.classic_sem

  token-permits :
      (b : TokenBucket s) (o : Option s.Permits) → permits (with_token s b o) ≡ permits b
  token-permits b none = refl
  token-permits b (some p) = refl

  permit-permits :
      (b : TokenBucket s) (w : ℕ) (o : Option s.Permits)
      → s.acquire b.classic_sem ≡ o
      → permits (with_permit s b w o) ≡ permits b
  permit-permits b zero o e = refl
  permit-permits b (suc w) none e = refl
  permit-permits b (suc w) (some p) e = omega (arith, s.acquire_one b.classic_sem p e)

  drop-permits :
      (b : TokenBucket s) (r : ℕ) → b.running ≡ r → permits (without_permit s b r) ≡ permits b
  drop-permits b zero e = refl
  drop-permits b (suc r) e = omega (arith, s.available-add 1 b.classic_sem)

  refill-permits : (b : TokenBucket s) → permits (refill s b) ≡ permits b
  unfolding refill
  refill-permits b = ground arith

  pub run-permits :
      (b : TokenBucket s) (es : List Event)
      → (permits (run s b es) ≤ permits b + increases es)
        × (permits b + increases es ≤ permits (run s b es) + decreases es)
  unfolding run step
  run-permits b [] = (omega arith, omega arith)
  run-permits b (Event.tick ∷ es) =
      let (p, q) = run-permits (refill s b) es in
      (omega (arith, p, refill-permits b), omega (arith, q, refill-permits b))
  run-permits b (Event.take_token ∷ es) =
      let o = s.acquire b.bucket in
      let (p, q) = run-permits (with_token s b o) es in
      (omega (arith, p, token-permits b o), omega (arith, q, token-permits b o))
  run-permits b (Event.take_permit ∷ es) =
      let o = s.acquire b.classic_sem in
      let (p, q) = run-permits (with_permit s b b.waiting o) es in
      let same = permit-permits b b.waiting o refl in
      (omega (arith, p, same), omega (arith, q, same))
  run-permits b (Event.drop_permit ∷ es) =
      let (p, q) = run-permits (without_permit s b b.running) es in
      let same = drop-permits b b.running refl in (omega (arith, p, same), omega (arith, q, same))
  run-permits b (Event.increase_concurrency ∷ es) =
      let (p, q) = run-permits (step s b Event.increase_concurrency) es in
      let more = s.available-add 1 b.classic_sem in (omega (arith, p, more), omega (arith, q, more))
  run-permits b (Event.decrease_concurrency ∷ es) =
      let (p, q) = run-permits (step s b Event.decrease_concurrency) es in
      let less = s.available-forget 1 b.classic_sem in
      (omega (arith, p, less), omega (arith, q, less))
  run-permits b (Event.set_rate capacity ∷ es) = run-permits (step s b (Event.set_rate capacity)) es
  run-permits b (Event.increase_rate ∷ es) = run-permits (step s b Event.increase_rate) es
  run-permits b (Event.decrease_rate ∷ es) = run-permits (step s b Event.decrease_rate) es
