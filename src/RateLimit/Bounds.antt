-- ===== src/RateLimit/Bounds.antt =====
-- What the token bucket limits.
use gossip_observer.Prelude.{
  ℕ, zero, suc, ◌+◌, ◌-◌, ◌^◌, ◌≤◌, ◌<◌, ◌≡◌, refl, ap, ◌∙◌, List, [], ◌∷◌, ◌++◌, Option, none,
  some, arith, All, ltb, leb, ◌==◌, if◌then◌else◌,
}
use gossip_observer.RateLimit.Permits.{increases, decreases, run-permits}
use gossip_observer.RateLimit.{
  Semaphore, TokenBucket, Event, new, refill, with_token, with_permit, without_permit, step, run,
}

abbrev pub ticks : List Event → ℕ
ticks [] = 0
ticks (Event.tick ∷ es) = suc (ticks es)
ticks (_ ∷ es) = ticks es

-- A rate that is set is a `usize`.
abbrev pub IsUsize : Event → Type 0
IsUsize (Event.set_rate capacity) = capacity < 2 ^ 64
IsUsize _ = Unit

-- The rate after an event, with both ways round the end of the range.
abbrev pub rate_of : ℕ → Event → ℕ
rate_of rate (Event.set_rate capacity) = capacity
rate_of rate Event.increase_rate = if suc rate == 2 ^ 64 then 0 else suc rate
rate_of rate Event.decrease_rate = if rate == 0 then 2 ^ 64 - 1 else rate - 1
rate_of rate _ = rate

abbrev pub rate_after : ℕ → List Event → ℕ
rate_after rate [] = rate
rate_after rate (e ∷ es) = rate_after (rate_of rate e) es

abbrev larger : ℕ → ℕ → ℕ
larger m n = if leb m n then n else m

-- The highest of `top` and the rates that the events give.
abbrev pub highest : ℕ → ℕ → List Event → ℕ
highest top rate [] = top
highest top rate (e ∷ es) = highest (larger top (rate_of rate e)) (rate_of rate e) es

module _ (s : Semaphore) where
  abbrev pub one_taken : Option s.Permits → ℕ
  one_taken none = 0
  one_taken (some p) = 1

  -- How many callers get a token.
  abbrev pub tokens_taken : TokenBucket s → List Event → ℕ
  tokens_taken b [] = 0
  tokens_taken b (Event.take_token ∷ es) =
      one_taken (s.acquire b.bucket) + tokens_taken (step s b Event.take_token) es
  tokens_taken b (e ∷ es) = tokens_taken (step s b e) es

  refill_bound :
      (b : TokenBucket s)
      → s.available_permits (refill s b).bucket ≤ suc (s.available_permits b.bucket)
  unfolding refill
  refill_bound b = ground (arith, s.available-add 1 b.bucket)

  token_bound :
      (b : TokenBucket s) (o : Option s.Permits)
      → s.acquire b.bucket ≡ o
      → one_taken o + s.available_permits (with_token s b o).bucket ≡ s.available_permits b.bucket
  token_bound b none e = omega arith
  token_bound b (some p) e = omega (arith, s.acquire_one b.bucket p e)

  permit_bucket :
      (b : TokenBucket s) (w : ℕ) (o : Option s.Permits) → (with_permit s b w o).bucket ≡ b.bucket
  permit_bucket b zero o = refl
  permit_bucket b (suc w) none = refl
  permit_bucket b (suc w) (some p) = refl

  drop_bucket : (b : TokenBucket s) (r : ℕ) → (without_permit s b r).bucket ≡ b.bucket
  drop_bucket b zero = refl
  drop_bucket b (suc r) = refl

  run_tokens :
      (b : TokenBucket s) (es : List Event)
      → tokens_taken b es + s.available_permits (run s b es).bucket
        ≤ s.available_permits b.bucket + ticks es
  unfolding run step
  run_tokens b [] = omega arith
  run_tokens b (Event.tick ∷ es) = omega (arith, refill_bound b, run_tokens (refill s b) es)
  run_tokens b (Event.take_token ∷ es) = omega (
    arith,
    token_bound b (s.acquire b.bucket) refl,
    run_tokens (with_token s b (s.acquire b.bucket)) es,
  )
  run_tokens b (Event.take_permit ∷ es) = omega (
    arith,
    ap s.available_permits (permit_bucket b b.waiting (s.acquire b.classic_sem)),
    run_tokens (with_permit s b b.waiting (s.acquire b.classic_sem)) es,
  )
  run_tokens b (Event.drop_permit ∷ es) = omega (
    arith,
    ap s.available_permits (drop_bucket b b.running),
    run_tokens (without_permit s b b.running) es,
  )
  run_tokens b (e ∷ es) = omega (arith, run_tokens (step s b e) es)

  token_size :
      (b : TokenBucket s) (o : Option s.Permits) → (with_token s b o).bucket_size ≡ b.bucket_size
  token_size b none = refl
  token_size b (some p) = refl

  permit_size :
      (b : TokenBucket s) (w : ℕ) (o : Option s.Permits)
      → (with_permit s b w o).bucket_size ≡ b.bucket_size
  permit_size b zero o = refl
  permit_size b (suc w) none = refl
  permit_size b (suc w) (some p) = refl

  drop_size : (b : TokenBucket s) (r : ℕ) → (without_permit s b r).bucket_size ≡ b.bucket_size
  drop_size b zero = refl
  drop_size b (suc r) = refl

  refill_size : (b : TokenBucket s) → (refill s b).bucket_size ≡ b.bucket_size
  unfolding refill
  refill_size b = ground arith

  step_rate :
      (b : TokenBucket s) (e : Event)
      → b.bucket_size < 2 ^ 64
      → (step s b e).bucket_size ≡ rate_of b.bucket_size e
  unfolding step
  step_rate b Event.tick h = refill_size b
  step_rate b Event.take_token h = token_size b (s.acquire b.bucket)
  step_rate b Event.take_permit h = permit_size b b.waiting (s.acquire b.classic_sem)
  step_rate b Event.drop_permit h = drop_size b b.running
  step_rate b (Event.set_rate capacity) h = refl
  step_rate b Event.increase_rate h = ground arith
  step_rate b Event.decrease_rate h = ground arith
  step_rate b Event.increase_concurrency h = refl
  step_rate b Event.decrease_concurrency h = refl

  rate_of_bound : (r : ℕ) (e : Event) → IsUsize e → r < 2 ^ 64 → rate_of r e < 2 ^ 64
  rate_of_bound r (Event.set_rate capacity) u h = u
  rate_of_bound r Event.increase_rate u h = ground arith
  rate_of_bound r Event.decrease_rate u h = ground arith
  rate_of_bound r Event.tick u h = h
  rate_of_bound r Event.take_token u h = h
  rate_of_bound r Event.take_permit u h = h
  rate_of_bound r Event.drop_permit u h = h
  rate_of_bound r Event.increase_concurrency u h = h
  rate_of_bound r Event.decrease_concurrency u h = h

  run_rate :
      (b : TokenBucket s) (rate : ℕ) (es : List Event)
      → b.bucket_size ≡ rate
      → rate < 2 ^ 64
      → All IsUsize es
      → (run s b es).bucket_size ≡ rate_after rate es
  unfolding run
  run_rate b rate [] same h us = same
  run_rate b rate (e ∷ es) same h (u, us) =
      run_rate (step s b e) (rate_of rate e) es
        (step_rate b e (omega (arith, same, h)) ∙ ap (λ r. rate_of r e) same)
        (rate_of_bound rate e u h) us

  -- A tick adds a token below the rate, and nothing else adds one.
  step_top :
      (b : TokenBucket s) (top : ℕ) (e : Event)
      → b.bucket_size ≤ top
      → s.available_permits b.bucket ≤ top
      → s.available_permits (step s b e).bucket ≤ top
  unfolding step refill
  step_top b top Event.tick h a = ground (arith, s.available-add 1 b.bucket)
  step_top b top Event.take_token h a = omega (arith, a, token_bound b (s.acquire b.bucket) refl)
  step_top b top Event.take_permit h a =
      omega (arith, a, ap s.available_permits (permit_bucket b b.waiting (s.acquire b.classic_sem)))
  step_top b top Event.drop_permit h a =
      omega (arith, a, ap s.available_permits (drop_bucket b b.running))
  step_top b top (Event.set_rate capacity) h a = a
  step_top b top Event.increase_rate h a = a
  step_top b top Event.decrease_rate h a = a
  step_top b top Event.increase_concurrency h a = a
  step_top b top Event.decrease_concurrency h a = a

  run_top :
      (b : TokenBucket s) (top rate : ℕ) (es : List Event)
      → b.bucket_size ≡ rate
      → rate < 2 ^ 64
      → All IsUsize es
      → rate ≤ top
      → s.available_permits b.bucket ≤ top
      → s.available_permits (run s b es).bucket ≤ highest top rate es
  unfolding run
  run_top b top rate [] same h us t a = a
  run_top b top rate (e ∷ es) same h (u, us) t a =
      let a' = step_top b top e (omega (arith, same, t)) a in
      run_top (step s b e) (larger top (rate_of rate e)) (rate_of rate e) es
        (step_rate b e (omega (arith, same, h)) ∙ ap (λ r. rate_of r e) same)
        (rate_of_bound rate e u h) us (ground arith) (ground (arith, a'))

  run-append : (b : TokenBucket s) (es ds : List Event) → run s b (es ++ ds) ≡ run s (run s b es) ds
  unfolding run
  run-append b [] ds = refl
  run-append b (e ∷ es) ds = run-append (step s b e) es ds

  refill_one :
      (b : TokenBucket s) (rate : ℕ)
      → b.bucket_size ≡ rate
      → s.available_permits (refill s b).bucket ≡ (
          if ltb (s.available_permits b.bucket) rate
          then suc (s.available_permits b.bucket)
          else s.available_permits b.bucket)
  unfolding refill
  refill_one b rate e = ground (arith, s.available-add 1 b.bucket)

  -- After any events on a new token bucket whose rates are 64-bit numbers: the rate is the one that
  -- was set last, raised and lowered since, round the ends of the range. The tokens that are left
  -- are never more than the highest of the rates so far, and together with the callers that got a
  -- token at most the first size and one for each tick of the refill task, the immediate first one
  -- included. One more tick adds a token if fewer are left than the rate, else none. The permits
  -- that are held or available are at most the first number and one for each increase, and at least
  -- that less one for each decrease, so exactly the first number if neither was called.
  pub run_bounds :
      (bucket_size max_concurrent : ℕ) (es : List Event)
      → bucket_size < 2 ^ 64
      → All IsUsize es
      → let b = run s (new s bucket_size max_concurrent) es in
        let next = run s (new s bucket_size max_concurrent) (es ++ Event.tick ∷ []) in
        let tokens = s.available_permits b.bucket in
        let permits = b.running + s.available_permits b.classic_sem in
        (b.bucket_size ≡ rate_after bucket_size es)
        × (tokens ≤ highest bucket_size bucket_size es)
        × (tokens_taken (new s bucket_size max_concurrent) es + tokens ≤ bucket_size + ticks es)
        × (s.available_permits next.bucket
            ≡ (if ltb tokens (rate_after bucket_size es) then suc tokens else tokens))
        × (permits ≤ max_concurrent + increases es)
        × (max_concurrent + increases es ≤ permits + decreases es)
  unfolding new run step
  run_bounds bucket_size max_concurrent es small us =
      let b = new s bucket_size max_concurrent in
      let created = s.available-create bucket_size in
      let rate = run_rate b bucket_size es refl small us in
      let (p, q) = run-permits s b es in
      (
        rate,
        run_top b bucket_size bucket_size es refl small us (omega arith) (omega (arith, created)),
        omega (arith, run_tokens b es, created),
        ap (λ c. s.available_permits c.bucket) (run-append b es (Event.tick ∷ []))
            ∙ refill_one (run s b es) (rate_after bucket_size es) rate,
        omega (arith, p, s.available-create max_concurrent),
        omega (arith, q, s.available-create max_concurrent),
      )
