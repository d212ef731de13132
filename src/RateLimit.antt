-- ===== src/RateLimit.antt =====
-- observer_common/src/token_bucket.rs: `TokenBucket`, which limits a rate and a number of tasks.
pub mod Permits
pub mod Bounds
use gossip_observer.Prelude.{
  ℕ, zero, suc, ◌+◌, ◌-◌, ◌%◌, ◌^◌, ◌≡◌, List, [], ◌∷◌, Option, none, some, ltb, if◌then◌else◌,
}

-- tokio's `Semaphore`: `acquire` is `none` when there is no permit, so that the caller waits. The
-- laws are its documentation, for numbers up to its limit of permits.
pub record Semaphore : Type 1 where
  pub Permits : Type 0
  pub create : ℕ → Permits
  pub available_permits : Permits → ℕ
  pub add_permits : ℕ → Permits → Permits
  pub forget_permits : ℕ → Permits → Permits
  pub acquire : Permits → Option Permits
  pub available-create : (n : ℕ) → available_permits (create n) ≡ n
  pub available-add :
      (n : ℕ) (p : Permits) → available_permits (add_permits n p) ≡ available_permits p + n
  pub available-forget :
      (n : ℕ) (p : Permits) → available_permits (forget_permits n p) ≡ available_permits p - n
  pub acquire_one :
      (p q : Permits) → acquire p ≡ some q → suc (available_permits q) ≡ available_permits p
  pub acquire_some : (p : Permits) → acquire p ≡ none → available_permits p ≡ 0

-- `waiting` callers of `acquire` have a token and wait for a permit of the second semaphore, `running`
-- have both.
pub record TokenBucket (s : Semaphore) : Type 0 where
  pub bucket : s.Permits
  pub bucket_size : ℕ
  pub classic_sem : s.Permits
  pub waiting : ℕ
  pub running : ℕ

-- What the refill task, the callers and the holders of permits do. A `tick` is what the refill task
-- awaits: the first one completes at once, the later ones after an interval each.
pub data Event : Type 0 where
  tick take_token take_permit drop_permit : Event
  set_rate : ℕ → Event
  increase_rate decrease_rate increase_concurrency decrease_concurrency : Event

module _ (s : Semaphore) where
  unfoldable pub new : ℕ → ℕ → TokenBucket s
  new bucket_size max_concurrent = record {
    bucket = s.create bucket_size;
    bucket_size = bucket_size;
    classic_sem = s.create max_concurrent;
    waiting = 0;
    running = 0;
  }

  -- The body of the refill loop, after a tick.
  unfoldable pub refill : TokenBucket s → TokenBucket s
  refill b =
      if ltb (s.available_permits b.bucket) b.bucket_size
      then record b { bucket = s.add_permits 1 b.bucket }
      else b

  -- A caller gets its token and waits for its permit, or waits for the token and nothing changes.
  abbrev pub with_token : TokenBucket s → Option s.Permits → TokenBucket s
  with_token b none = b
  with_token b (some bucket) = record b { bucket = bucket; waiting = suc b.waiting }

  -- One of the callers that have a token gets its permit, and forgets the token.
  abbrev pub with_permit : TokenBucket s → ℕ → Option s.Permits → TokenBucket s
  with_permit b zero o = b
  with_permit b (suc w) none = b
  with_permit b (suc w) (some classic_sem) = record b {
    classic_sem = classic_sem;
    waiting = w;
    running = suc b.running;
  }

  abbrev pub without_permit : TokenBucket s → ℕ → TokenBucket s
  without_permit b zero = b
  without_permit b (suc r) = record b { classic_sem = s.add_permits 1 b.classic_sem; running = r }

  -- `fetch_add` and `fetch_sub` on a `usize` of 64 bits wrap around.
  unfoldable pub step : TokenBucket s → Event → TokenBucket s
  step b Event.tick = refill b
  step b Event.take_token = with_token b (s.acquire b.bucket)
  step b Event.take_permit = with_permit b b.waiting (s.acquire b.classic_sem)
  step b Event.drop_permit = without_permit b b.running
  step b (Event.set_rate capacity) = record b { bucket_size = capacity }
  step b Event.increase_rate = record b { bucket_size = (b.bucket_size + 1) % 2 ^ 64 }
  step b Event.decrease_rate = record b { bucket_size = (b.bucket_size + 2 ^ 64 - 1) % 2 ^ 64 }
  step b Event.increase_concurrency = record b { classic_sem = s.add_permits 1 b.classic_sem }
  step b Event.decrease_concurrency = record b { classic_sem = s.forget_permits 1 b.classic_sem }

  unfoldable pub run : TokenBucket s → List Event → TokenBucket s
  run b [] = b
  run b (e ∷ es) = run (step b e) es
