-- ===== src/Tests/Limiting.antt =====
-- A semaphore that counts, and a token bucket with two tokens and one concurrent task.
use gossip_observer.Prelude.{
  ℕ, zero, suc, ◌+◌, ◌-◌, ◌≡◌, ◌≤◌, refl, List, [], ◌∷◌, Option, none, some, arith, ltb,
  if◌then◌else◌, ◌++◌,
}
use gossip_observer.RateLimit.{Semaphore, TokenBucket, Event, new, run}
use gossip_observer.RateLimit.Permits.{increases, decreases}
use gossip_observer.RateLimit.Bounds.{ticks, rate_after, highest, tokens_taken, run_bounds}

abbrev take_one : ℕ → Option ℕ
take_one zero = none
take_one (suc n) = some n

take_one_lem : (p q : ℕ) → take_one p ≡ some q → suc q ≡ p
take_one_lem zero q e = cc
take_one_lem (suc p) q e = ground arith

take_none_lem : (p : ℕ) → take_one p ≡ none → p ≡ 0
take_none_lem zero e = refl
take_none_lem (suc p) e = cc

abbrev counting : Semaphore
counting = record {
  Permits = ℕ;
  create = λ n. n;
  available_permits = λ p. p;
  add_permits = λ n p. p + n;
  forget_permits = λ n p. p - n;
  acquire = take_one;
  available-create = λ n. refl;
  available-add = λ n p. refl;
  available-forget = λ n p. refl;
  acquire_one = take_one_lem;
  acquire_some = take_none_lem;
}

abbrev events : List Event
events =
    Event.take_token ∷ Event.take_permit ∷ Event.take_token ∷ Event.take_permit ∷ Event.take_token
    ∷ Event.tick ∷ Event.take_token ∷ Event.drop_permit ∷ Event.take_permit ∷ []

run_bounds_example :
    let b = run counting (new counting 2 1) events in
    let next = run counting (new counting 2 1) (events ++ Event.tick ∷ []) in
    let tokens = counting.available_permits b.bucket in
    let permits = b.running + counting.available_permits b.classic_sem in
    (b.bucket_size ≡ rate_after 2 events)
    × (tokens ≤ highest 2 2 events)
    × (tokens_taken counting (new counting 2 1) events + tokens ≤ 2 + ticks events)
    × (counting.available_permits next.bucket
        ≡ (if ltb tokens (rate_after 2 events) then suc tokens else tokens))
    × (permits ≤ 1 + increases events)
    × (1 + increases events ≤ permits + decreases events)
run_bounds_example =
    run_bounds counting 2 1 events (omega arith)
      (tt, (tt, (tt, (tt, (tt, (tt, (tt, (tt, (tt, tt)))))))))

-- Three callers get a token, one of them waits for the permit that the first one dropped.
run_test :
    (tokens_taken counting (new counting 2 1) events ≡ 3)
    × ((run counting (new counting 2 1) events).running ≡ 1)
    × ((run counting (new counting 2 1) events).waiting ≡ 1)
unfolding new gossip_observer.RateLimit.step gossip_observer.RateLimit.refill run
run_test = (refl, refl, refl)
