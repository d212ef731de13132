-- ===== src/Archive/Ticker/Flushes.antt =====
-- What the ticker sends while the receivers exist: every record once, and a flush in time.
use gossip_observer.Archive.Records.{Feed, ExportedGossip, split_exported_gossip}
use gossip_observer.Archive.Ticker.{Ticker, TickerEvent, Sent, start, flush_full, tick, run_ticker}
use gossip_observer.Prelude.{
  ℕ, suc, ◌≤◌, ◌<◌, ◌≡◌, refl, ap, sym, ◌∙◌, Bool, true, false, List, [], ◌∷◌, ok, leb, arith, All,
}

module _ (f : Feed) where
  -- Each receiver still exists.
  abbrev pub always : List (Sent f) → Sent f → Bool
  always _ _ = true

  abbrev pub IsOpen : TickerEvent f → Type 0
  IsOpen TickerEvent.cancelled = ⊥
  IsOpen TickerEvent.closed = ⊥
  IsOpen _ = Unit

  -- The records among what was sent.
  abbrev pub without_flush : List (Sent f) → List (Sent f)
  without_flush [] = []
  without_flush (Sent.flush ∷ out) = without_flush out
  without_flush (s ∷ out) = s ∷ without_flush out

  -- The messages since the last flush, newest first.
  abbrev pub since_flush : List (Sent f) → ℕ
  since_flush [] = 0
  since_flush (Sent.flush ∷ out) = 0
  since_flush (Sent.raw m ∷ out) = suc (since_flush out)
  since_flush (s ∷ out) = since_flush out

  -- The records of one message, newest first, before those of `out`.
  abbrev pub entries_of : ExportedGossip f → List (Sent f) → List (Sent f)
  entries_of m out =
      let s = split_exported_gossip f m in
      Sent.mapping s.3 ∷ Sent.meta s.2 ∷ Sent.timings s.1 ∷ Sent.raw s.0 ∷ out

  abbrev pub entries : List (Sent f) → List (TickerEvent f) → List (Sent f)
  entries out [] = out
  entries out (TickerEvent.received m ∷ es) = entries (entries_of m out) es
  entries out (_ ∷ es) = entries out es

  module _ (batch_size : ℕ) (positive : 0 < batch_size) where
    pub record IsTimely (t : Ticker f) : Type 0 where
      pub counted : since_flush t.out ≡ t.msg_counter
      pub within : t.msg_counter ≤ batch_size

    flush_full-IsTimely :
        (t : Ticker f)
        → IsTimely t
        → (ready : Ticker f) × (flush_full f always batch_size t ≡ ok ready)
          × (since_flush ready.out ≡ ready.msg_counter)
          × (ready.msg_counter < batch_size)
          × (without_flush ready.out ≡ without_flush t.out)
    flush_full-IsTimely t h = cases (leb batch_size t.msg_counter) refl
      where
        cases :
            (b : Bool)
            → leb batch_size t.msg_counter ≡ b
            → (ready : Ticker f) × (flush_full f always batch_size t ≡ ok ready)
              × (since_flush ready.out ≡ ready.msg_counter)
              × (ready.msg_counter < batch_size)
              × (without_flush ready.out ≡ without_flush t.out)
        cases true e = (
          record t { msg_counter = 0; full_counter = suc t.full_counter; out = Sent.flush ∷ t.out },
          rw (e, flush_full) refl,
          refl,
          positive,
          refl,
        )
        cases false e = (t, rw (e, flush_full) refl, h.counted, ground arith, refl)

    tick-IsTimely :
        (t : Ticker f) (e : TickerEvent f)
        → IsTimely t
        → IsOpen e
        → (next : Ticker f) × (tick f always batch_size t e ≡ ok next)
          × IsTimely next
          × (without_flush next.out ≡ entries (without_flush t.out) (e ∷ []))
    unfolding tick split_exported_gossip
    tick-IsTimely t TickerEvent.cancelled h o = absurd o
    tick-IsTimely t TickerEvent.closed h o = absurd o
    tick-IsTimely t TickerEvent.stats_tick h o =
        (_, refl, record { counted = h.counted; within = h.within }, refl)
    tick-IsTimely t TickerEvent.flush_tick h o =
        (_, refl, record { counted = refl; within = omega arith }, refl)
    tick-IsTimely t (TickerEvent.received m) h o =
        let (ready, e, c, w, s) = flush_full-IsTimely t h in
        (
          record ready { msg_counter = suc ready.msg_counter; out = entries_of m ready.out },
          rw e refl,
          record { counted = ap suc c; within = omega arith },
          ap (entries_of m) s,
        )

    entries-cons :
        (out : List (Sent f)) (e : TickerEvent f) (es : List (TickerEvent f))
        → entries out (e ∷ es) ≡ entries (entries out (e ∷ [])) es
    entries-cons out (TickerEvent.received m) es = refl
    entries-cons out TickerEvent.cancelled es = refl
    entries-cons out TickerEvent.closed es = refl
    entries-cons out TickerEvent.stats_tick es = refl
    entries-cons out TickerEvent.flush_tick es = refl

    run_ticker-from :
        (t : Ticker f) (es : List (TickerEvent f))
        → IsTimely t
        → All IsOpen es
        → (last : Ticker f) × (run_ticker f always batch_size t es ≡ ok last)
          × IsTimely last
          × (without_flush last.out ≡ entries (without_flush t.out) es)
    unfolding run_ticker
    run_ticker-from t [] h o = (t, refl, h, refl)
    run_ticker-from t (e ∷ es) h (o, os) =
        let (next, q, h', s) = tick-IsTimely t e h o in
        let (last, q', h'', s') = run_ticker-from next es h' os in
        (
          last,
          rw (q, q') refl,
          h'',
          s' ∙ ap (λ l. entries l es) s ∙ sym (entries-cons (without_flush t.out) e es),
        )

    -- While the receivers exist and the task is neither cancelled nor its channel closed, it goes on
    -- without an error. The four records of each message are sent once, in the order of the
    -- messages. The counter is the number of messages since the last flush signal, which never
    -- exceeds the batch size.
    pub run_ticker-IsTimely :
        (es : List (TickerEvent f))
        → All IsOpen es
        → (last : Ticker f) × (run_ticker f always batch_size (start f always batch_size) es
            ≡ ok last)
          × IsTimely last
          × (without_flush last.out ≡ entries [] es)
    run_ticker-IsTimely es o =
        run_ticker-from (start f always batch_size) es
          (record { counted = refl; within = omega arith }) o
