-- ===== src/Archive/Writer/Batches.antt =====
-- What the writer writes while the database takes its batches: everything once, timings in order.
use gossip_observer.Archive.Records.{Feed}
use gossip_observer.Archive.Writer.{
  WriterEnd, WriterEvent, Buffers, Writer, empty_buffers, start, finish, write_step, run_writer,
}
use gossip_observer.Prelude.{
  ℕ, ◌<◌, ◌≡◌, refl, ap, sym, ◌∙◌, subst, Bool, true, false, ◌||◌, List, [], ◌∷◌, ◌++◌, Result, ok,
  leb, arith, All, append_assoc, append-nil, length,
}
use gossip_observer.Archive.Writer.Sorting.{IsSorted, sort_timings_lem}
use mathlib.Core.List.{Permᴰ}
use mathlib.Core.List.Permᴰ

module _ (f : Feed) where
  -- What one event brings.
  abbrev pub receive : Buffers f → WriterEvent f → Buffers f
  receive b (WriterEvent.raw m) = record b { raws = b.raws ++ m ∷ [] }
  receive b (WriterEvent.timing m) = record b { timings = b.timings ++ m ∷ [] }
  receive b (WriterEvent.meta m) = record b { metas = b.metas ++ m ∷ [] }
  receive b (WriterEvent.mapping m) = record b { hash_mappings = b.hash_mappings ++ m ∷ [] }
  receive b _ = b

  abbrev pub received : Buffers f → List (WriterEvent f) → Buffers f
  received b [] = b
  received b (e ∷ es) = received (receive b e) es

  -- The batches, newest first, end to end and then the buffers.
  abbrev pub end_to_end : {A : Type 0} → (Buffers f → List A) → List (Buffers f) → List A → List A
  end_to_end field [] rest = rest
  end_to_end field (b ∷ bs) rest = end_to_end field bs (field b ++ rest)

  abbrev pub IsOpen : WriterEvent f → Type 0
  IsOpen WriterEvent.cancelled = ⊥
  IsOpen WriterEvent.closed = ⊥
  IsOpen _ = Unit

  end_to_end-append :
      {A : Type 0} (field : Buffers f → List A) (bs : List (Buffers f)) (rest more : List A)
      → end_to_end field bs (rest ++ more) ≡ end_to_end field bs rest ++ more
  end_to_end-append field [] rest more = refl
  end_to_end-append field (b ∷ bs) rest more =
      ap (end_to_end field bs) (sym (append_assoc (field b) rest more))
      ∙ end_to_end-append field bs (field b ++ rest) more

  end_to_end-Perm :
      {A : Type 0} (field : Buffers f → List A) (bs : List (Buffers f)) (l l' : List A)
      → Permᴰ l l'
      → Permᴰ (end_to_end field bs l) (end_to_end field bs l')
  end_to_end-Perm field [] l l' p = p
  end_to_end-Perm field (b ∷ bs) l l' p =
      end_to_end-Perm field bs (field b ++ l) (field b ++ l') (Permᴰ.append_left (field b) p)

  -- `done` is what was received so far.
  pub record IsHeld (done : Buffers f) (w : Writer f) : Type 0 where
    pub raws_held : end_to_end (λ b. b.raws) w.written w.buffers.raws ≡ done.raws
    pub metas_held : end_to_end (λ b. b.metas) w.written w.buffers.metas ≡ done.metas
    pub mappings_held :
        end_to_end (λ b. b.hash_mappings) w.written w.buffers.hash_mappings ≡ done.hash_mappings
    pub timings_held : Permᴰ (end_to_end (λ b. b.timings) w.written w.buffers.timings) done.timings
    pub sorted : All (λ b. IsSorted f b.timings) w.written

  abbrev pub always : List (Buffers f) → Buffers f → Bool
  always _ _ = true

  module _ (batch_size : ℕ) (positive : 0 < batch_size) where
    -- A turn of the loop succeeds, and then the timings are fewer than a batch.
    abbrev pub Goes : Buffers f → Result (Writer f) WriterEnd → Type 0
    Goes done r =
        (next : Writer f) × (r ≡ ok next)
        × IsHeld done next
        × (length next.buffers.timings < batch_size)

    finish-IsHeld :
        (done : Buffers f) (should_flush : Bool) (w : Writer f)
        → IsHeld done w
        → Goes done (finish f always batch_size should_flush w)
    unfolding finish
    finish-IsHeld done should_flush w h =
        cases (should_flush || leb batch_size (length w.buffers.timings)) refl
      where
        cases :
            (b : Bool)
            → (should_flush || leb batch_size (length w.buffers.timings)) ≡ b
            → Goes done (finish f always batch_size should_flush w)
        cases true e =
            let (s, p) = sort_timings_lem f w.buffers.timings in
            rw (e, finish)
              (
                _,
                refl,
                record {
                  raws_held = ap (end_to_end (λ b. b.raws) w.written) (append-nil _) ∙ h.raws_held;
                  metas_held =
                      ap (end_to_end (λ b. b.metas) w.written) (append-nil _) ∙ h.metas_held;
                  mappings_held =
                      ap (end_to_end (λ b. b.hash_mappings) w.written) (append-nil _)
                      ∙ h.mappings_held;
                  timings_held =
                      Permᴰ.trans
                        (end_to_end-Perm (λ b. b.timings) w.written _ w.buffers.timings
                          (subst (λ l. Permᴰ l w.buffers.timings) (sym (append-nil _)) p))
                        h.timings_held;
                  sorted = (s, h.sorted);
                },
                positive,
              )
        cases false e = rw (e, finish) (w, refl, h, short should_flush e)
          where
            short :
                (b : Bool)
                → (b || leb batch_size (length w.buffers.timings)) ≡ false
                → length w.buffers.timings < batch_size
            short false q = ground arith
            short true q = cc

    write_step-IsHeld :
        (done : Buffers f) (w : Writer f) (e : WriterEvent f)
        → IsHeld done w
        → IsOpen e
        → Goes (receive done e) (write_step f always batch_size w e)
    unfolding write_step
    write_step-IsHeld done w WriterEvent.cancelled h o = absurd o
    write_step-IsHeld done w WriterEvent.closed h o = absurd o
    write_step-IsHeld done w WriterEvent.tick h o = finish-IsHeld done true w h
    write_step-IsHeld done w (WriterEvent.raw m) h o = finish-IsHeld _ false _ (record {
      raws_held =
          end_to_end-append (λ b. b.raws) w.written w.buffers.raws (m ∷ [])
          ∙ ap (λ l. l ++ m ∷ []) h.raws_held;
      metas_held = h.metas_held;
      mappings_held = h.mappings_held;
      timings_held = h.timings_held;
      sorted = h.sorted;
    })
    write_step-IsHeld done w (WriterEvent.meta m) h o = finish-IsHeld _ false _ (record {
      raws_held = h.raws_held;
      metas_held =
          end_to_end-append (λ b. b.metas) w.written w.buffers.metas (m ∷ [])
          ∙ ap (λ l. l ++ m ∷ []) h.metas_held;
      mappings_held = h.mappings_held;
      timings_held = h.timings_held;
      sorted = h.sorted;
    })
    write_step-IsHeld done w (WriterEvent.mapping m) h o = finish-IsHeld _ false _ (record {
      raws_held = h.raws_held;
      metas_held = h.metas_held;
      mappings_held =
          end_to_end-append (λ b. b.hash_mappings) w.written w.buffers.hash_mappings (m ∷ [])
          ∙ ap (λ l. l ++ m ∷ []) h.mappings_held;
      timings_held = h.timings_held;
      sorted = h.sorted;
    })
    write_step-IsHeld done w (WriterEvent.timing m) h o = finish-IsHeld _ false _ (record {
      raws_held = h.raws_held;
      metas_held = h.metas_held;
      mappings_held = h.mappings_held;
      timings_held =
          subst (λ l. Permᴰ l (done.timings ++ m ∷ []))
            (sym (end_to_end-append (λ b. b.timings) w.written w.buffers.timings (m ∷ [])))
            (Permᴰ.append_right (m ∷ []) h.timings_held);
      sorted = h.sorted;
    })

    run_writer-from :
        (done : Buffers f) (w : Writer f) (es : List (WriterEvent f))
        → IsHeld done w
        → length w.buffers.timings < batch_size
        → All IsOpen es
        → Goes (received done es) (run_writer f always batch_size w es)
    unfolding run_writer
    run_writer-from done w [] h s o = (w, refl, h, s)
    run_writer-from done w (e ∷ es) h s (o, os) =
        let (next, q, h', s') = write_step-IsHeld done w e h o in
        let (last, q', h'', s'') = run_writer-from (receive done e) next es h' s' os in
        (last, rw (q, q') refl, h'', s'')

    -- While the database takes its batches and the task is neither cancelled nor a channel closed,
    -- it goes on without an error. The batches that were written and then the buffers hold each raw
    -- message, metadata and hash mapping that was received once, in that order, and each timing once
    -- in some order. Every batch's timings are sorted by time, and fewer timings than a batch are
    -- left in the buffer.
    pub run_writer-IsHeld :
        (es : List (WriterEvent f))
        → All IsOpen es
        → (last : Writer f) × (run_writer f always batch_size (start f always batch_size) es
            ≡ ok last)
          × IsHeld (received (empty_buffers f) es) last
          × (length last.buffers.timings < batch_size)
    run_writer-IsHeld es o =
        run_writer-from (empty_buffers f) (start f always batch_size) es
          (record {
            raws_held = refl;
            metas_held = refl;
            mappings_held = refl;
            timings_held = Permᴰ.nil;
            sorted = tt;
          })
          positive o
