-- ===== src/Export/Publish.antt =====
-- `publish_msgs`.
use gossip_observer.Archive.Decoder.{inter_delim}
use gossip_observer.Prelude.{
  ℕ, suc, zero, ◌+◌, ◌/◌, ◌≤◌, ◌<◌, ◌≡◌, refl, ap, sym, ◌∙◌, Bool, true, false, List, [], ◌∷◌, ◌++◌,
  Option, none, some, Result, ok, err, ◌>>=◌, leb, length, length-append, All, arith, append_assoc,
  append-nil,
}
use gossip_observer.Prelude.Split.{join}
use gossip_observer.Prelude.Text.{Text}

-- What wakes the loop: a stop, a message (`none`: the channel is closed), the statistics timer.
pub data PublishEvent : Type 0 where
  stop stats_tick : PublishEvent
  rx_msg : Option Text → PublishEvent

pub data PublishEnd : Type 0 where
  stopped stream_closed not_acknowledged : PublishEnd

-- `published` are the batches that were published, newest first, and `logged` the average times.
pub record Publisher : Type 0 where
  pub msg_batch : List Text
  pub total_upload_time : ℕ
  pub upload_count : ℕ
  pub published : List (List Text)
  pub logged : List ℕ

-- `publish` gives the milliseconds until the acknowledgement of a payload, or `none` without one: the
-- stop signal comes first, or NATS fails.
module _ (publish : List (List Text) → Text → Option ℕ) (batch_size : ℕ) where
  abbrev pub start : Publisher
  start = record {
    msg_batch = [];
    total_upload_time = 0;
    upload_count = 0;
    published = [];
    logged = [];
  }

  abbrev pub upload : Publisher → Result Publisher PublishEnd
  upload p = elim (publish p.published (join inter_delim p.msg_batch)) [
    | none ↦ err PublishEnd.not_acknowledged
    | some interval ↦ ok (record p {
      msg_batch = [];
      total_upload_time = p.total_upload_time + interval;
      upload_count = suc p.upload_count;
      published = p.msg_batch ∷ p.published;
    })
  ]

  abbrev pub upload_if : Bool → Publisher → Result Publisher PublishEnd
  upload_if true p = upload p
  upload_if false p = ok p

  -- The end of each turn of the loop.
  unfoldable pub finish : Publisher → Result Publisher PublishEnd
  finish p = upload_if (leb batch_size (length p.msg_batch)) p

  -- `total_upload_time / upload_count`, on a tick after an upload.
  abbrev pub average : ℕ → ℕ → List ℕ
  average total zero = []
  average total (suc n) = total / suc n ∷ []

  unfoldable pub publish_step : Publisher → PublishEvent → Result Publisher PublishEnd
  publish_step p PublishEvent.stop = err PublishEnd.stopped
  publish_step p (PublishEvent.rx_msg none) = err PublishEnd.stream_closed
  publish_step p (PublishEvent.rx_msg (some msg)) =
      finish (record p { msg_batch = p.msg_batch ++ msg ∷ [] })
  publish_step p PublishEvent.stats_tick = finish (record p {
    upload_count = 0;
    logged = average p.total_upload_time p.upload_count ++ p.logged;
  })

  unfoldable pub publish_msgs : Publisher → List PublishEvent → Result Publisher PublishEnd
  publish_msgs p [] = ok p
  publish_msgs p (e ∷ es) = do next ← publish_step p e; publish_msgs next es

  -- The messages that were received.
  abbrev pub received : List PublishEvent → List Text
  received [] = []
  received (PublishEvent.rx_msg (some msg) ∷ es) = msg ∷ received es
  received (_ ∷ es) = received es

  abbrev pub IsOpen : PublishEvent → Type 0
  IsOpen PublishEvent.stop = ⊥
  IsOpen (PublishEvent.rx_msg none) = ⊥
  IsOpen _ = Unit

  -- The batches, newest first, end to end and then the rest.
  abbrev pub end_to_end : List (List Text) → List Text → List Text
  end_to_end [] rest = rest
  end_to_end (b ∷ bs) rest = end_to_end bs (b ++ rest)

  pub end_to_end-append :
      (bs : List (List Text)) (rest more : List Text)
      → end_to_end bs (rest ++ more) ≡ end_to_end bs rest ++ more
  end_to_end-append [] rest more = refl
  end_to_end-append (b ∷ bs) rest more =
      ap (end_to_end bs) (sym (append_assoc b rest more)) ∙ end_to_end-append bs (b ++ rest) more

  pub record IsBatched (done : List Text) (p : Publisher) : Type 0 where
    pub in_order : end_to_end p.published p.msg_batch ≡ done
    pub full : All (λ b. length b ≡ batch_size) p.published

  module _ (positive : 0 < batch_size)
      (acknowledged : (bs : List (List Text)) (t : Text)
        → (ms : ℕ) × (publish bs t ≡ some ms)) where
    abbrev pub Goes : List Text → Result Publisher PublishEnd → Type 0
    Goes done r =
        (next : Publisher) × (r ≡ ok next)
        × IsBatched done next
        × (length next.msg_batch < batch_size)

    -- A turn starts with at most one message more than a batch lacks.
    finish-IsBatched :
        (done : List Text) (p : Publisher)
        → IsBatched done p
        → length p.msg_batch ≤ batch_size
        → Goes done (finish p)
    unfolding finish
    finish-IsBatched done p h s =
        let (ms, a) = acknowledged p.published (join inter_delim p.msg_batch) in
        cases ms a (leb batch_size (length p.msg_batch)) refl
      where
        cases :
            (ms : ℕ)
            → publish p.published (join inter_delim p.msg_batch) ≡ some ms
            → (b : Bool) → leb batch_size (length p.msg_batch) ≡ b
            → Goes done (finish p)
        cases ms a true e = (
          record p {
            msg_batch = [];
            total_upload_time = p.total_upload_time + ms;
            upload_count = suc p.upload_count;
            published = p.msg_batch ∷ p.published;
          },
          rw (e, finish) (rw (a, upload) refl),
          record {
            in_order = ap (end_to_end p.published) (append-nil p.msg_batch) ∙ h.in_order;
            full = (ground arith, h.full);
          },
          positive,
        )
        cases ms a false e = (p, rw (e, finish) refl, h, ground arith)

    publish_step-IsBatched :
        (done : List Text) (p : Publisher) (e : PublishEvent)
        → IsBatched done p
        → length p.msg_batch < batch_size
        → IsOpen e
        → Goes (done ++ received (e ∷ [])) (publish_step p e)
    unfolding publish_step
    publish_step-IsBatched done p PublishEvent.stop h s o = absurd o
    publish_step-IsBatched done p (PublishEvent.rx_msg none) h s o = absurd o
    publish_step-IsBatched done p PublishEvent.stats_tick h s o =
        finish-IsBatched _ _
          (record { in_order = h.in_order ∙ sym (append-nil done); full = h.full }) (omega arith)
    publish_step-IsBatched done p (PublishEvent.rx_msg (some msg)) h s o =
        finish-IsBatched _ _
          (record {
            in_order =
                end_to_end-append p.published p.msg_batch (msg ∷ [])
                ∙ ap (λ l. l ++ msg ∷ []) h.in_order;
            full = h.full;
          })
          (omega (arith, length-append p.msg_batch (msg ∷ [])))

    received-cons :
        (e : PublishEvent) (es : List PublishEvent)
        → received (e ∷ []) ++ received es ≡ received (e ∷ es)
    received-cons PublishEvent.stop es = refl
    received-cons PublishEvent.stats_tick es = refl
    received-cons (PublishEvent.rx_msg none) es = refl
    received-cons (PublishEvent.rx_msg (some m)) es = refl

    publish_msgs-from :
        (done : List Text) (p : Publisher) (es : List PublishEvent)
        → IsBatched done p
        → length p.msg_batch < batch_size
        → All IsOpen es
        → Goes (done ++ received es) (publish_msgs p es)
    unfolding publish_msgs
    publish_msgs-from done p [] h s o =
        (p, refl, record { in_order = h.in_order ∙ sym (append-nil done); full = h.full }, s)
    publish_msgs-from done p (e ∷ es) h s (o, os) =
        let (next, q, h', s') = publish_step-IsBatched done p e h s o in
        let (last, q', h'', s'') = publish_msgs-from (done ++ received (e ∷ [])) next es h' s' os in
        (
          last,
          rw (q, q') refl,
          record {
            in_order =
                h''.in_order
                ∙ append_assoc done (received (e ∷ [])) (received es)
                ∙ ap (λ l. done ++ l) (received-cons e es);
            full = h''.full;
          },
          s'',
        )

    pub publish_msgs-IsBatched :
        (es : List PublishEvent)
        → All IsOpen es
        → (last : Publisher) × (publish_msgs start es ≡ ok last)
          × IsBatched (received es) last
          × (length last.msg_batch < batch_size)
    publish_msgs-IsBatched es o =
        publish_msgs-from [] start es (record { in_order = refl; full = tt }) positive o
