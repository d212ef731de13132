-- ===== src/Channels/Forwarded.antt =====
-- What a collector's node is asked to do when the controller forwards a request.
use gossip_observer.Channels.{
  ChannelDetails, LdkNode, ChannelError, opened, open_at, open_channel, open_read, call_open,
  usable_scid, update_all, update_channel_config, build_collector_client, forwarded_command,
  open_collector_channel, update_channels, from_collector,
}
use gossip_observer.Extern.{Extern, Codecs}
use gossip_observer.Manager.Handle.{run}
use gossip_observer.Manager.Registry.{log_run, run-refines_log}
use gossip_observer.Manager.State.{CollectorManagerMsg, CollectionConfig, Reply, new}
use gossip_observer.Prelude.{
  ℕ, suc, ◌^◌, ◌<◌, ◌≡◌, refl, sym, ap, subst, ◌∙◌, Bool, true, false, List, [], ◌∷◌, ◌++◌, Option,
  none, some, Result, ok, err, ◌>>=◌, last?, map, somes, arith,
}
use gossip_observer.Prelude.Bytes.{Bytes, le_bytes, from_le_bytes, le_bytes-round}
use gossip_observer.Prelude.Text.{Text}
use gossip_observer.Types.Collector.{CollectorHeartbeat, OpenChannelCommand}
use gossip_observer.Wire.Convert.{from_open_channel}
use gossip_observer.Wire.Convert.Rounds.{NoOnionV2, try_open_channel-from_open_channel}

last?-snoc {ℓ} : {A : Type ℓ} (as' : List A) (a : A) → last? (as' ++ a ∷ []) ≡ some a
last?-snoc [] a = refl
last?-snoc (b ∷ []) a = refl
last?-snoc (b ∷ c ∷ as') a = last?-snoc (c ∷ as') a

module _ (x : Extern) (codecs : Codecs x) (ldk : LdkNode x) (reachable : Text → Bool)
    (cfg : CollectionConfig x) (msgs : List (ℕ × CollectorManagerMsg x)) (now : ℕ)
    (collector_uuid : Text) (hb : CollectorHeartbeat x)
    (registered : last? (log_run x collector_uuid [] msgs) ≡ some hb)
    (answers : reachable hb.info.grpc_socket ≡ true) where
  client_lem :
      build_collector_client x ldk reachable now (run x (new x cfg) msgs) collector_uuid ≡ ok tt
  unfolding build_collector_client
  client_lem =
      let (_, _, reply) =
        run-refines_log x cfg msgs now (record hb.info { uuid = collector_uuid }) in
      rw (reply ∙ ap Reply.collector registered, answers) refl

  -- The answer to `open_channel`: a failure of the node is passed on, and the id is read back.
  abbrev pub IsAnswer : Option ℕ → Result Bytes ChannelError → Type 0
  IsAnswer none r = r ≡ err (ChannelError.collector_failed ChannelError.node_failed)
  IsAnswer (some id) r = (bytes : Bytes) × (r ≡ ok bytes) × (from_le_bytes bytes ≡ id)

  -- A collector that the controller knows from a report, and that can be reached, is asked to open a
  -- channel. No address of the command's peer is an Onion V2 address, and channel ids are of 128 bits.
  -- Then the collector's node opens a channel to the peer of the command, at the last of its
  -- addresses and with its amounts, exactly once, and the controller answers with the id that the node
  -- gave, in bytes, or passes its failure on.
  pub open_collector_channel-IsAnswer :
      (cmd : OpenChannelCommand x) (addrs : List x.SocketAddress) (addr : x.SocketAddress)
      (node : ldk.Node)
      → NoOnionV2 x codecs cmd.peer.addrs
      → cmd.peer.addrs ≡ addrs ++ addr ∷ []
      → let (after, channel_id) =
          ldk.open_announced_channel cmd.peer.pubkey addr cmd.capacity_sats cmd.push_amount_msat
            node in
        ((id : ℕ) → channel_id ≡ some id → id < 2 ^ 128)
        → let r =
            open_collector_channel x ldk reachable now
              (run x (new x cfg) msgs)
              collector_uuid
              (some (from_open_channel x cmd))
              node in
          (r.0 ≡ after) × IsAnswer channel_id r.1
  unfolding open_collector_channel forwarded_command open_channel
  open_collector_channel-IsAnswer cmd addrs addr node h e small =
      let mgr = run x (new x cfg) msgs in
      let request = some (from_open_channel x cmd) in
      let read = try_open_channel-from_open_channel x codecs cmd h in
      let r =
        ldk.open_announced_channel cmd.peer.pubkey addr cmd.capacity_sats cmd.push_amount_msat
          node in
      let command : forwarded_command x ldk reachable now mgr collector_uuid request ≡ ok cmd =
        rw (client_lem, read) refl in
      let asked : open_channel x ldk (from_open_channel x cmd) node ≡ opened x ldk r =
        ap (λ c. open_read x ldk c node) read
        ∙ ap (λ a. open_at x ldk cmd a node) (ap last? e ∙ last?-snoc addrs addr) in
      let whole =
        ap (λ c. call_open x ldk reachable c node) command
        ∙ ap (λ a. (a.0, from_collector a.1)) asked in
      subst (λ a. (a.0 ≡ r.0) × IsAnswer r.1 a.1) (sym whole) (at_answer r small)
    where
      at_answer :
          (r : ldk.Node × Option ℕ)
          → ((id : ℕ) → r.1 ≡ some id → id < 2 ^ 128)
          → ((opened x ldk r).0 ≡ r.0) × IsAnswer r.1 (from_collector (opened x ldk r).1)
      at_answer (after, none) small = (refl, refl)
      at_answer (after, some id) small =
          (refl, (le_bytes 16 id, refl, le_bytes-round 16 id (omega (arith, small id refl))))

  module _ (random_channel_cfg : ℕ → ldk.ChannelConfig) where
    -- The usable channels that have a short id.
    abbrev pub usable : List (ChannelDetails x) → List (ChannelDetails x)
    usable [] = []
    usable (c ∷ cs) = elim (usable_scid x ldk c.short_channel_id c.is_usable) [
      | none ↦ usable cs
      | some _ ↦ c ∷ usable cs
    ]

    -- The node after an update of each channel with a new random configuration.
    abbrev pub updated : ℕ → List (ChannelDetails x) → ldk.Node → ldk.Node
    updated n [] node = node
    updated n (c ∷ cs) node =
        updated (suc n) cs
          (ldk.update_channel_config c.user_channel_id c.counterparty_node_id (random_channel_cfg n)
            node).0

    abbrev pub scids : List (ChannelDetails x) → List ℕ
    scids cs = somes (map (λ c. c.short_channel_id) cs)

    module _
        (accepted : (id : ℕ) (k : x.PublicKey) (c : ldk.ChannelConfig) (node : ldk.Node)
          → (ldk.update_channel_config id k c node).1 ≡ true) where
      update_all_lem :
          (n : ℕ) (cs : List (ChannelDetails x)) (node : ldk.Node)
          → update_all x ldk random_channel_cfg n cs node
            ≡ (updated n (usable cs) node, ok (scids (usable cs)))
      unfolding update_all
      update_all_lem n [] node = refl
      update_all_lem n (c ∷ cs) node =
          at_channel c.short_channel_id c.is_usable (λ m after. update_all_lem m cs after)
        where
          with_scid : Option ℕ → Bool → ChannelDetails x
          with_scid o b = record c { short_channel_id = o; is_usable = b }

          at_channel :
              (o : Option ℕ) (b : Bool)
              → ((m : ℕ) (after : ldk.Node)
                  → update_all x ldk random_channel_cfg m cs after
                    ≡ (updated m (usable cs) after, ok (scids (usable cs))))
              → update_all x ldk random_channel_cfg n (with_scid o b ∷ cs) node ≡ (
                updated n (usable (with_scid o b ∷ cs)) node,
                ok (scids (usable (with_scid o b ∷ cs))),
              )
          at_channel none true ih = ih n node
          at_channel none false ih = ih n node
          at_channel (some scid) false ih = ih n node
          at_channel (some scid) true ih =
              let update =
                ldk.update_channel_config c.user_channel_id c.counterparty_node_id
                  (random_channel_cfg n) node in
              rw (accepted c.user_channel_id c.counterparty_node_id (random_channel_cfg n) node)
                (ap (λ r. (r.0, r.1 >>= (λ l. ok (scid ∷ l)))) (ih (suc n) update.0))

      -- A collector that the controller knows from a report, and that can be reached, is asked to
      -- update its channels, and its node accepts every update. Then each usable channel that has a
      -- short id is updated once, with a new random configuration each, no other channel is, and the
      -- controller answers with the short ids of the updated channels, in order.
      pub update_channels_lem :
          (node : ldk.Node)
          → let cs = usable (ldk.list_channels node) in
            update_channels x ldk reachable random_channel_cfg now
              (run x (new x cfg) msgs)
              collector_uuid
              node
            ≡ (updated 0 cs node, ok (scids cs))
      unfolding update_channels update_channel_config
      update_channels_lem node =
          rw client_lem
            (ap (λ r. (r.0, from_collector r.1)) (update_all_lem 0 (ldk.list_channels node) node))
