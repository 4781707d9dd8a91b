-- ===== src/Bridge/Service/Handshake.antt =====
-- The three segments of a handshake, on both consoles: each is what the code sends for it.
use switch_lan_play_nx.Prelude.{
  ℕ, ◌+◌, ◌≡◌, refl, sym, ap, ap₂, ◌∙◌, true, false, ◌&&◌, none, some, [], ◌∷◌, Bool, arith, first,
  first-passes, update_first, first-update_first, update_first-agree, first-update_first_new,
  first-narrow, ◌==◌, if_true, add32,
}
use switch_lan_play_nx.Packet.Tcp.{Segment}
use switch_lan_play_nx.Relay.Fragment.{Sender}
use switch_lan_play_nx.Bridge.VTcp.{
  VTcpConn, PendingAccept, VTcp, has_peer, ldn_control_port, tcp_syn, tcp_ack, send_tcp_segment,
  with_conns,
}
use switch_lan_play_nx.Bridge.Service.Dial.{attempts, wait_established}
use switch_lan_play_nx.Bridge.World.{World, Instance}
use switch_lan_play_nx.Bridge.Service.Accept.{accepted_conn}
use switch_lan_play_nx.Bridge.VTcp.Handle.{
  handle_tcp_segment, on_syn, on_syn_ack, offer, pending_of, final_ack_or_data, awaits,
  is_pending_from, is_free_accept, establish,
}

-- A segment without payload, from the LDN port of a console to that of another.
abbrev between : ℕ → ℕ → ℕ → ℕ → Segment
between src_ip seq ack flags = record {
  src_ip = src_ip;
  src_port = ldn_control_port;
  dst_port = ldn_control_port;
  seq = seq;
  ack = ack;
  flags = flags;
  payload = [];
}

-- The host's pending accept for a client, after its SYN with `their_isn` and before its ACK.
abbrev half_open : ℕ → ℕ → ℕ → PendingAccept
half_open peer_ip our_isn their_isn = record {
  used = true;
  peer_ip = peer_ip;
  peer_port = ldn_control_port;
  our_isn = our_isn;
  their_isn = their_isn;
  got_final_ack = false;
}

module _ (client_ip host_ip client_isn host_isn : ℕ) where
  abbrev pub syn : Segment
  syn = between client_ip client_isn 0 tcp_syn

  -- An attempt of `Connect` to the host's LDN port, in which no round passes.
  abbrev pub one_attempt : ℕ → Instance → World → World × Bool
  one_attempt fd =
      attempts fd client_isn (record { ip = host_ip; port = ldn_control_port }) ([] ∷ [])

  one_attempt-sender :
      (fd : ℕ) (i : Instance) (w : World)
      → i.bridged_local_ip ≡ client_ip
      → (one_attempt fd i w).0.relay.sender ≡ (send_tcp_segment w.relay.sender host_ip syn).0
  unfolding attempts wait_established
  one_attempt-sender fd i w from =
      ap (λ ip. (send_tcp_segment w.relay.sender host_ip (between ip client_isn 0 tcp_syn)).0) from

  abbrev pub syn_ack : Segment
  syn_ack = between host_ip host_isn (add32 client_isn 1) (tcp_syn + tcp_ack)

  abbrev pub final_ack : Segment
  final_ack = between client_ip (add32 client_isn 1) (add32 host_isn 1) tcp_ack

  -- The host has nothing of the client yet, and a place for it.
  abbrev pub Ready : VTcp → Type 0
  Ready v =
      (first (has_peer client_ip) v.vtcp_conns ≡ none)
      × (first (is_pending_from client_ip) v.pending_accepts ≡ none)
      × ((p : PendingAccept) × (first is_free_accept v.pending_accepts ≡ some p))

  abbrev pub Waits : VTcp → PendingAccept → Type 0
  Waits v p = first (is_pending_from client_ip) v.pending_accepts ≡ some p

  offered : VTcp → VTcp
  offered v = record v {
    pending_accepts = update_first is_free_accept (λ _. pending_of host_isn syn) v.pending_accepts;
  }

  host-syn_result :
      (v : VTcp) (r : Sender)
      → Ready v
      → handle_tcp_segment true host_isn host_ip syn v r
        ≡ (offered v, (send_tcp_segment r client_ip syn_ack).0)
  unfolding handle_tcp_segment offered
  host-syn_result v r (no_conn, no_pending, (p, free)) =
      ap (λ c. on_syn host_isn host_ip syn c v r) no_conn
      ∙ ap₂ (λ a b. offer a b host_isn host_ip syn v r) no_pending free

  offered-Waits : (v : VTcp) → Ready v → Waits (offered v) (half_open client_ip host_isn client_isn)
  unfolding offered
  offered-Waits v (no_conn, no_pending, (p, free)) =
      first-update_first_new is_free_accept (is_pending_from client_ip)
        (λ _. pending_of host_isn syn) v.pending_accepts p free no_pending (ground arith)

  host-ack :
      (isn : ℕ) (v : VTcp) (r : Sender)
      → Waits v (half_open client_ip host_isn client_isn)
      → Waits
          (handle_tcp_segment true isn host_ip final_ack v r).0
          (record (half_open client_ip host_isn client_isn) { got_final_ack = true })
  unfolding handle_tcp_segment
  host-ack isn v r waits =
      ap
        (λ p.
          first (is_pending_from client_ip)
            (final_ack_or_data p host_ip final_ack (first (has_peer client_ip) v.vtcp_conns) v
              r).0.pending_accepts)
        awaited
      ∙ ap (first (is_pending_from client_ip)) (
          update_first-agree (awaits final_ack) (is_pending_from client_ip) confirm
            v.pending_accepts p awaited waits)
      ∙ first-update_first (is_pending_from client_ip) confirm v.pending_accepts p waits
          (ground arith)
    where
      p : PendingAccept
      p = half_open client_ip host_isn client_isn

      confirm : PendingAccept → PendingAccept
      confirm q = record q { got_final_ack = true }

      awaited : first (awaits final_ack) v.pending_accepts ≡ some p
      awaited =
          first-narrow (is_pending_from client_ip) (awaits final_ack) v.pending_accepts p
            (λ q passes. ground arith) waits (ground arith)

  client-syn_ack :
      (isn : ℕ) (v : VTcp) (r : Sender) (c : VTcpConn)
      → first (has_peer host_ip) v.vtcp_conns ≡ some c
      → c.syn_sent_awaiting_synack ≡ true
      → c.our_isn ≡ client_isn
      → handle_tcp_segment true isn client_ip syn_ack v r ≡ (
        with_conns v (update_first (has_peer host_ip) (establish syn_ack) v.vtcp_conns),
        (send_tcp_segment r host_ip final_ack).0,
      )
  unfolding handle_tcp_segment
  client-syn_ack isn v r c at waits dialled =
      ap (λ x. on_syn_ack client_ip syn_ack x v r) at
      ∙ if_true (c.syn_sent_awaiting_synack && add32 client_isn 1 == add32 c.our_isn 1) _ _
          (ground arith)
      ∙ ap
          (λ n. (
            with_conns v (update_first (has_peer host_ip) (establish syn_ack) v.vtcp_conns),
            (send_tcp_segment r host_ip
                (between client_ip (add32 n 1) (add32 host_isn 1) tcp_ack)).0,
          ))
          dialled

  -- A client that dials a host with one number, and a host that has nothing of the client, a free
  -- place and draws another number. An attempt of Connect sends a SYN; for this SYN the host sends a
  -- SYN-ACK; for this SYN-ACK the client sends an ACK and its connection is established; after
  -- this ACK the host holds the client's accept ready for Accept. The connection that Accept makes of it
  -- expects exactly the byte that the client sends next, and the client the one that the host
  -- sends next.
  pub handshake-agrees :
      (host client : VTcp) (r t : Sender) (c : VTcpConn) (isn later_isn : ℕ) (fd : ℕ) (i : Instance)
      (w : World)
      → i.bridged_local_ip ≡ client_ip
      → Ready host
      → first (has_peer host_ip) client.vtcp_conns ≡ some c
      → c.syn_sent_awaiting_synack ≡ true
      → c.our_isn ≡ client_isn
      → let (host₁, r₁) = handle_tcp_segment true host_isn host_ip syn host r in
        let (client₁, t₁) = handle_tcp_segment true isn client_ip syn_ack client t in
        let (host₂, r₂) = handle_tcp_segment true later_isn host_ip final_ack host₁ r₁ in
        ((one_attempt fd i w).0.relay.sender ≡ (send_tcp_segment w.relay.sender host_ip syn).0)
        × (r₁ ≡ (send_tcp_segment r client_ip syn_ack).0)
        × (t₁ ≡ (send_tcp_segment t host_ip final_ack).0)
        × (p : PendingAccept) × (first (is_pending_from client_ip) host₂.pending_accepts ≡ some p)
        × (p.got_final_ack ≡ true)
        × (c' : VTcpConn) × (first (has_peer host_ip) client₁.vtcp_conns ≡ some c')
        × (c'.established ≡ true)
        × ((accepted_conn 1000 p).their_seq ≡ c'.our_seq)
        × ((accepted_conn 1000 p).our_seq ≡ c'.their_seq)
  handshake-agrees host client r t c isn later_isn fd i w from ready at waits dialled =
      let first_step = host-syn_result host r ready in
      let second_step = client-syn_ack isn client t c at waits dialled in
      let host₁ = (handle_tcp_segment true host_isn host_ip syn host r).0 in
      let r₁ = (handle_tcp_segment true host_isn host_ip syn host r).1 in
      (
        one_attempt-sender fd i w from,
        ap (λ (x : VTcp × Sender). x.1) first_step,
        ap (λ (x : VTcp × Sender). x.1) second_step,
        record (half_open client_ip host_isn client_isn) { got_final_ack = true },
        host-ack later_isn host₁ r₁ (
            ap (λ (x : VTcp × Sender). first (is_pending_from client_ip) x.0.pending_accepts)
              first_step
            ∙ offered-Waits host ready),
        refl,
        establish syn_ack c,
        ap (λ (x : VTcp × Sender). first (has_peer host_ip) x.0.vtcp_conns) second_step
            ∙ first-update_first (has_peer host_ip) (establish syn_ack) client.vtcp_conns c at
                (ground (arith, first-passes (has_peer host_ip) client.vtcp_conns c at)),
        refl,
        ap (λ n. add32 n 1) (sym dialled),
        refl,
      )
