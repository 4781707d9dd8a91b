-- ===== src/Bridge/VTcp/Tests.antt =====
-- Concrete inputs for the theorems on the virtual TCP connections.
use switch_lan_play_nx.Prelude.{
  ℕ, ◌-◌, ◌^◌, ◌≡◌, ◌⊎◌, Bool, refl, true, false, List, [], ◌∷◌, replicate, first, some, length,
  take, arith,
}
use switch_lan_play_nx.Packet.Tcp.{Segment}
use switch_lan_play_nx.Relay.Fragment.{Sender}
use switch_lan_play_nx.Bridge.VTcp.{
  VTcpConn, VTcp, unused_conn, minus_one, has_peer, answer, tcp_ack,
}
use switch_lan_play_nx.Bridge.VTcp.Delivery.{handle_tcp_segment-takes, handle_tcp_segment-fin}
use switch_lan_play_nx.Bridge.VTcp.Handle.{handle_tcp_segment}
use switch_lan_play_nx.Bridge.VTcp.Dialling.{arrive_all, arrive_all-dialling}
use switch_lan_play_nx.Bridge.VTcp.Stream.{Event, arrives, reads, read_all, read_all-beginning}
use switch_lan_play_nx.Bridge.VTcp.Valid.{AllValid, handle_tcp_segment-AllValid}
use switch_lan_play_nx.Bridge.VTcp.GiveUp.{turns, resend, turns-resend}

abbrev pub peer : ℕ
peer = 0x0a0d0002

abbrev conn : VTcpConn
conn = record unused_conn {
  used = true;
  fd = 1000;
  established = true;
  peer_ip = peer;
  peer_port = 11452;
  our_seq = 500;
  their_seq = 2 ^ 32 - 1;
}

abbrev one_conn : VTcp
one_conn = record {
  vtcp_conns = unused_conn ∷ conn ∷ replicate 7 unused_conn;
  tcp_listen_fd = minus_one;
  pending_accepts = [];
  next_synthetic_fd = 1001;
}

abbrev pub sender : Sender
sender = record { connected = true; next_frag_id = 0; wire = record { sent = []; refusals = [] } }

abbrev bytes_at : ℕ → List ℕ → Segment
bytes_at seq payload = record {
  src_ip = peer;
  src_port = 11452;
  dst_port = 11452;
  seq = seq;
  ack = 500;
  flags = 24;
  payload = payload;
}

-- The stream 1 2 3: its second part first, then the first part, the second again, and reads.
abbrev events : List Event
events =
    arrives 0 (bytes_at 1 (3 ∷ []))
    ∷ arrives 0 (bytes_at (2 ^ 32 - 1) (1 ∷ 2 ∷ []))
    ∷ reads 1000 1
    ∷ arrives 0 (bytes_at 1 (3 ∷ []))
    ∷ reads 1000 2048
    ∷ []

read_all-beginning_example :
    read_all 1000 0x0a0d0001 events one_conn sender
    ≡ take (length (read_all 1000 0x0a0d0001 events one_conn sender)) (1 ∷ 2 ∷ 3 ∷ [])
read_all-beginning_example =
    read_all-beginning (1 ∷ 2 ∷ 3 ∷ []) (2 ^ 32 - 1) (omega arith) peer 1000 0x0a0d0001 events
      one_conn sender conn
      (
        (λ _. (refl, (2, omega arith, refl, refl))),
        (
          (λ _. (refl, (0, omega arith, refl, refl))),
          ((λ _. (refl, (2, omega arith, refl, refl))), tt),
        ),
      )
      (refl, refl, refl) refl refl

abbrev dialling : VTcpConn
dialling = record unused_conn {
  used = true;
  fd = 3;
  peer_ip = peer;
  our_isn = 70;
  syn_sent_awaiting_synack = true;
}

abbrev dialling_vtcp : VTcp
dialling_vtcp = record one_conn { vtcp_conns = dialling ∷ [] }

-- A SYN-ACK of the peer to another SYN, a RST of somebody else, and the SYN-ACK that is due.
abbrev arrivals : List (ℕ × Segment)
arrivals =
    (0, record (bytes_at 9 []) { flags = 18; ack = 7 })
    ∷ (0, record (bytes_at 9 []) { flags = 4; src_ip = 5 })
    ∷ (0, record (bytes_at 9 []) { flags = 18; ack = 71 })
    ∷ []

arrive_all-dialling_example :
    (c' : VTcpConn) × (first
        (has_peer peer)
        (arrive_all 0x0a0d0001 arrivals dialling_vtcp sender).0.vtcp_conns
      ≡ some c')
    × (c'.established ≡ true)
    × (c'.syn_sent_awaiting_synack ≡ false)
    × (c'.peer_closed ≡ false)
    × (◌≡◌ {A = Bool} true true ⊎ (c'.inbox ≡ []))
    × (◌≡◌ {A = Bool} true false ⊎ (c'.our_seq ≡ 71))
    × (c'.fd ≡ 3)
arrive_all-dialling_example =
    arrive_all-dialling peer 0x0a0d0001 arrivals dialling_vtcp sender dialling refl refl refl

handle_tcp_segment-AllValid_example :
    AllValid
      (handle_tcp_segment true 0 0x0a0d0001 (bytes_at 1 (3 ∷ [])) one_conn sender).0.vtcp_conns
handle_tcp_segment-AllValid_example =
    handle_tcp_segment-AllValid 0 0x0a0d0001 (bytes_at 1 (3 ∷ [])) one_conn sender (ground arith)

abbrev sending : VTcpConn
sending = record conn { has_unacked_data = true; unacked_data = 7 ∷ []; retransmit_count = 5 }

turns-resend_example :
    ((turns 0x0a0d0001 (100 ∷ 200 ∷ []) sending sender).1 ≡ resend 1 0x0a0d0001 sending sender)
    × ((turns 0x0a0d0001 (100 ∷ 200 ∷ []) sending sender).0.has_unacked_data ≡ false)
turns-resend_example =
    turns-resend 0x0a0d0001 1 (100 ∷ 200 ∷ []) sending sender (refl, refl, refl) refl
      (omega arith, (omega arith, tt)) (omega arith)

-- The next two bytes, in a plain ACK.
abbrev next_bytes : Segment
next_bytes = bytes_at (2 ^ 32 - 1) (1 ∷ 2 ∷ [])

handle_tcp_segment-takes_example :
    let (v', r') = handle_tcp_segment true 0 0x0a0d0001 next_bytes one_conn sender in
    (c' : VTcpConn) × (first (has_peer peer) v'.vtcp_conns ≡ some c')
    × (c'.inbox ≡ 1 ∷ 2 ∷ [])
    × (c'.their_seq ≡ 1)
    × (r' ≡ answer sender 0x0a0d0001 next_bytes 500 1 tcp_ack)
handle_tcp_segment-takes_example =
    handle_tcp_segment-takes 0 0x0a0d0001 next_bytes one_conn sender conn refl
      (refl, refl, refl, refl) refl refl (omega arith) refl

-- A FIN that overtakes those two bytes.
abbrev early_fin : Segment
early_fin = record (bytes_at 1 []) { flags = 17 }

handle_tcp_segment-fin_example :
    let (v₁, r₁) = handle_tcp_segment true 0 0x0a0d0001 early_fin one_conn sender in
    let (v₂, r₂) = handle_tcp_segment true 0 0x0a0d0001 next_bytes v₁ r₁ in
    (r₁ ≡ answer sender 0x0a0d0001 early_fin 500 2 tcp_ack)
    × (c' : VTcpConn) × (first (has_peer peer) v₂.vtcp_conns ≡ some c')
    × (c'.inbox ≡ [])
handle_tcp_segment-fin_example =
    handle_tcp_segment-fin 0x0a0d0001 early_fin next_bytes conn refl (omega arith) 0 0 one_conn
      sender refl refl refl refl
