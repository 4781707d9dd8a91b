-- ===== src/Bridge/VTcp.antt =====
-- The virtual TCP state of source/bsd/bsd_bridge_service.cpp (`g_vtcp_conns`, `g_pending_accepts`)
-- with the functions that look it up, and `SendTcpSegment`. `Handle` and `Retransmit` go on from here.
-- `owner` is `this == g_active_ldn_instance`. A file descriptor is the bit pattern of its `s32`,
-- an `inbox` the list of its first `inbox_len` bytes.
pub mod Handle
pub mod Retransmit
pub mod Lookup
pub mod Moves
pub mod Dialling
pub mod Stream
pub mod Valid
pub mod GiveUp
pub mod Delivery
mod Tests
use switch_lan_play_nx.Prelude.{
  take, drop, min, ℕ, zero, suc, ◌+◌, ◌-◌, ◌*◌, ◌/◌, ◌%◌, ◌^◌, ◌≤◌, ◌<◌, compare, Ordering, bit_or,
  min, ◌≡◌, refl, sym, ap, ap₂, subst, ◌∙◌, ◌≡⟨◌⟩◌, ◌∎, ◌≢◌, ◌⊎◌, inl, inr, ◌↔◌, Bool, true, false,
  ◌&&◌, ◌||◌, not, Option, none, some, List, [], ◌∷◌, ◌++◌, map, append-nil, append_assoc, arith,
  ltb, leb, ◌==◌, if◌then◌else◌, ltb→lt, lt→ltb, le→ltb, leb→le, le→leb, lt→leb, ==_iff, ==_refl,
  ne→==, Bool-cases, Option-cases, if_true, if_false, length, get_elem?, get_or, set, take, drop,
  replicate, length-append, length-set, length-take, length-drop, take-append-drop, take_all,
  take-append, drop-append, take-add, take-take, get_elem?-set_self, get_elem?-set_ne, get_elem?-lt,
  length-replicate, first, update_first, u8, u16, u32, add32, sub64, has_bit, be16, be32, bytes16,
  bytes32, be16-bytes, be32-bytes,
}
use switch_lan_play_nx.Packet.Udp.{max_bridged_payload}
use switch_lan_play_nx.Packet.Tcp.{Segment, build_ipv4_tcp}
use switch_lan_play_nx.Relay.Fragment.{Sender, send_ipv4}

abbrev pub minus_one : ℕ
minus_one = 0xffffffff

abbrev pub vtcp_inbox_cap : ℕ
vtcp_inbox_cap = 2048

abbrev pub ldn_control_port : ℕ
ldn_control_port = 11452

pub record VTcpConn : Type 0 where
  pub used : Bool
  pub fd : ℕ
  pub established : Bool
  pub syn_sent_awaiting_synack : Bool
  pub peer_ip : ℕ
  pub peer_port : ℕ
  pub our_isn : ℕ
  pub our_seq : ℕ
  pub their_seq : ℕ
  pub inbox : List ℕ
  pub peer_closed : Bool
  pub has_unacked_data : Bool
  pub unacked_data : List ℕ
  pub unacked_seq : ℕ
  pub last_send_tick_ms : ℕ
  pub retransmit_count : ℕ

-- `VTcpConn{}`
abbrev pub unused_conn : VTcpConn
unused_conn = record {
  used = false;
  fd = minus_one;
  established = false;
  syn_sent_awaiting_synack = false;
  peer_ip = 0;
  peer_port = 0;
  our_isn = 0;
  our_seq = 0;
  their_seq = 0;
  inbox = [];
  peer_closed = false;
  has_unacked_data = false;
  unacked_data = [];
  unacked_seq = 0;
  last_send_tick_ms = 0;
  retransmit_count = 0;
}

pub record PendingAccept : Type 0 where
  pub used : Bool
  pub peer_ip : ℕ
  pub peer_port : ℕ
  pub our_isn : ℕ
  pub their_isn : ℕ
  pub got_final_ack : Bool

pub record VTcp : Type 0 where
  pub vtcp_conns : List VTcpConn
  pub tcp_listen_fd : ℕ
  pub pending_accepts : List PendingAccept
  pub next_synthetic_fd : ℕ

abbrev pub has_fd : ℕ → VTcpConn → Bool
has_fd fd c = c.used && c.fd == fd

abbrev pub has_peer : ℕ → VTcpConn → Bool
has_peer ip c = c.used && c.peer_ip == ip

abbrev pub find_vtcp_conn_by_fd : Bool → ℕ → List VTcpConn → Option VTcpConn
find_vtcp_conn_by_fd owner fd conns = if owner then first (has_fd fd) conns else none

abbrev pub find_vtcp_conn_by_peer : Bool → ℕ → List VTcpConn → Option VTcpConn
find_vtcp_conn_by_peer owner ip conns = if owner then first (has_peer ip) conns else none

abbrev pub is_unused : VTcpConn → Bool
is_unused c = not c.used

-- `AllocVTcpConn`, with what the caller writes into the fresh connection.
abbrev pub alloc_vtcp_conn : Bool → VTcpConn → List VTcpConn → Option (List VTcpConn)
alloc_vtcp_conn owner fresh conns =
    if owner
    then elim (first is_unused conns) [
      | none ↦ none
      | some _ ↦ some (update_first is_unused (λ _. record fresh { used = true }) conns)
    ]
    else none

abbrev pub is_own_tcp_listen_fd : Bool → ℕ → VTcp → Bool
is_own_tcp_listen_fd owner fd v = owner && fd == v.tcp_listen_fd

unfoldable pub send_tcp_segment : Sender → ℕ → Segment → Sender × Option ℕ
send_tcp_segment r dst_ip segment = elim (build_ipv4_tcp dst_ip segment) [
  | none ↦ (r, none)
  | some packet ↦ send_ipv4 r packet
]

-- `TCP_FIN`, `TCP_SYN` .. as tests of a segment's flags.
abbrev pub is_fin : Segment → Bool
is_fin s = has_bit 0 s.flags

abbrev pub is_syn : Segment → Bool
is_syn s = has_bit 1 s.flags

abbrev pub is_rst : Segment → Bool
is_rst s = has_bit 2 s.flags

abbrev pub is_ack : Segment → Bool
is_ack s = has_bit 4 s.flags

abbrev pub tcp_fin : ℕ
tcp_fin = 1

abbrev pub tcp_syn : ℕ
tcp_syn = 2

abbrev pub tcp_psh : ℕ
tcp_psh = 8

abbrev pub tcp_ack : ℕ
tcp_ack = 16

-- A segment without payload in answer to `s`.
abbrev pub reply : ℕ → Segment → ℕ → ℕ → ℕ → Segment
reply local_ip s seq ack flags = record {
  src_ip = local_ip;
  src_port = ldn_control_port;
  dst_port = s.src_port;
  seq = seq;
  ack = ack;
  flags = flags;
  payload = [];
}

abbrev pub answer : Sender → ℕ → Segment → ℕ → ℕ → ℕ → Sender
answer r local_ip s seq ack flags = (send_tcp_segment r s.src_ip (reply local_ip s seq ack flags)).0

abbrev pub with_conns : VTcp → List VTcpConn → VTcp
with_conns v conns = record v { vtcp_conns = conns }

-- The bytes that `RecvFrom` hands out of an inbox into a buffer of `size` bytes, and what it keeps.
abbrev pub delivered : ℕ → VTcpConn → List ℕ
delivered size c = take (min size (length c.inbox)) c.inbox

abbrev pub undelivered : ℕ → VTcpConn → VTcpConn
undelivered size c = record c { inbox = drop (min size (length c.inbox)) c.inbox }
