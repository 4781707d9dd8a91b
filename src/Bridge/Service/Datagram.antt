-- ===== src/Bridge/Service/Datagram.antt =====
-- A datagram that `SendTo` builds, through the relay's queue to `RecvFrom` of the process bound to
-- its port.
use switch_lan_play_nx.Prelude.{
  ℕ, ◌+◌, ◌^◌, ◌≤◌, ◌<◌, min, ◌≡◌, refl, ap, ◌∙◌, sym, subst, ◌/◌, ◌%◌, replicate, ◌&&◌, Option,
  none, some, List, [], ◌∷◌, ◌++◌, arith, ltb, ◌==◌, if_true, if_false, length, get_or, take,
  take_all, length-take, ap₂, zero, suc,
}
use switch_lan_play_nx.Packet.Checksum.{ip_header}
use switch_lan_play_nx.Packet.Udp.{
  Datagram, parse_ipv4_udp, udp_packet, udp_src_port, max_bridged_payload,
}
use switch_lan_play_nx.Packet.Udp.RoundTrip.{parse_ipv4_udp-udp_packet, udp_src_port-udp_packet}
use switch_lan_play_nx.Bridge.World.{
  World, Outside, Instance, Address, Answer, no_error, sockaddr_in,
}
use switch_lan_play_nx.Bridge.ControlQueue.{
  ControlPacket, control_queue_size, control_data_len, file_packet, pop_control_packet_for_port,
}
use switch_lan_play_nx.Bridge.ControlQueue.Ports.{
  waiting, Popped, file_packet-waiting, pop_control_packet_for_port-Popped,
}
use switch_lan_play_nx.Bridge.Drain.{drain_packet, file_datagram}
use switch_lan_play_nx.Bridge.Service.Receive.{
  addrlen_for, received, recv_from_relay, deliver_popped, deliver_datagram,
}

length-udp_packet :
    (src_ip dst_ip src_port dst_port : ℕ) (payload : List ℕ)
    → length (udp_packet src_ip dst_ip src_port dst_port payload) ≡ 28 + length payload
unfolding udp_packet ip_header
length-udp_packet src_ip dst_ip src_port dst_port payload = omega arith

protocol-udp_packet :
    (src_ip dst_ip src_port dst_port : ℕ) (payload : List ℕ)
    → get_or (udp_packet src_ip dst_ip src_port dst_port payload) 9 0 ≡ 17
unfolding udp_packet ip_header
protocol-udp_packet src_ip dst_ip src_port dst_port payload = refl

drain_packet-udp :
    (our_isn : ℕ) (pkt : List ℕ) (d : Datagram) (w : World)
    → 20 ≤ length pkt
    → get_or pkt 9 0 ≡ 17
    → parse_ipv4_udp pkt ≡ some d
    → drain_packet our_isn pkt w
      ≡ record w { control_queue = file_packet w.control_queue d.dst_port pkt }
unfolding drain_packet
drain_packet-udp our_isn pkt d w long udp parsed =
    if_false (ltb (length pkt) 20) _ _ (ground arith)
    ∙ if_true (get_or pkt 9 0 == 17) _ _ (ground arith)
    ∙ ap (λ p. file_datagram pkt p w) parsed

-- RecvFrom took the only packet that waits for a port, and answers with what it holds.
abbrev Takes : Outside → ℕ → ℕ → ℕ → List ℕ → Datagram → World → World × Answer → Type 0
Takes o size addr_size port pkt d w result =
    (waiting port result.0.control_queue ≡ [])
    × (result.1
        ≡ received addr_size (record { ip = d.src_ip; port = udp_src_port pkt })
            (take (min size (length d.payload)) d.payload))

recv_from_relay-only :
    (o : Outside) (size addr_size : ℕ) (i : Instance) (w : World) (pkt : List ℕ) (d : Datagram)
    → waiting i.bridged_local_port w.control_queue ≡ pkt ∷ []
    → length pkt ≤ control_data_len
    → parse_ipv4_udp pkt ≡ some d
    → Takes o size addr_size i.bridged_local_port pkt d w (recv_from_relay o size addr_size i w)
unfolding recv_from_relay
recv_from_relay-only o size addr_size i w pkt d only fits parsed =
    go (pop_control_packet_for_port i.bridged_local_port w.control_queue)
      (pop_control_packet_for_port-Popped i.bridged_local_port w.control_queue)
  where
    go :
        (p : Option (ControlPacket × List ControlPacket))
        → Popped i.bridged_local_port w.control_queue p
        → Takes o size addr_size i.bridged_local_port pkt d w (deliver_popped o size addr_size p w)
    go none empty = absurd (cc (only, empty))
    go (some (out, left)) popped =
        subst (Takes o size addr_size i.bridged_local_port pkt d w) (sym delivers)
          (cc (only, popped.0), refl)
      where
        same : out.bytes ≡ pkt
        same = cc (only, popped.0)

        left_world : World
        left_world = record w { control_queue = left }

        delivers :
            deliver_popped o size addr_size (some (out, left)) w
            ≡ deliver_datagram o size addr_size pkt (some d) left_world
        delivers =
            ap (λ b. deliver_datagram o size addr_size b (parse_ipv4_udp b) left_world)
              (take_all (min (length out.bytes) control_data_len) out.bytes
                  (omega (arith, ap length same))
                ∙ same)
            ∙ ap (λ x. deliver_datagram o size addr_size pkt x left_world) parsed

take-min : (n : ℕ) (xs : List ℕ) → take (min n (length xs)) xs ≡ take n xs
take-min zero xs = rw none_left refl
  where
    none_left : min zero (length xs) ≡ zero
    none_left = omega arith
take-min (suc n) [] = rw none_left refl
  where
    none_left : min (suc n) 0 ≡ zero
    none_left = omega arith
take-min (suc n) (x ∷ xs) =
    let less : min (suc n) (suc (length xs)) ≡ suc (min n (length xs)) = omega arith in
    ap (λ k. take k (x ∷ xs)) less ∙ ap (◌∷◌ x) (take-min n xs)

addrlen_for-min : (addr_size : ℕ) → addrlen_for addr_size ≡ min addr_size 16
addrlen_for-min addr_size = ground arith

-- What `sockaddr_in` is, for an address and a port within their widths.
sockaddr_in-bytes :
    (ip port : ℕ)
    → ip < 2 ^ 32
    → port < 2 ^ 16
    → sockaddr_in (record { ip = ip; port = port })
      ≡ 0
        ∷ 2
        ∷ port / 2 ^ 8
        ∷ port % 2 ^ 8
        ∷ ip / 2 ^ 24
        ∷ (ip / 2 ^ 16) % 2 ^ 8
        ∷ (ip / 2 ^ 8) % 2 ^ 8
        ∷ ip % 2 ^ 8
        ∷ replicate 8 0
sockaddr_in-bytes ip port ip_fits port_fits =
    ap₂
      (λ a b.
        0
        ∷ 2
        ∷ a
        ∷ port % 2 ^ 8
        ∷ b
        ∷ (ip / 2 ^ 16) % 2 ^ 8
        ∷ (ip / 2 ^ 8) % 2 ^ 8
        ∷ ip % 2 ^ 8
        ∷ replicate 8 0)
      (omega arith) (omega arith)

take-sockaddr_in :
    (addr_size : ℕ) (peer : Address)
    → take (addrlen_for addr_size) (sockaddr_in peer) ≡ take addr_size (sockaddr_in peer)
take-sockaddr_in addr_size peer =
    ap (λ k. take k (sockaddr_in peer)) (addrlen_for-min addr_size)
    ∙ take-min addr_size (sockaddr_in peer)

module _ (src_ip dst_ip src_port : ℕ) (payload : List ℕ) (ip_fits : src_ip < 2 ^ 32)
    (src_fits : src_port < 2 ^ 16) (fits : length payload ≤ max_bridged_payload) where
  -- A datagram of at most 2048 bytes, as SendTo builds it from any address and port within their
  -- widths to a process's own bridged port, and a shared queue with room in which nothing waits
  -- for that port: once the packet is drained, RecvFrom of the process succeeds with as many bytes
  -- of the payload as the caller's buffer takes; its address buffer gets as much as fits of the
  -- 16 bytes of a `sockaddr_in` with the sender's port and address, and that length is told. The
  -- packet does not wait any more.
  pub recv_from_relay-drain_packet :
      (o : Outside) (size addr_size our_isn : ℕ) (i : Instance) (w : World)
      → i.bridged_local_port < 2 ^ 16
      → waiting i.bridged_local_port w.control_queue ≡ []
      → length w.control_queue < control_queue_size
      → let (w', a) = recv_from_relay o size addr_size i (
          drain_packet our_isn
            (udp_packet src_ip dst_ip src_port i.bridged_local_port payload)
            w) in
        (a.rc ≡ 0)
        × (a.err ≡ no_error)
        × (a.ret ≡ min size (length payload))
        × (a.bytes ≡ take size payload)
        × (a.further ≡ min addr_size 16)
        × (a.from
            ≡ take addr_size (
                0
                ∷ 2
                ∷ src_port / 2 ^ 8
                ∷ src_port % 2 ^ 8
                ∷ src_ip / 2 ^ 24
                ∷ (src_ip / 2 ^ 16) % 2 ^ 8
                ∷ (src_ip / 2 ^ 8) % 2 ^ 8
                ∷ src_ip % 2 ^ 8
                ∷ replicate 8 0))
        × (waiting i.bridged_local_port w'.control_queue ≡ [])
  recv_from_relay-drain_packet o size addr_size our_isn i w port_fits nothing room =
      subst Received (sym drains) (
        ap (λ (x : Answer). x.rc) told,
        ap (λ (x : Answer). x.err) told,
        ap (λ (x : Answer). x.ret) told
            ∙ omega (arith, length-take (min size (length payload)) payload),
        ap (λ (x : Answer). x.bytes) told ∙ take-min size payload,
        ap (λ (x : Answer). x.further) told ∙ addrlen_for-min addr_size,
        ap (λ (x : Answer). x.from) told
            ∙ take-sockaddr_in addr_size (record { ip = src_ip; port = src_port })
            ∙ ap (take addr_size) (sockaddr_in-bytes src_ip src_port ip_fits src_fits),
        taken.0,
      )
    where
      pkt : List ℕ
      pkt = udp_packet src_ip dst_ip src_port i.bridged_local_port payload

      d : Datagram
      d = record { src_ip = src_ip; dst_port = i.bridged_local_port; payload = payload }

      long : length pkt ≡ 28 + length payload
      long = length-udp_packet src_ip dst_ip src_port i.bridged_local_port payload

      parsed : parse_ipv4_udp pkt ≡ some d
      parsed =
          parse_ipv4_udp-udp_packet src_ip dst_ip src_port i.bridged_local_port payload ip_fits
            src_fits port_fits fits

      waits_now :
          waiting i.bridged_local_port (file_packet w.control_queue i.bridged_local_port pkt)
          ≡ pkt ∷ []
      waits_now =
          (file_packet-waiting w.control_queue i.bridged_local_port pkt i.bridged_local_port
            (omega (arith, long)) (omega arith)).0
          ∙ if_true
              (i.bridged_local_port == i.bridged_local_port
                && ltb (length w.control_queue) control_queue_size)
              _ _ (ground arith)
          ∙ ap (λ l. l ++ pkt ∷ []) nothing

      drained : World
      drained = record w { control_queue = file_packet w.control_queue i.bridged_local_port pkt }

      taken :
          Takes o size addr_size i.bridged_local_port pkt d drained
            (recv_from_relay o size addr_size i drained)
      taken =
          recv_from_relay-only o size addr_size i drained pkt d waits_now (omega (arith, long))
            parsed

      Received : World × Answer → Type 0
      Received (w', a) =
          (a.rc ≡ 0)
          × (a.err ≡ no_error)
          × (a.ret ≡ min size (length payload))
          × (a.bytes ≡ take size payload)
          × (a.further ≡ min addr_size 16)
          × (a.from
              ≡ take addr_size (
                  0
                  ∷ 2
                  ∷ src_port / 2 ^ 8
                  ∷ src_port % 2 ^ 8
                  ∷ src_ip / 2 ^ 24
                  ∷ (src_ip / 2 ^ 16) % 2 ^ 8
                  ∷ (src_ip / 2 ^ 8) % 2 ^ 8
                  ∷ src_ip % 2 ^ 8
                  ∷ replicate 8 0))
          × (waiting i.bridged_local_port w'.control_queue ≡ [])

      told :
          (recv_from_relay o size addr_size i drained).1
          ≡ received addr_size
              (record { ip = src_ip; port = src_port })
              (take (min size (length payload)) payload)
      told =
          taken.1
          ∙ ap
              (λ p.
                received addr_size (record { ip = src_ip; port = p })
                  (take (min size (length payload)) payload))
              (udp_src_port-udp_packet src_ip dst_ip src_port i.bridged_local_port payload ip_fits
                src_fits port_fits fits)

      drains :
          recv_from_relay o size addr_size i (drain_packet our_isn pkt w)
          ≡ recv_from_relay o size addr_size i drained
      drains = ap (recv_from_relay o size addr_size i) (
          drain_packet-udp our_isn pkt d w (omega (arith, long))
            (protocol-udp_packet src_ip dst_ip src_port i.bridged_local_port payload) parsed)
