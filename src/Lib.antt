-- ===== src/Lib.antt =====
-- Verification library of switch-lan-play-nx, a system module that carries the local wireless play of
-- ldn_mitm over a relay server: it stands between a process and the bsd:u socket service, turns the
-- packets of the bridged sockets into raw IPv4 packets and tunnels them through UDP to the relay.
--
-- The parts and how they meet. A process's commands reach `BsdBridgeService` (source/bsd). Data of a
-- bridged UDP socket or of a virtual TCP connection is wrapped in an IPv4 packet and handed to
-- `RelayBridge` (source/relay_bridge.hpp), which cuts it into frames. Inbound frames are read and put
-- together by the pump into a queue of packets; the drain takes them from there and files UDP packets
-- for the port they go to and gives TCP segments to the virtual connections. What is none of this is
-- forwarded to the real service. All of it is C++ with shared globals; here it is explicit state.
--
-- Packet models the raw packets of source/bsd/bsd_bridge_service.cpp as lists of bytes:
-- - Packet.Checksum: IpChecksum and TcpChecksum; the loop that folds the carries has fuel 4, and
--   Verify shows that the sums come out folded with it;
-- - Packet.Udp, Packet.Tcp: ParseIpv4Udp and the packet of SendTo, ParseIpv4Tcp and SendTcpSegment.
--
-- Relay models source/relay_bridge.hpp:
-- - Relay.Fragment: SendRaw, SendIpv4, SendFragmented (the loop runs total_part rounds);
-- - Relay.Reassembly: ReassembleFrag and RecvIpv4, with the four reassembly slots;
-- - Relay.Queue: the ring of 64 packets with PopIpv4 and HasPending;
-- - Relay.Pump: PumpLoop and CheckKeepalive; its endless loop is a list of turns;
-- - Relay.Dns: ResolveHostname and the DNS messages it builds and reads. The loop over the labels has
--   the length of the host as fuel and each walk through a response one more than its length; a round
--   takes a byte at least. The memory behind a response is a function from positions to bytes, since
--   the parser reads past the length that it was given;
-- - Relay.Connect: Connect and Close, StartPump and StopPump. What ::socket, the resolution and
--   CreateThread give is in `Network`.
--
-- Config models source/cfg:
-- - Config.Scan: strchr, strtol, sscanf and snprintf of the C library, on lists of bytes;
-- - Config.Servers: the server list of servers.c, its lines, its text and its edits;
-- - Config.Runtime: RuntimeCfg, the list in use, the selected server and the file that keeps it;
-- - Config.Service: the commands of ConfigService, and what a selection means for the next Connect.
--
-- Bridge models source/bsd/bsd_bridge_service.cpp and .hpp:
-- - Bridge.DummySkip: ShouldMitm, the table g_dummy_skip and what the destructor does to it;
-- - Bridge.TrackedFds: TrackFd, UntrackFd, GetTrackedType;
-- - Bridge.ControlQueue: g_control_queue and PopControlPacketForPort;
-- - Bridge.VTcp: VTcpConn, PendingAccept and their lookups; Handle is HandleTcpSegment, Retransmit is
--   CheckDataRetransmits;
-- - Bridge.World: the globals, the members of an instance, what its destructor does to the globals,
--   and the outside as a handler meets it;
-- - Bridge.Lifecycle: EnsureRelayConnected, ForceReconnect, Start, Stop and the watchdog;
--   Bridge.World has EnsureSocketStack and the starts of the two threads;
-- - Bridge.Drain: DrainRawRelayQueue, with as many rounds as the queue has packets and one more;
-- - Bridge.Service: the handlers, Send (SendTo), Receive (RecvFrom, VFdHasPendingRead), Sockets (Bind,
--   Listen, Close), Accept, Dial (Connect, with six attempts of 25 rounds), Poll, Select, Plain
--   (the commands that are only handed on), and Forward; Valid.Commands has all of them as steps.
--
-- Log models source/debug.cpp: the log file with the offset of the next write, and its dumps of bytes
-- (the loop of a dump has the number of bytes as fuel). What the file system does with each call, and
-- the bytes that formatting gives, are arguments.
--
-- Conventions. Numbers are natural numbers with every wrap-around written out; a descriptor or another
-- s32 is its 32-bit pattern. A buffer with a length is the list of its valid bytes. A pointer into an
-- array is the first entry that passes the test by which the code found it. Locks are left out: a
-- handler runs as one step. The real bsd:u service, nifm, the clock and the random numbers are in
-- `Outside`; `IsApplicationId` and the socket's answers are arguments.
--
-- Not modelled: which lines the other parts log; what threads do at the same time (the turns of
-- the pump and the drain are explicit, in any order between handlers); the file system's own
-- results beyond those in `Writing` and `Card`; the start in source/main.cpp; the overlay, a
-- program of its own (its servers.c is that of source/cfg, less FindByName); and the tools.
pub mod Prelude
pub mod Packet
pub mod Relay
pub mod Bridge
pub mod Config
pub mod Log
