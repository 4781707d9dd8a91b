-- ===== src/Bridge/World.antt =====
-- The globals of source/bsd/bsd_bridge_service.cpp, the members of a `BsdBridgeService`, and what
-- its handlers meet outside: the real bsd:u service, the network, the clock, random bytes.
use switch_lan_play_nx.Prelude.{
  ℕ, Bool, false, Option, none, some, List, [], ◌∷◌, ◌++◌, ◌==◌, ◌+◌, ◌&&◌, not, true, replicate,
  bytes16, bytes32, if◌then◌else◌,
}
use switch_lan_play_nx.Relay.Pump.{RelayBridge}
use switch_lan_play_nx.Relay.Connect.{Network}
use switch_lan_play_nx.Bridge.VTcp.{VTcp, minus_one}
use switch_lan_play_nx.Bridge.ControlQueue.{ControlPacket}
use switch_lan_play_nx.Bridge.TrackedFds.{TrackedFd, initial_fds}

-- An IPv4 address and port in host order, of a `sockaddr_in`.
pub record Address : Type 0 where
  pub ip : ℕ
  pub port : ℕ

-- The bytes of a `sockaddr_in` of libnx: `sin_len` (left 0), AF_INET, port, address, padding.
abbrev pub sockaddr_in : Address → List ℕ
sockaddr_in a = 0 ∷ 2 ∷ (bytes16 a.port ++ bytes32 a.ip ++ replicate 8 0)

-- A command that is forwarded to the real bsd:u service, with its inputs.
pub record Request : Type 0 where
  pub command : ℕ
  pub arguments : List ℕ
  pub buffers : List (List ℕ)
  -- The process id that the kernel stamps on it, if it is sent with one.
  pub override_pid : Option ℕ

-- `rc`, and the `ret`, `errno` and further output of the reply.
pub record Reply : Type 0 where
  pub rc : ℕ
  pub ret : ℕ
  pub err : ℕ
  pub further : ℕ
  -- What is written to the address buffer, and to the data buffer.
  pub from : List ℕ
  pub bytes : List ℕ

-- The error numbers that handlers set, and those of the real service.
pub data Errno : Type 0 where
  no_error eio ewouldblock emsgsize enobufs etimedout : Errno
  real_error : ℕ → Errno

-- What a handler sets: its `Result`, the return value, the error and the other outputs.
pub record Answer : Type 0 where
  pub rc : ℕ
  pub ret : ℕ
  pub err : Errno
  pub further : ℕ
  -- What is written to the address buffer, and to the data buffer.
  pub from : List ℕ
  pub bytes : List ℕ

-- `ResultSuccess()` with a return value and an error.
abbrev pub answers : ℕ → Errno → Answer
answers ret err = record { rc = 0; ret = ret; err = err; further = 0; from = []; bytes = [] }

-- A reply of the real service, handed on.
abbrev pub forwarded : Reply → Answer
forwarded reply = record {
  rc = reply.rc;
  ret = reply.ret;
  err = real_error reply.err;
  further = reply.further;
  from = reply.from;
  bytes = reply.bytes;
}

-- What runs in the background; a thread's count is how often `StartThread` was called for it.
pub record Background : Type 0 where
  pub socket_stack_ready : Bool
  pub watchdog_started : Bool
  pub watchdog_runs : ℕ
  pub drain_thread_started : Bool
  pub drain_runs : ℕ

abbrev pub initial_background : Background
initial_background = record {
  socket_stack_ready = false;
  watchdog_started = false;
  watchdog_runs = 0;
  drain_thread_started = false;
  drain_runs = 0;
}

pub record World : Type 0 where
  pub relay : RelayBridge
  pub relay_connect_attempted : Bool
  pub relay_enabled : Bool
  pub last_bridged_local_ip : ℕ
  pub bridged_socket_count : ℕ
  pub active_ldn_instance : Option ℕ
  pub last_bridge_activity_ms : ℕ
  pub vtcp : VTcp
  pub control_queue : List ControlPacket
  -- What the real service was sent, oldest first.
  pub requests : List Request
  pub background : Background

-- The outside, as one handler meets it.
pub record Outside : Type 0 where
  pub network : Network
  -- `GetSelectedHostPort`, into the 128 bytes of `ConnectRelayLocked`.
  pub selected : List ℕ × ℕ
  -- `bsdInitialize` and `socketInitialize` succeed, and `CreateThread` for the two threads.
  pub bsd_initializes : Bool
  pub socket_initializes : Bool
  pub creates_watchdog : Bool
  pub creates_drain : Bool
  pub tick : ℕ
  pub now_ms : ℕ
  -- `GenerateRandomBytes`, by the draw.
  pub random : ℕ → ℕ
  -- `nifmGetCurrentIpAddress`, in host order.
  pub nifm_ip : Option ℕ
  pub real : Request → Reply

unfoldable pub ensure_socket_stack : Outside → Background → Background
ensure_socket_stack o b =
    if b.socket_stack_ready
    then b
    else record b { socket_stack_ready = o.bsd_initializes && o.socket_initializes }

unfoldable pub ensure_watchdog_started : Outside → Background → Background
ensure_watchdog_started o b =
    let started : Background = record b { watchdog_started = true } in
    if b.watchdog_started
    then b
    else if not o.creates_watchdog
    then started
    else record started { watchdog_runs = b.watchdog_runs + 1 }

unfoldable pub ensure_drain_thread_started : Outside → Background → Background
ensure_drain_thread_started o b =
    let started : Background = record b { drain_thread_started = true } in
    if b.drain_thread_started
    then b
    else if not o.creates_drain
    then started
    else record started { drain_runs = b.drain_runs + 1 }

-- A handler that calls EnsureSocketStack.
abbrev pub with_socket_stack : Outside → World → World
with_socket_stack o w = record w { background = ensure_socket_stack o w.background }

-- The members of a `BsdBridgeService`; `id` stands for `this`.
pub record Instance : Type 0 where
  pub id : ℕ
  pub bridged_fd : ℕ
  pub bridged_local_ip : ℕ
  pub bridged_local_port : ℕ
  pub ldn_tcp_bind_fd : ℕ
  pub tracked : List TrackedFd

abbrev pub new_instance : ℕ → Instance
new_instance id = record {
  id = id;
  bridged_fd = minus_one;
  bridged_local_ip = 0;
  bridged_local_port = 0;
  ldn_tcp_bind_fd = minus_one;
  tracked = initial_fds;
}

-- `this == g_active_ldn_instance`
abbrev pub is_owner : Instance → World → Bool
is_owner i w = elim w.active_ldn_instance [ none ↦ false | some id ↦ id == i.id ]

-- `serviceMitmDispatch`
abbrev pub dispatch : Outside → Request → World → World × Reply
dispatch o request w = (record w { requests = w.requests ++ request ∷ [] }, o.real request)

-- `TouchBridgeActivity`
abbrev pub touch_bridge_activity : Outside → World → World
touch_bridge_activity o w = record w { last_bridge_activity_ms = o.now_ms }

-- What the destructor of a session's instance does to the globals.
unfoldable pub forget_instance : Instance → World → World
forget_instance i w = record w {
  active_ldn_instance = if is_owner i w then none else w.active_ldn_instance;
}
