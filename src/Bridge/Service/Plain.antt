-- ===== src/Bridge/Service/Plain.antt =====
-- The commands of source/bsd/bsd_bridge_service.cpp that `BsdBridgeService` hands on without logic
-- of its own: which inputs the request has, in the order of the source's `in`, and which buffers.
-- A padding field is not listed; a buffer that the real service fills is not an input.
use switch_lan_play_nx.Prelude.{ℕ, some, List, [], ◌∷◌}
use switch_lan_play_nx.Bridge.World.{World, Outside, Request, Answer}
use switch_lan_play_nx.Bridge.Service.Forward.{request, forward}

-- The `pid` of RegisterClient is that of the process behind the session (`m_client_info`).
pub data Plain : Type 0 where
  register_client : (config tmem_size pid : ℕ) → Plain
  register_client_shared : (config tmem_size pid : ℕ) → Plain
  open_path : (flags : ℕ) (path : List ℕ) → Plain
  sysctl : (name new_val : List ℕ) → Plain
  recv : (fd flags : ℕ) → Plain
  send : (fd flags : ℕ) (payload : List ℕ) → Plain
  get_peer_name get_sock_name : (fd : ℕ) → Plain
  get_sock_opt : (fd level optname : ℕ) → Plain
  ioctl : (fd code bufcount : ℕ) (in₁ in₂ in₃ in₄ : List ℕ) → Plain
  fcntl : (fd cmd arg : ℕ) → Plain
  set_sock_opt : (fd level optname : ℕ) (optval : List ℕ) → Plain
  shutdown : (fd how : ℕ) → Plain
  shutdown_all_sockets : (how : ℕ) → Plain
  write : (fd : ℕ) (payload : List ℕ) → Plain
  read : (fd : ℕ) → Plain
  duplicate_socket : (fd target_pid : ℕ) → Plain
  get_resource_statistics : (pid : ℕ) → Plain
  recv_m_msg : (fd vlen flags timeout : ℕ) → Plain
  send_m_msg : (fd vlen flags : ℕ) (in_data : List ℕ) → Plain
  event_fd : (initval flags : ℕ) → Plain
  register_resource_statistics_name : (pid : ℕ) (name : List ℕ) → Plain

abbrev with_pid : ℕ → Request → Request
with_pid pid r = record r { override_pid = some pid }

-- The placeholder of the process id is 0.
unfoldable pub register_client_request : ℕ → ℕ → ℕ → Request
register_client_request config tmem_size pid =
    with_pid pid (request 0 (config ∷ 0 ∷ tmem_size ∷ []) [])

unfoldable pub register_client_shared_request : ℕ → ℕ → ℕ → Request
register_client_shared_request config tmem_size pid =
    with_pid pid (request 33 (config ∷ 0 ∷ tmem_size ∷ []) [])

unfoldable pub open_request : ℕ → List ℕ → Request
open_request flags path = request 4 (flags ∷ []) (path ∷ [])

unfoldable pub sysctl_request : List ℕ → List ℕ → Request
sysctl_request name new_val = request 7 [] (name ∷ new_val ∷ [])

unfoldable pub recv_request : ℕ → ℕ → Request
recv_request fd flags = request 8 (fd ∷ flags ∷ []) []

unfoldable pub send_request : ℕ → ℕ → List ℕ → Request
send_request fd flags payload = request 10 (fd ∷ flags ∷ []) (payload ∷ [])

unfoldable pub get_peer_name_request : ℕ → Request
get_peer_name_request fd = request 15 (fd ∷ []) []

unfoldable pub get_sock_name_request : ℕ → Request
get_sock_name_request fd = request 16 (fd ∷ []) []

unfoldable pub get_sock_opt_request : ℕ → ℕ → ℕ → Request
get_sock_opt_request fd level optname = request 17 (fd ∷ level ∷ optname ∷ []) []

unfoldable pub ioctl_request : ℕ → ℕ → ℕ → List (List ℕ) → Request
ioctl_request fd code bufcount buffers = request 19 (fd ∷ code ∷ bufcount ∷ []) buffers

unfoldable pub fcntl_request : ℕ → ℕ → ℕ → Request
fcntl_request fd cmd arg = request 20 (fd ∷ cmd ∷ arg ∷ []) []

unfoldable pub set_sock_opt_request : ℕ → ℕ → ℕ → List ℕ → Request
set_sock_opt_request fd level optname optval = request 21 (fd ∷ level ∷ optname ∷ []) (optval ∷ [])

unfoldable pub shutdown_request : ℕ → ℕ → Request
shutdown_request fd how = request 22 (fd ∷ how ∷ []) []

unfoldable pub shutdown_all_sockets_request : ℕ → Request
shutdown_all_sockets_request how = request 23 (how ∷ []) []

unfoldable pub write_request : ℕ → List ℕ → Request
write_request fd payload = request 24 (fd ∷ []) (payload ∷ [])

unfoldable pub read_request : ℕ → Request
read_request fd = request 25 (fd ∷ []) []

unfoldable pub duplicate_socket_request : ℕ → ℕ → Request
duplicate_socket_request fd target_pid = request 27 (fd ∷ target_pid ∷ []) []

unfoldable pub get_resource_statistics_request : ℕ → Request
get_resource_statistics_request pid = request 28 (pid ∷ []) []

unfoldable pub recv_m_msg_request : ℕ → ℕ → ℕ → ℕ → Request
recv_m_msg_request fd vlen flags timeout = request 29 (fd ∷ vlen ∷ flags ∷ timeout ∷ []) []

unfoldable pub send_m_msg_request : ℕ → ℕ → ℕ → List ℕ → Request
send_m_msg_request fd vlen flags in_data = request 30 (fd ∷ vlen ∷ flags ∷ []) (in_data ∷ [])

unfoldable pub event_fd_request : ℕ → ℕ → Request
event_fd_request initval flags = request 31 (initval ∷ flags ∷ []) []

unfoldable pub register_resource_statistics_name_request : ℕ → List ℕ → Request
register_resource_statistics_name_request pid name = request 32 (pid ∷ []) (name ∷ [])

unfoldable pub plain_request : Plain → Request
plain_request (register_client config tmem_size pid) = register_client_request config tmem_size pid
plain_request (register_client_shared config tmem_size pid) =
    register_client_shared_request config tmem_size pid
plain_request (open_path flags path) = open_request flags path
plain_request (sysctl name new_val) = sysctl_request name new_val
plain_request (recv fd flags) = recv_request fd flags
plain_request (send fd flags payload) = send_request fd flags payload
plain_request (get_peer_name fd) = get_peer_name_request fd
plain_request (get_sock_name fd) = get_sock_name_request fd
plain_request (get_sock_opt fd level optname) = get_sock_opt_request fd level optname
plain_request (ioctl fd code bufcount in₁ in₂ in₃ in₄) =
    ioctl_request fd code bufcount (in₁ ∷ in₂ ∷ in₃ ∷ in₄ ∷ [])
plain_request (fcntl fd cmd arg) = fcntl_request fd cmd arg
plain_request (set_sock_opt fd level optname optval) = set_sock_opt_request fd level optname optval
plain_request (shutdown fd how) = shutdown_request fd how
plain_request (shutdown_all_sockets how) = shutdown_all_sockets_request how
plain_request (write fd payload) = write_request fd payload
plain_request (read fd) = read_request fd
plain_request (duplicate_socket fd target_pid) = duplicate_socket_request fd target_pid
plain_request (get_resource_statistics pid) = get_resource_statistics_request pid
plain_request (recv_m_msg fd vlen flags timeout) = recv_m_msg_request fd vlen flags timeout
plain_request (send_m_msg fd vlen flags in_data) = send_m_msg_request fd vlen flags in_data
plain_request (event_fd initval flags) = event_fd_request initval flags
plain_request (register_resource_statistics_name pid name) =
    register_resource_statistics_name_request pid name

-- The reply is handed on; a command sets those of its fields that it has.
unfoldable pub plain : Outside → Plain → World → World × Answer
plain o command w = forward o (plain_request command) w
