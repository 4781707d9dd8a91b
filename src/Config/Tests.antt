-- ===== src/Config/Tests.antt =====
-- Runs and instances of the server list, the selection and the configuration service.
use switch_lan_play_nx.Prelude.{
  ℕ, ◌+◌, ◌*◌, ◌^◌, ◌<◌, ◌≡◌, refl, sym, subst, true, false, none, some, List, [], ◌∷◌, arith,
  length, replicate,
}
use switch_lan_play_nx.Bridge.World.{initial_background, World, Outside}
use switch_lan_play_nx.Relay.Pump.{RelayBridge}
use switch_lan_play_nx.Bridge.VTcp.{minus_one}
use switch_lan_play_nx.Config.Scan.{take_word, digits}
use switch_lan_play_nx.Config.Servers.{
  SlpNxServer, parse_line, parse_lines, servers_parse, host_max, find_by_name,
}
use switch_lan_play_nx.Config.Servers.RoundTrip.{print_servers, servers_parse-print_servers}
use switch_lan_play_nx.Config.Runtime.{
  Card, RuntimeCfg, initial_cfg, no_index, reload_servers, select_server, get_selected_host_port,
}
use switch_lan_play_nx.Config.Runtime.Selection.{
  IsValid, Connects, reload, select, run, run-IsValid-Connects, all_well,
  reload_servers-select_server,
}
use switch_lan_play_nx.Config.Service.{
  System, ask_select, ask_reconnect, succeeded, handle, get_version, ip_to_str,
}
use switch_lan_play_nx.Config.Service.Dial.{Dialled, handle-select-reconnect}

abbrev home : SlpNxServer
home = record { name = b'h' ∷ []; host = b'r' ∷ b'.' ∷ b'o' ∷ []; port = 11451 }

abbrev club : SlpNxServer
club = record { name = b'c' ∷ b'2' ∷ []; host = b'x' ∷ []; port = 7 }

parse_line_colon :
    parse_line (b'h' ∷ b' ' ∷ b'r' ∷ b'.' ∷ b'o' ∷ b':' ∷ b'8' ∷ b'0' ∷ b'\r' ∷ [])
    ≡ some (record { name = b'h' ∷ []; host = b'r' ∷ b'.' ∷ b'o' ∷ []; port = 80 })
unfolding parse_line take_word
parse_line_colon = refl

parse_line_default :
    parse_line (b' ' ∷ b'h' ∷ b'\t' ∷ b'r' ∷ b' ' ∷ b'#' ∷ b'9' ∷ [])
    ≡ some (record { name = b'h' ∷ []; host = b'r' ∷ []; port = 11451 })
unfolding parse_line take_word
parse_line_default = refl

parse_line_no_host : parse_line (b'h' ∷ b' ' ∷ []) ≡ none
unfolding parse_line take_word
parse_line_no_host = refl

-- Only seven characters of a port are read.
parse_line_long_port :
    parse_line
      (b'h' ∷ b' ' ∷ b'r' ∷ b' ' ∷ b'0' ∷ b'0' ∷ b'1' ∷ b'1' ∷ b'4' ∷ b'5' ∷ b'1' ∷ b'9' ∷ [])
    ≡ some (record { name = b'h' ∷ []; host = b'r' ∷ []; port = 11451 })
unfolding parse_line take_word
parse_line_long_port = refl

find_by_name-club : find_by_name (b'c' ∷ b'2' ∷ []) (home ∷ club ∷ []) ≡ some 1
find_by_name-club = refl

servers_parse-print_servers_example :
    servers_parse (print_servers (home ∷ club ∷ [])) ≡ home ∷ club ∷ []
servers_parse-print_servers_example =
    servers_parse-print_servers (home ∷ club ∷ [])
      (
        (
          omega arith,
          omega arith,
          (refl, tt),
          omega arith,
          omega arith,
          (refl, (refl, (refl, tt))),
          omega arith,
          omega arith,
        ),
        (
          (
            omega arith,
            omega arith,
            (refl, (refl, tt)),
            omega arith,
            omega arith,
            (refl, tt),
            omega arith,
            omega arith,
          ),
          tt,
        ),
      )
      (omega arith)

-- The two servers, a line each.
abbrev text : List ℕ
text = b'h' ∷ b' ' ∷ b'r' ∷ b'.' ∷ b'o' ∷ b'\n' ∷ b'c' ∷ b'2' ∷ b' ' ∷ b'x' ∷ b':' ∷ b'7' ∷ []

abbrev card : Card
card = record { config = some text; selected = some (b'1' ∷ b'\n' ∷ []) }

text_servers : servers_parse text ≡ home ∷ club ∷ []
unfolding parse_lines parse_line take_word
text_servers = refl

abbrev loaded : RuntimeCfg
loaded = record { servers = home ∷ club ∷ []; sel_index = no_index }

run-IsValid-Connects_example :
    let uses = reload card ∷ select all_well 0 card ∷ [] in
    IsValid (run uses initial_cfg) × Connects (run uses initial_cfg)
run-IsValid-Connects_example =
    run-IsValid-Connects (reload card ∷ select all_well 0 card ∷ []) initial_cfg (omega arith, tt)
      (record { few = omega arith; valid = tt; selection = refl })

reload_servers-select_server_example :
    let (selected, card', done) = select_server all_well 1 loaded card in
    (done ≡ true)
    × (selected.sel_index ≡ 1)
    × (selected.servers ≡ servers_parse text)
    × (reload_servers card' initial_cfg ≡ (selected, length (servers_parse text)))
reload_servers-select_server_example =
    reload_servers-select_server text 1 loaded initial_cfg card refl (sym text_servers)
      (subst (λ servers. 1 < length servers) (sym text_servers) (omega arith))

get_version_short : get_version 3 ≡ b'0' ∷ b'.' ∷ b'1' ∷ []
unfolding get_version
get_version_short = refl

ip_to_str_relay :
    ip_to_str (10 * 2 ^ 24 + 13 * 2 ^ 16 + 7) 16
    ≡ b'1' ∷ b'0' ∷ b'.' ∷ b'1' ∷ b'3' ∷ b'.' ∷ b'0' ∷ b'.' ∷ b'7' ∷ []
unfolding ip_to_str digits
ip_to_str_relay = refl

abbrev relay : RelayBridge
relay = record {
  sender = record {
    connected = true;
    next_frag_id = 0;
    wire = record { sent = []; refusals = [] };
  };
  reassembler = record { slots = []; most_success_frag_id = 0 };
  queue = record { head = 0; count = 0; packets = replicate 64 [] };
  last_keepalive_tick = 0;
  relay_addr = (1, 2);
  pump_started = true;
  pump_stop = false;
}

abbrev bridge : World
bridge = record {
  relay = relay;
  relay_connect_attempted = true;
  relay_enabled = false;
  last_bridged_local_ip = 0;
  bridged_socket_count = 0;
  active_ldn_instance = none;
  last_bridge_activity_ms = 0;
  vtcp = record {
    vtcp_conns = [];
    tcp_listen_fd = minus_one;
    pending_accepts = [];
    next_synthetic_fd = 1000;
  };
  control_queue = [];
  requests = [];
  background = initial_background;
}

abbrev system : System
system = record { cfg = loaded; card = card; bridge = bridge }

abbrev outside : Outside
outside = record {
  network = record { socket_opens = true; creates_pump = true; resolve = λ _. some 5 };
  selected = (b'x' ∷ [], 7);
  bsd_initializes = true;
  socket_initializes = true;
  creates_watchdog = true;
  creates_drain = true;
  tick = 0;
  now_ms = 0;
  random = λ _. 0;
  nifm_ip = none;
  real = λ r. record { rc = 0; ret = 0; err = 0; further = 0; from = []; bytes = [] };
}

told :
    outside.selected
    ≡ get_selected_host_port host_max (handle outside (ask_select all_well 1) system).0.cfg
unfolding handle select_server get_selected_host_port
told = refl

handle-select-reconnect_example :
    let (s₁, outcome₁) = handle outside (ask_select all_well 1) system in
    let (s₂, outcome₂) = handle outside ask_reconnect s₁ in
    (outcome₁ ≡ succeeded) × (outcome₂ ≡ succeeded) × Dialled 5 7 s₂.bridge
handle-select-reconnect_example =
    handle-select-reconnect outside outside all_well 1 5 system club
      (record {
        few = omega arith;
        valid = (
          (
            (omega arith, omega arith, (refl, tt)),
            omega arith,
            (refl, (refl, (refl, tt))),
            omega arith,
            omega arith,
          ),
          (
            (
              (omega arith, omega arith, (refl, (refl, tt))),
              omega arith,
              (refl, tt),
              omega arith,
              omega arith,
            ),
            tt,
          ),
        );
        selection = refl;
      })
      refl told refl refl
