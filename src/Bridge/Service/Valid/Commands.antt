-- ===== src/Bridge/Service/Valid/Commands.antt =====
-- The worlds that commands, buttons and background threads can lead to, in any order and from any
-- process, keep every virtual connection within its bounds.
use switch_lan_play_nx.Prelude.{ℕ, ◌≡◌, sym, subst, Bool, Option, List, arith, replicate}
use switch_lan_play_nx.Bridge.World.{World, Outside, Instance, Address, forget_instance}
use switch_lan_play_nx.Bridge.Lifecycle.{
  connect_relay_locked, force_reconnect, start, stop, watchdog,
}
use switch_lan_play_nx.Bridge.VTcp.{unused_conn}
use switch_lan_play_nx.Bridge.VTcp.Valid.{AllValid}
use switch_lan_play_nx.Bridge.Drain.{drain_raw_relay_queue}
use switch_lan_play_nx.Bridge.Drain.Valid.{conns, WorldIsValid, drain_raw_relay_queue-WorldIsValid}
use switch_lan_play_nx.Bridge.Service.Forward.{forward, socket}
use switch_lan_play_nx.Bridge.Service.Plain.{Plain, plain}
use switch_lan_play_nx.Bridge.Service.Poll.{PollFd, PollReply, poll}
use switch_lan_play_nx.Bridge.Service.Select.{Timeval, SelectReply, select}
use switch_lan_play_nx.Bridge.Service.Send.{send_to}
use switch_lan_play_nx.Bridge.Service.Receive.{recv_from}
use switch_lan_play_nx.Bridge.Service.Sockets.{bind, listen, close_fd}
use switch_lan_play_nx.Bridge.Service.Accept.{accept}
use switch_lan_play_nx.Bridge.Service.Dial.{connect_fd}
use switch_lan_play_nx.Bridge.Service.Valid.{send_to-WorldIsValid, recv_from-WorldIsValid}
use switch_lan_play_nx.Bridge.Service.Valid.Sockets.{
  bind-ThirdIsValid, listen-ResultIsValid, close_fd-ThirdIsValid,
}
use switch_lan_play_nx.Bridge.Service.Valid.Dial.{accept-ThirdIsValid, connect_fd-WorldIsValid}

-- What changes a world: a command or the end of an instance, a turn of the drain or the watchdog, a button.
pub data Step : World → World → Type 0 where
  binds :
      (o : Outside) (fd : ℕ) (a : Option Address) (addr : List ℕ) (i : Instance) (w : World)
      → Step w (bind o fd a addr i w).1
  listens :
      (o : Outside) (fd backlog : ℕ) (i : Instance) (w : World) → Step w (listen o fd backlog i w).0
  connects :
      (o : Outside) (fd : ℕ) (a : Option Address) (addr : List ℕ) (times : List (List Outside))
      (i : Instance) (w : World)
      → Step w (connect_fd o fd a addr times i w).0
  takes :
      (o : Outside) (fd addr_size : ℕ) (i : Instance) (w : World)
      → Step w (accept o fd addr_size i w).1
  sends :
      (o : Outside) (fd flags : ℕ) (payload : List ℕ) (a : Option Address) (addr : List ℕ)
      (i : Instance) (w : World)
      → Step w (send_to o fd flags payload a addr i w).0
  receives :
      (o : Outside) (fd flags size addr_size : ℕ) (i : Instance) (w : World)
      → Step w (recv_from o fd flags size addr_size i w).0
  closes : (o : Outside) (fd : ℕ) (i : Instance) (w : World) → Step w (close_fd o fd i w).1
  opens :
      (command : ℕ) (o : Outside) (domain socket_type protocol : ℕ) (i : Instance) (w : World)
      → Step w (socket command o domain socket_type protocol i w).1
  polls :
      (o : Outside) (real : List PollFd → ℕ → PollReply) (fds : List PollFd)
      (out_entries nfds timeout : ℕ) (i : Instance) (w : World)
      → Step w (poll o real fds out_entries nfds timeout i w).0
  selects :
      (o : Outside) (real : List Bool → Timeval → SelectReply) (readfds : List Bool)
      (out_len nfds : ℕ) (timeout : Timeval) (i : Instance) (w : World)
      → Step w (select o real readfds out_len nfds timeout i w).0
  hands_on : (o : Outside) (command : Plain) (w : World) → Step w (plain o command w).0
  drains : (o : Outside) (w : World) → Step w (drain_raw_relay_queue o w)
  idles : (o : Outside) (w : World) → Step w (watchdog o w)
  reconnects : (o : Outside) (w : World) → Step w (force_reconnect o w)
  starts : (o : Outside) (w : World) → Step w (start o w)
  stops : (w : World) → Step w (stop w)
  leaves : (i : Instance) (w : World) → Step w (forget_instance i w)

pub data Reachable : World → Type 0 where
  begins : (w : World) → conns w ≡ replicate 9 unused_conn → Reachable w
  goes_on : {w w' : World} → Reachable w → Step w w' → Reachable w'

watchdog-conns : (o : Outside) (w : World) → conns (watchdog o w) ≡ conns w
unfolding watchdog
watchdog-conns o w = ground arith

start-conns : (o : Outside) (w : World) → conns (start o w) ≡ conns w
unfolding start connect_relay_locked
start-conns o w = ground arith

poll-conns :
    (o : Outside) (real : List PollFd → ℕ → PollReply) (fds : List PollFd)
    (out_entries nfds timeout : ℕ) (i : Instance) (w : World)
    → (poll o real fds out_entries nfds timeout i w).0 ≡ drain_raw_relay_queue o w
unfolding poll
poll-conns o real fds out_entries nfds timeout i w = ground arith

select-conns :
    (o : Outside) (real : List Bool → Timeval → SelectReply) (readfds : List Bool)
    (out_len nfds : ℕ) (timeout : Timeval) (i : Instance) (w : World)
    → (select o real readfds out_len nfds timeout i w).0 ≡ drain_raw_relay_queue o w
unfolding select
select-conns o real readfds out_len nfds timeout i w = ground arith

Step-WorldIsValid : {w w' : World} → Step w w' → WorldIsValid w → WorldIsValid w'
unfolding force_reconnect connect_relay_locked stop socket plain forward forget_instance
Step-WorldIsValid (binds o fd a addr i w) valid = bind-ThirdIsValid o i fd a addr w valid
Step-WorldIsValid (listens o fd backlog i w) valid = listen-ResultIsValid o i fd backlog w valid
Step-WorldIsValid (connects o fd a addr times i w) valid =
    connect_fd-WorldIsValid i o fd a addr times w valid
Step-WorldIsValid (takes o fd addr_size i w) valid = accept-ThirdIsValid i o fd addr_size w valid
Step-WorldIsValid (sends o fd flags payload a addr i w) valid =
    send_to-WorldIsValid o i fd flags payload a addr w valid
Step-WorldIsValid (receives o fd flags size addr_size i w) valid =
    recv_from-WorldIsValid o i fd flags size addr_size w valid
Step-WorldIsValid (closes o fd i w) valid = close_fd-ThirdIsValid o i fd w valid
Step-WorldIsValid (opens command o domain socket_type protocol i w) valid = valid
Step-WorldIsValid (polls o real fds out_entries nfds timeout i w) valid =
    subst WorldIsValid (sym (poll-conns o real fds out_entries nfds timeout i w))
      (drain_raw_relay_queue-WorldIsValid o w valid)
Step-WorldIsValid (selects o real readfds out_len nfds timeout i w) valid =
    subst WorldIsValid (sym (select-conns o real readfds out_len nfds timeout i w))
      (drain_raw_relay_queue-WorldIsValid o w valid)
Step-WorldIsValid (hands_on o command w) valid = valid
Step-WorldIsValid (drains o w) valid = drain_raw_relay_queue-WorldIsValid o w valid
Step-WorldIsValid (idles o w) valid = subst AllValid (sym (watchdog-conns o w)) valid
Step-WorldIsValid (reconnects o w) valid = valid
Step-WorldIsValid (starts o w) valid = subst AllValid (sym (start-conns o w)) valid
Step-WorldIsValid (stops w) valid = valid
Step-WorldIsValid (leaves i w) valid = valid

-- In every world that the commands of any processes, the ends of their sessions, the drain, the watchdog and the buttons can
-- lead to, in any order, from one whose nine virtual connections are unused: every connection has
-- at most 2048 bytes in its inbox and in flight, was sent again at most six times, and has
-- sequence numbers below 2^32.
pub Reachable-WorldIsValid : (w : World) → Reachable w → WorldIsValid w
Reachable-WorldIsValid w (begins v unused) = subst AllValid (sym unused) (ground arith)
Reachable-WorldIsValid w (goes_on before step) =
    Step-WorldIsValid step (Reachable-WorldIsValid _ before)
