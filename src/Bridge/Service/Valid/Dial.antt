-- ===== src/Bridge/Service/Valid/Dial.antt =====
-- Accept and Connect keep the connections within their bounds.
use switch_lan_play_nx.Prelude.{
  ℕ, ◌≡◌, refl, Bool, true, false, ◌&&◌, not, Option, none, some, List, [], ◌∷◌, arith, first, ◌==◌,
  if_elim, take,
}
use switch_lan_play_nx.Bridge.World.{World, Outside, Instance, Address, Answer, is_owner}
use switch_lan_play_nx.Bridge.Lifecycle.{ensure_relay_connected}
use switch_lan_play_nx.Bridge.VTcp.{
  VTcpConn, ldn_control_port, PendingAccept, has_fd, unused_conn, with_conns, find_vtcp_conn_by_fd,
  is_own_tcp_listen_fd, send_tcp_segment,
}
use switch_lan_play_nx.Bridge.VTcp.Valid.{ConnIsValid, AllValid, update_first-AllValid}
use switch_lan_play_nx.Bridge.Drain.{with_sender, drain_raw_relay_queue}
use switch_lan_play_nx.Bridge.Drain.Valid.{conns, WorldIsValid, drain_raw_relay_queue-WorldIsValid}
use switch_lan_play_nx.Bridge.Service.Send.{or_zero}
use switch_lan_play_nx.Bridge.Service.Receive.{is_ready}
use switch_lan_play_nx.Bridge.Service.Forward.{forward}
use switch_lan_play_nx.Bridge.Service.Sockets.{sock_stream}
use switch_lan_play_nx.Bridge.Service.Accept.{accept, accept_ready, accept_pending, accepted_conn}
use switch_lan_play_nx.Bridge.Service.Dial.{
  connect_fd, dial, dial_with, dialled, dialling_conn, attempts, wait_established,
  rounds_per_attempt, max_attempts, syn_segment, is_established,
}
use switch_lan_play_nx.Bridge.TrackedFds.{get_tracked_type}
use switch_lan_play_nx.Bridge.Service.Valid.{ensured}
use switch_lan_play_nx.Bridge.Service.Valid.Sockets.{ThirdIsValid, alloc-AllValid}

accepted_conn-ConnIsValid :
    (fd : ℕ) (p : PendingAccept) → ConnIsValid (record (accepted_conn fd p) { used = true })
accepted_conn-ConnIsValid fd p = ground arith

dialling_conn-ConnIsValid :
    (fd : ℕ) (dst : Address) (isn : ℕ)
    → ConnIsValid (record (dialling_conn fd dst isn) { used = true })
dialling_conn-ConnIsValid fd dst isn = ground arith

module _ (i : Instance) where
  accept_pending-ThirdIsValid :
      (addr_size : ℕ) (p : PendingAccept) (l : Option (List VTcpConn)) (w : World)
      → ((l' : List VTcpConn) → l ≡ some l' → AllValid l')
      → WorldIsValid w
      → ThirdIsValid (accept_pending addr_size p l i w)
  accept_pending-ThirdIsValid addr_size p none w fits valid = valid
  accept_pending-ThirdIsValid addr_size p (some l) w fits valid = fits l refl

  accept_ready-ThirdIsValid :
      (addr_size : ℕ) (p : Option PendingAccept) (w : World)
      → WorldIsValid w
      → ThirdIsValid (accept_ready addr_size p i w)
  accept_ready-ThirdIsValid addr_size none w valid = valid
  accept_ready-ThirdIsValid addr_size (some p) w valid =
      accept_pending-ThirdIsValid addr_size p _ w
        (alloc-AllValid (is_owner i w) (accepted_conn w.vtcp.next_synthetic_fd p) (conns w)
          (accepted_conn-ConnIsValid w.vtcp.next_synthetic_fd p) valid)
        valid

  pub accept-ThirdIsValid :
      (o : Outside) (fd addr_size : ℕ) (w : World)
      → WorldIsValid w
      → ThirdIsValid (accept o fd addr_size i w)
  unfolding accept forward
  accept-ThirdIsValid o fd addr_size w valid =
      if_elim ThirdIsValid (is_own_tcp_listen_fd (is_owner i w) fd w.vtcp) _ _
        (λ _.
          accept_ready-ThirdIsValid addr_size
            (first is_ready (drain_raw_relay_queue o w).vtcp.pending_accepts)
            (drain_raw_relay_queue o w) (drain_raw_relay_queue-WorldIsValid o w valid))
        (λ _. valid)

  abbrev WaitedIsValid : World × Bool → Type 0
  WaitedIsValid (w, established) = WorldIsValid w

  wait_established-WaitedIsValid :
      (fd : ℕ) (rounds : List Outside) (w : World)
      → WorldIsValid w
      → WaitedIsValid (wait_established fd rounds i w)
  unfolding wait_established
  wait_established-WaitedIsValid fd [] w valid = valid
  wait_established-WaitedIsValid fd (o ∷ rounds) w valid =
      let drained = drain_raw_relay_queue-WorldIsValid o w valid in
      if_elim WaitedIsValid
        (is_established (
          find_vtcp_conn_by_fd (is_owner i (drain_raw_relay_queue o w)) fd
            (conns (drain_raw_relay_queue o w))))
        _ _ (λ _. drained)
        (λ _. wait_established-WaitedIsValid fd rounds (drain_raw_relay_queue o w) drained)

  attempts-WaitedIsValid :
      (fd our_isn : ℕ) (dst : Address) (times : List (List Outside)) (w : World)
      → WorldIsValid w
      → WaitedIsValid (attempts fd our_isn dst times i w)
  unfolding attempts
  attempts-WaitedIsValid fd our_isn dst [] w valid = valid
  attempts-WaitedIsValid fd our_isn dst (rounds ∷ more) w valid =
      let waited = wait_established-WaitedIsValid fd (take rounds_per_attempt rounds) w₁ valid in
      if_elim WaitedIsValid (wait_established fd (take rounds_per_attempt rounds) i w₁).1 _ _
        (λ _. waited)
        (λ _.
          attempts-WaitedIsValid fd our_isn dst more
            (wait_established fd (take rounds_per_attempt rounds) i w₁).0 waited)
    where
      w₁ : World
      w₁ =
          with_sender w
            (send_tcp_segment w.relay.sender dst.ip (syn_segment i.bridged_local_ip our_isn dst)).0

  dialled-WorldIsValid :
      (fd : ℕ) (r : World × Bool) → WaitedIsValid r → WorldIsValid (dialled fd i r).0
  dialled-WorldIsValid fd (w, true) valid = valid
  dialled-WorldIsValid fd (w, false) valid =
      if_elim WorldIsValid (is_owner i w) _ w
        (λ _.
          update_first-AllValid (has_fd fd) (λ _. unused_conn) (conns w) (λ _ _. ground arith)
            valid)
        (λ _. valid)

  dial_with-WorldIsValid :
      (fd our_isn : ℕ) (dst : Address) (times : List (List Outside)) (l : Option (List VTcpConn))
      (w : World)
      → ((l' : List VTcpConn) → l ≡ some l' → AllValid l')
      → WorldIsValid w
      → WorldIsValid (dial_with fd our_isn dst times l i w).0
  dial_with-WorldIsValid fd our_isn dst times none w fits valid = valid
  dial_with-WorldIsValid fd our_isn dst times (some l) w fits valid =
      dialled-WorldIsValid fd (attempts fd our_isn dst (take max_attempts times) i dialling)
        (attempts-WaitedIsValid fd our_isn dst (take max_attempts times) dialling (fits l refl))
    where
      dialling : World
      dialling = record w { vtcp = with_conns w.vtcp l }

  dial-WorldIsValid :
      (o : Outside) (fd : ℕ) (dst : Address) (times : List (List Outside)) (w : World)
      → WorldIsValid w
      → WorldIsValid (dial o fd dst times i w).0
  unfolding dial
  dial-WorldIsValid o fd dst times w valid =
      if_elim (λ (r : World × Answer). WorldIsValid r.0) (not (ensure_relay_connected o w).1) _ _
        (λ _. up)
        (λ _.
          dial_with-WorldIsValid fd (o.random 0) dst times _ (ensure_relay_connected o w).0
            (alloc-AllValid (is_owner i (ensure_relay_connected o w).0)
              (dialling_conn fd dst (o.random 0)) (conns (ensure_relay_connected o w).0)
              (dialling_conn-ConnIsValid fd dst (o.random 0)) up)
            up)
    where
      up : WorldIsValid (ensure_relay_connected o w).0
      up = ensured o i w valid

  pub connect_fd-WorldIsValid :
      (o : Outside) (fd : ℕ) (address : Option Address) (addr : List ℕ)
      (times : List (List Outside)) (w : World)
      → WorldIsValid w
      → WorldIsValid (connect_fd o fd address addr times i w).0
  unfolding connect_fd forward
  connect_fd-WorldIsValid o fd address addr times w valid =
      if_elim (λ (r : World × Answer). WorldIsValid r.0)
        (get_tracked_type fd i.tracked == sock_stream && (or_zero address).port == ldn_control_port)
        _ _ (λ _. dial-WorldIsValid o fd (or_zero address) times w valid) (λ _. valid)
