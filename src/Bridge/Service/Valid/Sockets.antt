-- ===== src/Bridge/Service/Valid/Sockets.antt =====
-- Bind, Listen and Close keep the connections within their bounds.
use switch_lan_play_nx.Prelude.{
  ℕ, ◌-◌, ◌≡◌, subst, Bool, true, false, ◌&&◌, not, Option, none, some, List, [], ◌∷◌, arith, first,
  update_first, ◌==◌, if◌then◌else◌, if_elim,
}
use switch_lan_play_nx.Bridge.World.{
  Reply, World, Outside, Instance, Address, Answer, is_owner, dispatch,
}
use switch_lan_play_nx.Bridge.VTcp.{
  VTcpConn, has_fd, unused_conn, is_unused, alloc_vtcp_conn, find_vtcp_conn_by_fd,
  is_own_tcp_listen_fd,
}
use switch_lan_play_nx.Bridge.VTcp.Valid.{ConnIsValid, AllValid, update_first-AllValid}
use switch_lan_play_nx.Bridge.Drain.Valid.{conns, WorldIsValid}
use switch_lan_play_nx.Bridge.Service.Forward.{request, is_bridged}
use switch_lan_play_nx.Bridge.Service.Sockets.{
  learned_ip, with_nifm, bridge_worthy, sock_dgram, bind, bind_bridged, bridge_socket, listen,
  close_fd, close_conn, close_listener, unbridge, conn_is_synthetic,
}
use switch_lan_play_nx.Bridge.TrackedFds.{get_tracked_type, is_negative, untrack_fd}
use switch_lan_play_nx.Bridge.Service.Valid.{ensured}

abbrev pub ThirdIsValid : Instance × World × Answer → Type 0
ThirdIsValid (i, w, answer) = WorldIsValid w

abbrev PairIsValid : Instance × World → Type 0
PairIsValid (i, w) = WorldIsValid w

pub alloc-AllValid :
    (owner : Bool) (fresh : VTcpConn) (l : List VTcpConn)
    → ConnIsValid (record fresh { used = true })
    → AllValid l
    → (l' : List VTcpConn) → alloc_vtcp_conn owner fresh l ≡ some l'
    → AllValid l'
alloc-AllValid false fresh l fits valid l' h = cc
alloc-AllValid true fresh l fits valid l' h = go (first is_unused l) h
  where
    taken : List VTcpConn
    taken = update_first is_unused (λ _. record fresh { used = true }) l

    go :
        (o : Option VTcpConn)
        → (elim o [ none ↦ none | some _ ↦ some taken ]) ≡ some l'
        → AllValid l'
    go none e = cc
    go (some c) e = subst AllValid (cc e) (update_first-AllValid is_unused _ l (λ _ _. fits) valid)

module _ (o : Outside) (i : Instance) where
  bridge_socket-PairIsValid :
      (fd port ip : ℕ) (w : World) → WorldIsValid w → PairIsValid (bridge_socket o fd port ip i w)
  unfolding bridge_socket
  bridge_socket-PairIsValid fd port ip w valid = ensured o i _ valid

  bind_bridged-PairIsValid :
      (fd port : ℕ) (w : World) → WorldIsValid w → PairIsValid (bind_bridged o fd port i w)
  unfolding bind_bridged
  bind_bridged-PairIsValid fd port w valid =
      if_elim PairIsValid (get_tracked_type fd i.tracked == sock_dgram) _ _ (λ _. worthy)
        (λ _. valid)
    where
      asked : World × Reply
      asked = dispatch o (request 16 (fd ∷ []) []) w

      ip : ℕ
      ip = learned_ip o asked.1

      w₁ : World
      w₁ = with_nifm o asked.1 asked.0

      worthy :
          PairIsValid
            (if bridge_worthy port ip w₁ then bridge_socket o fd port ip i w₁ else (i, w₁))
      worthy =
          if_elim PairIsValid (bridge_worthy port ip w₁) _ _
            (λ _. bridge_socket-PairIsValid fd port ip w₁ valid) (λ _. valid)

  pub bind-ThirdIsValid :
      (fd : ℕ) (address : Option Address) (addr : List ℕ) (w : World)
      → WorldIsValid w
      → ThirdIsValid (bind o fd address addr i w)
  unfolding bind
  bind-ThirdIsValid fd none addr w valid = valid
  bind-ThirdIsValid fd (some a) addr w valid = bind_bridged-PairIsValid fd a.port _ valid

  pub listen-ResultIsValid :
      (fd backlog : ℕ) (w : World) → WorldIsValid w → WorldIsValid (listen o fd backlog i w).0
  unfolding listen
  listen-ResultIsValid fd backlog w valid =
      if_elim (λ (r : World × Answer). WorldIsValid r.0)
        (not (is_negative fd) && fd == i.ldn_tcp_bind_fd) _ _ (λ _. valid) (λ _. valid)

  close_conn-WorldIsValid :
      (fd : ℕ) (c : Option VTcpConn) (w : World)
      → WorldIsValid w
      → WorldIsValid (close_conn fd c i w)
  close_conn-WorldIsValid fd none w valid = valid
  close_conn-WorldIsValid fd (some c) w valid =
      if_elim WorldIsValid c.established _ _ (λ _. gone) (λ _. gone)
    where
      gone : AllValid (update_first (has_fd fd) (λ _. unused_conn) (conns w))
      gone =
          update_first-AllValid (has_fd fd) (λ _. unused_conn) (conns w) (λ _ _. ground arith) valid

  close_listener-WorldIsValid :
      (fd : ℕ) (w : World) → WorldIsValid w → WorldIsValid (close_listener fd i w)
  close_listener-WorldIsValid fd w valid =
      if_elim WorldIsValid (is_own_tcp_listen_fd (is_owner i w) fd w.vtcp) _ _ (λ _. valid)
        (λ _. valid)

  unbridge-PairIsValid : (j : Instance) (w : World) → WorldIsValid w → PairIsValid (unbridge j w)
  unfolding unbridge
  unbridge-PairIsValid j w valid =
      if_elim WorldIsValid (w.bridged_socket_count - 1 == 0) _ _ (λ _. valid) (λ _. valid)

  pub close_fd-ThirdIsValid :
      (fd : ℕ) (w : World) → WorldIsValid w → ThirdIsValid (close_fd o fd i w)
  unfolding close_fd
  close_fd-ThirdIsValid fd w valid =
      if_elim ThirdIsValid (conn_is_synthetic (find_vtcp_conn_by_fd (is_owner i w) fd (conns w))) _
        _ (λ _. closed)
        (λ _.
          if_elim ThirdIsValid (is_bridged i₁ fd) _ _ (λ _. unbridge-PairIsValid i₁ _ closed)
            (λ _. closed))
    where
      i₁ : Instance
      i₁ = record i { tracked = untrack_fd fd i.tracked }

      closed : WorldIsValid (
          close_listener fd i
            (close_conn fd (find_vtcp_conn_by_fd (is_owner i w) fd (conns w)) i w))
      closed =
          close_listener-WorldIsValid fd _
            (close_conn-WorldIsValid fd (find_vtcp_conn_by_fd (is_owner i w) fd (conns w)) w valid)
