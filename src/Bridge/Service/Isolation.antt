-- ===== src/Bridge/Service/Isolation.antt =====
-- A process that has nothing to do with LDN gets exactly the real bsd:u service.
use switch_lan_play_nx.Prelude.{
  ℕ, ◌≡◌, refl, ap, false, ◌&&◌, not, Option, List, [], ◌∷◌, arith, ◌==◌, if_true, if_false,
}
use switch_lan_play_nx.Bridge.World.{World, Outside, Instance, Address, Answer, is_owner}
use switch_lan_play_nx.Bridge.VTcp.{minus_one, ldn_control_port}
use switch_lan_play_nx.Bridge.TrackedFds.{get_tracked_type, is_negative, untrack_fd}
use switch_lan_play_nx.Bridge.Service.Forward.{request, forward, is_bridged}
use switch_lan_play_nx.Bridge.Service.Send.{send_to}
use switch_lan_play_nx.Bridge.Service.Receive.{vfd_has_pending_read}
use switch_lan_play_nx.Bridge.Service.Sockets.{listen, close_fd, sock_stream}
use switch_lan_play_nx.Bridge.Service.Accept.{accept}
use switch_lan_play_nx.Bridge.Service.Dial.{connect_fd}
use switch_lan_play_nx.Bridge.Service.Send.{or_zero}

-- The instance is not the active LDN one, and has bridged no socket and bound no LDN listener.
pub record Outsider (i : Instance) (w : World) : Type 0 where
  pub not_owner : is_owner i w ≡ false
  pub not_bridged : i.bridged_fd ≡ minus_one
  pub not_listening : i.ldn_tcp_bind_fd ≡ minus_one

abbrev pub handed_on : Instance → World × Answer → Instance × World × Answer
handed_on i (w, answer) = (i, w, answer)

module _ (o : Outside) (fd : ℕ) (i : Instance) (w : World) (outsider : Outsider i w) where
  not_bridged_fd : is_bridged i fd ≡ false
  not_bridged_fd = ground (arith, outsider.not_bridged)

  send_to-Outsider :
      (flags : ℕ) (payload : List ℕ) (dst : Option Address) (addr : List ℕ)
      → send_to o fd flags payload dst addr i w
        ≡ forward o (request 11 (fd ∷ flags ∷ []) (payload ∷ addr ∷ [])) w
  unfolding send_to
  send_to-Outsider flags payload dst addr =
      rw (send_to, outsider.not_owner) (if_true (not (is_bridged i fd)) _ _ (ap not not_bridged_fd))

  accept-Outsider :
      (addr_size : ℕ)
      → accept o fd addr_size i w ≡ handed_on i (forward o (request 12 (fd ∷ []) []) w)
  unfolding accept forward
  accept-Outsider addr_size = rw (accept, outsider.not_owner) refl

  listen-Outsider :
      (backlog : ℕ) → listen o fd backlog i w ≡ forward o (request 18 (fd ∷ backlog ∷ []) []) w
  unfolding listen forward
  listen-Outsider backlog =
      if_false (not (is_negative fd) && fd == i.ldn_tcp_bind_fd) _ _
        (ground (arith, outsider.not_listening))

  close_fd-Outsider :
      close_fd o fd i w
      ≡ handed_on
          (record i { tracked = untrack_fd fd i.tracked })
          (forward o (request 26 (fd ∷ []) []) w)
  unfolding close_fd forward
  close_fd-Outsider =
      rw (close_fd, outsider.not_owner)
        (rw outsider.not_owner (if_false (is_bridged i fd) _ _ not_bridged_fd))

  connect_fd-Outsider :
      (address : Option Address) (addr : List ℕ) (times : List (List Outside))
      → (get_tracked_type fd i.tracked == sock_stream && (or_zero address).port == ldn_control_port)
        ≡ false
      → connect_fd o fd address addr times i w ≡ forward o (request 14 (fd ∷ []) (addr ∷ [])) w
  unfolding connect_fd
  connect_fd-Outsider address addr times other =
      if_false
        (get_tracked_type fd i.tracked == sock_stream && (or_zero address).port == ldn_control_port)
        _ _ other

  vfd_has_pending_read-Outsider : vfd_has_pending_read fd i w ≡ false
  unfolding vfd_has_pending_read
  vfd_has_pending_read-Outsider =
      rw (vfd_has_pending_read, outsider.not_owner) (ground (arith, outsider.not_bridged))

  -- An instance that is not the active LDN one and has bridged and bound nothing: SendTo, Accept,
  -- Listen and Close on any descriptor, and Connect on any but a stream socket to the LDN port,
  -- are the forwarded command and nothing else (Close also forgets the descriptor's type), and
  -- Poll and Select see no data of ours on any descriptor.
  pub handlers-Outsider :
      (flags backlog addr_size : ℕ) (payload addr : List ℕ) (dst : Option Address)
      (times : List (List Outside))
      → (send_to o fd flags payload dst addr i w
          ≡ forward o (request 11 (fd ∷ flags ∷ []) (payload ∷ addr ∷ [])) w)
        × (accept o fd addr_size i w ≡ handed_on i (forward o (request 12 (fd ∷ []) []) w))
        × (listen o fd backlog i w ≡ forward o (request 18 (fd ∷ backlog ∷ []) []) w)
        × (close_fd o fd i w
            ≡ handed_on
                (record i { tracked = untrack_fd fd i.tracked })
                (forward o (request 26 (fd ∷ []) []) w))
        × ((get_tracked_type fd i.tracked == sock_stream && (or_zero dst).port == ldn_control_port)
              ≡ false
            → connect_fd o fd dst addr times i w ≡ forward o (request 14 (fd ∷ []) (addr ∷ [])) w)
        × (vfd_has_pending_read fd i w ≡ false)
  handlers-Outsider flags backlog addr_size payload addr dst times = (
    send_to-Outsider flags payload dst addr,
    accept-Outsider addr_size,
    listen-Outsider backlog,
    close_fd-Outsider,
    connect_fd-Outsider dst addr times,
    vfd_has_pending_read-Outsider,
  )
