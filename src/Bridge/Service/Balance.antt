-- ===== src/Bridge/Service/Balance.antt =====
-- The relay connection lives from the first bridged socket to the last.
use switch_lan_play_nx.Prelude.{ℕ, suc, ◌≡◌, ◌≢◌, false, arith}
use switch_lan_play_nx.Relay.Connect.{is_connected, connect, close}
use switch_lan_play_nx.Bridge.World.{World, Outside, Instance}
use switch_lan_play_nx.Bridge.VTcp.{minus_one}
use switch_lan_play_nx.Bridge.Lifecycle.{ensure_relay_connected, connect_relay_locked}
use switch_lan_play_nx.Bridge.Service.Sockets.{bridge_socket, unbridge}

bridged_once :
    (o : Outside) (fd port ip : ℕ) (i : Instance) (w : World)
    → let (i₁, w₁) = bridge_socket o fd port ip i w in
      let (i₂, w₂) = unbridge i₁ w₁ in
      (w₂.bridged_socket_count ≡ w.bridged_socket_count)
      × (i₂.bridged_fd ≡ minus_one)
      × (w.bridged_socket_count ≡ 0
          → (is_connected w₂.relay ≡ false)
            × (w₂.relay_connect_attempted ≡ false)
            × (w₂.last_bridged_local_ip ≡ 0))
      × (w.bridged_socket_count ≢ 0 → w₂.relay ≡ w₁.relay)
unfolding bridge_socket unbridge ensure_relay_connected connect_relay_locked connect close
bridged_once o fd port ip i w = ground arith

bridged_twice :
    (o later : Outside) (fd port ip fd₂ port₂ ip₂ : ℕ) (i : Instance) (w : World)
    → let (i₁, w₁) = bridge_socket o fd port ip i w in
      let (i₂, w₂) = bridge_socket later fd₂ port₂ ip₂ i₁ w₁ in
      let (i₃, w₃) = unbridge i₂ w₂ in
      (w₃.bridged_socket_count ≡ suc w.bridged_socket_count)
      × (i₃.bridged_fd ≡ minus_one)
      × (w₃.relay ≡ w₂.relay)
unfolding bridge_socket unbridge ensure_relay_connected connect_relay_locked connect close
bridged_twice o later fd port ip fd₂ port₂ ip₂ i w = ground arith

-- Bridging a socket by Bind, then unbridging it by Close, with nothing in between, on a world with
-- any number of bridged sockets: the count is as before, the instance is unbridged, and the relay
-- is left connected only if other sockets are still bridged; with none it is closed and may be
-- dialled afresh. A process that bridges a second socket before it closes the first: its two Binds
-- count two sockets, but the one Close that still finds a bridged socket counts one down, so that
-- one more is counted than before, and Close leaves the relay as it was then.
pub unbridge-bridge_sockets :
    (o later : Outside) (fd port ip fd₂ port₂ ip₂ : ℕ) (i : Instance) (w : World)
    → (let (i₁, w₁) = bridge_socket o fd port ip i w in
        let (i₂, w₂) = unbridge i₁ w₁ in
        (w₂.bridged_socket_count ≡ w.bridged_socket_count)
        × (i₂.bridged_fd ≡ minus_one)
        × (w.bridged_socket_count ≡ 0
            → (is_connected w₂.relay ≡ false)
              × (w₂.relay_connect_attempted ≡ false)
              × (w₂.last_bridged_local_ip ≡ 0))
        × (w.bridged_socket_count ≢ 0 → w₂.relay ≡ w₁.relay))
      × (let (i₁, w₁) = bridge_socket o fd port ip i w in
          let (i₂, w₂) = bridge_socket later fd₂ port₂ ip₂ i₁ w₁ in
          let (i₃, w₃) = unbridge i₂ w₂ in
          (w₃.bridged_socket_count ≡ suc w.bridged_socket_count)
          × (i₃.bridged_fd ≡ minus_one)
          × (w₃.relay ≡ w₂.relay))
unbridge-bridge_sockets o later fd port ip fd₂ port₂ ip₂ i w =
    (bridged_once o fd port ip i w, bridged_twice o later fd port ip fd₂ port₂ ip₂ i w)
