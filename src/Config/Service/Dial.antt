-- ===== src/Config/Service/Dial.antt =====
-- The overlay's choice of a relay takes effect: SelectServer and then Reconnect.
use switch_lan_play_nx.Prelude.{
  ℕ, zero, suc, ◌-◌, ◌<◌, ◌≡◌, refl, sym, ap, ◌∙◌, inl, inr, Bool, true, false, ◌&&◌, not, none,
  some, List, [], ◌∷◌, arith, leb, if◌then◌else◌, Bool-cases, if_true, if_false, length, get_elem?,
  take_all, get_elem?-lt,
}
use switch_lan_play_nx.Relay.Connect.{is_connected, connect, close, with_address}
use switch_lan_play_nx.Bridge.World.{World, Outside}
use switch_lan_play_nx.Bridge.Lifecycle.{force_reconnect, connect_relay_locked}
use switch_lan_play_nx.Config.Servers.{SlpNxServer, host_max, servers_get}
use switch_lan_play_nx.Config.Servers.Valid.{AreServers}
use switch_lan_play_nx.Config.Runtime.{
  Card, Writing, RuntimeCfg, below_zero, host_port_of, get_selected_host_port, select_server,
  persist_selection,
}
use switch_lan_play_nx.Config.Runtime.Selection.{IsValid}
use switch_lan_play_nx.Config.Service.{
  System, ask_select, ask_reconnect, succeeded, invalid_request_size, handle,
}

entry-short :
    (servers : List SlpNxServer) (i : ℕ) (s : SlpNxServer)
    → AreServers servers
    → get_elem? servers i ≡ some s
    → length s.host < host_max
entry-short [] i s v h = cc
entry-short (t ∷ servers) zero s v h = ground (arith, v.0.1)
entry-short (t ∷ servers) (suc i) s v h = entry-short servers i s v.1 h

servers_get-some :
    (servers : List SlpNxServer) (i : ℕ) (s : SlpNxServer)
    → servers_get i servers ≡ some s
    → (below_zero i ≡ false) × (get_elem? servers i ≡ some s)
servers_get-some servers i s h = elim (Bool-cases (below_zero i)) [
  | inl below ↦ absurd (cc (sym (if_true (below_zero i) none (get_elem? servers i) below) ∙ h))
  | inr inside ↦ (inside, sym (if_false (below_zero i) none (get_elem? servers i) inside) ∙ h)
]

module _ (writing : Writing) (index : ℕ) (cfg : RuntimeCfg) (card : Card) (srv : SlpNxServer)
    (valid : IsValid cfg) (found : servers_get index cfg.servers ≡ some srv) where
  select_server-taken :
      select_server writing index cfg card
      ≡ (record cfg { sel_index = index }, persist_selection writing index card, true)
  unfolding select_server
  select_server-taken =
      let (inside, entry) = servers_get-some cfg.servers index srv found in
      if_false (not (below_zero index) && leb (length cfg.servers) index) (cfg, card, false) _
        (ground (arith, get_elem?-lt cfg.servers index entry))

  selected-host_port :
      get_selected_host_port host_max (record cfg { sel_index = index }) ≡ (srv.host, srv.port)
  unfolding get_selected_host_port
  selected-host_port =
      let (inside, entry) = servers_get-some cfg.servers index srv found in
      ap (host_port_of host_max) found
      ∙ ap (λ host. (host, srv.port))
          (take_all (host_max - 1) srv.host
            (omega (arith, entry-short cfg.servers index srv valid.valid entry)))

-- What there is after a dial of this host and port.
abbrev pub Dialled : ℕ → ℕ → World → Type 0
Dialled ip port w =
    (is_connected w.relay ≡ true) × (w.relay.relay_addr ≡ (ip, port)) × (w.relay_enabled ≡ true)

force_reconnect-Dialled :
    (o : Outside) (w : World) (host : List ℕ) (port ip : ℕ)
    → o.selected ≡ (host, port)
    → o.network.socket_opens ≡ true
    → o.network.resolve host ≡ some ip
    → Dialled ip port (force_reconnect o w)
unfolding force_reconnect connect_relay_locked connect
force_reconnect-Dialled o w host port ip selected opens resolves =
    let b = close w.relay in
    let dial : connect o.network o.selected.0 o.selected.1 o.tick b
        ≡ with_address o.network.creates_pump o.tick
            (record b { relay_addr = (b.relay_addr.0, port) }) (some ip) =
      ap (λ (p : List ℕ × ℕ). connect o.network p.0 p.1 o.tick b) selected
      ∙ if_true o.network.socket_opens _ (b, false) opens
      ∙ ap
          (with_address o.network.creates_pump o.tick
            (record b { relay_addr = (b.relay_addr.0, port) }))
          resolves in
    (ap (λ r. is_connected r.0) dial, ap (λ r. r.0.relay_addr) dial, refl)

-- On a valid configuration, an entry of the list is selected by the overlay, and then Reconnect is
-- asked for, with any state of the bridge. If the bridge is given the host and port that
-- GetSelectedHostPort tells after the first command, the network opens a socket and the entry's host
-- resolves: both commands succeed, and the relay is enabled and connected to exactly the resolved
-- address and the entry's port.
pub handle-select-reconnect :
    (o later : Outside) (writing : Writing) (index ip : ℕ) (s : System) (srv : SlpNxServer)
    → IsValid s.cfg
    → servers_get index s.cfg.servers ≡ some srv
    → later.selected ≡ get_selected_host_port host_max (handle o (ask_select writing index) s).0.cfg
    → later.network.socket_opens ≡ true
    → later.network.resolve srv.host ≡ some ip
    → let (s₁, outcome₁) = handle o (ask_select writing index) s in
      let (s₂, outcome₂) = handle later ask_reconnect s₁ in
      (outcome₁ ≡ succeeded) × (outcome₂ ≡ succeeded) × Dialled ip srv.port s₂.bridge
unfolding handle
handle-select-reconnect o later writing index ip s srv valid found told opens resolves =
    let taken = select_server-taken writing index s.cfg s.card srv valid found in
    (
      ap (λ (r : RuntimeCfg × Card × Bool). if r.2 then succeeded else invalid_request_size) taken,
      refl,
      force_reconnect-Dialled later s.bridge srv.host srv.port ip
          (told
            ∙ ap (λ (r : RuntimeCfg × Card × Bool). get_selected_host_port host_max r.0) taken
            ∙ selected-host_port writing index s.cfg s.card srv valid found)
          opens resolves,
    )
