-- ===== src/Bridge/VTcp/Lookup.antt =====
-- Which connection a peer's address and a descriptor lead to, across writes to the array.
use switch_lan_play_nx.Prelude.{
  ℕ, ◌≡◌, sym, ap, subst, ◌∙◌, ◌≢◌, inl, inr, Bool, false, some, List, arith, first, update_first,
  first-passes, update_first-none, first-update_first, first-update_first_ne, update_first-agree,
  Option-cases,
}
use switch_lan_play_nx.Bridge.VTcp.{VTcpConn, has_fd, has_peer}

-- The connection of `peer_ip` that has descriptor `fd`, past its handshake.
abbrev pub Holds : ℕ → ℕ → List VTcpConn → VTcpConn → Type 0
Holds peer_ip fd conns c =
    (first (has_peer peer_ip) conns ≡ some c)
    × (first (has_fd fd) conns ≡ some c)
    × (c.syn_sent_awaiting_synack ≡ false)

-- A write that leaves alone what a connection is found by.
abbrev pub KeepsAddress : VTcpConn → VTcpConn → Type 0
KeepsAddress c c' = (c'.used ≡ c.used) × (c'.fd ≡ c.fd) × (c'.peer_ip ≡ c.peer_ip)

abbrev KeepsKeys : VTcpConn → VTcpConn → Type 0
KeepsKeys c c' =
    (c'.used ≡ c.used)
    × (c'.fd ≡ c.fd)
    × (c'.peer_ip ≡ c.peer_ip)
    × (c'.syn_sent_awaiting_synack ≡ c.syn_sent_awaiting_synack)

module _ (peer_ip fd : ℕ) (conns : List VTcpConn) (c : VTcpConn)
    (holds : Holds peer_ip fd conns c) where
  -- A write to the connection itself.
  pub update-own :
      (f : VTcpConn → VTcpConn)
      → KeepsKeys c (f c)
      → Holds peer_ip fd (update_first (has_peer peer_ip) f conns) (f c)
  update-own f keeps = (
    first-update_first (has_peer peer_ip) f conns c holds.0
        (ground (arith, first-passes (has_peer peer_ip) conns c holds.0)),
    ap (first (has_fd fd))
          (update_first-agree (has_peer peer_ip) (has_fd fd) f conns c holds.0 holds.1)
        ∙ first-update_first (has_fd fd) f conns c holds.1
            (ground (arith, first-passes (has_fd fd) conns c holds.1)),
    keeps.3 ∙ holds.2,
  )

  -- The same through the descriptor.
  pub update-own_fd :
      (f : VTcpConn → VTcpConn)
      → KeepsKeys c (f c)
      → Holds peer_ip fd (update_first (has_fd fd) f conns) (f c)
  update-own_fd f keeps =
      subst (λ l. Holds peer_ip fd l (f c))
        (update_first-agree (has_peer peer_ip) (has_fd fd) f conns c holds.0 holds.1)
        (update-own f keeps)

  -- A write to a connection that a test other than its address and descriptor leads to.
  pub update-other :
      (p : VTcpConn → Bool) (f : VTcpConn → VTcpConn)
      → p c ≡ false
      → ((a : VTcpConn) → first p conns ≡ some a → KeepsAddress a (f a))
      → Holds peer_ip fd (update_first p f conns) c
  update-other p f apart keeps = elim (Option-cases (first p conns)) [
    | inl absent ↦
        subst (λ l. Holds peer_ip fd l c) (sym (update_first-none p f conns absent)) holds
    | inr (a, at) ↦ at_conn a at (keeps a at)
  ]
    where
      at_conn :
          (a : VTcpConn)
          → first p conns ≡ some a
          → KeepsAddress a (f a)
          → Holds peer_ip fd (update_first p f conns) c
      at_conn a at keep = (
        first-update_first_ne p (has_peer peer_ip) f conns a c at (ground arith) holds.0 apart,
        first-update_first_ne p (has_fd fd) f conns a c at (ground arith) holds.1 apart,
        holds.2,
      )

  pub has_peer-other : (ip : ℕ) → ip ≢ peer_ip → has_peer ip c ≡ false
  has_peer-other ip other = ground (arith, first-passes (has_peer peer_ip) conns c holds.0)

  pub has_fd-other : (other_fd : ℕ) → other_fd ≢ fd → has_fd other_fd c ≡ false
  has_fd-other other_fd other = ground (arith, first-passes (has_fd fd) conns c holds.1)
