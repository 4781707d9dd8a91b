-- ===== src/Relay/Dns/Resolve.antt =====
-- `ResolveHostname` as a whole: the query that goes out and what comes of the answer.
use switch_lan_play_nx.Prelude.{ℕ, ◌≤◌, ◌≡◌, ap, ◌∙◌, true, none, some, List, if◌then◌else◌, length}
use switch_lan_play_nx.Relay.Dns.{Resolver, query_id, get_dns_server, ask_with, resolve_hostname}
use switch_lan_play_nx.Relay.Dns.Names.{Spells}
use switch_lan_play_nx.Relay.Dns.Messages.{
  Message, message_bytes, IsMessage, first_address, is_reply, Holds,
}
use switch_lan_play_nx.Relay.Dns.Query.{query_of, short-query_of}
use switch_lan_play_nx.Relay.Dns.Response.{dns_parse_response_a-Message}

-- For a host of at most 127 bytes (what a server entry holds) that spells labels of 1 to 63 bytes,
-- and a network that takes the query for exactly these labels, sent to the name server, and brings
-- back a message of the usual shape: ResolveHostname gives the data of its first record of type A
-- with four bytes if it is a response with code 0, and fails otherwise.
pub resolve_hostname-Message :
    (r : Resolver) (host : List ℕ) (ls : List (List ℕ)) (resp : ℕ → ℕ) (m : Message)
    → Spells host ls
    → length host ≤ 127
    → r.opens ≡ true
    → r.sends (get_dns_server r.ip_config) (query_of (query_id host) ls) ≡ true
    → r.receives (get_dns_server r.ip_config) (query_of (query_id host) ls)
      ≡ some (resp, length (message_bytes m))
    → IsMessage m
    → Holds resp 0 (message_bytes m)
    → resolve_hostname r host ≡ (if is_reply m then first_address m.answers else none)
unfolding resolve_hostname
resolve_hostname-Message r host ls resp m spells short opens sends receives valid held =
    let query = query_of (query_id host) ls in
    ap (ask_with r) (short-query_of host (query_id host) ls spells short)
    ∙ rw (opens, sends, receives) (dns_parse_response_a-Message resp m valid held)
