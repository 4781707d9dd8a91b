-- ===== src/Relay/Dns/Tests.antt =====
-- Runs and instances of the name resolution.
use switch_lan_play_nx.Prelude.{
  ℕ, ◌+◌, ◌*◌, ◌^◌, ◌≡◌, refl, ap, true, none, some, List, [], ◌∷◌, arith, if◌then◌else◌, length,
  get_or,
}
use switch_lan_play_nx.Relay.Dns.{
  Resolver, dns_encode_name, encode_labels, read_answers, skip_question, skip_name, dns_build_query,
  dns_parse_response_a, resolve_hostname, resolved_address,
}
use switch_lan_play_nx.Relay.Dns.Names.{Spells, last, dot}
use switch_lan_play_nx.Relay.Dns.Messages.{
  ResourceRecord, Message, message_bytes, first_address, is_reply,
}
use switch_lan_play_nx.Relay.Dns.Query.{Queries, query_of, dns_build_query-Queries}
use switch_lan_play_nx.Relay.Dns.Resolve.{resolve_hostname-Message}

-- `ab.c`
abbrev host : List ℕ
host = b'a' ∷ b'b' ∷ b'.' ∷ b'c' ∷ []

abbrev labels : List (List ℕ)
labels = (b'a' ∷ b'b' ∷ []) ∷ (b'c' ∷ []) ∷ []

host-Spells : Spells host labels
host-Spells =
    dot (omega arith, omega arith, (refl, (refl, tt))) refl
      (last (omega arith, omega arith, (refl, tt)))

dns_encode_name_host : dns_encode_name host 500 ≡ some (2 ∷ b'a' ∷ b'b' ∷ 1 ∷ b'c' ∷ 0 ∷ [])
unfolding encode_labels
dns_encode_name_host = refl

dns_encode_name_empty_label : dns_encode_name (b'a' ∷ b'.' ∷ b'.' ∷ []) 500 ≡ none
unfolding encode_labels
dns_encode_name_empty_label = refl

-- A host that fills its buffer: the query is three bytes longer than it.
dns_build_query_long : dns_build_query (b'a' ∷ []) 7 16 ≡ some (query_of 7 ((b'a' ∷ []) ∷ []))
unfolding dns_build_query encode_labels
dns_build_query_long = refl

dns_build_query-Queries_example : Queries (b'a' ∷ []) 7 16 (query_of 7 ((b'a' ∷ []) ∷ []))
dns_build_query-Queries_example =
    dns_build_query-Queries (b'a' ∷ []) 7 16 (query_of 7 ((b'a' ∷ []) ∷ [])) dns_build_query_long

-- An alias before the address, whose name is a pointer.
abbrev alias : ResourceRecord
alias = record {
  name = record { labels = (b'x' ∷ []) ∷ []; pointer = none };
  kind = 5;
  class = 1;
  ttl = 60;
  rdata = 1 ∷ b'y' ∷ 0 ∷ [];
}

abbrev address : ResourceRecord
address = record {
  name = record { labels = []; pointer = some (192, 12) };
  kind = 1;
  class = 1;
  ttl = 60;
  rdata = 10 ∷ 102 ∷ 227 ∷ 153 ∷ [];
}

abbrev message : Message
message = record {
  id = 7;
  flags_hi = 129;
  flags_lo = 128;
  question = labels;
  answers = alias ∷ address ∷ [];
  counts = 0;
  rest = 1 ∷ 2 ∷ [];
}

-- Memory that holds the message, and something else behind it.
abbrev memory : ℕ → ℕ
memory i = get_or (message_bytes message) i 0

abbrev resolver : Resolver
resolver = record {
  ip_config = some (0, 0x01010101);
  opens = true;
  sends = λ server query. true;
  receives = λ server query. some (memory, length (message_bytes message));
}

dns_parse_response_a-message :
    dns_parse_response_a memory (length (message_bytes message)) ≡ some (10 ∷ 102 ∷ 227 ∷ 153 ∷ [])
unfolding dns_parse_response_a read_answers skip_question skip_name
dns_parse_response_a-message = refl

resolved_address_host :
    resolved_address resolver host none ≡ some (10 * 2 ^ 24 + 102 * 2 ^ 16 + 227 * 2 ^ 8 + 153)
unfolding resolve_hostname dns_build_query dns_parse_response_a encode_labels read_answers
    skip_question skip_name
resolved_address_host = refl

resolve_hostname-Message_example :
    resolve_hostname resolver host
    ≡ (if is_reply message then first_address (alias ∷ address ∷ []) else none)
resolve_hostname-Message_example =
    resolve_hostname-Message resolver host labels memory message host-Spells (omega arith) refl refl
      refl (omega arith) (λ i h. ap memory {x = 0 + i} {y = i} (omega arith))
