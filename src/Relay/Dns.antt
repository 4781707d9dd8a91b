-- ===== src/Relay/Dns.antt =====
-- The name resolution of source/relay_bridge.hpp: DnsEncodeName, DnsBuildQuery, DnsParseResponseA,
-- GetDnsServer and ResolveHostname. A host is its bytes before the NUL; a response is the memory
-- that the parser reads and the length that `recvfrom` gave. What the sockets and nifm answer is in
-- `Resolver`.
pub mod Names
pub mod Messages
pub mod Query
pub mod Response
pub mod Resolve
mod Tests
use Prim.Native.Nat.{bit_xor}
use switch_lan_play_nx.Prelude.{
  ℕ, zero, suc, ◌+◌, ◌-◌, ◌*◌, ◌/◌, ◌%◌, ◌^◌, ◌≤◌, ◌<◌, compare, Ordering, bit_or, min, ◌≡◌, refl,
  sym, ap, ap₂, subst, ◌∙◌, ◌≡⟨◌⟩◌, ◌∎, ◌≢◌, ◌⊎◌, inl, inr, ◌↔◌, Bool, true, false, ◌&&◌, ◌||◌, not,
  Option, none, some, List, [], ◌∷◌, ◌++◌, map, append-nil, append_assoc, arith, first,
  update_first, first-passes, update_first-none, first-update_first, first-update_first_ne,
  update_first-agree, first-update_first_new, first-narrow, ltb, leb, ◌==◌, if◌then◌else◌, ltb→lt,
  lt→ltb, le→ltb, leb→le, le→leb, lt→leb, ==_iff, ==_refl, ne→==, Bool-cases, Option-cases, ◌>>=◌,
  if_true, if_false, if_elim, split_first, All, All-append, All-mono, Lacks, split_first-last,
  split_first-append, Rejoins, split_first-Rejoins, length, get_elem?, get_or, set, take, drop,
  replicate, length-append, length-set, length-take, length-drop, take-append-drop, take_all,
  take-append, drop-append, take-add, take-take, get_elem?-set_self, get_elem?-set_ne, get_elem?-lt,
  length-replicate, u8, u16, u32, add32, sub64, has_bit, be16, be32, bytes16, bytes32, be16-bytes,
  be32-bytes,
}
use switch_lan_play_nx.Relay.Connect.{Network}

-- The terminating zero of a name.
abbrev pub end_name : ℕ → List ℕ → Option (List ℕ)
end_name cap out = if ltb cap (length out + 2) then none else some (out ++ 0 ∷ [])

abbrev pub refuses_label : ℕ → ℕ → ℕ → Bool
refuses_label cap pos len = len == 0 || (ltb 63 len || ltb cap (pos + len + 2))

-- One round of `DnsEncodeName` with its label; `again` is the loop on the text after the dot.
abbrev pub after_label :
    (List ℕ → List ℕ → Option (List ℕ)) → ℕ → List ℕ → List ℕ × Option (List ℕ) → Option (List ℕ)
after_label again cap out (label, rest) =
    let next = out ++ length label ∷ label in
    if refuses_label cap (length out) (length label)
    then none
    else elim rest [ none ↦ end_name cap next | some later ↦ again later next ]

-- The loop of `DnsEncodeName` on what is left of the host; `none` stands for the result 0.
unfoldable pub encode_labels : ℕ → ℕ → List ℕ → List ℕ → Option (List ℕ)
encode_labels fuel cap [] out = end_name cap out
encode_labels zero cap (c ∷ s) out = none
encode_labels (suc fuel) cap (c ∷ s) out =
    after_label (encode_labels fuel cap) cap out (split_first b'.' (c ∷ s))

-- Each round takes a byte of the host at least.
abbrev pub dns_encode_name : List ℕ → ℕ → Option (List ℕ)
dns_encode_name host cap = encode_labels (length host) cap host []

-- The header of a query with the given id, RD set and one question.
abbrev pub query_header : ℕ → List ℕ
query_header id = bytes16 id ++ 1 ∷ 0 ∷ 0 ∷ 1 ∷ 0 ∷ 0 ∷ 0 ∷ 0 ∷ 0 ∷ 0 ∷ []

-- QTYPE = A and QCLASS = IN.
abbrev pub question_tail : List ℕ
question_tail = 0 ∷ 1 ∷ 0 ∷ 1 ∷ []

-- `none` stands for the result -1.
abbrev pub with_question : ℕ → Option (List ℕ) → Option (List ℕ)
with_question id none = none
with_question id (some name) = some (query_header id ++ (name ++ question_tail))

unfoldable pub dns_build_query : List ℕ → ℕ → ℕ → Option (List ℕ)
dns_build_query host id cap = with_question id (dns_encode_name host (cap - 12))

-- `(l & 0xC0) == 0xC0`
abbrev is_pointer : ℕ → Bool
is_pointer l = (l / 2 ^ 6) % 4 == 3

-- The walk over the question, from `pos` to what follows it.
unfoldable pub skip_question : ℕ → (ℕ → ℕ) → ℕ → ℕ → ℕ
skip_question zero resp len pos = pos
skip_question (suc fuel) resp len pos =
    let later = skip_question fuel resp len (pos + (1 + resp pos)) in
    if not (ltb pos len) || resp pos == 0
    then pos + 5
    else if is_pointer (resp pos)
    then pos + 2
    else later

-- The walk over the name of an answer.
unfoldable pub skip_name : ℕ → (ℕ → ℕ) → ℕ → ℕ → ℕ
skip_name zero resp len pos = pos
skip_name (suc fuel) resp len pos =
    let later = skip_name fuel resp len (pos + (1 + resp pos)) in
    if not (ltb pos len)
    then pos
    else if is_pointer (resp pos)
    then pos + 2
    else if resp pos == 0
    then pos + 1
    else later

abbrev pub word_at : (ℕ → ℕ) → ℕ → ℕ
word_at resp pos = be16 (resp pos) (resp (pos + 1))

-- The four bytes of an address.
abbrev pub four_at : (ℕ → ℕ) → ℕ → List ℕ
four_at resp pos = resp pos ∷ resp (pos + 1) ∷ resp (pos + 2) ∷ resp (pos + 3) ∷ []

-- One answer, whose name ends at `p`; `later` is the rest of the loop from behind it.
abbrev pub read_answer : (ℕ → ℕ) → ℕ → ℕ → (ℕ → Option (List ℕ)) → Option (List ℕ)
read_answer resp len p later =
    let rdlen = word_at resp (p + 8) in
    let found = word_at resp p == 1 && (rdlen == 4 && leb (p + 12) len) in
    if ltb len (p + 10)
    then none
    else if found
    then some (four_at resp (p + 10))
    else later (p + (10 + rdlen))

-- The loop over the answers, with the rounds left.
unfoldable pub read_answers : ℕ → (ℕ → ℕ) → ℕ → ℕ → Option (List ℕ)
read_answers zero resp len pos = none
read_answers (suc rounds) resp len pos =
    let answer =
      read_answer resp len (skip_name (suc len) resp len pos) (read_answers rounds resp len) in
    if ltb len (pos + 12) then none else answer

unfoldable pub dns_parse_response_a : (ℕ → ℕ) → ℕ → Option (List ℕ)
dns_parse_response_a resp len =
    if ltb len 12
    then none
    else if not (has_bit 7 (resp 2)) || not (resp 3 % 2 ^ 4 == 0)
    then none
    else if word_at resp 6 == 0
    then none
    else read_answers (word_at resp 6) resp len (skip_question (suc len) resp len 12)

-- `nifmGetCurrentIpConfigInfo` with its two servers, and what the socket of the query gives.
pub record Resolver : Type 0 where
  pub ip_config : Option (ℕ × ℕ)
  pub opens : Bool
  -- Whether `sendto` takes a query for a server.
  pub sends : ℕ → List ℕ → Bool
  -- What `recvfrom` brings back: the buffer and its length.
  pub receives : ℕ → List ℕ → Option ((ℕ → ℕ) × ℕ)

abbrev fallback_server : ℕ
fallback_server = 0x08080808

unfoldable pub get_dns_server : Option (ℕ × ℕ) → ℕ
get_dns_server none = fallback_server
get_dns_server (some (dns₁, dns₂)) =
    if not (dns₁ == 0) then dns₁ else if not (dns₂ == 0) then dns₂ else fallback_server

abbrev pub query_cap : ℕ
query_cap = 512

-- `(host[0] << 8 | host[1]) ^ 0x5A5A`
abbrev pub query_id : List ℕ → ℕ
query_id host = u16 (bit_xor (be16 (get_or host 0 0) (get_or host 1 0)) 0x5a5a)

abbrev parse_received : Option ((ℕ → ℕ) × ℕ) → Option (List ℕ)
parse_received none = none
parse_received (some (resp, len)) = dns_parse_response_a resp len

abbrev ask : Resolver → ℕ → List ℕ → Option (List ℕ)
ask r server query =
    if not r.opens
    then none
    else if not (r.sends server query)
    then none
    else parse_received (r.receives server query)

abbrev pub ask_with : Resolver → Option (List ℕ) → Option (List ℕ)
ask_with r none = none
ask_with r (some query) = ask r (get_dns_server r.ip_config) query

unfoldable pub resolve_hostname : Resolver → List ℕ → Option (List ℕ)
resolve_hostname r host = ask_with r (dns_build_query host (query_id host) query_cap)

-- The four bytes of an address as one number.
abbrev address_of : List ℕ → Option ℕ
address_of (a ∷ b ∷ c ∷ d ∷ []) = some (be32 a b c d)
address_of _ = none

-- `Connect` asks a name server for a host that `inet_pton` does not read.
abbrev pub resolved_address : Resolver → List ℕ → Option ℕ → Option ℕ
resolved_address r host (some numeric) = some numeric
resolved_address r host none = resolve_hostname r host >>= address_of

abbrev network_with : (opens creates_pump : Bool) → (List ℕ → Option ℕ) → Resolver → Network
network_with opens creates_pump inet_pton r = record {
  socket_opens = opens;
  creates_pump = creates_pump;
  resolve = λ host. resolved_address r host (inet_pton host);
}
