-- ===== src/Relay/Dns/Query.antt =====
-- The query of `DnsBuildQuery`: its bytes and its bounds.
use switch_lan_play_nx.Prelude.{
  ℕ, ◌+◌, ◌-◌, ◌≤◌, ◌≡◌, sym, ap, ◌∙◌, inl, inr, none, some, List, [], ◌∷◌, ◌++◌, arith, leb,
  if◌then◌else◌, Option-cases, if_true, length, length-append,
}
use switch_lan_play_nx.Relay.Dns.{
  dns_encode_name, query_header, question_tail, dns_build_query, query_cap, with_question,
}
use switch_lan_play_nx.Relay.Dns.Names.{
  Spells, wire, dns_encode_name-Spells, dns_encode_name-spelt, length-wire,
}

-- The query for a name of these labels.
abbrev pub query_of : ℕ → List (List ℕ) → List ℕ
query_of id ls = query_header id ++ ((wire ls ++ 0 ∷ []) ++ question_tail)

length-query_of : (id : ℕ) (ls : List (List ℕ)) → length (query_of id ls) ≡ length (wire ls) + 17
length-query_of id ls =
    omega (arith, length-append (wire ls ++ 0 ∷ []) question_tail, length-append (wire ls) (0 ∷ []))

build-Spells :
    (host : List ℕ) (id cap : ℕ) (ls : List (List ℕ))
    → Spells host ls
    → dns_build_query host id cap
      ≡ (if leb (length (wire ls) + 2) (cap - 12) then some (query_of id ls) else none)
unfolding dns_build_query
build-Spells host id cap ls h =
    ap (with_question id) (dns_encode_name-Spells host (cap - 12) ls h) ∙ ground arith

build-spelt :
    (host : List ℕ) (id cap : ℕ) {q : List ℕ}
    → dns_build_query host id cap ≡ some q
    → (ls : List (List ℕ)) × Spells host ls
unfolding dns_build_query
build-spelt host id cap h = elim (Option-cases (dns_encode_name host (cap - 12))) [
  | inl none_made ↦ absurd (cc (sym (ap (with_question id) none_made) ∙ h))
  | inr (name, made) ↦ dns_encode_name-spelt host (cap - 12) name made
]

-- What `DnsBuildQuery` promises of a host: a query holds labels that the host spells, keeps to the
-- buffer but for the last three bytes, and is at most 18 bytes longer than the host.
abbrev pub Queries : List ℕ → ℕ → ℕ → List ℕ → Type 0
Queries host id cap q =
    (ls : List (List ℕ)) × Spells host ls
    × (q ≡ query_of id ls)
    × (length q ≤ cap + 3)
    × (length q ≤ length host + 18)

-- Whatever the host, id and buffer: what DnsBuildQuery builds is the query for labels of 1 to 63
-- bytes that the host's text spells, at most 18 bytes longer than the text, and at most 3 bytes
-- longer than the buffer.
pub dns_build_query-Queries :
    (host : List ℕ) (id cap : ℕ) (q : List ℕ)
    → dns_build_query host id cap ≡ some q
    → Queries host id cap q
dns_build_query-Queries host id cap q h =
    let (ls, spells) = build-spelt host id cap h in
    let made = sym (build-Spells host id cap ls spells) ∙ h in
    let total = length-query_of id ls in
    (ls, spells, ground arith, ground arith, ground (arith, length-wire spells))

-- A host of at most 127 bytes fits the buffer of `ResolveHostname`.
pub short-query_of :
    (host : List ℕ) (id : ℕ) (ls : List (List ℕ))
    → Spells host ls
    → length host ≤ 127
    → dns_build_query host id query_cap ≡ some (query_of id ls)
short-query_of host id ls spells short =
    build-Spells host id query_cap ls spells
    ∙ if_true (leb (length (wire ls) + 2) (query_cap - 12)) (some (query_of id ls)) none
        (ground (arith, length-wire spells))
