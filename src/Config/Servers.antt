-- ===== src/Config/Servers.antt =====
-- The server list of source/cfg/servers.c.
pub mod Valid
pub mod RoundTrip
use switch_lan_play_nx.Prelude.{
  ℕ, zero, suc, ◌+◌, ◌-◌, ◌*◌, ◌/◌, ◌%◌, ◌^◌, ◌≤◌, ◌<◌, compare, Ordering, bit_or, min, ◌≡◌, refl,
  sym, ap, ap₂, subst, ◌∙◌, ◌≡⟨◌⟩◌, ◌∎, ◌≢◌, ◌⊎◌, inl, inr, ◌↔◌, Bool, true, false, ◌&&◌, ◌||◌, not,
  Option, none, some, List, [], ◌∷◌, ◌++◌, map, append-nil, append_assoc, arith, first,
  update_first, first-passes, update_first-none, first-update_first, first-update_first_ne,
  update_first-agree, first-update_first_new, first-narrow, ltb, leb, ◌==◌, if◌then◌else◌, ltb→lt,
  lt→ltb, le→ltb, leb→le, le→leb, lt→leb, ==_iff, ==_refl, ne→==, Bool-cases, Option-cases, ◌>>=◌,
  if_true, if_false, if_elim, split_first, All, All-append, All-mono, Lacks, split_first-last,
  split_first-append, Rejoins, split_first-Rejoins, length, get_elem?, get_or, set, take, drop,
  replicate, length-append, length-set, length-take, length-drop, take-append-drop, take_all,
  take-append, drop-append, take-add, take-take, get_elem?-set_self, get_elem?-set_ne, get_elem?-lt,
  length-replicate, u8, u16, u32, add32, sub64, has_bit, be16, be32, bytes16, bytes32, be16-bytes,
  be32-bytes,
}
use switch_lan_play_nx.Config.Scan.{up_to, scan_word, strtol}

-- `name` and `host` are the bytes before the NUL.
pub record SlpNxServer : Type 0 where
  pub name : List ℕ
  pub host : List ℕ
  pub port : ℕ

abbrev pub max_servers : ℕ
max_servers = 10

abbrev pub name_max : ℕ
name_max = 32

abbrev pub host_max : ℕ
host_max = 128

abbrev default_port : ℕ
default_port = 11451

-- The bytes that `trim` takes off the end.
abbrev is_trimmed : ℕ → Bool
is_trimmed c = c == b'\n' || (c == b'\r' || (c == b' ' || c == b'\t'))

abbrev pub trimmed_cons : ℕ → List ℕ → List ℕ
trimmed_cons c [] = if is_trimmed c then [] else c ∷ []
trimmed_cons c (d ∷ s) = c ∷ d ∷ s

abbrev pub trim : List ℕ → List ℕ
trim [] = []
trim (c ∷ s) = trimmed_cons c (trim s)

-- `strrchr`: the bytes before the last `b` and those after it, if there is one.
abbrev pub split_cons : ℕ → ℕ → List ℕ → Option (List ℕ × List ℕ) → Option (List ℕ × List ℕ)
split_cons b c s none = if c == b then some ([], s) else none
split_cons b c s (some (before, after)) = some (c ∷ before, after)

abbrev pub split_last : ℕ → List ℕ → Option (List ℕ × List ℕ)
split_last b [] = none
split_last b (c ∷ s) = split_cons b c s (split_last b s)

-- The three words of a line, of which the last may be missing.
abbrev pub portstr_of : Option (List ℕ × List ℕ) → Option (List ℕ)
portstr_of none = none
portstr_of (some (portstr, _)) = some portstr

abbrev pub scan_port : List ℕ → List ℕ × List ℕ → Option (List ℕ × List ℕ × Option (List ℕ))
scan_port name (host, rest) = some (name, host, portstr_of (scan_word 7 rest))

abbrev pub scan_host : List ℕ × List ℕ → Option (List ℕ × List ℕ × Option (List ℕ))
scan_host (name, rest) = scan_word (host_max - 1) rest >>= scan_port name

abbrev pub scan_line : List ℕ → Option (List ℕ × List ℕ × Option (List ℕ))
scan_line line = scan_word (name_max - 1) line >>= scan_host

abbrev pub in_range : Bool × ℕ → Bool
in_range (negated, n) = not (negated || ltb n 1) && not (ltb 65535 n)

-- `port` is the result of `strtol`.
abbrev pub server_of : List ℕ → List ℕ → Bool × ℕ → Option SlpNxServer
server_of name host port =
    if in_range port
    then some
        (record { name = take (name_max - 1) name; host = take (host_max - 1) host; port = port.1 })
    else none

-- The host and port of a line without a third word.
abbrev pub host_and_port : List ℕ → Option (List ℕ × List ℕ) → List ℕ × (Bool × ℕ)
host_and_port host none = (host, (false, default_port))
host_and_port host (some (before, after)) = (before, strtol after)

abbrev host_with_port : List ℕ → List ℕ × (Bool × ℕ)
host_with_port host = host_and_port host (split_last b':' host)

abbrev pub server_of_words : List ℕ × List ℕ × Option (List ℕ) → Option SlpNxServer
server_of_words (name, host, some portstr) = server_of name host (strtol portstr)
server_of_words (name, host, none) =
    let (host', port) = host_with_port host in server_of name host' port

-- `parse_line` on the bytes of a line; `none` stands for 0.
unfoldable pub parse_line : List ℕ → Option SlpNxServer
parse_line raw = scan_line (trim (up_to b'#' (up_to 0 raw))) >>= server_of_words

-- The bytes of a line that fit the buffer.
abbrev pub line_cap : ℕ
line_cap = name_max + host_max + 8

-- The rest of the loop after a line; `again` is the loop on the text that follows it.
abbrev pub after_line : (List ℕ → List SlpNxServer) → Option (List ℕ) → List SlpNxServer
after_line again none = []
after_line again (some text) = again text

-- The list goes on with the server of the line, if it gave one.
abbrev pub keep_server :
    (ℕ → List ℕ → List SlpNxServer) → ℕ → Option (List ℕ) → Option SlpNxServer → List SlpNxServer
keep_server again room rest none = after_line (again room) rest
keep_server again room rest (some srv) = srv ∷ after_line (again (room - 1)) rest

-- One round of the loop with its line; `again` is the loop with the places then left.
abbrev pub with_line :
    (ℕ → List ℕ → List SlpNxServer) → ℕ → List ℕ × Option (List ℕ) → List SlpNxServer
with_line again room (line, rest) =
    keep_server again room rest (parse_line (take (line_cap - 1) line))

-- The loop of `slpnxServersParse`, with `room` places left.
unfoldable pub parse_lines : ℕ → ℕ → List ℕ → List SlpNxServer
parse_lines fuel room [] = []
parse_lines zero room (c ∷ text) = []
parse_lines (suc fuel) room (c ∷ text) =
    let found = with_line (parse_lines fuel) room (split_first b'\n' (c ∷ text)) in
    if room == 0 then [] else found

-- A line takes a byte of the text at least.
abbrev pub servers_parse : List ℕ → List SlpNxServer
servers_parse text = parse_lines (length text) max_servers text

-- `slpnxServersGet`, at the pattern of an `int`.
abbrev pub servers_get : ℕ → List SlpNxServer → Option SlpNxServer
servers_get index servers = if ltb 0x7fffffff index then none else get_elem? servers index

-- `slpnxServersFindByName`; -1 where there is none.
abbrev bytes_match : List ℕ → List ℕ → Bool
bytes_match [] [] = true
bytes_match (a ∷ s) (b ∷ t) = a == b && bytes_match s t
bytes_match _ _ = false

abbrev pub find_by_name : List ℕ → List SlpNxServer → Option ℕ
find_by_name name [] = none
find_by_name name (s ∷ servers) =
    if bytes_match s.name name
    then some 0
    else elim (find_by_name name servers) [ none ↦ none | some i ↦ some (suc i) ]
