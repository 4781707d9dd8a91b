-- ===== src/Config/Servers/Valid.antt =====
-- What every entry of a parsed server list satisfies, whatever the text.
use switch_lan_play_nx.Prelude.{
  ℕ, zero, suc, ◌-◌, ◌≤◌, ◌<◌, ◌≡◌, Bool, true, Option, none, some, List, [], ◌∷◌, arith, ◌==◌,
  if_elim, split_first, All, length, take, take_all,
}
use switch_lan_play_nx.Config.Scan.{up_to, scan_word, strtol}
use switch_lan_play_nx.Config.Scan.Words.{IfSome, IfSome-bind, IsWord, no_space, scan_word-IfSome}
use switch_lan_play_nx.Config.Servers.{
  SlpNxServer, name_max, host_max, max_servers, trim, split_last, scan_port, scan_host, scan_line,
  in_range, server_of, server_of_words, parse_line, line_cap, split_cons, host_and_port,
  keep_server, after_line, with_line, parse_lines, servers_parse,
}

-- A name of 1 to 31 bytes, a host of at most 127, neither with a space, and a port.
abbrev pub IsServer : SlpNxServer → Type 0
IsServer s =
    IsWord (name_max - 1) s.name
    × (length s.host < host_max)
    × All no_space s.host
    × (0 < s.port)
    × (s.port < 65536)

abbrev pub AreServers : List SlpNxServer → Type 0
AreServers [] = Unit {0}
AreServers (s ∷ servers) = IsServer s × AreServers servers

abbrev AreWords : List ℕ × List ℕ × Option (List ℕ) → Type 0
AreWords words = IsWord (name_max - 1) words.0 × IsWord (host_max - 1) words.1

scan_line-AreWords : (line : List ℕ) → IfSome AreWords (scan_line line)
scan_line-AreWords line =
    IfSome-bind (λ (r : List ℕ × List ℕ). IsWord (name_max - 1) r.0) AreWords
      (scan_word (name_max - 1) line) scan_host (scan_word-IfSome (name_max - 1) line)
      (λ found named.
        IfSome-bind (λ (r : List ℕ × List ℕ). IsWord (host_max - 1) r.0) AreWords
          (scan_word (host_max - 1) found.1) (scan_port found.0)
          (scan_word-IfSome (host_max - 1) found.1) (λ r hosted. (named, hosted)))

abbrev IsPrefixWord : ℕ → List ℕ × List ℕ → Type 0
IsPrefixWord n (before, after) = (length before ≤ n) × All no_space before

module _ (b c : ℕ) (s : List ℕ) where
  split_cons-IsPrefixWord :
      (o : Option (List ℕ × List ℕ))
      → no_space c ≡ true
      → IfSome (IsPrefixWord (length s)) o
      → IfSome (IsPrefixWord (length (c ∷ s))) (split_cons b c s o)
  split_cons-IsPrefixWord none h k =
      if_elim (IfSome (IsPrefixWord (length (c ∷ s)))) (c == b) (some ([], s)) none
        (λ _. (omega arith, tt)) (λ _. tt)
  split_cons-IsPrefixWord (some (before, after)) h (short, spaceless) =
      (omega arith, (h, spaceless))

split_last-IsPrefixWord :
    (b : ℕ) (s : List ℕ) → All no_space s → IfSome (IsPrefixWord (length s)) (split_last b s)
split_last-IsPrefixWord b [] h = tt
split_last-IsPrefixWord b (c ∷ s) h =
    split_cons-IsPrefixWord b c s (split_last b s) h.0 (split_last-IsPrefixWord b s h.1)

server_of-IsServer :
    (name host : List ℕ) (port : Bool × ℕ)
    → IsWord (name_max - 1) name
    → length host < host_max
    → All no_space host
    → IfSome IsServer (server_of name host port)
server_of-IsServer name host port named short spaceless =
    if_elim (IfSome IsServer) (in_range port) _ none
      (λ h.
        rw (take_all (name_max - 1) name named.1, take_all (host_max - 1) host (omega arith))
          (named, short, spaceless, ground arith, ground arith))
      (λ h. tt)

host_and_port-IsServer :
    (name host : List ℕ) (o : Option (List ℕ × List ℕ))
    → IsWord (name_max - 1) name
    → IsWord (host_max - 1) host
    → IfSome (IsPrefixWord (length host)) o
    → IfSome IsServer (server_of name (host_and_port host o).0 (host_and_port host o).1)
host_and_port-IsServer name host none named hosted h =
    server_of-IsServer name host (host_and_port host none).1 named (omega (arith, hosted.1))
      hosted.2
host_and_port-IsServer name host (some (before, after)) named hosted (short, spaceless) =
    server_of-IsServer name before (strtol after) named (omega (arith, hosted.1)) spaceless

server_of_words-IsServer :
    (words : List ℕ × List ℕ × Option (List ℕ))
    → AreWords words
    → IfSome IsServer (server_of_words words)
server_of_words-IsServer (name, host, some portstr) (named, hosted) =
    server_of-IsServer name host (strtol portstr) named (omega (arith, hosted.1)) hosted.2
server_of_words-IsServer (name, host, none) (named, hosted) =
    host_and_port-IsServer name host (split_last b':' host) named hosted
      (split_last-IsPrefixWord b':' host hosted.2)

parse_line-IsServer : (raw : List ℕ) → IfSome IsServer (parse_line raw)
unfolding parse_line
parse_line-IsServer raw =
    IfSome-bind AreWords IsServer (scan_line (trim (up_to b'#' (up_to 0 raw)))) server_of_words
      (scan_line-AreWords (trim (up_to b'#' (up_to 0 raw)))) server_of_words-IsServer

-- At most `room` servers, all of them valid.
abbrev Fit : ℕ → List SlpNxServer → Type 0
Fit room servers = (length servers ≤ room) × AreServers servers

after_line-Fit :
    (again : List ℕ → List SlpNxServer) (room : ℕ) (rest : Option (List ℕ))
    → ((text : List ℕ) → Fit room (again text))
    → Fit room (after_line again rest)
after_line-Fit again room none h = (omega arith, tt)
after_line-Fit again room (some text) h = h text

keep_server-Fit :
    (again : ℕ → List ℕ → List SlpNxServer) (room : ℕ) (rest : Option (List ℕ))
    (o : Option SlpNxServer)
    → 0 < room
    → ((left : ℕ) (text : List ℕ) → Fit left (again left text))
    → IfSome IsServer o
    → Fit room (keep_server again room rest o)
keep_server-Fit again room rest none some_room h valid =
    after_line-Fit (again room) room rest (h room)
keep_server-Fit again room rest (some srv) some_room h valid =
    let (few, all) = after_line-Fit (again (room - 1)) (room - 1) rest (h (room - 1)) in
    (omega arith, (valid, all))

parse_lines-Fit : (fuel room : ℕ) (text : List ℕ) → Fit room (parse_lines fuel room text)
unfolding parse_lines
parse_lines-Fit zero room [] = (omega arith, tt)
parse_lines-Fit (suc fuel) room [] = (omega arith, tt)
parse_lines-Fit zero room (c ∷ text) = (omega arith, tt)
parse_lines-Fit (suc fuel) room (c ∷ text) =
    let parts = split_first b'\n' (c ∷ text) in
    if_elim (Fit room) (room == 0) [] (with_line (parse_lines fuel) room parts)
      (λ full. (omega arith, tt))
      (λ free.
        keep_server-Fit (parse_lines fuel) room parts.1 (parse_line (take (line_cap - 1) parts.0))
          (ground arith) (parse_lines-Fit fuel) (parse_line-IsServer (take (line_cap - 1) parts.0)))

-- Whatever the text: at most ten servers, each of them valid.
pub servers_parse-AreServers :
    (text : List ℕ) → (length (servers_parse text) ≤ max_servers) × AreServers (servers_parse text)
servers_parse-AreServers text = parse_lines-Fit (length text) max_servers text
