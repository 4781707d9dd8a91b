-- ===== src/Config/Servers/RoundTrip.antt =====
-- The server list is read back from its text.
use switch_lan_play_nx.Prelude.{
  ℕ, zero, suc, ◌-◌, ◌≤◌, ◌<◌, ◌≡◌, refl, sym, ap, subst, ◌∙◌, Bool, true, false, ◌&&◌, not, Option,
  none, some, List, [], ◌∷◌, ◌++◌, append-nil, append_assoc, arith, ◌==◌, ◌>>=◌, if_true, if_false,
  split_first, All, All-append, All-mono, Lacks, split_first-last, split_first-append, length,
  length-append, take_all,
}
use switch_lan_play_nx.Config.Scan.{is_digit, up_to, scan_word, decimal}
use switch_lan_play_nx.Config.Scan.Words.{IsWord, no_space, scan_word-append}
use switch_lan_play_nx.Config.Scan.Numbers.{decimal-IsWord, strtol-decimal}
use switch_lan_play_nx.Config.Servers.{
  SlpNxServer, name_max, host_max, max_servers, trimmed_cons, trim, scan_port, portstr_of,
  scan_host, scan_line, server_of, server_of_words, parse_line, line_cap, with_line, keep_server,
  parse_lines, servers_parse,
}

-- A byte that neither ends a word or a line nor starts a comment.
abbrev is_plain : ℕ → Bool
is_plain c = no_space c && (not (c == b'#') && not (c == 0))

abbrev IsPrintable : SlpNxServer → Type 0
IsPrintable s =
    (0 < length s.name)
    × (length s.name < name_max)
    × All is_plain s.name
    × (0 < length s.host)
    × (length s.host < host_max)
    × All is_plain s.host
    × (0 < s.port)
    × (s.port < 65536)

abbrev ArePrintable : List SlpNxServer → Type 0
ArePrintable [] = Unit {0}
ArePrintable (s ∷ servers) = IsPrintable s × ArePrintable servers

abbrev print_server : SlpNxServer → List ℕ
print_server s = s.name ++ b' ' ∷ (s.host ++ b' ' ∷ decimal s.port)

-- A line for each server.
abbrev pub print_servers : List SlpNxServer → List ℕ
print_servers [] = []
print_servers (s ∷ servers) = print_server s ++ b'\n' ∷ print_servers servers

-- What a line holds beside its end and a comment.
abbrev is_clean : ℕ → Bool
is_clean c = not (c == b'\n') && (not (c == b'#') && not (c == 0))

plain-clean : (c : ℕ) → is_plain c ≡ true → is_clean c ≡ true
plain-clean c h = ground arith

plain-no_space : (c : ℕ) → is_plain c ≡ true → no_space c ≡ true
plain-no_space c h = ground arith

digit-clean : (c : ℕ) → is_digit c ≡ true → is_clean c ≡ true
digit-clean c h = ground arith

clean-Lacks :
    (b : ℕ)
    → ((c : ℕ) → is_clean c ≡ true → (c == b) ≡ false)
    → (s : List ℕ) → All is_clean s
    → Lacks b s
clean-Lacks b f [] h = tt
clean-Lacks b f (c ∷ s) h = (f c h.0, clean-Lacks b f s h.1)

up_to-Lacks : (b : ℕ) (s : List ℕ) → Lacks b s → up_to b s ≡ s
up_to-Lacks b s h = ap (λ (r : List ℕ × Option (List ℕ)). r.0) (split_first-last b s h)

trimmed_cons-nonempty : (c : ℕ) (s : List ℕ) → 0 < length s → trimmed_cons c s ≡ c ∷ s
trimmed_cons-nonempty c [] h = absurd (omega arith)
trimmed_cons-nonempty c (d ∷ s) h = refl

trim-word : (s : List ℕ) → All no_space s → trim s ≡ s
trim-word [] h = refl
trim-word (c ∷ []) h = ground arith
trim-word (c ∷ d ∷ s) h = ap (trimmed_cons c) (trim-word (d ∷ s) h.1)

-- Only the end of a line is trimmed.
trim-append : (s word : List ℕ) → 0 < length word → All no_space word → trim (s ++ word) ≡ s ++ word
trim-append [] word h k = trim-word word k
trim-append (c ∷ s) word h k =
    ap (trimmed_cons c) (trim-append s word h k)
    ∙ trimmed_cons-nonempty c (s ++ word) (omega (arith, length-append s word))

module _ (s : SlpNxServer) (printable : IsPrintable s) where
  port_IsWord : IsWord 5 (decimal s.port) × All is_digit (decimal s.port)
  port_IsWord = decimal-IsWord s.port (omega (arith, printable.7))

  pub print_server-clean : All is_clean (print_server s)
  print_server-clean =
      All-append is_clean s.name _ (All-mono is_plain is_clean plain-clean s.name printable.2) (
        refl,
        All-append is_clean s.host _ (All-mono is_plain is_clean plain-clean s.host printable.5)
            (refl, All-mono is_digit is_clean digit-clean (decimal s.port) port_IsWord.1),
      )

  pub length-print_server : length (print_server s) < line_cap
  length-print_server = omega (
    arith,
    printable.1,
    printable.4,
    port_IsWord.0.1,
    length-append s.name (b' ' ∷ (s.host ++ b' ' ∷ decimal s.port)),
    length-append s.host (b' ' ∷ decimal s.port),
  )

  trimmed : trim (print_server s) ≡ print_server s
  trimmed =
      let shape : print_server s ≡ (s.name ++ b' ' ∷ (s.host ++ b' ' ∷ [])) ++ decimal s.port =
        sym (
          append_assoc s.name (b' ' ∷ (s.host ++ b' ' ∷ [])) (decimal s.port)
          ∙ ap (λ t. s.name ++ b' ' ∷ t) (append_assoc s.host (b' ' ∷ []) (decimal s.port))) in
      subst (λ t. trim t ≡ t) (sym shape)
        (trim-append (s.name ++ b' ' ∷ (s.host ++ b' ' ∷ [])) (decimal s.port) port_IsWord.0.0
          port_IsWord.0.2)

  scanned : scan_line (print_server s) ≡ some (s.name, s.host, some (decimal s.port))
  scanned =
      let named =
        scan_word-append (name_max - 1) s.name (b' ' ∷ (s.host ++ b' ' ∷ decimal s.port))
          (
            printable.0,
            omega (arith, printable.1),
            All-mono is_plain no_space plain-no_space s.name printable.2,
          )
          refl in
      let hosted =
        scan_word-append (host_max - 1) s.host (b' ' ∷ decimal s.port)
          (
            printable.3,
            omega (arith, printable.4),
            All-mono is_plain no_space plain-no_space s.host printable.5,
          )
          refl in
      let word = port_IsWord.0 in
      let whole = append-nil (decimal s.port) in
      let ported =
        ap (scan_word 7) (sym whole)
        ∙ scan_word-append 7 (decimal s.port) [] (word.0, omega (arith, word.1), word.2) refl in
      ap (λ o. o >>= scan_host) named
      ∙ ap (λ o. o >>= scan_port s.name) hosted
      ∙ ap (λ o. some (s.name, s.host, portstr_of o)) ported

  read_back : server_of_words (s.name, s.host, some (decimal s.port)) ≡ some s
  read_back =
      ap (server_of s.name s.host) (strtol-decimal s.port (omega (arith, printable.7)))
      ∙ rw
          (
            take_all (name_max - 1) s.name (omega (arith, printable.1)),
            take_all (host_max - 1) s.host (omega (arith, printable.4)),
          )
          (if_true _ _ none (ground (arith, printable.6, printable.7)))

  pub parse_line-print_server : parse_line (print_server s) ≡ some s
  unfolding parse_line
  parse_line-print_server =
      let lacks_zero = clean-Lacks 0 (λ c h. ground arith) (print_server s) print_server-clean in
      let lacks_hash = clean-Lacks b'#' (λ c h. ground arith) (print_server s) print_server-clean in
      let line =
        ap (λ t. trim (up_to b'#' t)) (up_to-Lacks 0 (print_server s) lacks_zero)
        ∙ ap trim (up_to-Lacks b'#' (print_server s) lacks_hash)
        ∙ trimmed in
      ap (λ t. scan_line t >>= server_of_words) line
      ∙ ap (λ o. o >>= server_of_words) scanned
      ∙ read_back

parse_lines_step :
    (fuel room : ℕ) (text : List ℕ)
    → 0 < length text
    → 0 < room
    → parse_lines (suc fuel) room text ≡ with_line (parse_lines fuel) room (split_first b'\n' text)
unfolding parse_lines
parse_lines_step fuel room [] h k = absurd (omega arith)
parse_lines_step fuel room (c ∷ text) h k =
    if_false (room == 0) [] (with_line (parse_lines fuel) room (split_first b'\n' (c ∷ text)))
      (ground arith)

parse_lines-print_servers :
    (fuel room : ℕ) (servers : List SlpNxServer)
    → ArePrintable servers
    → length servers ≤ room
    → length (print_servers servers) ≤ fuel
    → parse_lines fuel room (print_servers servers) ≡ servers
unfolding parse_lines
parse_lines-print_servers zero room [] h few enough = refl
parse_lines-print_servers (suc fuel) room [] h few enough = refl
parse_lines-print_servers zero room (s ∷ servers) h few enough =
    absurd (omega (arith, length-append (print_server s) (b'\n' ∷ print_servers servers)))
parse_lines-print_servers (suc fuel) room (s ∷ servers) (printable, h) few enough =
    let text = print_servers servers in
    let total = length-append (print_server s) (b'\n' ∷ text) in
    let ended =
      clean-Lacks b'\n' (λ c k. ground arith) (print_server s) (print_server-clean s printable) in
    let whole =
      take_all (line_cap - 1) (print_server s) (omega (arith, length-print_server s printable)) in
    let server = ap parse_line whole ∙ parse_line-print_server s printable in
    parse_lines_step fuel room (print_server s ++ b'\n' ∷ text) (omega arith) (omega arith)
    ∙ ap (with_line (parse_lines fuel) room) (split_first-append b'\n' (print_server s) text ended)
    ∙ ap (keep_server (parse_lines fuel) room (some text)) server
    ∙ ap (◌∷◌ s) (parse_lines-print_servers fuel (room - 1) servers h (omega arith) (omega arith))

-- At most ten servers, with names of 1 to 31 bytes, hosts of 1 to 127, of no spaces, `#` and NUL,
-- and ports from 1 to 65535, are written a line each, name, host and port with a space between
-- them: slpnxServersParse reads exactly these servers back, in their order.
pub servers_parse-print_servers :
    (servers : List SlpNxServer)
    → ArePrintable servers
    → length servers ≤ max_servers
    → servers_parse (print_servers servers) ≡ servers
servers_parse-print_servers servers h few =
    parse_lines-print_servers (length (print_servers servers)) max_servers servers h few
      (omega arith)
