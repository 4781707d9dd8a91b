-- ===== src/Relay/Dns/Messages.antt =====
-- DNS responses as a name server sends them, and their bytes: what DnsParseResponseA is held to.
use switch_lan_play_nx.Prelude.{
  ℕ, zero, suc, ◌+◌, ◌%◌, ◌^◌, ◌≤◌, ◌<◌, ◌≡◌, refl, ap, ◌∙◌, Bool, ◌&&◌, Option, none, some, List,
  [], ◌∷◌, ◌++◌, arith, ◌==◌, if◌then◌else◌, length, get_or, length-append, has_bit, bytes16,
  bytes32,
}
use switch_lan_play_nx.Relay.Dns.{four_at}
use switch_lan_play_nx.Relay.Dns.Names.{wire}

-- A name: labels, and then the end or a pointer to the rest.
pub record Name : Type 0 where
  pub labels : List (List ℕ)
  pub pointer : Option (ℕ × ℕ)

pub record ResourceRecord : Type 0 where
  pub name : Name
  pub kind : ℕ
  pub class : ℕ
  pub ttl : ℕ
  pub rdata : List ℕ

-- `flags_hi` has the bit of a response, `flags_lo` the response code; `rest` are further sections.
pub record Message : Type 0 where
  pub id : ℕ
  pub flags_hi : ℕ
  pub flags_lo : ℕ
  pub question : List (List ℕ)
  pub answers : List ResourceRecord
  pub counts : ℕ
  pub rest : List ℕ

abbrev pub pointer_bytes : Option (ℕ × ℕ) → List ℕ
pointer_bytes none = 0 ∷ []
pointer_bytes (some (hi, lo)) = hi ∷ lo ∷ []

abbrev pub name_bytes : List (List ℕ) → Option (ℕ × ℕ) → List ℕ
name_bytes ls pointer = wire ls ++ pointer_bytes pointer

-- The bytes of a record behind its name.
abbrev pub body_bytes : ResourceRecord → List ℕ
body_bytes r =
    bytes16 r.kind ++ (bytes16 r.class ++ (bytes32 r.ttl ++ (bytes16 (length r.rdata) ++ r.rdata)))

abbrev pub record_bytes : ResourceRecord → List ℕ
record_bytes r = name_bytes r.name.labels r.name.pointer ++ body_bytes r

abbrev pub records_bytes : List ResourceRecord → List ℕ
records_bytes [] = []
records_bytes (r ∷ rs) = record_bytes r ++ records_bytes rs

abbrev pub header_bytes : Message → List ℕ
header_bytes m =
    bytes16 m.id
    ++ m.flags_hi ∷ m.flags_lo ∷ 0 ∷ 1 ∷ (bytes16 (length m.answers) ++ bytes32 m.counts)

-- The name of the question, with its end, type A and class IN.
abbrev pub question_bytes : List (List ℕ) → List ℕ
question_bytes ls = wire ls ++ 0 ∷ 0 ∷ 1 ∷ 0 ∷ 1 ∷ []

abbrev pub message_bytes : Message → List ℕ
message_bytes m =
    header_bytes m ++ (question_bytes m.question ++ (records_bytes m.answers ++ m.rest))

-- Labels of 1 to 63 bytes.
abbrev pub AreLabels : List (List ℕ) → Type 0
AreLabels [] = Unit {0}
AreLabels (l ∷ ls) = (0 < length l) × (length l ≤ 63) × AreLabels ls

abbrev pub IsPointer : Option (ℕ × ℕ) → Type 0
IsPointer none = Unit {0}
IsPointer (some (hi, lo)) = (192 ≤ hi) × (hi < 256)

abbrev pub IsRecord : ResourceRecord → Type 0
IsRecord r =
    AreLabels r.name.labels
    × IsPointer r.name.pointer
    × (r.kind < 2 ^ 16)
    × (length r.rdata < 2 ^ 16)

abbrev pub AreRecords : List ResourceRecord → Type 0
AreRecords [] = Unit {0}
AreRecords (r ∷ rs) = IsRecord r × AreRecords rs

abbrev pub IsMessage : Message → Type 0
IsMessage m = AreLabels m.question × AreRecords m.answers × (length m.answers < 2 ^ 16)

abbrev pub is_address : ResourceRecord → Bool
is_address r = r.kind == 1 && length r.rdata == 4

-- The data of the first record of type A with four bytes.
abbrev pub first_address : List ResourceRecord → Option (List ℕ)
first_address [] = none
first_address (r ∷ rs) = if is_address r then some r.rdata else first_address rs

-- A response with code 0.
abbrev pub is_reply : Message → Bool
is_reply m = has_bit 7 m.flags_hi && m.flags_lo % 2 ^ 4 == 0

-- Memory holds these bytes from `pos` on.
abbrev pub Holds : (ℕ → ℕ) → ℕ → List ℕ → Type 0
Holds resp pos bytes = (i : ℕ) → i < length bytes → resp (pos + i) ≡ get_or bytes i 0

get_or-append_left :
    (xs ys : List ℕ) (i : ℕ) → i < length xs → get_or (xs ++ ys) i 0 ≡ get_or xs i 0
get_or-append_left [] ys i h = absurd (omega arith)
get_or-append_left (x ∷ xs) ys zero h = refl
get_or-append_left (x ∷ xs) ys (suc i) h = get_or-append_left xs ys i (omega arith)

get_or-append_right :
    (xs ys : List ℕ) (i k : ℕ) → k ≡ length xs + i → get_or (xs ++ ys) k 0 ≡ get_or ys i 0
get_or-append_right [] ys i k h = ap (λ j. get_or ys j 0) (omega arith)
get_or-append_right (x ∷ xs) ys i zero h = absurd (omega arith)
get_or-append_right (x ∷ xs) ys i (suc k) h = get_or-append_right xs ys i k (omega arith)

module _ (resp : ℕ → ℕ) (pos : ℕ) (xs ys : List ℕ) (held : Holds resp pos (xs ++ ys)) where
  pub Holds-left : Holds resp pos xs
  Holds-left i h = held i (omega (arith, length-append xs ys)) ∙ get_or-append_left xs ys i h

  pub Holds-right : Holds resp (pos + length xs) ys
  Holds-right i h =
      ap resp {x = pos + length xs + i} {y = pos + (length xs + i)} (omega arith)
      ∙ held (length xs + i) (omega (arith, length-append xs ys))
      ∙ get_or-append_right xs ys i (length xs + i) refl

pub Holds-first : (resp : ℕ → ℕ) (pos b : ℕ) (bs : List ℕ) → Holds resp pos (b ∷ bs) → resp pos ≡ b
Holds-first resp pos b bs held =
    ap resp {x = pos} {y = pos + 0} (omega arith) ∙ held 0 (omega arith)

-- Four bytes are what is read of them.
pub four_at-Holds :
    (resp : ℕ → ℕ) (pos : ℕ) (bytes : List ℕ)
    → length bytes ≡ 4
    → Holds resp pos bytes
    → four_at resp pos ≡ bytes
four_at-Holds resp pos (a ∷ b ∷ c ∷ d ∷ []) e held = cc (
  Holds-first resp pos a (b ∷ c ∷ d ∷ []) held,
  held 1 (omega arith),
  held 2 (omega arith),
  held 3 (omega arith),
)
four_at-Holds resp pos [] e held = absurd (omega arith)
four_at-Holds resp pos (a ∷ []) e held = absurd (omega arith)
four_at-Holds resp pos (a ∷ b ∷ []) e held = absurd (omega arith)
four_at-Holds resp pos (a ∷ b ∷ c ∷ []) e held = absurd (omega arith)
four_at-Holds resp pos (a ∷ b ∷ c ∷ d ∷ f ∷ bs) e held = absurd (omega arith)
