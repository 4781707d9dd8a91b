-- ===== src/Relay/Dns/Response.antt =====
-- What `DnsParseResponseA` and `ResolveHostname` make of the answer of a name server.
use switch_lan_play_nx.Prelude.{
  ℕ, zero, suc, ◌+◌, ◌/◌, ◌%◌, ◌^◌, ◌≤◌, ◌<◌, ◌≡◌, refl, ap, subst, ◌∙◌, inl, inr, ◌&&◌, Option,
  none, some, List, [], ◌∷◌, ◌++◌, append_assoc, arith, ltb, ◌==◌, if◌then◌else◌, ltb→lt, ==_iff,
  Bool-cases, if_elim, length, length-append, u8, has_bit, bytes16, bytes32,
}
use switch_lan_play_nx.Relay.Dns.{
  skip_question, skip_name, word_at, read_answer, read_answers, dns_parse_response_a,
}
use switch_lan_play_nx.Relay.Dns.Names.{wire}
use switch_lan_play_nx.Relay.Dns.Messages.{
  ResourceRecord, Message, pointer_bytes, name_bytes, body_bytes, record_bytes, records_bytes,
  header_bytes, question_bytes, message_bytes, AreLabels, IsPointer, IsRecord, AreRecords,
  IsMessage, is_address, first_address, is_reply, Holds, Holds-left, Holds-right, Holds-first,
  four_at-Holds,
}

length-name_bytes :
    (ls : List (List ℕ)) (pointer : Option (ℕ × ℕ)) → length ls < length (name_bytes ls pointer)
length-name_bytes [] none = omega arith
length-name_bytes [] (some (hi, lo)) = omega arith
length-name_bytes (l ∷ ls) pointer = omega (
  arith,
  length-name_bytes ls pointer,
  length-append l (wire ls),
  length-append (l ++ wire ls) (pointer_bytes pointer),
  length-append (wire ls) (pointer_bytes pointer),
)

first_address-nil :
    (rs : List ResourceRecord) → length (records_bytes rs) ≡ 0 → first_address rs ≡ none
first_address-nil [] h = refl
first_address-nil (r ∷ rs) h = absurd (
    omega (
      arith,
      length-append (record_bytes r) (records_bytes rs),
      length-append (name_bytes r.name.labels r.name.pointer) (body_bytes r),
    ))

-- Which way a round of either walk goes, by its first byte.
module _ (fuel : ℕ) (resp : ℕ → ℕ) (len pos : ℕ) (inside : pos < len) where
  skip_name-end : resp pos ≡ 0 → skip_name (suc fuel) resp len pos ≡ pos + 1
  unfolding skip_name
  skip_name-end e = ground arith

  skip_name-pointer : 192 ≤ resp pos → resp pos < 256 → skip_name (suc fuel) resp len pos ≡ pos + 2
  unfolding skip_name
  skip_name-pointer h k = ground arith

  skip_name-label :
      0 < resp pos
      → resp pos ≤ 63
      → skip_name (suc fuel) resp len pos ≡ skip_name fuel resp len (pos + (1 + resp pos))
  unfolding skip_name
  skip_name-label h k = ground arith

  skip_question-end : resp pos ≡ 0 → skip_question (suc fuel) resp len pos ≡ pos + 5
  unfolding skip_question
  skip_question-end e = ground arith

  skip_question-label :
      0 < resp pos
      → resp pos ≤ 63
      → skip_question (suc fuel) resp len pos ≡ skip_question fuel resp len (pos + (1 + resp pos))
  unfolding skip_question
  skip_question-label h k = ground arith

module _ (resp : ℕ → ℕ) (len : ℕ) where
  -- What stands behind a label.
  behind :
      (pos : ℕ) (l bs : List ℕ)
      → Holds resp pos (length l ∷ (l ++ bs))
      → Holds resp (pos + (1 + resp pos)) bs
  behind pos l bs held =
      let place : pos + length (length l ∷ l) ≡ pos + (1 + resp pos) =
        omega (arith, Holds-first resp pos (length l) (l ++ bs) held) in
      rw place at (Holds-right resp pos (length l ∷ l) bs held)

  skip_name-Name :
      (fuel pos : ℕ) (ls : List (List ℕ)) (pointer : Option (ℕ × ℕ))
      → AreLabels ls
      → IsPointer pointer
      → length ls < fuel
      → Holds resp pos (name_bytes ls pointer)
      → pos + length (name_bytes ls pointer) ≤ len
      → skip_name fuel resp len pos ≡ pos + length (name_bytes ls pointer)
  skip_name-Name zero pos ls pointer labels target enough held fits = absurd (omega arith)
  skip_name-Name (suc fuel) pos [] none labels target enough held fits =
      skip_name-end fuel resp len pos (omega arith) (Holds-first resp pos 0 [] held)
  skip_name-Name (suc fuel) pos [] (some (hi, lo)) labels target enough held fits =
      let first_byte = Holds-first resp pos hi (lo ∷ []) held in
      skip_name-pointer fuel resp len pos (omega arith) (omega arith) (omega arith)
  skip_name-Name (suc fuel) pos (l ∷ ls) pointer (some_byte, short, labels) target enough held
        fits =
      let bs = name_bytes ls pointer in
      let shape = append_assoc l (wire ls) (pointer_bytes pointer) in
      let held' : Holds resp pos (length l ∷ (l ++ bs)) =
        subst (λ t. Holds resp pos (length l ∷ t)) shape held in
      let first_byte = Holds-first resp pos (length l) (l ++ bs) held' in
      let total = ap length shape ∙ length-append l bs in
      skip_name-label fuel resp len pos (omega arith) (omega arith) (omega arith)
      ∙ skip_name-Name fuel (pos + (1 + resp pos)) ls pointer labels target (omega arith)
          (behind pos l bs held') (omega arith)
      ∙ omega arith

  skip_question-wire :
      (fuel pos : ℕ) (ls : List (List ℕ)) (bs : List ℕ)
      → AreLabels ls
      → length ls < fuel
      → Holds resp pos (wire ls ++ 0 ∷ bs)
      → pos + length (wire ls ++ 0 ∷ bs) ≤ len
      → skip_question fuel resp len pos ≡ pos + length (wire ls) + 5
  skip_question-wire zero pos ls bs labels enough held fits = absurd (omega arith)
  skip_question-wire (suc fuel) pos [] bs labels enough held fits =
      skip_question-end fuel resp len pos (omega arith) (Holds-first resp pos 0 bs held)
      ∙ omega arith
  skip_question-wire (suc fuel) pos (l ∷ ls) bs (some_byte, short, labels) enough held fits =
      let shape = append_assoc l (wire ls) (0 ∷ bs) in
      let held' : Holds resp pos (length l ∷ (l ++ (wire ls ++ 0 ∷ bs))) =
        subst (λ t. Holds resp pos (length l ∷ t)) shape held in
      let first_byte = Holds-first resp pos (length l) (l ++ (wire ls ++ 0 ∷ bs)) held' in
      let total = ap length shape ∙ length-append l (wire ls ++ 0 ∷ bs) in
      skip_question-label fuel resp len pos (omega arith) (omega arith) (omega arith)
      ∙ skip_question-wire fuel (pos + (1 + resp pos)) ls bs labels (omega arith)
          (behind pos l (wire ls ++ 0 ∷ bs) held') (omega arith)
      ∙ omega (arith, length-append l (wire ls))

  -- A 16-bit word of the memory.
  word_at-Holds :
      (pos n : ℕ) (bs : List ℕ)
      → n < 2 ^ 16
      → Holds resp pos (bytes16 n ++ bs)
      → word_at resp pos ≡ n
  word_at-Holds pos n bs h held =
      let hi = Holds-first resp pos (u8 (n / 2 ^ 8)) (u8 n ∷ bs) held in
      let lo = held 1 (omega arith) in omega arith

  read_answer-Record :
      (r : ResourceRecord) (p : ℕ) (later : ℕ → Option (List ℕ))
      → IsRecord r
      → Holds resp p (body_bytes r)
      → p + (10 + length r.rdata) ≤ len
      → read_answer resp len p later
        ≡ (if is_address r then some r.rdata else later (p + (10 + length r.rdata)))
  read_answer-Record r p later (labels, target, kind, short) held fits =
      let shape : List ℕ = bytes16 r.kind ++ (bytes16 r.class ++ bytes32 r.ttl) in
      let is_kind =
        word_at-Holds p r.kind
          (bytes16 r.class ++ (bytes32 r.ttl ++ (bytes16 (length r.rdata) ++ r.rdata))) kind held in
      let sized = Holds-right resp p shape (bytes16 (length r.rdata) ++ r.rdata) held in
      let is_len = word_at-Holds (p + 8) (length r.rdata) r.rdata short sized in
      let data_held = Holds-right resp (p + 8) (bytes16 (length r.rdata)) r.rdata sized in
      let place : p + 8 + 2 ≡ p + 10 = omega arith in
      let data_at : Holds resp (p + 10) r.rdata =
        subst (λ q. Holds resp q r.rdata) place data_held in
      elim (Bool-cases (is_address r)) [
        | inl found ↦
            let four = four_at-Holds resp (p + 10) r.rdata (ground arith) data_at in ground arith
        | inr other ↦ ground arith
      ]

  read_answers-Records :
      (rs : List ResourceRecord) (pos : ℕ)
      → AreRecords rs
      → Holds resp pos (records_bytes rs)
      → pos + length (records_bytes rs) ≤ len
      → read_answers (length rs) resp len pos ≡ first_address rs
  unfolding read_answers
  read_answers-Records [] pos h held fits = refl
  read_answers-Records (r ∷ rs) pos (h, hs) held fits =
      let ls = r.name.labels in
      let pointer = r.name.pointer in
      let p = pos + length (name_bytes ls pointer) in
      let sizes = length-append (record_bytes r) (records_bytes rs) in
      let parts = length-append (name_bytes ls pointer) (body_bytes r) in
      let named = length-name_bytes ls pointer in
      let this = Holds-left resp pos (record_bytes r) (records_bytes rs) held in
      let after = Holds-right resp pos (record_bytes r) (records_bytes rs) held in
      let skipped =
        skip_name-Name (suc len) pos ls pointer h.0 h.1 (omega arith)
          (Holds-left resp pos (name_bytes ls pointer) (body_bytes r) this) (omega arith) in
      let answered =
        read_answer-Record r p (read_answers (length rs) resp len) h
          (Holds-right resp pos (name_bytes ls pointer) (body_bytes r) this) (omega arith) in
      let place : pos + length (record_bytes r) ≡ p + (10 + length r.rdata) = omega arith in
      let rest =
        read_answers-Records rs (p + (10 + length r.rdata)) hs
          (subst (λ q. Holds resp q (records_bytes rs)) place after) (omega arith) in
      if_elim (λ t. t ≡ first_address (r ∷ rs)) (ltb len (pos + 12)) none _
        (λ near.
          let close = ltb→lt len (pos + 12) near in
          ground (arith, first_address-nil rs (omega arith)))
        (λ far.
          ap (λ q. read_answer resp len q (read_answers (length rs) resp len)) skipped
          ∙ answered
          ∙ ap (λ t. if is_address r then some r.rdata else t) rest)

length-wire_labels : (ls : List (List ℕ)) → length ls ≤ length (wire ls)
length-wire_labels [] = omega arith
length-wire_labels (l ∷ ls) = omega (arith, length-wire_labels ls, length-append l (wire ls))

parse-head :
    (resp : ℕ → ℕ) (len n hi lo : ℕ) (found : Option (List ℕ))
    → 12 ≤ len
    → resp 2 ≡ hi
    → resp 3 ≡ lo
    → word_at resp 6 ≡ n
    → (n ≡ 0 → found ≡ none)
    → read_answers n resp len (skip_question (suc len) resp len 12) ≡ found
    → dns_parse_response_a resp len ≡ (if has_bit 7 hi && lo % 2 ^ 4 == 0 then found else none)
unfolding dns_parse_response_a
parse-head resp len n hi lo found long flags code count empty read =
    rw (count, flags, code)
      (elim (Bool-cases (n == 0)) [
        | inl zero_count ↦ let gone = empty ((==_iff n 0).0 zero_count) in ground arith
        | inr counted ↦ ground arith
      ])

first_address-none : (rs : List ResourceRecord) → length rs ≡ 0 → first_address rs ≡ none
first_address-none [] h = refl
first_address-none (r ∷ rs) h = absurd (omega arith)

-- A message of a name server of the usual shape (labels of 1 to 63 bytes, pointers anywhere but in
-- the question, records of any types and sizes, further sections), in memory at its length:
-- DnsParseResponseA gives the data of the first record of type A with four bytes among the answers
-- if it is a response with code 0, and nothing otherwise; whatever else the memory holds.
pub dns_parse_response_a-Message :
    (resp : ℕ → ℕ) (m : Message)
    → IsMessage m
    → Holds resp 0 (message_bytes m)
    → dns_parse_response_a resp (length (message_bytes m))
      ≡ (if is_reply m then first_address m.answers else none)
dns_parse_response_a-Message resp m (labels, records, few) held =
    let tail = records_bytes m.answers ++ m.rest in
    let len = length (message_bytes m) in
    let name_tail : List ℕ = 0 ∷ 1 ∷ 0 ∷ 1 ∷ [] in
    let sections = Holds-right resp 0 (header_bytes m) (question_bytes m.question ++ tail) held in
    let question = Holds-left resp 12 (question_bytes m.question) tail sections in
    let answers = Holds-right resp 12 (question_bytes m.question) tail sections in
    let sizes = length-append (wire m.question) (0 ∷ name_tail) in
    let total = length-append (question_bytes m.question) tail in
    let skipped =
      skip_question-wire resp len (suc len) 12 m.question name_tail labels
        (omega (arith, length-wire_labels m.question)) question (omega arith) in
    let read =
      read_answers-Records resp len m.answers (12 + length (question_bytes m.question)) records
        (Holds-left resp (12 + length (question_bytes m.question)) (records_bytes m.answers) m.rest
          answers)
        (omega (arith, length-append (records_bytes m.answers) m.rest)) in
    let start : skip_question (suc len) resp len 12 ≡ 12 + length (question_bytes m.question) =
      skipped ∙ omega arith in
    parse-head resp len (length m.answers) m.flags_hi m.flags_lo (first_address m.answers)
      (omega arith) (held 2 (omega arith)) (held 3 (omega arith))
      (let high = held 6 (omega arith) in let low = held 7 (omega arith) in omega arith)
      (first_address-none m.answers) (ap (read_answers (length m.answers) resp len) start ∙ read)
