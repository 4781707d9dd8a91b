-- ===== src/Relay/Dns/Names.antt =====
-- What `DnsEncodeName` makes of a host: the labels that its text spells, each behind its length.
use switch_lan_play_nx.Prelude.{
  ℕ, zero, suc, ◌+◌, ◌≤◌, ◌<◌, ◌≡◌, refl, sym, ap, subst, ◌∙◌, inl, inr, false, Option, none, some,
  List, [], ◌∷◌, ◌++◌, append_assoc, arith, leb, if◌then◌else◌, Bool-cases, if_true, if_false,
  split_first, Lacks, split_first-last, split_first-append, Rejoins, split_first-Rejoins, length,
  length-append,
}
use switch_lan_play_nx.Relay.Dns.{
  end_name, refuses_label, after_label, encode_labels, dns_encode_name,
}

abbrev IsLabel : List ℕ → Type 0
IsLabel l = (0 < length l) × (length l ≤ 63) × Lacks b'.' l

-- A text and its labels; a dot may stand at the end.
pub data Spells : List ℕ → List (List ℕ) → Type 0 where
  nothing : Spells [] []
  last : {l : List ℕ} → IsLabel l → Spells l (l ∷ [])
  dot :
      {text l later : List ℕ} {ls : List (List ℕ)}
      → IsLabel l
      → text ≡ l ++ b'.' ∷ later
      → Spells later ls
      → Spells text (l ∷ ls)

-- The labels of a name as a message carries them.
abbrev pub wire : List (List ℕ) → List ℕ
wire [] = []
wire (l ∷ ls) = length l ∷ (l ++ wire ls)

encode_step :
    (fuel cap : ℕ) (s out l : List ℕ) (rest : Option (List ℕ))
    → 0 < length s
    → split_first b'.' s ≡ (l, rest)
    → encode_labels (suc fuel) cap s out ≡ after_label (encode_labels fuel cap) cap out (l, rest)
unfolding encode_labels
encode_step fuel cap [] out l rest h e = absurd (omega arith)
encode_step fuel cap (c ∷ s) out l rest h e = ap (after_label (encode_labels fuel cap) cap out) e

encode_labels-nil : (fuel cap : ℕ) (out : List ℕ) → encode_labels fuel cap [] out ≡ end_name cap out
unfolding encode_labels
encode_labels-nil zero cap out = refl
encode_labels-nil (suc fuel) cap out = refl

-- What the loop gives for a text of these labels behind `out`.
abbrev encoded : ℕ → List ℕ → List (List ℕ) → Option (List ℕ)
encoded cap out ls =
    if leb (length out + (length (wire ls) + 2)) cap
    then some (out ++ (wire ls ++ 0 ∷ []))
    else none

end_name-encoded : (cap : ℕ) (out : List ℕ) → end_name cap out ≡ encoded cap out []
end_name-encoded cap out = ground arith

encoded-label :
    (cap : ℕ) (out l : List ℕ) (ls : List (List ℕ))
    → IsLabel l
    → (if refuses_label cap (length out) (length l)
        then none
        else encoded cap (out ++ length l ∷ l) ls)
      ≡ encoded cap out (l ∷ ls)
encoded-label cap out l ls w = ground (
  arith,
  length-append out (length l ∷ l),
  length-append l (wire ls),
  append_assoc out (length l ∷ l) (wire ls ++ 0 ∷ []),
  append_assoc l (wire ls) (0 ∷ []),
)

encode_labels-Spells :
    (fuel cap : ℕ) {s : List ℕ} {ls : List (List ℕ)} (out : List ℕ)
    → Spells s ls
    → length s ≤ fuel
    → encode_labels fuel cap s out ≡ encoded cap out ls
encode_labels-Spells fuel cap out nothing h =
    encode_labels-nil fuel cap out ∙ end_name-encoded cap out
encode_labels-Spells zero cap out (last w) h = absurd (omega (arith, w.0))
encode_labels-Spells (suc fuel) cap {s} out (last w) h =
    encode_step fuel cap s out s none w.0 (split_first-last b'.' s w.2)
    ∙ ap (λ r. if refuses_label cap (length out) (length s) then none else r)
        (end_name-encoded cap (out ++ length s ∷ s))
    ∙ encoded-label cap out s [] w
encode_labels-Spells zero cap {s} out (dot {l} {later} w e r) h =
    absurd (omega (arith, w.0, ap length e, length-append l (b'.' ∷ later)))
encode_labels-Spells (suc fuel) cap {s} out (dot {l} {later} {ls} w e r) h =
    let longer = ap length e ∙ length-append l (b'.' ∷ later) in
    encode_step fuel cap s out l (some later) (omega arith)
      (ap (split_first b'.') e ∙ split_first-append b'.' l later w.2)
    ∙ ap (λ r. if refuses_label cap (length out) (length l) then none else r)
        (encode_labels-Spells fuel cap (out ++ length l ∷ l) r (omega (arith, w.0)))
    ∙ encoded-label cap out l ls w

accepted-IsLabel :
    (cap pos : ℕ) (l : List ℕ) → refuses_label cap pos (length l) ≡ false → Lacks b'.' l → IsLabel l
accepted-IsLabel cap pos l h lacks = (ground arith, ground arith, lacks)

-- A round that gives a name has a label, and the rest of the loop gave the name.
after_label-some :
    (fuel cap : ℕ) (s out r : List ℕ) (parts : List ℕ × Option (List ℕ))
    → Rejoins b'.' s parts
    → after_label (encode_labels fuel cap) cap out parts ≡ some r
    → ((later out' : List ℕ)
        → encode_labels fuel cap later out' ≡ some r
        → (ls : List (List ℕ)) × Spells later ls)
    → (ls : List (List ℕ)) × Spells s ls
after_label-some fuel cap s out r (l, none) (lacks, e) h again =
    elim (Bool-cases (refuses_label cap (length out) (length l))) [
      | inl refused ↦ absurd (cc (sym (if_true _ none _ refused) ∙ h))
      | inr taken ↦ (
        l ∷ [],
        subst (λ t. Spells t (l ∷ [])) (sym e)
            (last (accepted-IsLabel cap (length out) l taken lacks)),
      )
    ]
after_label-some fuel cap s out r (l, some later) (lacks, e) h again =
    elim (Bool-cases (refuses_label cap (length out) (length l))) [
      | inl refused ↦ absurd (cc (sym (if_true _ none _ refused) ∙ h))
      | inr taken ↦
          let (ls, rest) = again later (out ++ length l ∷ l) (sym (if_false _ _ _ taken) ∙ h) in
          (l ∷ ls, dot (accepted-IsLabel cap (length out) l taken lacks) e rest)
    ]

encode_labels-spelt :
    (fuel cap : ℕ) (s out r : List ℕ)
    → encode_labels fuel cap s out ≡ some r
    → (ls : List (List ℕ)) × Spells s ls
unfolding encode_labels
encode_labels-spelt fuel cap [] out r h = ([], nothing)
encode_labels-spelt zero cap (c ∷ s) out r h = cc
encode_labels-spelt (suc fuel) cap (c ∷ s) out r h =
    after_label-some fuel cap (c ∷ s) out r (split_first b'.' (c ∷ s))
      (split_first-Rejoins b'.' (c ∷ s)) h (λ later out'. encode_labels-spelt fuel cap later out' r)

-- Exactly the texts that spell labels have a name, if it fits with a byte to spare.
pub dns_encode_name-Spells :
    (host : List ℕ) (cap : ℕ) (ls : List (List ℕ))
    → Spells host ls
    → dns_encode_name host cap
      ≡ (if leb (length (wire ls) + 2) cap then some (wire ls ++ 0 ∷ []) else none)
dns_encode_name-Spells host cap ls h =
    encode_labels-Spells (length host) cap [] h (omega arith)
    ∙ ap (λ (n : ℕ). if leb n cap then some (wire ls ++ 0 ∷ []) else none) (omega arith)

pub dns_encode_name-spelt :
    (host : List ℕ) (cap : ℕ) (r : List ℕ)
    → dns_encode_name host cap ≡ some r
    → (ls : List (List ℕ)) × Spells host ls
dns_encode_name-spelt host cap r h = encode_labels-spelt (length host) cap host [] r h

-- Behind each label stands a dot in the text and a length in the name.
pub length-wire : {s : List ℕ} {ls : List (List ℕ)} → Spells s ls → length (wire ls) ≤ length s + 1
length-wire nothing = omega arith
length-wire (last {l} w) = omega (arith, length-append l [])
length-wire (dot {l} {later} {ls} w e r) =
    omega
      (arith, ap length e, length-append l (b'.' ∷ later), length-append l (wire ls), length-wire r)
