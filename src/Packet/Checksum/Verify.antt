-- ===== src/Packet/Checksum/Verify.antt =====
-- What a real IP stack checks on arrival: the one's complement sum over all words is 0xffff
-- (RFC 1071). The checksums of source/bsd/bsd_bridge_service.cpp pass it.
use switch_lan_play_nx.Prelude.{
  ℕ, zero, suc, ◌+◌, ◌-◌, ◌/◌, ◌%◌, ◌^◌, ◌≤◌, ◌<◌, ◌≡◌, refl, ◌∙◌, ap, List, [], ◌∷◌, ltb, ◌==◌,
  ne→==, if◌then◌else◌, be16, bytes16, arith,
}
use native.Mathlib.Decide.{dec_lt}
use switch_lan_play_nx.Packet.Checksum.{
  fold_sum, fold_fuel, complement, ip_sum, ip_checksum, ip_fields, ip_header,
}

-- Addition with the end-around carry.
abbrev ones_add : ℕ → ℕ → ℕ
ones_add a b = if ltb (a + b) (2 ^ 16) then a + b else a + b - (2 ^ 16 - 1)

-- The 16-bit words of a byte string, padded by a zero byte.
abbrev pub words : List ℕ → List ℕ
words [] = []
words (a ∷ []) = be16 a 0 ∷ []
words (a ∷ b ∷ bytes) = be16 a b ∷ words bytes

abbrev pub ones_sum : List ℕ → ℕ → ℕ
ones_sum [] acc = acc
ones_sum (w ∷ ws) acc = ones_sum ws (ones_add acc w)

-- The representative of `x` that the folding reaches.
abbrev pub norm : ℕ → ℕ
norm x = if x == 0 then 0 else (x - 1) % (2 ^ 16 - 1) + 1

fold_done : (f s : ℕ) → s < 2 ^ 16 → fold_sum f s ≡ s
unfolding fold_sum
fold_done zero s h = refl
fold_done (suc f) s h = ground arith

fold_once :
    (f s : ℕ) → s < 2 ^ 32 → 2 ^ 16 ≤ s → fold_sum (suc f) s ≡ fold_sum f (s % 2 ^ 16 + s / 2 ^ 16)
unfolding fold_sum
fold_once f s h k = rw (ne→== (s / 2 ^ 16) 0 (omega arith)) (ap (fold_sum f) (omega arith))

-- A round keeps the representative, and three rounds end below 2 ^ 16.
fold_sum-eq-norm : (s : ℕ) → s < 2 ^ 32 → fold_sum fold_fuel s ≡ norm s
fold_sum-eq-norm s h = elim (dec_lt s (2 ^ 16)) [
  | yes p ↦ fold_done fold_fuel s p ∙ ground arith
  | no p ↦
      fold_once 3 s h (omega arith)
      ∙ second (s % 2 ^ 16 + s / 2 ^ 16) s (omega arith) (ground arith)
]
  where
    third : (x y : ℕ) → x < 2 ^ 16 + 1 → norm x ≡ norm y → fold_sum 2 x ≡ norm y
    third x y k e = elim (dec_lt x (2 ^ 16)) [
      | yes p ↦ fold_done 2 x p ∙ (ground arith)
      | no p ↦
          fold_once 1 x (omega arith) (omega arith) ∙ fold_done 1 _ (omega arith) ∙ (ground arith)
    ]

    second : (x y : ℕ) → x < 2 ^ 17 → norm x ≡ norm y → fold_sum 3 x ≡ norm y
    second x y k e = elim (dec_lt x (2 ^ 16)) [
      | yes p ↦ fold_done 3 x p ∙ ground arith
      | no p ↦ fold_once 2 x (omega arith) (omega arith) ∙ third _ y (omega arith) (ground arith)
    ]

abbrev pub total : List ℕ → ℕ
total [] = 0
total (w ∷ ws) = w + total ws

abbrev pub AllWords : List ℕ → Type 0
AllWords [] = Unit {0}
AllWords (w ∷ ws) = (w < 2 ^ 16) × AllWords ws

ones_sum-eq-norm : (ws : List ℕ) (x : ℕ) → AllWords ws → ones_sum ws (norm x) ≡ norm (x + total ws)
ones_sum-eq-norm [] x h = ap norm (omega arith)
ones_sum-eq-norm (w ∷ ws) x h =
    ap (ones_sum ws) {x = ones_add (norm x) w} {y = norm (x + w)} (ground arith)
    ∙ ones_sum-eq-norm ws (x + w) h.1
    ∙ ap norm {x = x + w + total ws} {y = x + (w + total ws)} (omega arith)

pub ones_sum-eq-norm_total : (ws : List ℕ) → AllWords ws → ones_sum ws 0 ≡ norm (total ws)
ones_sum-eq-norm_total ws h =
    ones_sum-eq-norm ws 0 h ∙ ap norm {x = 0 + total ws} {y = total ws} (omega arith)

pub complement_lt : (s : ℕ) → complement s < 2 ^ 16
complement_lt s = omega arith

-- A sum together with the complement of its folding folds to all ones.
pub complement-fold_sum :
    (s : ℕ) → s < 2 ^ 31 → norm (s + complement (fold_sum fold_fuel s)) ≡ 2 ^ 16 - 1
complement-fold_sum s h = rw (fold_sum-eq-norm s (omega arith)) (ground arith)

module _ (len protocol src_ip dst_ip : ℕ) where
  -- The sum of the words but the checksum.
  ip_rest : ℕ
  ip_rest = total (words (ip_fields len protocol src_ip dst_ip (0 ∷ 0 ∷ [])))

  total-ip_fields :
      (c : ℕ)
      → c < 2 ^ 16
      → total (words (ip_fields len protocol src_ip dst_ip (bytes16 c))) ≡ ip_rest + c
  unfolding ip_rest
  total-ip_fields c h = omega arith

  ip_rest_lt : protocol < 2 ^ 8 → ip_rest < 2 ^ 20
  unfolding ip_rest
  ip_rest_lt h = omega arith

  ip_sum-eq-ip_rest :
      protocol < 2 ^ 8 → ip_sum 10 0 (ip_fields len protocol src_ip dst_ip (0 ∷ 0 ∷ [])) 0 ≡ ip_rest
  unfolding ip_sum ip_rest
  ip_sum-eq-ip_rest h = omega arith

  -- Every IPv4 header that the bridge builds, whatever its length, protocol and addresses, passes
  -- the receiver's check: the one's complement sum over its ten words is 0xffff.
  pub ip_header-ones_sum :
      protocol < 2 ^ 8 → ones_sum (words (ip_header len protocol src_ip dst_ip)) 0 ≡ 2 ^ 16 - 1
  unfolding ip_header ip_checksum
  ip_header-ones_sum h =
      ones_sum-eq-norm_total (words (ip_header len protocol src_ip dst_ip)) (omega arith)
      ∙ ap norm (total-ip_fields csum (complement_lt _))
      ∙ ap (λ s. norm (ip_rest + complement (fold_sum fold_fuel s))) (ip_sum-eq-ip_rest h)
      ∙ complement-fold_sum ip_rest (omega (arith, ip_rest_lt h))
    where
      csum : ℕ
      csum = ip_checksum (ip_fields len protocol src_ip dst_ip (0 ∷ 0 ∷ []))
