-- ===== src/Base64/RoundTrip.antt =====
-- Decoding what was encoded.
use mathlib.Core.Option
use vericonnect_agent.Base64.Decode.{decode-reference}
use vericonnect_agent.Base64.Reference.{strip, sextets, quads, bind_quads, reference}
use vericonnect_agent.Base64.{tab, b64_val, sextet, join2, join3, is_blank, encode, decode}
use vericonnect_agent.Prelude.Bits.{bit_or_sum, bit_and_low, every_below, every_below-at}
use vericonnect_agent.Prelude.{
  ℕ, ◌+◌, ◌*◌, ◌/◌, ◌%◌, ◌^◌, ◌<◌, Bool, true, false, not, ◌&&◌, Option, none, some, List, [], ◌∷◌,
  ◌≡◌, refl, ap, ◌∙◌, Bytes, ◌==◌, All, arith, u32, ◌<<<◌, ◌>>>◌,
}

is_value : Option ℕ → ℕ → Bool
is_value none v = false
is_value (some w) v = w == v

tab_check : ℕ → Bool
unfolding is_value
tab_check v = is_value (b64_val (tab v)) v && not (is_blank (tab v)) && not (tab v == b'=')

tab_table : every_below 64 tab_check ≡ true
unfolding every_below tab_check tab b64_val
tab_table = refl

-- A character of the table is read back as its index.
sextets-tab :
    (v : ℕ) (cs : Bytes)
    → v < 64
    → sextets (strip (tab v ∷ cs)) ≡ Option.map (◌∷◌ v) (sextets (strip cs))
unfolding tab_check strip sextets
sextets-tab v cs h = ground (arith, every_below-at 64 tab_check v tab_table h)

sextet_lem : (v k w : ℕ) → (v >>> k) % 64 ≡ w → sextet v k ≡ tab w
sextet_lem v k w h = ap tab (bit_and_low 6 (v >>> k) ∙ h)

join2_lem : (a b : ℕ) → a < 256 → b < 256 → join2 a b ≡ a * 65536 + b * 256
join2_lem a b ha hb =
    let high : u32 (a <<< 16) ≡ a * 2 ^ 16 = omega arith in
    let low : u32 (b <<< 8) ≡ b * 256 = omega arith in
    rw (high, low) (bit_or_sum 16 a (b * 256) (omega arith))

join3_lem : (a b c : ℕ) → a < 256 → b < 256 → c < 256 → join3 a b c ≡ a * 65536 + b * 256 + c
join3_lem a b c ha hb hc =
    let high : join2 a b ≡ (a * 256 + b) * 2 ^ 8 = omega (arith, join2_lem a b ha hb) in
    rw high (omega (arith, bit_or_sum 8 (a * 256 + b) c hc))

-- The bytes cut into sextets, the last group filled with zero bits.
split : Bytes → List ℕ
split [] = []
split (a ∷ []) = (a / 4) ∷ (a % 4 * 16) ∷ []
split (a ∷ b ∷ []) = (a / 4) ∷ (a % 4 * 16 + b / 16) ∷ (b % 16 * 4) ∷ []
split (a ∷ b ∷ c ∷ rest) =
    (a / 4) ∷ (a % 4 * 16 + b / 16) ∷ (b % 16 * 4 + c / 64) ∷ (c % 64) ∷ split rest

quads-split : (bs : Bytes) → All (λ x. x < 256) bs → quads (split bs) ≡ some bs
unfolding split quads
quads-split [] h = refl
quads-split (a ∷ []) h = ground arith
quads-split (a ∷ b ∷ []) h = ground arith
quads-split (a ∷ b ∷ c ∷ rest) h = ground (arith, quads-split rest h.1.1.1)

-- Reading the characters of a full group gives its sextets in front of those of the rest.
sextets-group :
    (p q r s : ℕ) (cs : Bytes)
    → p < 64
    → q < 64
    → r < 64
    → s < 64
    → sextets (strip (tab p ∷ tab q ∷ tab r ∷ tab s ∷ cs))
      ≡ Option.map (λ vs. p ∷ q ∷ r ∷ s ∷ vs) (sextets (strip cs))
sextets-group p q r s cs hp hq hr hs =
    rw (sextets-tab p _ hp, sextets-tab q _ hq, sextets-tab r _ hr, sextets-tab s cs hs)
      (map_four (sextets (strip cs)))
  where
    map_four :
        (o : Option (List ℕ))
        → Option.map (◌∷◌ p) (Option.map (◌∷◌ q) (Option.map (◌∷◌ r) (Option.map (◌∷◌ s) o)))
          ≡ Option.map (λ vs. p ∷ q ∷ r ∷ s ∷ vs) o
    map_four none = refl
    map_four (some vs) = refl

sextets_padding :
    (sextets (strip (b'=' ∷ b'=' ∷ [])) ≡ some []) × (sextets (strip (b'=' ∷ [])) ≡ some [])
unfolding strip sextets
sextets_padding = (refl, refl)

sextets_nil : sextets (strip []) ≡ some []
unfolding strip sextets
sextets_nil = refl

sextets-encode :
    (bs : Bytes) → All (λ x. x < 256) bs → sextets (strip (encode bs)) ≡ some (split bs)
unfolding split encode
sextets-encode [] h = sextets_nil
sextets-encode (a ∷ []) h = rw (
  sextet_lem (u32 (a <<< 16)) 18 (a / 4) (omega arith),
  sextet_lem (u32 (a <<< 16)) 12 (a % 4 * 16) (omega arith),
  sextets-tab (a / 4) _ (omega arith),
  sextets-tab (a % 4 * 16) _ (omega arith),
  sextets_padding.0,
)
sextets-encode (a ∷ b ∷ []) h =
    let j = join2_lem a b h.0 h.1.0 in
    rw (
      sextet_lem (join2 a b) 18 (a / 4) (omega arith),
      sextet_lem (join2 a b) 12 (a % 4 * 16 + b / 16) (omega arith),
      sextet_lem (join2 a b) 6 (b % 16 * 4) (omega arith),
      sextets-tab (a / 4) _ (omega arith),
      sextets-tab (a % 4 * 16 + b / 16) _ (omega arith),
      sextets-tab (b % 16 * 4) _ (omega arith),
      sextets_padding.1,
    )
sextets-encode (a ∷ b ∷ c ∷ rest) h =
    let j = join3_lem a b c h.0 h.1.0 h.1.1.0 in
    rw (
      sextet_lem (join3 a b c) 18 (a / 4) (omega arith),
      sextet_lem (join3 a b c) 12 (a % 4 * 16 + b / 16) (omega arith),
      sextet_lem (join3 a b c) 6 (b % 16 * 4 + c / 64) (omega arith),
      sextet_lem (join3 a b c) 0 (c % 64) (omega arith),
      sextets-group (a / 4) (a % 4 * 16 + b / 16) (b % 16 * 4 + c / 64) (c % 64) (encode rest)
          (omega arith) (omega arith) (omega arith) (omega arith),
      sextets-encode rest h.1.1.1,
    )

reference_lem : (text : Bytes) → reference text ≡ bind_quads (sextets (strip text))
unfolding reference
reference_lem text = refl

-- Decoding what `base64_encode` made of a byte string gives the byte string back.
pub decode-encode : (bs : Bytes) → All (λ x. x < 256) bs → decode (encode bs) ≡ some bs
decode-encode bs h =
    decode-reference (encode bs)
    ∙ reference_lem (encode bs)
    ∙ ap bind_quads (sextets-encode bs h)
    ∙ quads-split bs h
