-- ===== src/Url/Encode.antt =====
-- Percent encoding against a decoder written for this purpose (RFC 3986, section 2.1).
use vericonnect_agent.Prelude.Bits.{bit_and_low, every_below, every_below-at}
use vericonnect_agent.Prelude.{
  ℕ, ◌+◌, ◌*◌, ◌-◌, ◌/◌, ◌%◌, ◌<◌, Bool, true, false, ◌&&◌, ◌||◌, Option, none, some, [], ◌∷◌, ◌≡◌,
  refl, ap, ◌∙◌, inl, inr, Bytes, ◌==◌, if◌then◌else◌, Bool-cases, get_or, All, bit_and, ◌>>>◌,
  arith,
}
use vericonnect_agent.Prelude.Ascii.{within}
use vericonnect_agent.Url.{is_unreserved, hex, url_encode}

hex_value : ℕ → Option ℕ
hex_value c =
    if within b'0' b'9' c
    then some (c - b'0')
    else if within b'A' b'F' c
    then some (c - b'A' + 10)
    else none

hex_pair : Option ℕ → Option ℕ → Option ℕ
hex_pair (some a) (some b) = some (a * 16 + b)
hex_pair _ _ = none

put : Option ℕ → Option Bytes → Option Bytes
put (some v) (some bs) = some (v ∷ bs)
put _ _ = none

-- Every '%' starts an escape of two hexadecimal digits; all other bytes stand for themselves.
unfoldable pub percent_decode : Bytes → Option Bytes
unfolding hex_value hex_pair put
percent_decode [] = some []
percent_decode (c ∷ []) = if c == b'%' then none else some (c ∷ [])
percent_decode (c ∷ a ∷ []) = if c == b'%' then none else put (some c) (percent_decode (a ∷ []))
percent_decode (c ∷ a ∷ b ∷ r) =
    if c == b'%'
    then put (hex_pair (hex_value a) (hex_value b)) (percent_decode r)
    else put (some c) (percent_decode (a ∷ b ∷ r))

decode_plain :
    (c : ℕ) (r : Bytes)
    → (c == b'%') ≡ false
    → percent_decode (c ∷ r) ≡ put (some c) (percent_decode r)
unfolding percent_decode
decode_plain c [] h = rw h refl
decode_plain c (a ∷ []) h = rw h refl
decode_plain c (a ∷ b ∷ r) h = rw h refl

is_value : Option ℕ → ℕ → Bool
is_value none v = false
is_value (some w) v = w == v

hex_check : ℕ → Bool
unfolding hex_value is_value
hex_check v = is_value (hex_value (get_or hex v 0)) v && is_unreserved (get_or hex v 0)

hex_table : every_below 16 hex_check ≡ true
unfolding every_below hex_check is_unreserved
hex_table = refl

-- A digit of the table is read back as its index, and is itself unreserved.
hex_digit :
    (v : ℕ)
    → v < 16
    → (hex_value (get_or hex v 0) ≡ some v) × (is_unreserved (get_or hex v 0) ≡ true)
unfolding hex_check is_value
hex_digit v h = ground (arith, every_below-at 16 hex_check v hex_table h)

-- What may stand in an encoded text.
abbrev pub is_safe : ℕ → Bool
is_safe c = is_unreserved c || c == b'%'

put-some : (c : ℕ) (bs : Bytes) → put (some c) (some bs) ≡ some (c ∷ bs)
unfolding put
put-some c bs = refl

unreserved_plain : (c : ℕ) → is_unreserved c ≡ true → (c == b'%') ≡ false
unfolding is_unreserved
unreserved_plain c h = ground arith

decode-escaped :
    (c : ℕ) (r : Bytes)
    → c < 256
    → percent_decode (b'%' ∷ get_or hex (c >>> 4) 0 ∷ get_or hex (bit_and c 0xF) 0 ∷ r)
      ≡ put (some c) (percent_decode r)
unfolding percent_decode
decode-escaped c r h =
    let hi = hex_digit (c / 16) (omega arith) in
    let lo = hex_digit (c % 16) (omega arith) in
    rw (bit_and_low 4 c, hi.0, lo.0) (ap (λ v. put (some v) (percent_decode r)) (omega arith))

escape_safe : (v : ℕ) → v < 16 → is_safe (get_or hex v 0) ≡ true
escape_safe v h = ground (arith, (hex_digit v h).1)

low_safe : (c : ℕ) → is_safe (get_or hex (bit_and c 0xF) 0) ≡ true
low_safe c = rw (bit_and_low 4 c) (escape_safe (c % 16) (omega arith))

-- Decoding what url_encode made of a byte string gives the byte string back, and the encoded text
-- holds only unreserved characters and '%'.
pub percent_decode-url_encode :
    (s : Bytes)
    → All (λ c. c < 256) s
    → (percent_decode (url_encode s) ≡ some s) × All (λ c. is_safe c ≡ true) (url_encode s)
unfolding url_encode
percent_decode-url_encode [] h = (unfold percent_decode in refl, tt)
percent_decode-url_encode (c ∷ cs) h =
    let (back, safe) = percent_decode-url_encode cs h.1 in
    elim (Bool-cases (is_unreserved c)) [
      | inl plain ↦ rw plain (
        decode_plain c (url_encode cs) (unreserved_plain c plain)
            ∙ ap (put (some c)) back
            ∙ put-some c cs,
        (ground (arith, plain), safe),
      )
      | inr other ↦ rw other (
        decode-escaped c (url_encode cs) h.0 ∙ ap (put (some c)) back ∙ put-some c cs,
        (unfold is_unreserved in refl, (escape_safe (c >>> 4) (omega arith), (low_safe c, safe))),
      )
    ]
