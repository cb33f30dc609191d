-- ===== src/Base64.antt =====
-- core/src/vc_base64.cpp: the encoder over groups of three bytes, and the decoder's loop as a
-- fold of one step over its locals `acc`, `bits`, `done` and `out`.
pub mod Reference
pub mod Decode
pub mod RoundTrip
mod Tests
use vericonnect_agent.Prelude.Ascii.{within}
use vericonnect_agent.Prelude.{
  ℕ, ◌+◌, ◌-◌, Bool, true, false, ◌||◌, Option, none, some, [], ◌∷◌, ◌++◌, Bytes, codes, ◌==◌, leb,
  if◌then◌else◌, get_or, bit_and, bit_or, u8, u32, ◌<<<◌, ◌>>>◌,
}

-- kTab
abbrev pub k_tab : Bytes
k_tab = codes "ABCDEFGHIJKLMNOPQRSTUVWXYZabcdefghijklmnopqrstuvwxyz0123456789+/"

unfoldable pub tab : ℕ → ℕ
tab v = get_or k_tab v 0

-- `none` is the -1 of the source.
unfoldable pub b64_val : ℕ → Option ℕ
b64_val c =
    if within b'A' b'Z' c
    then some (c - b'A')
    else if within b'a' b'z' c
    then some (c - b'a' + 26)
    else if within b'0' b'9' c
    then some (c - b'0' + 52)
    else if c == b'+'
    then some 62
    else if c == b'/'
    then some 63
    else none

-- The sextet of `v` above its low `k` bits.
abbrev pub sextet : ℕ → ℕ → ℕ
sextet v k = tab (bit_and (v >>> k) 63)

abbrev pub join3 : ℕ → ℕ → ℕ → ℕ
join3 a b c = bit_or (bit_or (u32 (a <<< 16)) (u32 (b <<< 8))) c

abbrev pub join2 : ℕ → ℕ → ℕ
join2 a b = bit_or (u32 (a <<< 16)) (u32 (b <<< 8))

unfoldable pub encode : Bytes → Bytes
encode [] = []
encode (a ∷ []) = let v = u32 (a <<< 16) in sextet v 18 ∷ sextet v 12 ∷ b'=' ∷ b'=' ∷ []
encode (a ∷ b ∷ []) = let v = join2 a b in sextet v 18 ∷ sextet v 12 ∷ sextet v 6 ∷ b'=' ∷ []
encode (a ∷ b ∷ c ∷ rest) =
    let v = join3 a b c in sextet v 18 ∷ sextet v 12 ∷ sextet v 6 ∷ sextet v 0 ∷ encode rest

-- The decoder's locals.
pub record Decoder : Type 0 where
  pub acc : ℕ
  pub bits : ℕ
  pub done : Bool
  pub out : Bytes

abbrev pub is_blank : ℕ → Bool
is_blank c = c == b' ' || c == b'\t' || c == b'\r' || c == b'\n'

-- `acc = (acc << 6) | v; bits += 6; if (bits >= 8) ...`
unfoldable pub push_sextet : Decoder → ℕ → Decoder
push_sextet s v =
    let acc = bit_or (u32 (s.acc <<< 6)) v in
    let bits = s.bits + 6 in
    if leb 8 bits
    then record s { acc = acc; bits = bits - 8; out = s.out ++ u8 (acc >>> (bits - 8)) ∷ [] }
    else record s { acc = acc; bits = bits }

-- One round of the loop; `none` is `return std::nullopt`.
unfoldable pub decode_step : Decoder → ℕ → Option Decoder
decode_step s c =
    if is_blank c
    then some s
    else if c == b'='
    then some (record s { done = true })
    else if s.done
    then none
    else elim (b64_val c) [ none ↦ none | some v ↦ some (push_sextet s v) ]

unfoldable pub decode_loop : Decoder → Bytes → Option Bytes
decode_loop s [] = if s.bits == 6 then none else some s.out
decode_loop s (c ∷ cs) = elim (decode_step s c) [ none ↦ none | some s' ↦ decode_loop s' cs ]

abbrev pub decoder : Decoder
decoder = record { acc = 0; bits = 0; done = false; out = [] }

unfoldable pub decode : Bytes → Option Bytes
decode text = decode_loop decoder text
