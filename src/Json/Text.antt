-- ===== src/Json/Text.antt =====
-- JSON string literals in core/src/vc_json.cpp: escape_to and parse_string_raw.
pub mod RoundTrip
pub mod Shorter
mod Tests
use vericonnect_agent.Prelude.Ascii.{within}
use vericonnect_agent.Prelude.{
  ℕ, zero, suc, ◌+◌, ◌-◌, ◌/◌, ◌%◌, ◌<◌, bit_and, bit_or, u8, u32, ◌<<<◌, ◌>>>◌, inl, inr, ◌&&◌,
  ◌||◌, Option, none, some, [], ◌∷◌, ◌++◌, arith, Bytes, ltb, leb, ◌==◌, if◌then◌else◌, tests,
  length,
}

-- append_utf8, what it appends
unfoldable pub utf8 : ℕ → Bytes
utf8 cp =
    if ltb cp 0x80
    then u8 cp ∷ []
    else if ltb cp 0x800
    then u8 (bit_or 0xC0 (cp >>> 6)) ∷ u8 (bit_or 0x80 (bit_and cp 0x3F)) ∷ []
    else if ltb cp 0x10000
    then u8 (bit_or 0xE0 (cp >>> 12))
      ∷ u8 (bit_or 0x80 (bit_and (cp >>> 6) 0x3F))
      ∷ u8 (bit_or 0x80 (bit_and cp 0x3F))
      ∷ []
    else u8 (bit_or 0xF0 (cp >>> 18))
      ∷ u8 (bit_or 0x80 (bit_and (cp >>> 12) 0x3F))
      ∷ u8 (bit_or 0x80 (bit_and (cp >>> 6) 0x3F))
      ∷ u8 (bit_or 0x80 (bit_and cp 0x3F))
      ∷ []

-- A round of the loop of parse_hex4, on the value so far.
unfoldable pub hex4_step : Option ℕ → ℕ → Option ℕ
hex4_step none c = none
hex4_step (some v) c =
    if within b'0' b'9' c
    then some (bit_or (u32 (v <<< 4)) (c - b'0'))
    else if within b'a' b'f' c
    then some (bit_or (u32 (v <<< 4)) (c - b'a' + 10))
    else if within b'A' b'F' c
    then some (bit_or (u32 (v <<< 4)) (c - b'A' + 10))
    else none

-- The value and what is left, where a parser found one.
abbrev pub with_rest {ℓ} : {A : Type ℓ} → Option A → Bytes → Option (A × Bytes)
with_rest none rest = none
with_rest (some a) rest = some (a, rest)

unfoldable pub parse_hex4 : Bytes → Option (ℕ × Bytes)
unfolding hex4_step
parse_hex4 (a ∷ b ∷ c ∷ d ∷ rest) =
    with_rest (hex4_step (hex4_step (hex4_step (hex4_step (some 0) a) b) c) d) rest
parse_hex4 _ = none

-- The second half of a surrogate pair, behind the first half `hi`.
abbrev pub low_half : ℕ → Option (ℕ × Bytes) → Option (Bytes × Bytes)
low_half hi none = none
low_half hi (some (lo, rest)) =
    if ltb lo 0xDC00 || ltb 0xDFFF lo
    then none
    else some (utf8 (0x10000 + u32 ((hi - 0xD800) <<< 10) + (lo - 0xDC00)), rest)

abbrev pub second_half : ℕ → Bytes → Option (Bytes × Bytes)
second_half hi (b ∷ u ∷ rest) =
    if leb 4 (length rest) && b == b'\\' && u == b'u' then low_half hi (parse_hex4 rest) else none
second_half hi _ = none

-- case 'u', once the code is read
abbrev pub unicode : Option (ℕ × Bytes) → Option (Bytes × Bytes)
unicode none = none
unicode (some (cp, rest)) =
    if leb 0xD800 cp && leb cp 0xDBFF
    then second_half cp rest
    else if leb 0xDC00 cp && leb cp 0xDFFF
    then none
    else some (utf8 cp, rest)

-- The single-character escapes.
unfoldable pub simple_escape : ℕ → Option ℕ
simple_escape e =
    if e == b'"'
    then some b'"'
    else if e == b'\\'
    then some b'\\'
    else if e == b'/'
    then some b'/'
    else if e == b'b'
    then some 8
    else if e == b'f'
    then some 12
    else if e == b'n'
    then some b'\n'
    else if e == b'r'
    then some b'\r'
    else if e == b't'
    then some b'\t'
    else none

-- The switch behind a backslash: what is appended, and what is left.
unfoldable pub escaped : Bytes → Option (Bytes × Bytes)
unfolding simple_escape parse_hex4 utf8
escaped [] = none
escaped (e ∷ rest) =
    if e == b'u'
    then unicode (parse_hex4 rest)
    else elim (simple_escape e) [ none ↦ none | some b ↦ some (b ∷ [], rest) ]

-- The next round behind an escape.
abbrev pub appended :
    Bytes
    → Option (Bytes × Bytes)
    → (Bytes → Bytes → Option (Bytes × Bytes))
    → Option (Bytes × Bytes)
appended out none loop = none
appended out (some (bs, rest)) loop = loop rest (out ++ bs)

-- A round of the loop of parse_string_raw at the character `c`.
abbrev pub string_round :
    ℕ → Bytes → Bytes → (Bytes → Bytes → Option (Bytes × Bytes)) → Option (Bytes × Bytes)
string_round c cs out loop =
    if c == b'"'
    then some (out, cs)
    else if c == b'\\'
    then appended out (escaped cs) loop
    else if ltb c 0x20
    then none
    else loop cs (out ++ c ∷ [])

-- The loop, on fuel for the bytes left.
unfoldable pub string_loop : ℕ → Bytes → Bytes → Option (Bytes × Bytes)
string_loop zero p out = none
string_loop (suc fuel) [] out = none
string_loop (suc fuel) (c ∷ cs) out =
    string_round c cs out (λ rest out'. string_loop fuel rest out')

-- parse_string_raw: the string and what is left behind its closing quote.
unfoldable pub parse_string_raw : Bytes → Option (Bytes × Bytes)
unfolding string_loop escaped
parse_string_raw [] = none
parse_string_raw (c ∷ cs) = if c == b'"' then string_loop (length cs) cs [] else none

-- "%x" of a value below 16
unfoldable pub hex_char : ℕ → ℕ
hex_char v = if ltb v 10 then v + b'0' else v - 10 + b'a'

-- The switch of escape_to on a byte.
unfoldable pub escape_byte : ℕ → Bytes
unfolding hex_char
escape_byte c =
    if c == b'"'
    then b'\\' ∷ b'"' ∷ []
    else if c == b'\\'
    then b'\\' ∷ b'\\' ∷ []
    else if c == 8
    then b'\\' ∷ b'b' ∷ []
    else if c == 12
    then b'\\' ∷ b'f' ∷ []
    else if c == b'\n'
    then b'\\' ∷ b'n' ∷ []
    else if c == b'\r'
    then b'\\' ∷ b'r' ∷ []
    else if c == b'\t'
    then b'\\' ∷ b't' ∷ []
    else if ltb c 0x20
    then b'\\' ∷ b'u' ∷ b'0' ∷ b'0' ∷ hex_char (c / 16) ∷ hex_char (c % 16) ∷ []
    else c ∷ []

unfoldable pub escape_bytes : Bytes → Bytes
unfolding escape_byte
escape_bytes [] = []
escape_bytes (c ∷ cs) = escape_byte c ++ escape_bytes cs

-- escape
unfoldable pub escape : Bytes → Bytes
unfolding escape_bytes
escape s = b'"' ∷ (escape_bytes s ++ b'"' ∷ [])
