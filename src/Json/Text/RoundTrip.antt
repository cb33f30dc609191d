-- ===== src/Json/Text/RoundTrip.antt =====
-- core/src/vc_json.cpp: parse_string_raw reads back what escape_to writes.
use vericonnect_agent.Prelude.Ascii.{within}
use vericonnect_agent.Prelude.Bits.{bit_or_sum}
use vericonnect_agent.Prelude.{
  ℕ, zero, suc, ◌+◌, ◌-◌, ◌*◌, ◌/◌, ◌%◌, ◌^◌, ◌≤◌, ◌<◌, bit_or, u32, ◌<<<◌, ◌≡◌, refl, sym, ap, ◌∙◌,
  inl, inr, true, false, some, [], ◌∷◌, ◌++◌, append-nil, append_assoc, arith, Bytes, ltb, leb,
  ◌==◌, ltb→lt, Bool-cases, length, length-append, All,
}
use vericonnect_agent.Json.Text.{
  utf8, hex4_step, with_rest, parse_hex4, unicode, simple_escape, escaped, appended, string_round,
  string_loop, parse_string_raw, hex_char, escape_byte, escape_bytes, escape,
}

hex4_step-hex_char :
    (v d : ℕ) → d < 16 → hex4_step (some v) (hex_char d) ≡ some (bit_or (u32 (v <<< 4)) d)
unfolding hex4_step hex_char
hex4_step-hex_char v d h = elim (Bool-cases (ltb d 10)) [
  | inl low ↦
      let e : within b'0' b'9' (d + b'0') ≡ true = ground (arith, low) in
      rw (hex_char, low)
        (rw (hex4_step, e) (ap (λ x. some (bit_or (u32 (v <<< 4)) x)) (omega arith)))
  | inr high ↦
      let n : within b'0' b'9' (d - 10 + b'a') ≡ false = ground (arith, high) in
      let e : within b'a' b'f' (d - 10 + b'a') ≡ true = ground (arith, high) in
      rw (hex_char, high)
        (rw (hex4_step, n, e) (ap (λ x. some (bit_or (u32 (v <<< 4)) x)) (ground (arith, high))))
]

two_digits : (c : ℕ) → c < 256 → bit_or (u32 (bit_or (u32 (0 <<< 4)) (c / 16) <<< 4)) (c % 16) ≡ c
two_digits c h =
    ap (λ x. bit_or (u32 (x <<< 4)) (c % 16)) (bit_or_sum 4 0 (c / 16) (omega arith))
    ∙ ap (λ x. bit_or x (c % 16)) shifted
    ∙ bit_or_sum 4 (c / 16) (c % 16) (omega arith)
    ∙ omega arith
  where
    shifted : u32 ((0 * 2 ^ 4 + c / 16) <<< 4) ≡ c / 16 * 2 ^ 4
    shifted = omega arith

parse_hex4-control :
    (c : ℕ) (rest : Bytes)
    → c < 256
    → parse_hex4 (b'0' ∷ b'0' ∷ hex_char (c / 16) ∷ hex_char (c % 16) ∷ rest) ≡ some (c, rest)
unfolding parse_hex4
parse_hex4-control c rest h =
    ap (λ o. with_rest (hex4_step o (hex_char (c % 16))) rest)
      (hex4_step-hex_char 0 (c / 16) (omega arith))
    ∙ ap (λ o. with_rest o rest)
        (hex4_step-hex_char (bit_or (u32 (0 <<< 4)) (c / 16)) (c % 16) (omega arith))
    ∙ ap (λ n. some (n, rest)) (two_digits c h)

unicode_control : (c : ℕ) (rest : Bytes) → c < 32 → unicode (some (c, rest)) ≡ some (c ∷ [], rest)
unfolding utf8
unicode_control c rest h =
    let a : leb 0xD800 c ≡ false = ground arith in
    let b : leb 0xDC00 c ≡ false = ground arith in
    let d : ltb c 0x80 ≡ true = ground arith in
    rw (unicode, a, b) (rw (utf8, d) (ap (λ x. some (x ∷ [], rest)) (omega arith)))

-- What the reader makes of a byte that the writer has escaped.
escape_step :
    (fuel c : ℕ) (rest out : Bytes)
    → c < 256
    → string_loop (suc fuel) (escape_byte c ++ rest) out ≡ string_loop fuel rest (out ++ c ∷ [])
unfolding string_loop escaped escape_byte simple_escape
escape_step fuel c rest out h = elim (Bool-cases (c == b'"')) [
  | inl q ↦ rw (escape_byte, q) (same b'"' (ground (arith, q)))
  | inr q ↦ elim (Bool-cases (c == b'\\')) [
    | inl s ↦ rw (escape_byte, q, s) (same b'\\' (ground (arith, s)))
    | inr s ↦ elim (Bool-cases (c == 8)) [
      | inl b ↦ rw (escape_byte, q, s, b) (same 8 (ground (arith, b)))
      | inr b ↦ elim (Bool-cases (c == 12)) [
        | inl f ↦ rw (escape_byte, q, s, b, f) (same 12 (ground (arith, f)))
        | inr f ↦ elim (Bool-cases (c == b'\n')) [
          | inl l ↦ rw (escape_byte, q, s, b, f, l) (same b'\n' (ground (arith, l)))
          | inr l ↦ elim (Bool-cases (c == b'\r')) [
            | inl r ↦ rw (escape_byte, q, s, b, f, l, r) (same b'\r' (ground (arith, r)))
            | inr r ↦ elim (Bool-cases (c == b'\t')) [
              | inl t ↦ rw (escape_byte, q, s, b, f, l, r, t) (same b'\t' (ground (arith, t)))
              | inr t ↦ elim (Bool-cases (ltb c 0x20)) [
                | inl low ↦
                    rw (escape_byte, q, s, b, f, l, r, t, low)
                      (ap (λ o. appended out (unicode o) (string_loop fuel))
                          (parse_hex4-control c rest h)
                        ∙ ap (λ o. appended out o (string_loop fuel))
                            (unicode_control c rest (ltb→lt c 0x20 low)))
                | inr plain ↦
                    rw (escape_byte, q, s, b, f, l, r, t, plain)
                      (rw (string_round, q, s, plain) refl)
              ]
            ]
          ]
        ]
      ]
    ]
  ]
]
  where
    same :
        (d : ℕ)
        → d ≡ c
        → string_loop fuel rest (out ++ d ∷ []) ≡ string_loop fuel rest (out ++ c ∷ [])
    same d e = ap (λ x. string_loop fuel rest (out ++ x ∷ [])) e

escape_byte-pos : (c : ℕ) → 0 < length (escape_byte c)
unfolding escape_byte
escape_byte-pos c = ground arith

length-escape_byte : (c : ℕ) (rest : Bytes) → length rest < length (escape_byte c ++ rest)
length-escape_byte c rest = omega (arith, length-append (escape_byte c) rest, escape_byte-pos c)

string_loop-escape_bytes :
    (fuel : ℕ) (s rest out : Bytes)
    → All (λ c. c < 256) s
    → length (escape_bytes s ++ b'"' ∷ rest) ≤ fuel
    → string_loop fuel (escape_bytes s ++ b'"' ∷ rest) out ≡ some (out ++ s, rest)
unfolding escape_bytes string_loop
string_loop-escape_bytes zero [] rest out h enough = absurd (omega arith)
string_loop-escape_bytes (suc fuel) [] rest out h enough =
    ap (λ o. some (o, rest)) (sym (append-nil out))
string_loop-escape_bytes zero (c ∷ s) rest out h enough = absurd (
    omega (
      arith,
      length-append (escape_byte c) (escape_bytes s),
      length-append (escape_byte c ++ escape_bytes s) (b'"' ∷ rest),
      enough,
    ))
string_loop-escape_bytes (suc fuel) (c ∷ s) rest out h enough =
    let more = escape_bytes s ++ b'"' ∷ rest in
    let split = append_assoc (escape_byte c) (escape_bytes s) (b'"' ∷ rest) in
    ap (λ t. string_loop (suc fuel) t out) split
    ∙ escape_step fuel c more out h.0
    ∙ string_loop-escape_bytes fuel s rest (out ++ c ∷ []) h.1
        (omega (arith, ap length split, length-escape_byte c more, enough))
    ∙ ap (λ o. some (o, rest)) (append_assoc out (c ∷ []) s)

-- Reading a string that escape wrote gives the string back, and leaves what stands behind it.
pub parse_string_raw-escape :
    (s rest : Bytes) → All (λ c. c < 256) s → parse_string_raw (escape s ++ rest) ≡ some (s, rest)
unfolding parse_string_raw escape
parse_string_raw-escape s rest h =
    ap (λ t. string_loop (length t) t []) (append_assoc (escape_bytes s) (b'"' ∷ []) rest)
    ∙ string_loop-escape_bytes (length (escape_bytes s ++ b'"' ∷ rest)) s rest [] h (omega arith)
