-- ===== src/Log/Sanitise/Clean.antt =====
-- core/src/vc_log.cpp: a sanitised message is one line.
use vericonnect_agent.Common.{to_string}
use vericonnect_agent.Common.Decimal.{AllDigits, to_string-AllDigits}
use vericonnect_agent.Prelude.Search.{span}
use vericonnect_agent.Log.Sanitise.{
  upper_hex, escape_char, escaped, secret_keys, key_length, is_blank, in_value, in_quotes,
  skip_quote, at_separator, after_key, mask_quoted, mask_plain, mask_at, mask_value, mask_key,
  mask_round, mask_loop, mask_secrets, k_max_message_bytes, sanitise,
}
use vericonnect_agent.Prelude.{
  ℕ, zero, suc, ◌+◌, ◌-◌, ◌/◌, ◌%◌, ◌≤◌, ◌<◌, ◌≡◌, refl, ◌∙◌, ◌≢◌, inl, inr, Bool, true, ◌&&◌, ◌||◌,
  Option, none, some, [], ◌∷◌, ◌++◌, arith, Bytes, codes, ltb, leb, ◌==◌, ltb→lt, Bool-cases,
  length, take, drop, length-take, take-all, All, All-append, All-take, All-drop, take-append,
}

-- A byte that is no control character.
abbrev pub IsPrinted : ℕ → Type 0
IsPrinted c = (32 ≤ c) × (c ≢ 127)

abbrev IsClean : Bytes → Type 0
IsClean = All IsPrinted

printed : (c : ℕ) → 32 ≤ c → c < 127 → IsPrinted c
printed c h k = (h, λ e. omega arith)

hex-IsPrinted : (v : ℕ) → v < 16 → IsPrinted (upper_hex v)
hex-IsPrinted v h = elim (Bool-cases (ltb v 10)) [
  | inl y ↦ rw y (printed (v + b'0') (omega arith) (omega (arith, ltb→lt v 10 y)))
  | inr n ↦ rw n (printed (v - 10 + b'A') (omega arith) (omega arith))
]

escape_char-IsClean : (c : ℕ) → c < 256 → IsClean (escape_char c)
unfolding escape_char
escape_char-IsClean c h = elim (Bool-cases (c == b'\n')) [
  | inl y ↦
      rw (escape_char, y)
        (printed b'\\' (omega arith) (omega arith), (printed b'n' (omega arith) (omega arith), tt))
  | inr n ↦ elim (Bool-cases (c == b'\r')) [
    | inl y ↦
        rw (escape_char, n, y)
          (
            printed b'\\' (omega arith) (omega arith),
            (printed b'r' (omega arith) (omega arith), tt),
          )
    | inr r ↦ elim (Bool-cases (c == b'\t')) [
      | inl y ↦
          rw (escape_char, n, r, y)
            (
              printed b'\\' (omega arith) (omega arith),
              (printed b't' (omega arith) (omega arith), tt),
            )
      | inr t ↦ elim (Bool-cases (ltb c 0x20 || c == 0x7F)) [
        | inl y ↦
            rw (escape_char, n, r, t, y)
              (
                printed b'\\' (omega arith) (omega arith),
                (
                  printed b'x' (omega arith) (omega arith),
                  (
                    hex-IsPrinted (c / 16) (omega arith),
                    (hex-IsPrinted (c % 16) (omega arith), tt),
                  ),
                ),
              )
        | inr z ↦ rw (escape_char, n, r, t, z) ((ground (arith, z), λ e. ground (arith, z, e)), tt)
      ]
    ]
  ]
]

escaped-IsClean : (s : Bytes) → All (λ c. c < 256) s → IsClean (escaped s)
unfolding escaped
escaped-IsClean [] h = tt
escaped-IsClean (c ∷ s) h =
    All-append IsPrinted (escape_char c) (escaped s) (escape_char-IsClean c h.0)
      (escaped-IsClean s h.1)

-- The same as a test, for texts of the program.
abbrev all_printed : Bytes → Bool
all_printed [] = true
all_printed (c ∷ s) = leb 32 c && ltb c 127 && all_printed s

all_printed-IsClean : (s : Bytes) → all_printed s ≡ true → IsClean s
all_printed-IsClean [] h = tt
all_printed-IsClean (c ∷ s) h =
    (printed c (ground (arith, h)) (ground (arith, h)), all_printed-IsClean s (ground (arith, h)))

span-IsClean :
    (test : ℕ → Bool) (s : Bytes) → IsClean s → IsClean (span test s).0 × IsClean (span test s).1
unfolding span
span-IsClean test [] h = (tt, tt)
span-IsClean test (c ∷ s) h = elim (Bool-cases (test c)) [
  | inl y ↦ rw y ((h.0, (span-IsClean test s h.1).0), (span-IsClean test s h.1).1)
  | inr n ↦ rw n (tt, h)
]

abbrev BothClean : Bytes × Bytes → Type 0
BothClean r = IsClean r.0 × IsClean r.1

mask_quoted-IsClean : (r : Bytes × Bytes) → BothClean r → BothClean (mask_quoted r)
mask_quoted-IsClean ([], []) h = h
mask_quoted-IsClean ([], q ∷ rest) h = (tt, h.1.1)
mask_quoted-IsClean (c ∷ v, []) h = (all_printed-IsClean (codes "\"***") refl, tt)
mask_quoted-IsClean (c ∷ v, q ∷ rest) h = (all_printed-IsClean (codes "\"***\"") refl, h.1.1)

mask_plain-IsClean : (r : Bytes × Bytes) → BothClean r → BothClean (mask_plain r)
mask_plain-IsClean ([], rest) h = h
mask_plain-IsClean (c ∷ v, rest) h = (all_printed-IsClean (codes "***") refl, h.1)

mask_at-IsClean : (s : Bytes) → IsClean s → BothClean (mask_at s)
mask_at-IsClean [] h = (tt, tt)
mask_at-IsClean (c ∷ cs) h = elim (Bool-cases (c == b'"')) [
  | inl y ↦ rw y (mask_quoted-IsClean (span in_quotes cs) (span-IsClean in_quotes cs h.1))
  | inr n ↦ rw n (mask_plain-IsClean (span in_value (c ∷ cs)) (span-IsClean in_value (c ∷ cs) h))
]

mask_value-IsClean : (s : Bytes) → IsClean s → BothClean (mask_value s)
unfolding mask_value
mask_value-IsClean s h = mask_at-IsClean (span is_blank s).1 (span-IsClean is_blank s h).1

abbrev SomeClean : Option Bytes → Type 0
SomeClean none = Unit {0}
SomeClean (some s) = IsClean s

at_separator-IsClean : (s : Bytes) → IsClean s → SomeClean (at_separator s)
at_separator-IsClean [] h = tt
at_separator-IsClean (c ∷ s) h = elim (Bool-cases (c == b'=' || c == b':')) [
  | inl y ↦ rw y h.1
  | inr n ↦ rw n tt
]

skip_quote-IsClean : (s : Bytes) → IsClean s → IsClean (skip_quote s)
skip_quote-IsClean [] h = tt
skip_quote-IsClean (c ∷ s) h = elim (Bool-cases (c == b'"')) [ inl y ↦ rw y h.1 | inr n ↦ rw n h ]

after_key-IsClean : (s : Bytes) → IsClean s → SomeClean (after_key s)
unfolding after_key
after_key-IsClean s h =
    at_separator-IsClean (span is_blank (skip_quote s)).1
      (span-IsClean is_blank (skip_quote s) (skip_quote-IsClean s h)).1

mask_key-IsClean :
    (c : ℕ) (cs : Bytes) (o : Option Bytes)
    → IsClean (c ∷ cs)
    → SomeClean o
    → BothClean (mask_key c cs o)
mask_key-IsClean c cs none h k = ((h.0, tt), h.1)
mask_key-IsClean c cs (some v) h k =
    let m = mask_value-IsClean v k in
    (
      All-append IsPrinted (take (length (c ∷ cs) - length v) (c ∷ cs)) (mask_value v).0
          (All-take IsPrinted (length (c ∷ cs) - length v) (c ∷ cs) h) m.0,
      m.1,
    )

mask_round-IsClean : (c : ℕ) (cs : Bytes) → IsClean (c ∷ cs) → BothClean (mask_round c cs)
unfolding mask_round
mask_round-IsClean c cs h =
    let n = key_length secret_keys (c ∷ cs) in
    elim (Bool-cases (n == 0)) [
      | inl y ↦ rw (mask_round, y) ((h.0, tt), h.1)
      | inr m ↦
          rw (mask_round, m)
            (mask_key-IsClean c cs (after_key (drop n (c ∷ cs))) h
              (after_key-IsClean (drop n (c ∷ cs)) (All-drop IsPrinted n (c ∷ cs) h)))
    ]

mask_loop-IsClean : (fuel : ℕ) (s : Bytes) → IsClean s → IsClean (mask_loop fuel s)
unfolding mask_loop
mask_loop-IsClean zero s h = tt
mask_loop-IsClean (suc fuel) [] h = tt
mask_loop-IsClean (suc fuel) (c ∷ cs) h =
    let r = mask_round-IsClean c cs h in
    All-append IsPrinted (mask_round c cs).0 _ r.0 (mask_loop-IsClean fuel (mask_round c cs).1 r.1)

digits-IsClean : (s : Bytes) → AllDigits s → IsClean s
digits-IsClean [] h = tt
digits-IsClean (c ∷ s) h =
    (printed c (ground (arith, h.0)) (ground (arith, h.0)), digits-IsClean s h.1)

masked-IsClean : (msg : Bytes) → All (λ c. c < 256) msg → IsClean (mask_secrets (escaped msg))
unfolding mask_secrets
masked-IsClean msg h =
    mask_loop-IsClean (length (escaped msg)) (escaped msg) (escaped-IsClean msg h)

take_again : (n : ℕ) (xs ys : Bytes) → n ≤ length xs → take n (take n xs ++ ys) ≡ take n xs
take_again n xs ys h =
    take-append n (take n xs) ys (omega (arith, length-take n xs))
    ∙ take-all n (take n xs) (omega (arith, length-take n xs))

-- A message of bytes is written as one line: no byte of it is a control character, whatever the
-- message holds; and up to the limit of 8192 bytes it is the escaped message with its secrets masked.
pub sanitise_line :
    (msg : Bytes)
    → All (λ c. c < 256) msg
    → All IsPrinted (sanitise msg)
      × (take k_max_message_bytes (sanitise msg)
          ≡ take k_max_message_bytes (mask_secrets (escaped msg)))
unfolding sanitise
sanitise_line msg h =
    let out = mask_secrets (escaped msg) in
    let clean = masked-IsClean msg h in
    let dropped = to_string (length out - k_max_message_bytes) in
    let marker = codes " ... [truncated " ++ (dropped ++ codes " bytes]") in
    let marked : IsClean marker =
      All-append IsPrinted (codes " ... [truncated ") (dropped ++ codes " bytes]")
        (all_printed-IsClean (codes " ... [truncated ") refl)
        (All-append IsPrinted dropped (codes " bytes]")
          (digits-IsClean dropped (to_string-AllDigits (length out - k_max_message_bytes)))
          (all_printed-IsClean (codes " bytes]") refl)) in
    elim (Bool-cases (ltb k_max_message_bytes (length out))) [
      | inl y ↦
          rw (sanitise, y)
            (
              All-append IsPrinted (take k_max_message_bytes out) marker
                  (All-take IsPrinted k_max_message_bytes out clean) marked,
              take_again k_max_message_bytes out marker
                  (omega (arith, ltb→lt k_max_message_bytes (length out) y)),
            )
      | inr n ↦ rw (sanitise, n) (clean, refl)
    ]
