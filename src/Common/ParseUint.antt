-- ===== src/Common/ParseUint.antt =====
-- parse_uint accepts exactly the decimal numbers up to its bound.
use vericonnect_agent.Common.Decimal.{
  AllDigits, decimal, digit_value_digit, scan-AllDigits, AllDigits-of_scan, to_string-AllDigits,
  decimal-to_string, to_string-ne-nil,
}
use vericonnect_agent.Common.{scan_digits, parse_uint, to_string}
use vericonnect_agent.Prelude.{ℕ, ◌≤◌, ◌<◌, ◌^◌, some, [], ◌∷◌, ◌≡◌, ◌≢◌, ◌↔◌, refl, Bytes, arith}

parse_uint_digits :
    (text : Bytes) (max : ℕ)
    → max < 2 ^ 64
    → text ≢ []
    → AllDigits text
    → decimal 0 text ≤ max
    → parse_uint text max 10 ≡ some (decimal 0 text)
unfolding parse_uint
parse_uint_digits [] max hm ne d le = absurd (ne refl)
parse_uint_digits (c ∷ cs) max hm ne d le =
    ground (arith, scan-AllDigits (c ∷ cs) 0 d, digit_value_digit c d.0)

parse_uint_sound :
    (text : Bytes) (max v : ℕ)
    → parse_uint text max 10 ≡ some v
    → (text ≢ []) × AllDigits text × (decimal 0 text ≡ v) × (v ≤ max)
unfolding parse_uint
parse_uint_sound [] max v h = ground arith
parse_uint_sound (c ∷ cs) max v h =
    let left : (scan_digits 10 0 (c ∷ cs)).1 ≡ [] = ground arith in
    let digits = AllDigits-of_scan (c ∷ cs) 0 left in
    (ground arith, digits, ground (arith, scan-AllDigits (c ∷ cs) 0 digits), ground arith)

-- For a bound that fits in 64 bits, parse_uint returns `v` exactly on a nonempty text of decimal
-- digits that writes `v`, with `v` at most the bound: no sign, no blank, no partial parse.
pub parse_uint_iff :
    (text : Bytes) (max v : ℕ)
    → max < 2 ^ 64
    → (parse_uint text max 10 ≡ some v)
      ↔ ((text ≢ []) × AllDigits text × (decimal 0 text ≡ v) × (v ≤ max))
parse_uint_iff text max v hm = (parse_uint_sound text max v, λ h. sound h)
  where
    sound :
        (text ≢ []) × AllDigits text × (decimal 0 text ≡ v) × (v ≤ max)
        → parse_uint text max 10 ≡ some v
    sound h = ground (arith, parse_uint_digits text max hm h.0 h.1)

-- parse_uint reads back what std::to_string prints, up to its bound.
pub parse_uint-to_string :
    (n max : ℕ) → n ≤ max → max < 2 ^ 64 → parse_uint (to_string n) max 10 ≡ some n
parse_uint-to_string n max h hm = ground (
  arith,
  decimal-to_string n,
  parse_uint_digits (to_string n) max hm (to_string-ne-nil n) (to_string-AllDigits n),
)
