-- ===== src/Common/Tests.antt =====
-- Runs of parse_uint, and its theorems at concrete inputs.
use vericonnect_agent.Common.{digit_value, scan_digits, parse_uint, error_detail, not_found}
use vericonnect_agent.Prelude.{some, none, ◌≡◌, refl, codes}

hex_chunk : parse_uint (codes "1aF") 0xffff 16 ≡ some 0x1af
unfolding parse_uint scan_digits digit_value
hex_chunk = refl

refused :
    (parse_uint (codes "-1") 100 10 ≡ none)
    × (parse_uint (codes "12x") 100 10 ≡ none)
    × (parse_uint (codes "101") 100 10 ≡ none)
    × (parse_uint (codes "18446744073709551616") 100 10 ≡ none)
unfolding parse_uint scan_digits digit_value
refused = (refl, refl, refl, refl)

detail :
    error_detail (λ n. codes "no such file") (record { code = not_found; os_code = 2 })
    ≡ codes "not found (no such file)"
unfolding error_detail
detail = refl
