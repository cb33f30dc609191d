-- ===== src/Json/Text/Tests.antt =====
-- Concrete strings of core/src/vc_json.cpp.
use vericonnect_agent.Json.Text.{parse_string_raw}
use vericonnect_agent.Prelude.{◌≡◌, refl, some, [], ◌∷◌, codes}

-- A surrogate pair becomes four bytes.
surrogates :
    parse_string_raw (codes "\"\\ud83d\\ude00\"") ≡ some (0xF0 ∷ 0x9F ∷ 0x98 ∷ 0x80 ∷ [], [])
unfolding parse_string_raw
surrogates = refl
