-- ===== src/Sas/Signature.antt =====
-- core/src/vc_sas.cpp: what the service can read back from a token.
use vericonnect_agent.Base64.{decode}
use vericonnect_agent.Prelude.Ascii.{to_lower}
use vericonnect_agent.Common.{parse_uint}
use vericonnect_agent.Prelude.Search.{span}
use vericonnect_agent.Prelude.{
  ℕ, ◌-◌, ◌^◌, ◌<◌, ◌≡◌, Bool, true, not, ◌&&◌, some, [], ◌∷◌, ◌++◌, map, Bytes, codes, ltb, ◌==◌,
  drop, All,
}
use vericonnect_agent.Sha256.{hmac_sha256}
use vericonnect_agent.Url.Encode.{percent_decode}

abbrev not_amp : ℕ → Bool
not_amp c = not (c == b'&')

-- The service's reading of a token: the texts behind "sr=", "sig=", "se=" and "skn=".
pub record Fields : Type 0 where
  pub sr : Bytes
  pub sig : Bytes
  pub se : Bytes
  pub skn : Bytes

unfoldable pub read_fields : Bytes → Fields
unfolding span
read_fields token =
    let a = span not_amp (drop 25 token) in
    let b = span not_amp (drop 5 a.1) in
    let c = span not_amp (drop 4 b.1) in record { sr = a.0; sig = b.0; se = c.0; skn = drop 5 c.1 }

NoAmp : Bytes → Type 0
NoAmp s = All (λ c. not_amp c ≡ true) s

IsBytes : Bytes → Type 0
IsBytes s = All (λ c. c < 256) s

all_below_256 : Bytes → Bool
all_below_256 [] = true
all_below_256 (c ∷ s) = ltb c 256 && all_below_256 s

-- The resource that a token is for.
abbrev pub resource : Bytes → Bytes → Bytes
resource namespace_host entity_path =
    map to_lower (codes "http://" ++ (namespace_host ++ b'/' ∷ entity_path))

-- What a service checks in the fields of a token: the resource, the time, the key's name, and that
-- the signature is the HMAC of the fields "sr" and "se" as they stand under the key.
unfoldable pub Accepts : Bytes → ℕ → Bytes → Bytes → Fields → Type 0
Accepts uri expiry key_name key f =
    (percent_decode f.sr ≡ some uri)
    × (parse_uint f.se (2 ^ 64 - 1) 10 ≡ some expiry)
    × (f.skn ≡ key_name)
    × ((text : Bytes) × (percent_decode f.sig ≡ some text)
        × (decode text ≡ some (hmac_sha256 key (f.sr ++ b'\n' ∷ f.se))))
