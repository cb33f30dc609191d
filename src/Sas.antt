-- ===== src/Sas.antt =====
-- core/src/vc_sas.cpp: shared access signatures for the relay service. The wall clock is an
-- argument; the time to live is an unsigned int, its sum with the clock a 64-bit value.
pub mod Signature
mod Tests
use vericonnect_agent.Base64.{encode}
use vericonnect_agent.Common.{to_string}
use vericonnect_agent.Prelude.Ascii.{to_lower}
use vericonnect_agent.Prelude.{
  ℕ, ◌+◌, ◌/◌, u64, inl, inr, ◌||◌, [], ◌∷◌, ◌++◌, map, arith, Bytes, codes, ◌==◌, if◌then◌else◌,
  tests, is_nil,
}
use vericonnect_agent.Sha256.{hmac_sha256}
use vericonnect_agent.Url.{url_encode}

-- The resource URI, in lower case and encoded.
unfoldable pub encoded_uri : Bytes → Bytes → Bytes
unfolding url_encode
encoded_uri namespace_host entity_path =
    url_encode (map to_lower (codes "http://" ++ (namespace_host ++ b'/' ∷ entity_path)))

-- The time of expiry; a time to live of 0 is an hour.
abbrev pub expiry_at : ℕ → ℕ → ℕ
expiry_at now ttl_seconds = u64 (now + (if ttl_seconds == 0 then 3600 else ttl_seconds))

-- The text that is signed.
abbrev pub string_to_sign : Bytes → ℕ → Bytes
string_to_sign enc_uri expiry = enc_uri ++ b'\n' ∷ to_string expiry

unfoldable pub sas_token : ℕ → Bytes → Bytes → Bytes → Bytes → ℕ → Bytes
unfolding encoded_uri hmac_sha256 encode to_string
sas_token now namespace_host entity_path key_name key ttl_seconds =
    let enc_uri = encoded_uri namespace_host entity_path in
    let expiry = expiry_at now ttl_seconds in
    let digest = hmac_sha256 key (string_to_sign enc_uri expiry) in
    let sig_enc = url_encode (encode digest) in
    if is_nil namespace_host || is_nil entity_path || is_nil key_name || is_nil key
    then []
    else codes "SharedAccessSignature sr="
      ++ (enc_uri
          ++ (codes "&sig="
              ++ (sig_enc ++ (codes "&se=" ++ (to_string expiry ++ (codes "&skn=" ++ key_name))))))
