-- ===== src/Base64/Tests.antt =====
-- Runs of the encoder and the decoder.
use vericonnect_agent.Base64.RoundTrip.{decode-encode}
use vericonnect_agent.Base64.{tab, b64_val, encode, push_sextet, decode_step, decode_loop, decode}
use vericonnect_agent.Prelude.{none, some, ◌∷◌, [], Bytes, codes, ◌≡◌, refl, arith}

abbrev sample : Bytes
sample = 0 ∷ 255 ∷ 62 ∷ 191 ∷ []

encode_foobar : (encode (codes "fooba") ≡ codes "Zm9vYmE=") × (encode (codes "f") ≡ codes "Zg==")
unfolding encode tab
encode_foobar = (refl, refl)

decode_spaced : decode (codes "Zm9v\r\nYm E=\n") ≡ some (codes "fooba")
unfolding decode decode_loop decode_step push_sextet b64_val
decode_spaced = refl

decode_refused :
    (decode (codes "Zg=v") ≡ none) × (decode (codes "Zm9vY") ≡ none) × (decode (codes "Z*") ≡ none)
unfolding decode decode_loop decode_step push_sextet b64_val
decode_refused = (refl, refl, refl)

decode-encode_example : decode (encode sample) ≡ some sample
decode-encode_example = decode-encode sample (omega arith)
