-- ===== src/Sha256/Tests.antt =====
-- Test vectors for core/src/vc_sha256.cpp, and the theorems of this folder at concrete inputs.
use vericonnect_agent.Sha256.Padding.{rfc_block, padded, sha256_lem, hmac_sha256_lem}
use vericonnect_agent.Sha256.Streaming.{absorb, update-append}
use vericonnect_agent.Sha256.{sha256, hmac_sha256, update, reset, digest_of}
use vericonnect_agent.Prelude.{bit_xor, ◌≡◌, refl, [], ◌∷◌, ◌++◌, map, arith, codes}

-- The one-block vector of FIPS 180-4.
abc :
    sha256 (codes "abc")
    ≡ 0xba ∷ 0x78 ∷ 0x16 ∷ 0xbf ∷ 0x8f ∷ 0x01 ∷ 0xcf ∷ 0xea ∷ 0x41 ∷ 0x41 ∷ 0x40 ∷ 0xde ∷ 0x5d
      ∷ 0xae ∷ 0x22 ∷ 0x23 ∷ 0xb0 ∷ 0x03 ∷ 0x61 ∷ 0xa3 ∷ 0x96 ∷ 0x17 ∷ 0x7a ∷ 0x9c ∷ 0xb4 ∷ 0x10
      ∷ 0xff ∷ 0x61 ∷ 0xf2 ∷ 0x00 ∷ 0x15 ∷ 0xad ∷ []
unfolding sha256
abc = refl

sha256_lem_example :
    (sha256 (codes "abc") ≡ digest_of (absorb (padded (codes "abc")) reset).state)
    × ((absorb (padded (codes "abc")) reset).buffer ≡ [])
sha256_lem_example = sha256_lem (codes "abc")

update-append_example :
    update (codes "abcdef") reset ≡ update (codes "def") (update (codes "abc") reset)
update-append_example = update-append (codes "abc") (codes "def") reset (omega arith)

hmac_sha256_lem_example :
    hmac_sha256 (codes "k") (codes "m")
    ≡ sha256 (
        map (λ x. bit_xor x 0x5c) (rfc_block (codes "k"))
        ++ sha256 (map (λ x. bit_xor x 0x36) (rfc_block (codes "k")) ++ codes "m"))
hmac_sha256_lem_example = hmac_sha256_lem (codes "k") (codes "m")
