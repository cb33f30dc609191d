-- ===== src/Sha256/Padding.antt =====
-- core/src/vc_sha256.cpp: finish pads as FIPS 180-4 says, and HMAC as RFC 2104 defines it.
use vericonnect_agent.Prelude.{
  ℕ, zero, suc, ◌+◌, ◌-◌, ◌*◌, ◌%◌, ◌^◌, ◌≤◌, ◌<◌, bit_xor, u64, ◌≡◌, refl, sym, ap, ap₂, ◌∙◌,
  subst, inl, inr, true, false, [], ◌∷◌, ◌++◌, map, arith, Bytes, ltb, leb, ◌==◌, if◌then◌else◌,
  Bool-cases, length, replicate, length-append, eq-nil-of_length, length-replicate,
}
use vericonnect_agent.Sha256.Streaming.{
  absorb, absorb-append, absorb-bitlen, absorb-HasRoom, HasRoom, update-absorb, update-append,
}
use vericonnect_agent.Sha256.{
  Sha, flush, reset, update, pad_byte, pad_zeros, be64, digest_of, finish, sha256, key_block,
  hmac_sha256,
}

-- The message with its padding: a one bit, zeros up to 56 bytes in a block, and the length in bits.
abbrev pub zeros_for : ℕ → ℕ
zeros_for n = (120 - n % 64) % 64

abbrev pub padded : Bytes → Bytes
padded data_ =
    data_ ++ 0x80 ∷ (replicate (zeros_for (length data_ + 1)) 0 ++ be64 (u64 (length data_ * 8)))

flush-length : (s : Sha) → length s.buffer ≤ 64 → length (flush s).buffer ≡ length s.buffer % 64
unfolding flush
flush-length s h = elim (Bool-cases (length s.buffer == 64)) [
  | inl full ↦ rw (flush, full) (ground (arith, full))
  | inr short ↦ rw (flush, short) (ground (arith, short))
]

absorb-length :
    (xs : Bytes) (s : Sha)
    → HasRoom s
    → length (absorb xs s).buffer ≡ (length s.buffer + length xs) % 64
unfolding absorb
absorb-length [] s h = omega arith
absorb-length (x ∷ xs) s h =
    let s1 : Sha = record s { buffer = s.buffer ++ x ∷ [] } in
    let one = length-append s.buffer (x ∷ []) in
    let len = flush-length s1 (omega (arith, one, h)) in
    omega (arith, one, len, absorb-length xs (flush s1) (omega (arith, one, len, h)))

abbrev Counted : Sha → Type 0
Counted s = s.bitlen < 2 ^ 64

absorb_same_bitlen : (xs : Bytes) (s : Sha) → (absorb xs s).bitlen ≡ s.bitlen
absorb_same_bitlen xs s = ap (λ (t : Sha). t.bitlen) (absorb-bitlen xs s s.bitlen)

pad_byte-absorb : (x : ℕ) (s : Sha) → HasRoom s → Counted s → pad_byte x s ≡ absorb (x ∷ []) s
unfolding pad_byte
pad_byte-absorb x s room small =
    ap (λ (t : Sha). record t { bitlen = u64 (t.bitlen + (2 ^ 64 - 8)) })
      (update-absorb (x ∷ []) s room)
    ∙ ap (λ n. record (absorb (x ∷ []) s) { bitlen = n }) back
    ∙ sym (absorb-bitlen (x ∷ []) s s.bitlen)
  where
    back : u64 (u64 (s.bitlen + 1 * 8) + (2 ^ 64 - 8)) ≡ s.bitlen
    back = omega arith

absorb-nil : (s : Sha) → absorb [] s ≡ s
unfolding absorb
absorb-nil s = refl

pad_zeros_done : (fuel : ℕ) (s : Sha) → length s.buffer ≡ 56 → pad_zeros fuel s ≡ s
unfolding pad_zeros
pad_zeros_done zero s h = refl
pad_zeros_done (suc fuel) s h =
    let e : (length s.buffer == 56) ≡ true = ground arith in rw (pad_zeros, e) refl

pad_zeros_more :
    (fuel : ℕ) (s : Sha)
    → (length s.buffer == 56) ≡ false
    → pad_zeros (suc fuel) s ≡ pad_zeros fuel (pad_byte 0 s)
unfolding pad_zeros
pad_zeros_more fuel s h = rw (pad_zeros, h) refl

pad_zeros-absorb :
    (z fuel : ℕ) (s : Sha)
    → HasRoom s
    → Counted s
    → z < 64
    → z ≤ fuel
    → (length s.buffer + z) % 64 ≡ 56
    → pad_zeros fuel s ≡ absorb (replicate z 0) s
pad_zeros-absorb zero fuel s room small few enough aim =
    pad_zeros_done fuel s (omega arith) ∙ sym (absorb-nil s)
pad_zeros-absorb (suc z) zero s room small few enough aim = absurd (omega arith)
pad_zeros-absorb (suc z) (suc fuel) s room small few enough aim =
    let s1 = absorb (0 ∷ []) s in
    let len = absorb-length (0 ∷ []) s room in
    pad_zeros_more fuel s (ground (arith, aim))
    ∙ ap (pad_zeros fuel) (pad_byte-absorb 0 s room small)
    ∙ pad_zeros-absorb z fuel s1 (absorb-HasRoom (0 ∷ []) s room)
        (subst (λ n. n < 2 ^ 64) (sym (absorb_same_bitlen (0 ∷ []) s)) small) (omega arith)
        (omega arith) (omega (arith, len, aim))
    ∙ sym (absorb-append (0 ∷ []) (replicate z 0) s)

-- finish, on an object that holds fewer than 64 bytes and has counted `n` bits.
finish_lem :
    (s : Sha)
    → HasRoom s
    → Counted s
    → finish s
      ≡ digest_of
          (absorb (0x80 ∷ (replicate (zeros_for (length s.buffer + 1)) 0 ++ be64 s.bitlen)) s).state
unfolding finish
finish_lem s room small = ap digest_of (ap (λ (t : Sha). t.state) whole)
  where
    s1 : Sha
    s1 = absorb (0x80 ∷ []) s

    z : ℕ
    z = zeros_for (length s.buffer + 1)

    s2 : Sha
    s2 = absorb (replicate z 0) s1

    room1 : HasRoom s1
    room1 = absorb-HasRoom (0x80 ∷ []) s room

    padding : pad_zeros 64 (pad_byte 0x80 s) ≡ s2
    padding =
        ap (pad_zeros 64) (pad_byte-absorb 0x80 s room small)
        ∙ pad_zeros-absorb z 64 s1 room1
            (subst (λ n. n < 2 ^ 64) (sym (absorb_same_bitlen (0x80 ∷ []) s)) small) (omega arith)
            (omega arith) (omega (arith, absorb-length (0x80 ∷ []) s room, room))

    n : ℕ
    n = u64 (s2.bitlen + length (be64 s.bitlen) * 8)

    all : absorb (be64 s.bitlen) s2 ≡ absorb (0x80 ∷ (replicate z 0 ++ be64 s.bitlen)) s
    all =
        sym (absorb-append (replicate z 0) (be64 s.bitlen) s1)
        ∙ sym (absorb-append (0x80 ∷ []) (replicate z 0 ++ be64 s.bitlen) s)

    whole :
        update (be64 s.bitlen) (pad_zeros 64 (pad_byte 0x80 s))
        ≡ record (absorb (0x80 ∷ (replicate z 0 ++ be64 s.bitlen)) s) { bitlen = n }
    whole =
        ap (update (be64 s.bitlen)) padding
        ∙ update-absorb (be64 s.bitlen) s2 (absorb-HasRoom (replicate z 0) s1 room1)
        ∙ ap (λ (t : Sha). record t { bitlen = n }) all

length-be64 : (n : ℕ) → length (be64 n) ≡ 8
length-be64 n = refl

-- sha256 is the digest of the state after all bytes of the padded message, one at a time, and they
-- make whole blocks.
pub sha256_lem :
    (data_ : Bytes)
    → (sha256 data_ ≡ digest_of (absorb (padded data_) reset).state)
      × ((absorb (padded data_) reset).buffer ≡ [])
unfolding sha256
sha256_lem data_ = (digest, eq-nil-of_length _ (omega (arith, all_length, total)))
  where
    read : Sha
    read = absorb data_ reset

    n : ℕ
    n = u64 (0 + length data_ * 8)

    s : Sha
    s = record read { bitlen = n }

    room : HasRoom s
    room = absorb-HasRoom data_ reset (omega arith)

    len : length read.buffer ≡ (0 + length data_) % 64
    len = absorb-length data_ reset (omega arith)

    pad : Bytes
    pad = 0x80 ∷ (replicate (zeros_for (length data_ + 1)) 0 ++ be64 (u64 (length data_ * 8)))

    same_zeros : zeros_for (length read.buffer + 1) ≡ zeros_for (length data_ + 1)
    same_zeros = omega (arith, len)

    same_count : n ≡ u64 (length data_ * 8)
    same_count = omega arith

    digest : finish (update data_ reset) ≡ digest_of (absorb (padded data_) reset).state
    digest =
        ap finish (update-absorb data_ reset (omega arith))
        ∙ finish_lem s room (omega arith)
        ∙ ap₂ (λ z c. digest_of (absorb (0x80 ∷ (replicate z 0 ++ be64 c)) s).state) same_zeros
            same_count
        ∙ ap (λ (t : Sha). digest_of t.state) (absorb-bitlen pad read n)
        ∙ ap (λ (t : Sha). digest_of t.state) (sym (absorb-append data_ pad reset))

    total : length (padded data_) ≡ length data_ + (9 + zeros_for (length data_ + 1))
    total = omega (
      arith,
      length-append data_ pad,
      length-append (replicate (zeros_for (length data_ + 1)) 0) (be64 (u64 (length data_ * 8))),
      length-replicate {A = ℕ} (zeros_for (length data_ + 1)) 0,
    )

    all_length : length (absorb (padded data_) reset).buffer ≡ (0 + length (padded data_)) % 64
    all_length = absorb-length (padded data_) reset (omega arith)

length-sha256 : (data_ : Bytes) → length (sha256 data_) ≡ 32
unfolding sha256 finish digest_of
length-sha256 data_ = refl

-- The key of RFC 2104 as a block of 64 bytes: a key of up to 64 bytes filled up with zeros, a longer one
-- as its hash of 32 bytes and 32 zeros.
abbrev pub rfc_block : Bytes → Bytes
rfc_block key =
    if leb (length key) 64
    then key ++ replicate (64 - length key) 0
    else sha256 key ++ replicate 32 0

key_block-rfc_block : (key : Bytes) → key_block key ≡ rfc_block key
unfolding key_block
key_block-rfc_block key = elim (Bool-cases (ltb 64 (length key))) [
  | inl y ↦
      let long : leb (length key) 64 ≡ false = ground (arith, y) in
      rw (key_block, y, long) (ap (λ n. sha256 key ++ replicate (64 - n) 0) (length-sha256 key))
  | inr n ↦
      let short : leb (length key) 64 ≡ true = ground (arith, n) in rw (key_block, n, short) refl
]

-- hmac_sha256 is the HMAC of RFC 2104: the hash of the outer pad and the hash of the inner pad and
-- the message, where the pads are the key as a block of 64 bytes, hashed if it is longer than that and
-- filled up with zeros, with 0x5c and 0x36 in each byte.
pub hmac_sha256_lem :
    (key msg : Bytes)
    → hmac_sha256 key msg
      ≡ sha256 (
          map (λ x. bit_xor x 0x5c) (rfc_block key)
          ++ sha256 (map (λ x. bit_xor x 0x36) (rfc_block key) ++ msg))
unfolding hmac_sha256 sha256
hmac_sha256_lem key msg =
    let ipad = map (λ x. bit_xor x 0x36) (key_block key) in
    let opad = map (λ x. bit_xor x 0x5c) (key_block key) in
    ap (λ t. finish (update (finish t) (update opad reset)))
      (sym (update-append ipad msg reset (omega arith)))
    ∙ ap finish (sym (update-append opad (sha256 (ipad ++ msg)) reset (omega arith)))
    ∙ ap (λ k. sha256 (map (λ x. bit_xor x 0x5c) k ++ sha256 (map (λ x. bit_xor x 0x36) k ++ msg)))
        (key_block-rfc_block key)
