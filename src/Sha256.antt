-- ===== src/Sha256.antt =====
-- core/src/vc_sha256.cpp: SHA-256 (FIPS 180-4) and HMAC-SHA256 (RFC 2104). A Sha256 object is a
-- record; its words are natural numbers that every operation keeps below 2^32.
pub mod Streaming
pub mod Padding
mod Tests
use vericonnect_agent.Prelude.{
  ℕ, zero, suc, ◌+◌, ◌-◌, ◌*◌, ◌^◌, ◌<◌, min, bit_and, bit_or, bit_xor, u8, u32, u64, ◌<<<◌, ◌>>>◌,
  inl, inr, true, false, List, [], ◌∷◌, ◌++◌, map, arith, Bytes, ltb, ◌==◌, if◌then◌else◌, tests,
  length, get_or, take, drop, replicate,
}

-- The array K.
abbrev pub k_table : List ℕ
k_table =
    0x428a2f98 ∷ 0x71374491 ∷ 0xb5c0fbcf ∷ 0xe9b5dba5 ∷ 0x3956c25b ∷ 0x59f111f1 ∷ 0x923f82a4
    ∷ 0xab1c5ed5 ∷ 0xd807aa98 ∷ 0x12835b01 ∷ 0x243185be ∷ 0x550c7dc3 ∷ 0x72be5d74 ∷ 0x80deb1fe
    ∷ 0x9bdc06a7 ∷ 0xc19bf174 ∷ 0xe49b69c1 ∷ 0xefbe4786 ∷ 0x0fc19dc6 ∷ 0x240ca1cc ∷ 0x2de92c6f
    ∷ 0x4a7484aa ∷ 0x5cb0a9dc ∷ 0x76f988da ∷ 0x983e5152 ∷ 0xa831c66d ∷ 0xb00327c8 ∷ 0xbf597fc7
    ∷ 0xc6e00bf3 ∷ 0xd5a79147 ∷ 0x06ca6351 ∷ 0x14292967 ∷ 0x27b70a85 ∷ 0x2e1b2138 ∷ 0x4d2c6dfc
    ∷ 0x53380d13 ∷ 0x650a7354 ∷ 0x766a0abb ∷ 0x81c2c92e ∷ 0x92722c85 ∷ 0xa2bfe8a1 ∷ 0xa81a664b
    ∷ 0xc24b8b70 ∷ 0xc76c51a3 ∷ 0xd192e819 ∷ 0xd6990624 ∷ 0xf40e3585 ∷ 0x106aa070 ∷ 0x19a4c116
    ∷ 0x1e376c08 ∷ 0x2748774c ∷ 0x34b0bcb5 ∷ 0x391c0cb3 ∷ 0x4ed8aa4a ∷ 0x5b9cca4f ∷ 0x682e6ff3
    ∷ 0x748f82ee ∷ 0x78a5636f ∷ 0x84c87814 ∷ 0x8cc70208 ∷ 0x90befffa ∷ 0xa4506ceb ∷ 0xbef9a3f7
    ∷ 0xc67178f2 ∷ []

abbrev pub rotr : ℕ → ℕ → ℕ
rotr x n = bit_or (x >>> n) (u32 (x <<< (32 - n)))

-- state_, and the variables a to h of block.
pub record Words : Type 0 where
  pub a : ℕ
  pub b : ℕ
  pub c : ℕ
  pub d : ℕ
  pub e : ℕ
  pub f : ℕ
  pub g : ℕ
  pub h : ℕ

-- Sha256: buffer_ up to buflen_ is `buffer`.
pub record Sha : Type 0 where
  pub state : Words
  pub bitlen : ℕ
  pub buffer : Bytes

-- The first loop of block: big-endian words.
unfoldable pub read_words : ℕ → Bytes → List ℕ
read_words zero p = []
read_words (suc n) p =
    bit_or
      (bit_or (bit_or (u32 (get_or p 0 0 <<< 24)) (u32 (get_or p 1 0 <<< 16)))
        (u32 (get_or p 2 0 <<< 8)))
      (get_or p 3 0)
    ∷ read_words n (drop 4 p)

abbrev pub small_sigma0 : ℕ → ℕ
small_sigma0 x = bit_xor (bit_xor (rotr x 7) (rotr x 18)) (x >>> 3)

abbrev pub small_sigma1 : ℕ → ℕ
small_sigma1 x = bit_xor (bit_xor (rotr x 17) (rotr x 19)) (x >>> 10)

-- The second loop of block, for `n` more words from index `i` on.
unfoldable pub extend_words : ℕ → ℕ → List ℕ → List ℕ
extend_words zero i w = w
extend_words (suc n) i w = extend_words n (i + 1) (
    w
    ++ u32 (
        get_or w (i - 16) 0
        + small_sigma0 (get_or w (i - 15) 0)
        + get_or w (i - 7) 0
        + small_sigma1 (get_or w (i - 2) 0))
      ∷ [])

-- One round of the third loop, with K[i] and w[i].
unfoldable pub round : Words → ℕ → ℕ → Words
round v k w =
    let s1 = bit_xor (bit_xor (rotr v.e 6) (rotr v.e 11)) (rotr v.e 25) in
    let ch = bit_xor (bit_and v.e v.f) (bit_and (0xffffffff - v.e) v.g) in
    let t1 = u32 (v.h + s1 + ch + k + w) in
    let s0 = bit_xor (bit_xor (rotr v.a 2) (rotr v.a 13)) (rotr v.a 22) in
    let mj = bit_xor (bit_xor (bit_and v.a v.b) (bit_and v.a v.c)) (bit_and v.b v.c) in
    let t2 = u32 (s0 + mj) in
    record {
      a = u32 (t1 + t2);
      b = v.a;
      c = v.b;
      d = v.c;
      e = u32 (v.d + t1);
      f = v.e;
      g = v.f;
      h = v.g;
    }

unfoldable pub rounds : List ℕ → List ℕ → Words → Words
unfolding round
rounds [] ws v = v
rounds (k ∷ ks) [] v = v
rounds (k ∷ ks) (w ∷ ws) v = rounds ks ws (round v k w)

abbrev pub add_words : Words → Words → Words
add_words s v = record {
  a = u32 (s.a + v.a);
  b = u32 (s.b + v.b);
  c = u32 (s.c + v.c);
  d = u32 (s.d + v.d);
  e = u32 (s.e + v.e);
  f = u32 (s.f + v.f);
  g = u32 (s.g + v.g);
  h = u32 (s.h + v.h);
}

-- Sha256::block, on the state
unfoldable pub block : Words → Bytes → Words
unfolding read_words extend_words rounds
block s p = add_words s (rounds k_table (extend_words 48 16 (read_words 16 p)) s)

-- Sha256::reset
abbrev pub reset : Sha
reset = record {
  state = record {
    a = 0x6a09e667;
    b = 0xbb67ae85;
    c = 0x3c6ef372;
    d = 0xa54ff53a;
    e = 0x510e527f;
    f = 0x9b05688c;
    g = 0x1f83d9ab;
    h = 0x5be0cd19;
  };
  bitlen = 0;
  buffer = [];
}

-- `block(buffer_); buflen_ = 0` on a full buffer.
unfoldable pub flush : Sha → Sha
unfolding block
flush s =
    if length s.buffer == 64 then record s { state = block s.state s.buffer; buffer = [] } else s

-- The loop of update over what is left of the data, on fuel for its bytes.
unfoldable pub update_loop : ℕ → Bytes → Sha → Sha
unfolding flush
update_loop zero data_ s = s
update_loop (suc fuel) [] s = s
update_loop (suc fuel) (x ∷ xs) s =
    let k = min (64 - length s.buffer) (length (x ∷ xs)) in
    update_loop fuel (drop k (x ∷ xs)) (flush (record s { buffer = s.buffer ++ take k (x ∷ xs) }))

unfoldable pub update : Bytes → Sha → Sha
unfolding update_loop
update data_ s =
    update_loop (length data_) data_ (record s { bitlen = u64 (s.bitlen + length data_ * 8) })

-- `update` of one byte of padding, which does not count: `bitlen_ -= 8`.
unfoldable pub pad_byte : ℕ → Sha → Sha
unfolding update
pad_byte x s = let s1 = update (x ∷ []) s in record s1 { bitlen = u64 (s1.bitlen + (2 ^ 64 - 8)) }

-- The loop of finish; `fuel` is the most zeros that can be needed.
unfoldable pub pad_zeros : ℕ → Sha → Sha
unfolding pad_byte
pad_zeros zero s = s
pad_zeros (suc fuel) s = elim (length s.buffer == 56) [
  | true ↦ s
  | false ↦ pad_zeros fuel (pad_byte 0 s)
]

abbrev pub be32 : ℕ → Bytes
be32 x = u8 (x >>> 24) ∷ u8 (x >>> 16) ∷ u8 (x >>> 8) ∷ u8 x ∷ []

-- lenbuf
abbrev pub be64 : ℕ → Bytes
be64 x =
    u8 (x >>> 56)
    ∷ u8 (x >>> 48)
    ∷ u8 (x >>> 40)
    ∷ u8 (x >>> 32)
    ∷ u8 (x >>> 24)
    ∷ u8 (x >>> 16)
    ∷ u8 (x >>> 8)
    ∷ u8 (x >>> 0)
    ∷ []

unfoldable pub digest_of : Words → Bytes
digest_of v =
    be32 v.a
    ++ (be32 v.b ++ (be32 v.c ++ (be32 v.d ++ (be32 v.e ++ (be32 v.f ++ (be32 v.g ++ be32 v.h))))))

unfoldable pub finish : Sha → Bytes
unfolding pad_zeros digest_of
finish s = digest_of (update (be64 s.bitlen) (pad_zeros 64 (pad_byte 0x80 s))).state

unfoldable pub sha256 : Bytes → Bytes
unfolding finish
sha256 data_ = finish (update data_ reset)

-- kblock
unfoldable pub key_block : Bytes → Bytes
unfolding sha256
key_block key =
    let k = if ltb 64 (length key) then sha256 key else key in k ++ replicate (64 - length k) 0

unfoldable pub hmac_sha256 : Bytes → Bytes → Bytes
unfolding key_block
hmac_sha256 key msg =
    let ipad = map (λ x. bit_xor x 0x36) (key_block key) in
    let opad = map (λ x. bit_xor x 0x5c) (key_block key) in
    let inner = finish (update msg (update ipad reset)) in finish (update inner (update opad reset))
