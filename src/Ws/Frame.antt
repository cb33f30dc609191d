-- ===== src/Ws/Frame.antt =====
-- Frames as bytes: the header that send_frame writes, the mask, and parse_frame.
pub mod Header
pub mod RoundTrip
pub mod Stream
pub mod Wire
use vericonnect_agent.Common.{Result, ok, err, error, protocol}
use vericonnect_agent.Prelude.{
  ℕ, zero, suc, ◌+◌, ◌*◌, Bool, true, false, not, Option, none, some, [], ◌∷◌, ◌++◌, Bytes, ◌==◌,
  leb, ltb, if◌then◌else◌, length, get_or, take, drop, bit_and, bit_or, bit_xor, u8, u64, ◌<<<◌,
  ◌>>>◌,
}
use vericonnect_agent.Ws.{WsFrame, k_max_msg}

-- `data[off + i] ^ mask[(off + i) & 3]`, from index `i` on.
unfoldable pub xor_mask : Bytes → ℕ → Bytes → Bytes
xor_mask mask i [] = []
xor_mask mask i (b ∷ bs) = bit_xor b (get_or mask (bit_and i 3) 0) ∷ xor_mask mask (i + 1) bs

-- The loop that writes the 64-bit length, most significant byte first; `i` bytes are left.
unfoldable pub be_bytes : ℕ → ℕ → Bytes
be_bytes zero len = []
be_bytes (suc i) len = u8 (len >>> (i * 8)) ∷ be_bytes i len

-- The length part of the header, with the mask bit set.
unfoldable pub length_bytes : ℕ → Bytes
unfolding be_bytes
length_bytes len =
    if ltb len 126
    then u8 (bit_or 0x80 len) ∷ []
    else if leb len 0xFFFF
    then bit_or 0x80 126 ∷ u8 (len >>> 8) ∷ u8 len ∷ []
    else bit_or 0x80 127 ∷ be_bytes 8 len

-- What send_frame puts into `hdr` before the mask.
unfoldable pub header_bytes : ℕ → Bool → ℕ → Bytes
header_bytes opcode fin len = u8 (bit_or (if fin then 0x80 else 0x00) opcode) ∷ length_bytes len

-- `for (i = 0; i < n; i++) len = (len << 8) | p[pos + i]`
unfoldable pub read_be : ℕ → Bytes → ℕ → ℕ
read_be zero p len = len
read_be (suc n) p len = read_be n (drop 1 p) (bit_or (u64 (len <<< 8)) (get_or p 0 0))

-- The length and the position behind it; `none` is "more bytes are needed".
unfoldable pub read_length : Bytes → ℕ → Option (ℕ × ℕ)
unfolding read_be
read_length p len7 =
    if len7 == 126
    then if ltb (length p) (2 + 2)
      then none
      else some (bit_or (u64 (get_or p 2 0 <<< 8)) (get_or p 3 0), 4)
    else if len7 == 127
    then if ltb (length p) (2 + 8) then none else some (read_be 8 (drop 2 p) 0, 10)
    else some (len7, 2)

-- From the mask on: the payload, unmasked, and the bytes behind the frame.
unfoldable pub read_payload : Bytes → Bool → ℕ → ℕ → Option (Bytes × Bytes)
unfolding xor_mask
read_payload p true len pos =
    if ltb (length p) (pos + 4)
    then none
    else if ltb (length p) (pos + 4 + len)
    then none
    else some
        (xor_mask (take 4 (drop pos p)) 0 (take len (drop (pos + 4) p)), drop (pos + 4 + len) p)
read_payload p false len pos =
    if ltb (length p) (pos + len) then none else some (take len (drop pos p), drop (pos + len) p)

-- The flags of the first two bytes: `f.fin`, `f.opcode` and `masked`.
abbrev pub fin_flag : Bytes → Bool
fin_flag p = not (bit_and (get_or p 0 0) 0x80 == 0)

abbrev pub opcode_bits : Bytes → ℕ
opcode_bits p = bit_and (get_or p 0 0) 0x0F

abbrev pub mask_flag : Bytes → Bool
mask_flag p = not (bit_and (get_or p 1 0) 0x80 == 0)

-- The end of parse_frame, once the payload is there or is not.
abbrev pub with_payload : Bytes → Option (Bytes × Bytes) → Result (Option (WsFrame × Bytes))
with_payload p none = ok none
with_payload p (some (payload, rest)) =
    ok (some (record { opcode = opcode_bits p; fin = fin_flag p; payload = payload }, rest))

-- The part of parse_frame behind the length: the size cap, the mask and the payload.
abbrev pub with_length : Bytes → Option (ℕ × ℕ) → Result (Option (WsFrame × Bytes))
with_length p none = ok none
with_length p (some (len, pos)) =
    if ltb k_max_msg len
    then err (error protocol)
    else with_payload p (read_payload p (mask_flag p) len pos)

-- The frame in front of `p` and what is left of `p`, `none` if more bytes are needed.
unfoldable pub parse_frame : Bytes → Result (Option (WsFrame × Bytes))
parse_frame p =
    if ltb (length p) 2
    then ok none
    else with_length p (read_length p (bit_and (get_or p 1 0) 0x7F))

-- A frame as send_frame writes it: header, mask, masked payload.
unfoldable pub frame_bytes : ℕ → Bool → Bytes → Bytes → Bytes
unfolding header_bytes xor_mask
frame_bytes opcode fin mask payload =
    header_bytes opcode fin (length payload) ++ (mask ++ xor_mask mask 0 payload)
