-- ===== src/Ws/Frame/Header.antt =====
-- Reading back the header that header_bytes writes, whatever follows it.
use native.Mathlib.Nat.{div-le_self}
use vericonnect_agent.Prelude.Bits.{bit_or_sum, bit_and_low, top_bit}
use vericonnect_agent.Prelude.{
  ℕ, suc, ◌+◌, ◌*◌, ◌/◌, ◌%◌, ◌^◌, ◌≤◌, ◌<◌, Bool, true, false, not, some, [], ◌∷◌, ◌++◌, ◌≡◌, refl,
  ap, ◌∙◌, inl, inr, Bytes, ◌==◌, leb, ltb, if◌then◌else◌, Bool-cases, length, get_or, ltb→lt,
  leb→le, bit_and, bit_or, u8, u64, ◌<<<◌, ◌>>>◌, arith,
}
use vericonnect_agent.Ws.Frame.{be_bytes, length_bytes, header_bytes, read_be, read_length}

first_byte :
    (fin : Bool) (op : ℕ)
    → op < 16
    → u8 (bit_or (if fin then 0x80 else 0x00) op) ≡ (if fin then 128 + op else op)
first_byte true op h = omega (arith, bit_or_sum 7 1 op (omega arith))
first_byte false op h = omega (arith, bit_or_sum 7 0 op (omega arith))

first_byte_parts :
    (fin : Bool) (op : ℕ)
    → op < 16
    → let b = u8 (bit_or (if fin then 0x80 else 0x00) op) in
      (not (bit_and b 0x80 == 0) ≡ fin) × (bit_and b 0x0F ≡ op)
first_byte_parts true op h =
    rw (first_byte true op h)
      (rw (top_bit (128 + op) (omega arith)) (ground arith), bit_and_low 4 (128 + op) ∙ omega arith)
first_byte_parts false op h =
    rw (first_byte false op h)
      (rw (top_bit op (omega arith)) (ground arith), bit_and_low 4 op ∙ omega arith)

-- A length byte below 128 with the mask bit set.
second_byte_parts :
    (n : ℕ) → n < 128 → (not (bit_and (128 + n) 0x80 == 0) ≡ true) × (bit_and (128 + n) 0x7F ≡ n)
second_byte_parts n h =
    (rw (top_bit (128 + n) (omega arith)) (ground arith), bit_and_low 7 (128 + n) ∙ omega arith)

mask_bit : (n : ℕ) → n < 128 → bit_or 0x80 n ≡ 128 + n
mask_bit n h = bit_or_sum 7 1 n h

-- One byte more of a big-endian number that fits in 64 bits.
append_byte : (q : ℕ) → q < 2 ^ 64 → bit_or (u64 ((q / 256) <<< 8)) (q % 256) ≡ q
append_byte q h =
    let shifted : u64 ((q / 256) <<< 8) ≡ q / 256 * 2 ^ 8 = omega arith in
    rw shifted (omega (arith, bit_or_sum 8 (q / 256) (q % 256) (omega arith)))

be_step :
    (v len i : ℕ) (t : Bytes) (n : ℕ)
    → len < 2 ^ 64
    → v ≡ len / 2 ^ (i * 8) / 256
    → read_be (suc n) (u8 (len >>> (i * 8)) ∷ t) v ≡ read_be n t (len >>> (i * 8))
unfolding read_be
be_step v len i t n h e =
    rw (e, append_byte (len / 2 ^ (i * 8)) (omega (arith, div-le_self len (2 ^ (i * 8))))) refl

read_be-be_bytes : (len : ℕ) (t : Bytes) → len < 2 ^ 64 → read_be 8 (be_bytes 8 len ++ t) 0 ≡ len
unfolding be_bytes
read_be-be_bytes len t h =
    be_step 0 len 7 _ 7 h (omega arith)
    ∙ be_step _ len 6 _ 6 h (omega arith)
    ∙ be_step _ len 5 _ 5 h (omega arith)
    ∙ be_step _ len 4 _ 4 h (omega arith)
    ∙ be_step _ len 3 _ 3 h (omega arith)
    ∙ be_step _ len 2 _ 2 h (omega arith)
    ∙ be_step _ len 1 _ 1 h (omega arith)
    ∙ be_step _ len 0 _ 0 h (omega arith)
    ∙ last
  where
    last : read_be 0 t (len >>> (0 * 8)) ≡ len
    last = unfold read_be in omega arith

-- The whole header read back: the flags, the opcode, the length, and where the header ends.
pub record HeaderRead (masking fin : Bool) (op len size : ℕ) (p : Bytes) : Type 0 where
  pub enough : ltb (length p) 2 ≡ false
  pub fin_flag : not (bit_and (get_or p 0 0) 0x80 == 0) ≡ fin
  pub opcode : bit_and (get_or p 0 0) 0x0F ≡ op
  pub masked : not (bit_and (get_or p 1 0) 0x80 == 0) ≡ masking
  pub length_read : read_length p (bit_and (get_or p 1 0) 0x7F) ≡ some (len, size)

pub short_length :
    (b c len : ℕ) (t : Bytes) → len < 126 → read_length (b ∷ c ∷ t) len ≡ some (len, 2)
unfolding read_length
short_length b c len t h = ground arith

pub medium_length :
    (b c len : ℕ) (t : Bytes)
    → len ≤ 0xFFFF
    → read_length (b ∷ c ∷ u8 (len >>> 8) ∷ u8 len ∷ t) 126 ≡ some (len, 4)
unfolding read_length
medium_length b c len t h =
    let whole : bit_or (u64 (u8 (len >>> 8) <<< 8)) (u8 len) ≡ len =
      let high : u8 (len >>> 8) ≡ len / 256 = omega arith in
      rw high (append_byte len (omega arith)) in
    ground (arith, whole)

pub long_length :
    (b c len : ℕ) (t : Bytes)
    → len < 2 ^ 64
    → read_length (b ∷ c ∷ (be_bytes 8 len ++ t)) 127 ≡ some (len, 10)
unfolding read_length be_bytes
long_length b c len t h = ground (arith, read_be-be_bytes len t h)

length_bytes_short : (len : ℕ) → len < 126 → length_bytes len ≡ (128 + len) ∷ []
unfolding length_bytes
length_bytes_short len h = ground (arith, mask_bit len (omega arith))

length_bytes_medium :
    (len : ℕ)
    → 126 ≤ len
    → len ≤ 0xFFFF
    → length_bytes len ≡ (128 + 126) ∷ u8 (len >>> 8) ∷ u8 len ∷ []
unfolding length_bytes
length_bytes_medium len h k = ground arith

length_bytes_long : (len : ℕ) → 0xFFFF < len → length_bytes len ≡ (128 + 127) ∷ be_bytes 8 len
unfolding length_bytes
length_bytes_long len h = ground arith

module _ (fin : Bool) (op len : ℕ) (t : Bytes) (ho : op < 16) (hl : len < 2 ^ 64) where
  abbrev written : Bytes
  written = header_bytes op fin len

  abbrev flags : ℕ
  flags = u8 (bit_or (if fin then 0x80 else 0x00) op)

  read_short : len < 126 → HeaderRead true fin op len (length written) (written ++ t)
  unfolding header_bytes
  read_short h =
      let two = second_byte_parts len (omega arith) in
      rw (length_bytes_short len h) (record {
        enough = ground arith;
        fin_flag = (first_byte_parts fin op ho).0;
        opcode = (first_byte_parts fin op ho).1;
        masked = two.0;
        length_read = rw two.1 (short_length flags (128 + len) len t h);
      })

  read_medium :
      126 ≤ len → len ≤ 0xFFFF → HeaderRead true fin op len (length written) (written ++ t)
  unfolding header_bytes
  read_medium h k =
      let two = second_byte_parts 126 (omega arith) in
      rw (length_bytes_medium len h k) (record {
        enough = ground arith;
        fin_flag = (first_byte_parts fin op ho).0;
        opcode = (first_byte_parts fin op ho).1;
        masked = two.0;
        length_read = medium_length flags (128 + 126) len t k;
      })

  read_long : 0xFFFF < len → HeaderRead true fin op len (length written) (written ++ t)
  unfolding header_bytes
  read_long h =
      let two = second_byte_parts 127 (omega arith) in
      rw (length_bytes_long len h) (record {
        enough = ground arith;
        fin_flag = (first_byte_parts fin op ho).0;
        opcode = (first_byte_parts fin op ho).1;
        masked = two.0;
        length_read = long_length flags (128 + 127) len t hl ∙ ap (λ n. some (len, n)) size;
      })
    where
      size : ◌≡◌ {A = ℕ} 10 (length (flags ∷ (128 + 127) ∷ be_bytes 8 len))
      size = unfold be_bytes in refl

pub header-HeaderRead :
    (fin : Bool) (op len : ℕ) (t : Bytes)
    → op < 16
    → len < 2 ^ 64
    → HeaderRead true fin op len (length (header_bytes op fin len)) (header_bytes op fin len ++ t)
header-HeaderRead fin op len t ho hl = elim (Bool-cases (ltb len 126)) [
  | inl short ↦ read_short fin op len t ho hl (ltb→lt len 126 short)
  | inr more ↦ elim (Bool-cases (leb len 0xFFFF)) [
    | inl medium ↦ read_medium fin op len t ho hl (ground arith) (leb→le len 0xFFFF medium)
    | inr long ↦ read_long fin op len t ho hl (ground arith)
  ]
]
