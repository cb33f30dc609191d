-- ===== src/Ws/Frame/Wire.antt =====
-- Frames as they may arrive: masked ones, and unmasked ones, which are what a server sends.
use vericonnect_agent.Common.{ok}
use vericonnect_agent.Prelude.Bits.{bit_and_low, top_bit}
use vericonnect_agent.Prelude.Lists.{drop-add}
use vericonnect_agent.Prelude.{
  ℕ, ◌+◌, ◌^◌, ◌≤◌, ◌<◌, Bool, true, false, not, some, List, [], ◌∷◌, ◌++◌, ◌≡◌, refl, ap, ◌∙◌, inl,
  inr, ◌⊎◌, Bytes, ◌==◌, leb, ltb, if◌then◌else◌, Bool-cases, length, ltb→lt, leb→le, ltb-false,
  bit_and, u8, ◌>>>◌, length-append, take-append_left, drop-append_left, append_assoc, arith,
}
use vericonnect_agent.Ws.Frame.Header.{HeaderRead, short_length, medium_length, long_length}
use vericonnect_agent.Ws.Frame.RoundTrip.{parse_frame-frame_bytes}
use vericonnect_agent.Ws.Frame.{be_bytes, read_payload, parse_frame, frame_bytes}
use vericonnect_agent.Ws.{WsFrame, k_max_msg}

-- The length of an unmasked frame, in the shortest of its three forms.
abbrev pub server_length : ℕ → Bytes
server_length len =
    if ltb len 126
    then len ∷ []
    else if leb len 0xFFFF
    then 126 ∷ u8 (len >>> 8) ∷ u8 len ∷ []
    else 127 ∷ be_bytes 8 len

abbrev pub server_header : ℕ → Bool → ℕ → Bytes
server_header op fin len = (if fin then 128 + op else op) ∷ server_length len

-- An unmasked frame: header and payload.
abbrev pub server_bytes : ℕ → Bool → Bytes → Bytes
server_bytes op fin payload = server_header op fin (length payload) ++ payload

-- The bytes of a frame, masked with some four bytes or not masked.
abbrev pub IsOnWire : WsFrame → Bytes → Type 0
IsOnWire f bs =
    ((mask : Bytes) × (length mask ≡ 4) × (bs ≡ frame_bytes f.opcode f.fin mask f.payload))
    ⊎ (bs ≡ server_bytes f.opcode f.fin f.payload)

-- The bytes of some frames, one behind the other.
abbrev pub AreOnWire : List WsFrame → Bytes → Type 0
AreOnWire [] bs = bs ≡ []
AreOnWire (f ∷ fs) bs =
    (front : Bytes) × (back : Bytes) × IsOnWire f front × AreOnWire fs back × (bs ≡ front ++ back)

first_parts :
    (fin : Bool) (op : ℕ)
    → op < 16
    → let b = if fin then 128 + op else op in
      (not (bit_and b 0x80 == 0) ≡ fin) × (bit_and b 0x0F ≡ op)
first_parts true op h =
    (rw (top_bit (128 + op) (omega arith)) (ground arith), bit_and_low 4 (128 + op) ∙ omega arith)
first_parts false op h =
    (rw (top_bit op (omega arith)) (ground arith), bit_and_low 4 op ∙ omega arith)

-- A length byte without the mask bit.
length_parts : (n : ℕ) → n < 128 → (not (bit_and n 0x80 == 0) ≡ false) × (bit_and n 0x7F ≡ n)
length_parts n h = (rw (top_bit n (omega arith)) (ground arith), bit_and_low 7 n ∙ omega arith)

module _ (fin : Bool) (op len : ℕ) (t : Bytes) (ho : op < 16) (hl : len < 2 ^ 64) where
  abbrev sent : Bytes
  sent = server_header op fin len

  abbrev flags : ℕ
  flags = if fin then 128 + op else op

  sent_short : len < 126 → HeaderRead false fin op len (length sent) (sent ++ t)
  sent_short h =
      let two = length_parts len (omega arith) in
      let e : server_length len ≡ len ∷ [] = ground arith in
      rw e (record {
        enough = ground arith;
        fin_flag = (first_parts fin op ho).0;
        opcode = (first_parts fin op ho).1;
        masked = two.0;
        length_read = rw two.1 (short_length flags len len t h);
      })

  sent_medium : 126 ≤ len → len ≤ 0xFFFF → HeaderRead false fin op len (length sent) (sent ++ t)
  sent_medium h k =
      let two = length_parts 126 (omega arith) in
      let e : server_length len ≡ 126 ∷ u8 (len >>> 8) ∷ u8 len ∷ [] = ground arith in
      rw e (record {
        enough = ground arith;
        fin_flag = (first_parts fin op ho).0;
        opcode = (first_parts fin op ho).1;
        masked = two.0;
        length_read = medium_length flags 126 len t k;
      })

  sent_long : 0xFFFF < len → HeaderRead false fin op len (length sent) (sent ++ t)
  sent_long h =
      let two = length_parts 127 (omega arith) in
      let e : server_length len ≡ 127 ∷ be_bytes 8 len = ground arith in
      rw e (record {
        enough = ground arith;
        fin_flag = (first_parts fin op ho).0;
        opcode = (first_parts fin op ho).1;
        masked = two.0;
        length_read = long_length flags 127 len t hl ∙ ap (λ n. some (len, n)) size;
      })
    where
      size : ◌≡◌ {A = ℕ} 10 (length (flags ∷ 127 ∷ be_bytes 8 len))
      size = unfold be_bytes in refl

  server_header-HeaderRead : HeaderRead false fin op len (length sent) (sent ++ t)
  server_header-HeaderRead = elim (Bool-cases (ltb len 126)) [
    | inl short ↦ sent_short (ltb→lt len 126 short)
    | inr more ↦ elim (Bool-cases (leb len 0xFFFF)) [
      | inl medium ↦ sent_medium (ground arith) (leb→le len 0xFFFF medium)
      | inr long ↦ sent_long (ground arith)
    ]
  ]

read_payload-unmasked :
    (h payload rest : Bytes)
    → read_payload (h ++ (payload ++ rest)) false (length payload) (length h) ≡ some (payload, rest)
unfolding read_payload
read_payload-unmasked h payload rest =
    let total : length (h ++ (payload ++ rest)) ≡ length h + (length payload + length rest) =
      omega (arith, length-append h (payload ++ rest), length-append payload rest) in
    rw (
      ltb-false (length (h ++ (payload ++ rest))) (length h + length payload)
          (omega (arith, total)),
      drop-add (length h) (length payload) (h ++ (payload ++ rest)),
      drop-append_left h (payload ++ rest),
      take-append_left payload rest,
      drop-append_left payload rest,
    )

parse_frame-server_bytes :
    (op : ℕ) (fin : Bool) (payload rest : Bytes)
    → op < 16
    → length payload ≤ k_max_msg
    → parse_frame (server_bytes op fin payload ++ rest)
      ≡ ok (some (record { opcode = op; fin = fin; payload = payload }, rest))
parse_frame-server_bytes op fin payload rest ho hp =
    ap parse_frame (append_assoc (server_header op fin (length payload)) payload rest)
    ∙ parsed (server_header-HeaderRead fin op (length payload) (payload ++ rest) ho (omega arith))
        (read_payload-unmasked (server_header op fin (length payload)) payload rest)
  where
    parsed :
        {p : Bytes} {size : ℕ}
        → HeaderRead false fin op (length payload) size p
        → read_payload p false (length payload) size ≡ some (payload, rest)
        → parse_frame p ≡ ok (some (record { opcode = op; fin = fin; payload = payload }, rest))
    parsed read body =
        unfold parse_frame in
        ground (arith, read.enough, read.fin_flag, read.opcode, read.masked, read.length_read, body)

-- A frame is parsed whichever way it is sent, and what is behind it is left.
pub parse_frame-IsOnWire :
    (f : WsFrame) (bs rest : Bytes)
    → f.opcode < 16
    → length f.payload ≤ k_max_msg
    → IsOnWire f bs
    → parse_frame (bs ++ rest) ≡ ok (some (f, rest))
parse_frame-IsOnWire f bs rest small fits (inl (mask, four, e)) =
    rw e (parse_frame-frame_bytes f.opcode f.fin mask f.payload rest small four fits)
parse_frame-IsOnWire f bs rest small fits (inr e) =
    rw e (parse_frame-server_bytes f.opcode f.fin f.payload rest small fits)
