-- ===== src/Ws/Frame/RoundTrip.antt =====
-- parse_frame reads back what send_frame writes.
use vericonnect_agent.Common.{ok}
use vericonnect_agent.Prelude.Bits.{bit_xor_twice}
use vericonnect_agent.Prelude.Lists.{drop-add}
use vericonnect_agent.Prelude.{
  ℕ, suc, ◌+◌, ◌≤◌, ◌<◌, Bool, true, some, [], ◌∷◌, ◌++◌, ◌≡◌, refl, sym, ap, ◌∙◌, Bytes, ltb-false,
  length, take, drop, length-append, length-take, take-append-drop, take-append_left, subst,
  drop-append_left, append_assoc, arith,
}
use vericonnect_agent.Ws.Frame.Header.{HeaderRead, header-HeaderRead}
use vericonnect_agent.Ws.Frame.{xor_mask, header_bytes, read_payload, parse_frame, frame_bytes}
use vericonnect_agent.Ws.{k_max_msg}

pub xor_mask_twice : (mask : Bytes) (i : ℕ) (bs : Bytes) → xor_mask mask i (xor_mask mask i bs) ≡ bs
unfolding xor_mask
xor_mask_twice mask i [] = refl
xor_mask_twice mask i (b ∷ bs) = rw (bit_xor_twice, xor_mask_twice mask (i + 1) bs)

pub length-xor_mask : (mask : Bytes) (i : ℕ) (bs : Bytes) → length (xor_mask mask i bs) ≡ length bs
unfolding xor_mask
length-xor_mask mask i [] = refl
length-xor_mask mask i (b ∷ bs) = ap suc (length-xor_mask mask (i + 1) bs)

-- Masking in pieces is masking at once, with the index carried over.
pub xor_mask-append :
    (mask : Bytes) (i : ℕ) (xs ys : Bytes)
    → xor_mask mask i (xs ++ ys) ≡ xor_mask mask i xs ++ xor_mask mask (i + length xs) ys
unfolding xor_mask
xor_mask-append mask i [] ys = ap (λ k. xor_mask mask k ys) (omega arith)
xor_mask-append mask i (x ∷ xs) ys =
    let e : i + suc (length xs) ≡ i + 1 + length xs = omega arith in
    rw (e, xor_mask-append mask (i + 1) xs ys)

read_payload-written :
    (h mask data' rest : Bytes)
    → length mask ≡ 4
    → read_payload (h ++ (mask ++ (data' ++ rest))) true (length data') (length h)
      ≡ some (xor_mask mask 0 data', rest)
unfolding read_payload
read_payload-written h mask data' rest m = rw (
  ltb-false (length p) (length h + 4) (omega (arith, total)),
  ltb-false (length p) (length h + 4 + length data') (omega (arith, total)),
  drop-add (length h + 4) (length data') p,
  behind_mask,
  drop-append_left h (mask ++ (data' ++ rest)),
  mask_part,
  take-append_left data' rest,
  drop-append_left data' rest,
)
  where
    p : Bytes
    p = h ++ (mask ++ (data' ++ rest))

    total : length p ≡ length h + (4 + (length data' + length rest))
    total = omega (
      arith,
      length-append h (mask ++ (data' ++ rest)),
      length-append mask (data' ++ rest),
      length-append data' rest,
    )

    mask_part : take 4 (mask ++ (data' ++ rest)) ≡ mask
    mask_part = rw (sym m) (take-append_left mask (data' ++ rest))

    behind_mask : drop (length h + 4) p ≡ data' ++ rest
    behind_mask =
        drop-add (length h) 4 p
        ∙ ap (drop 4) (drop-append_left h (mask ++ (data' ++ rest)))
        ∙ rw (sym m) (drop-append_left mask (data' ++ rest))

frame_bytes-split :
    (op : ℕ) (fin : Bool) (mask payload rest : Bytes)
    → frame_bytes op fin mask payload ++ rest
      ≡ header_bytes op fin (length payload) ++ (mask ++ (xor_mask mask 0 payload ++ rest))
unfolding frame_bytes
frame_bytes-split op fin mask payload rest = simp append_assoc

-- parse_frame gives back the opcode, the final flag and the unmasked payload of any frame that
-- send_frame writes, and leaves exactly the bytes behind it: for an opcode of four bits, a mask
-- of four bytes and a payload within the size cap.
pub parse_frame-frame_bytes :
    (op : ℕ) (fin : Bool) (mask payload rest : Bytes)
    → op < 16
    → length mask ≡ 4
    → length payload ≤ k_max_msg
    → parse_frame (frame_bytes op fin mask payload ++ rest)
      ≡ ok (some (record { opcode = op; fin = fin; payload = payload }, rest))
parse_frame-frame_bytes op fin mask payload rest ho hm hp =
    rw (frame_bytes-split op fin mask payload rest) parsed
  where
    masked : Bytes
    masked = xor_mask mask 0 payload

    tail : Bytes
    tail = mask ++ (masked ++ rest)

    read :
        HeaderRead true fin op
          (length payload)
          (length (header_bytes op fin (length payload)))
          (header_bytes op fin (length payload) ++ tail)
    read = header-HeaderRead fin op (length payload) tail ho (omega arith)

    body :
        read_payload
          (header_bytes op fin (length payload) ++ tail)
          true
          (length payload)
          (length (header_bytes op fin (length payload)))
        ≡ some (payload, rest)
    body =
        subst
          (λ n.
            read_payload (header_bytes op fin (length payload) ++ tail) true n
              (length (header_bytes op fin (length payload)))
            ≡ some (payload, rest))
          (length-xor_mask mask 0 payload)
          (read_payload-written (header_bytes op fin (length payload)) mask masked rest hm
            ∙ ap (λ bs. some (bs, rest)) (xor_mask_twice mask 0 payload))

    parsed :
        parse_frame (header_bytes op fin (length payload) ++ tail)
        ≡ ok (some (record { opcode = op; fin = fin; payload = payload }, rest))
    parsed =
        unfold parse_frame in
        ground (arith, read.enough, read.fin_flag, read.opcode, read.masked, read.length_read, body)

pub xor_mask_cut :
    (mask : Bytes) (i k : ℕ) (l : Bytes)
    → k ≤ length l
    → xor_mask mask i (take k l) ++ xor_mask mask (i + k) (drop k l) ≡ xor_mask mask i l
xor_mask_cut mask i k l h =
    let size : length (take k l) ≡ k = omega (arith, length-take k l) in
    ap (λ m. xor_mask mask i (take k l) ++ xor_mask mask (i + m) (drop k l)) (sym size)
    ∙ sym (xor_mask-append mask i (take k l) (drop k l))
    ∙ ap (xor_mask mask i) (take-append-drop k l)
