-- ===== src/Ws/Frame/Stream.antt =====
-- parse_frame on a stream: its verdict does not depend on how the bytes arrive.
use vericonnect_agent.Common.{Result, ok, err}
use vericonnect_agent.Prelude.Lists.{drop-append, take-append, get_or-append}
use vericonnect_agent.Prelude.{
  ℕ, zero, suc, ◌+◌, ◌≤◌, ◌<◌, Bool, true, false, Option, none, some, [], ◌∷◌, ◌++◌, ◌≡◌, ◌≢◌, refl,
  sym, ap, ◌∙◌, inl, inr, Bytes, ltb, ltb→lt, append-nil, length, drop, get_or, length-append,
  length-drop, bit_and, Bool-cases, Option-cases, arith,
}
use vericonnect_agent.Ws.Frame.RoundTrip.{parse_frame-frame_bytes}
use vericonnect_agent.Ws.Frame.{
  frame_bytes, read_be, read_length, read_payload, fin_flag, opcode_bits, mask_flag, with_length,
  parse_frame,
}
use vericonnect_agent.Ws.{WsFrame, k_max_msg}

read_be-append : (n : ℕ) (p q : Bytes) (v : ℕ) → n ≤ length p → read_be n (p ++ q) v ≡ read_be n p v
unfolding read_be
read_be-append zero p q v h = refl
read_be-append (suc n) [] q v h = absurd (omega arith)
read_be-append (suc n) (b ∷ p) q v h = read_be-append n p q _ (omega arith)

module _ (p q : Bytes) where
  read_length-append :
      (l len pos : ℕ) → read_length p l ≡ some (len, pos) → read_length (p ++ q) l ≡ some (len, pos)
  unfolding read_length
  read_length-append l len pos h = ground (
    arith,
    length-append p q,
    length-drop 2 p,
    get_or-append p q 2 0,
    get_or-append p q 3 0,
    drop-append 2 p q,
    read_be-append 8 (drop 2 p) q 0,
  )

  -- The payload is found in the same place, and the new bytes stay behind the frame.
  read_payload-append :
      (m : Bool) (len pos : ℕ) {payload rest : Bytes}
      → read_payload p m len pos ≡ some (payload, rest)
      → read_payload (p ++ q) m len pos ≡ some (payload, rest ++ q)
  unfolding read_payload
  read_payload-append true len pos h = ground (
    arith,
    length-append p q,
    length-drop pos p,
    length-drop (pos + 4) p,
    drop-append pos p q,
    drop-append (pos + 4) p q,
    drop-append (pos + 4 + len) p q,
    take-append 4 (drop pos p) q,
    take-append len (drop (pos + 4) p) q,
  )
  read_payload-append false len pos h = ground (
    arith,
    length-append p q,
    length-drop pos p,
    drop-append pos p q,
    drop-append (pos + len) p q,
    take-append len (drop pos p) q,
  )

-- The verdict after `q` has arrived behind what was parsed.
abbrev pub extend : Bytes → Result (Option (WsFrame × Bytes)) → Result (Option (WsFrame × Bytes))
extend q (err e) = err e
extend q (ok none) = ok none
extend q (ok (some (f, rest))) = ok (some (f, rest ++ q))

module _ (p q : Bytes) (two : 2 ≤ length p) where
  flags-append :
      (fin_flag (p ++ q) ≡ fin_flag p)
      × (opcode_bits (p ++ q) ≡ opcode_bits p)
      × (mask_flag (p ++ q) ≡ mask_flag p)
  flags-append = ground (arith, get_or-append p q 0 0, get_or-append p q 1 0)

  with_length-append :
      (len pos : ℕ)
      → with_length p (some (len, pos)) ≢ ok none
      → with_length (p ++ q) (some (len, pos)) ≡ extend q (with_length p (some (len, pos)))
  with_length-append len pos ne = elim (Bool-cases (ltb k_max_msg len)) [
    | inl long ↦ rw long
    | inr fits ↦ elim (Option-cases (read_payload p (mask_flag p) len pos)) [
      | inl nothing ↦ absurd (ne (ground (arith, fits, nothing)))
      | inr ((payload, rest), found) ↦ ground (
        arith,
        fits,
        found,
        flags-append,
        read_payload-append p q (mask_flag p) len pos {payload = payload} {rest = rest} found,
      )
    ]
  ]

  parse_frame-settled : parse_frame p ≢ ok none → parse_frame (p ++ q) ≡ extend q (parse_frame p)
  unfolding parse_frame
  parse_frame-settled ne = elim (Option-cases (read_length p (bit_and (get_or p 1 0) 0x7F))) [
    | inl nothing ↦ absurd (ne (ground (arith, nothing)))
    | inr ((len, pos), found) ↦ ground (
      arith,
      found,
      length-append p q,
      get_or-append p q 1 0,
      read_length-append p q (bit_and (get_or p 1 0) 0x7F) len pos found,
      with_length-append len pos,
    )
  ]

parse_frame_short : (p : Bytes) → length p < 2 → parse_frame p ≡ ok none
unfolding parse_frame
parse_frame_short p h = ground arith

-- Once parse_frame has found a frame or an error, bytes that arrive later do not change it: the
-- same frame or error is found, and the new bytes stay behind the frame.
pub parse_frame-append :
    (p q : Bytes) → parse_frame p ≢ ok none → parse_frame (p ++ q) ≡ extend q (parse_frame p)
parse_frame-append p q ne = elim (Bool-cases (ltb (length p) 2)) [
  | inl short ↦ absurd (ne (parse_frame_short p (ltb→lt _ _ short)))
  | inr two ↦ parse_frame-settled p q (ground arith) ne
]

-- Waiting: a proper beginning of a frame that send_frame writes asks for more bytes, and is
-- never taken for a frame or an error.
pub parse_frame_prefix :
    (op : ℕ) (fin : Bool) (mask payload p q : Bytes)
    → op < 16
    → length mask ≡ 4
    → length payload ≤ k_max_msg
    → p ++ q ≡ frame_bytes op fin mask payload
    → q ≢ []
    → parse_frame p ≡ ok none
parse_frame_prefix op fin mask payload p q ho hm hp cut ne = go (parse_frame p) refl
  where
    whole :
        parse_frame (p ++ q) ≡ ok (some (record { opcode = op; fin = fin; payload = payload }, []))
    whole =
        ap parse_frame (cut ∙ sym (append-nil _))
        ∙ parse_frame-frame_bytes op fin mask payload [] ho hm hp

    left_empty : (xs ys : Bytes) → xs ++ ys ≡ [] → ys ≡ []
    left_empty [] ys e = e
    left_empty (x ∷ xs) ys e = cc

    go : (r : Result (Option (WsFrame × Bytes))) → parse_frame p ≡ r → parse_frame p ≡ ok none
    go (ok none) e = e
    go (ok (some (f, rest))) e =
        let settled = parse_frame-append p q (λ n. cc) in
        absurd (ne (left_empty rest q (ground (arith, settled, whole))))
    go (err x) e =
        let settled = parse_frame-append p q (λ n. cc) in absurd (ground (arith, settled, whole))
