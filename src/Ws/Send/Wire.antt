-- ===== src/Ws/Send/Wire.antt =====
-- What reaches the wire when sending succeeds.
use vericonnect_agent.Common.{ok, Status-cases}
use vericonnect_agent.Net.{Net, Delivers}
use vericonnect_agent.Prelude.{
  ℕ, zero, suc, ◌+◌, ◌≤◌, Bool, true, false, none, some, List, [], ◌∷◌, ◌++◌, ◌≡◌, ◌≢◌, refl, sym,
  ap, ◌∙◌, inl, inr, Bytes, ◌==◌, leb, if◌then◌else◌, Bool-cases, Option-cases, length, take, drop,
  min, length-drop, append_assoc, append-nil, arith,
}
use vericonnect_agent.Ws.Frame.RoundTrip.{xor_mask_cut}
use vericonnect_agent.Ws.Frame.{xor_mask, header_bytes, frame_bytes}
use vericonnect_agent.Ws.Send.Fragments.{frame, fragments, message_frames}
use vericonnect_agent.Ws.Send.{
  chunk_size, send_chunks, send_masked, send_frame, opcode_of, send_fragments, send,
}
use vericonnect_agent.Ws.{Ws, WsFrame, MsgType, k_frag_size}

-- The bytes of a sequence of frames, each under a mask of its own.
pub data Wrote : List WsFrame → Bytes → Type 0 where
  none_left : {bs : Bytes} → bs ≡ [] → Wrote [] bs
  one_more :
      {op : ℕ} {fin : Bool} {payload : Bytes} {fs : List WsFrame} {rest bs : Bytes} (mask : Bytes)
      → length mask ≡ 4
      → Wrote fs rest
      → bs ≡ frame_bytes op fin mask payload ++ rest
      → Wrote (frame op fin payload ∷ fs) bs

module _ (n : Net) (d : Delivers n) (c : n.Conn) where
  nothing :
      (mask : Bytes) (off : ℕ) (w : n.World) → d.written c w ≡ d.written c w ++ xor_mask mask off []
  unfolding xor_mask
  nothing mask off w = sym (append-nil (d.written c w))

  chunks_written :
      (f : ℕ) (mask : Bytes) (off : ℕ) (rest : Bytes) (w : n.World)
      → length rest ≤ f
      → (send_chunks n f c mask off rest w).0 ≡ ok tt
      → d.written c (send_chunks n f c mask off rest w).1 ≡ d.written c w ++ xor_mask mask off rest
  unfolding send_chunks
  chunks_written zero mask off [] w h e = nothing mask off w
  chunks_written (suc f) mask off [] w h e = nothing mask off w
  chunks_written zero mask off (b ∷ bs) w h e = absurd (omega arith)
  chunks_written (suc f) mask off (b ∷ bs) w h e = elim (Status-cases (n.send c part w).0) [
    | inl sent ↦ rw sent (
        chunks_written f mask (off + k) (drop k (b ∷ bs)) (n.send c part w).1
          (omega (arith, length-drop k (b ∷ bs))) (rw sent at e)
        ∙ ap (λ x. x ++ xor_mask mask (off + k) (drop k (b ∷ bs))) (d.send_ok c part w sent)
        ∙ append_assoc _ part _
        ∙ ap (λ x. d.written c w ++ x) (xor_mask_cut mask off k (b ∷ bs) (omega arith)))
    | inr (x, bad) ↦ absurd (cc (rw bad at e))
  ]
    where
      k : ℕ
      k = min chunk_size (length (b ∷ bs))

      part : Bytes
      part = xor_mask mask off (take k (b ∷ bs))

  -- A frame that is sent stands on the wire as frame_bytes under some mask of four bytes.
  FrameWritten : ℕ → Bool → Bytes → n.World → n.World → Type 0
  FrameWritten op fin payload w w' =
      (mask : Bytes) × (length mask ≡ 4)
      × (d.written c w' ≡ d.written c w ++ frame_bytes op fin mask payload)

  masked_written :
      (op : ℕ) (fin : Bool) (payload mask : Bytes) (w : n.World)
      → (send_masked n c op fin payload (some mask) w).0 ≡ ok tt
      → d.written c (send_masked n c op fin payload (some mask) w).1
        ≡ d.written c w ++ frame_bytes op fin mask payload
  unfolding send_masked frame_bytes
  masked_written op fin payload mask w e = elim (Status-cases (n.send c head w).0) [
    | inl sent ↦ rw sent (
        chunks_written (length payload) mask 0 payload (n.send c head w).1 (omega arith)
          (rw sent at e)
        ∙ ap (λ x. x ++ xor_mask mask 0 payload) (d.send_ok c head w sent)
        ∙ simp append_assoc)
    | inr (x, bad) ↦ absurd (cc (rw bad at e))
  ]
    where
      head : Bytes
      head = header_bytes op fin (length payload) ++ mask

  masked_dry :
      (op : ℕ) (fin : Bool) (payload : Bytes) (w : n.World)
      → (send_masked n c op fin payload none w).0 ≢ ok tt
  unfolding send_masked
  masked_dry op fin payload w e = cc

  frame_written :
      (op : ℕ) (fin : Bool) (payload : Bytes) (w : n.World)
      → (send_frame n c op fin payload w).0 ≡ ok tt
      → FrameWritten op fin payload w (send_frame n c op fin payload w).1
  unfolding send_frame FrameWritten
  frame_written op fin payload w e = elim (Option-cases (n.random_bytes 4 w).0) [
    | inl dry ↦ absurd (masked_dry op fin payload _ (rw dry at e))
    | inr (mask, drawn) ↦
        let w1 = (n.random_bytes 4 w).1 in
        (
          mask,
          d.random_length 4 w mask drawn,
          rw drawn (
              masked_written op fin payload mask w1 (rw drawn at e)
              ∙ ap (λ x. x ++ frame_bytes op fin mask payload) (d.random_quiet c 4 w)),
        )
  ]

  Written : List WsFrame → n.World → n.World → Type 0
  Written fs w w' = (bs : Bytes) × Wrote fs bs × (d.written c w' ≡ d.written c w ++ bs)

  Written-one :
      (op : ℕ) (fin : Bool) (payload : Bytes) (w w' : n.World)
      → FrameWritten op fin payload w w'
      → Written (frame op fin payload ∷ []) w w'
  unfolding FrameWritten Written
  Written-one op fin payload w w' (mask, four, e) =
      (frame_bytes op fin mask payload, one_more mask four (none_left refl) (sym (append-nil _)), e)

  Written-cons :
      (op : ℕ) (fin : Bool) (payload : Bytes) (fs : List WsFrame) (w w1 w2 : n.World)
      → FrameWritten op fin payload w w1
      → Written fs w1 w2
      → Written (frame op fin payload ∷ fs) w w2
  unfolding FrameWritten Written
  Written-cons op fin payload fs w w1 w2 (mask, four, e) (bs, rest, e') = (
    frame_bytes op fin mask payload ++ bs,
    one_more mask four rest refl,
    e' ∙ ap (λ x. x ++ bs) e ∙ append_assoc (d.written c w) (frame_bytes op fin mask payload) bs,
  )

  Written-none : (w : n.World) → Written [] w w
  unfolding Written
  Written-none w = ([], none_left refl, sym (append-nil _))

  fragments-Written :
      (f op : ℕ) (first : Bool) (rest : Bytes) (w : n.World)
      → length rest ≤ f
      → (send_fragments n f c op first rest w).0 ≡ ok tt
      → Written (fragments f op first rest) w (send_fragments n f c op first rest w).1
  unfolding send_fragments fragments
  fragments-Written zero op first [] w h e = Written-none w
  fragments-Written (suc f) op first [] w h e = Written-none w
  fragments-Written zero op first (b ∷ bs) w h e = absurd (omega arith)
  fragments-Written (suc f) op first (b ∷ bs) w h e =
      elim (Status-cases (send_frame n c op' (k == length (b ∷ bs)) (take k (b ∷ bs)) w).0) [
        | inl sent ↦ rw sent (
            Written-cons op' _ _ _ w _ _ (frame_written op' _ _ w sent) (
              fragments-Written f op false (drop k (b ∷ bs)) _
                (omega (arith, length-drop k (b ∷ bs))) (rw sent at e)))
        | inr (x, bad) ↦ absurd (cc (rw bad at e))
      ]
    where
      k : ℕ
      k = min k_frag_size (length (b ∷ bs))

      op' : ℕ
      op' = if first then op else 0x0

module _ (n : Net) (d : Delivers n) where
  -- When send returns success, exactly one well-formed message has been added to the wire: some
  -- bytes that are the frames of message_frames in order, each behind its header and under a
  -- mask of its own. It is assumed of the transport that a successful send has sent every byte,
  -- and of the random source that it writes nothing and gives as many bytes as were asked for.
  pub send_written :
      (ws : Ws n) (type : MsgType) (payload : Bytes) (w : n.World)
      → (send n ws type payload w).0 ≡ ok tt
      → (bs : Bytes) × Wrote (message_frames (opcode_of type) payload) bs
        × (d.written ws.transport (send n ws type payload w).1 ≡ d.written ws.transport w ++ bs)
  unfolding send message_frames Written
  send_written ws type payload w e = elim (Bool-cases ws.closed) [
    | inl shut ↦ absurd (ground (arith, shut))
    | inr alive ↦ elim (Bool-cases (leb (length payload) k_frag_size)) [
      | inl small ↦
          rw (alive, small)
            (Written-one n d ws.transport (opcode_of type) true payload w _ (
              frame_written n d ws.transport (opcode_of type) true payload w
                (rw (alive, small) at e)))
      | inr large ↦
          rw (alive, large)
            (fragments-Written n d ws.transport (length payload) (opcode_of type) true payload w
              (omega arith) (rw (alive, large) at e))
    ]
  ]
