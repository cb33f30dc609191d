-- ===== src/Ws/EndToEnd.antt =====
-- A message that one side sends is the message that the other side receives.
use vericonnect_agent.Common.{ok}
use vericonnect_agent.Net.{Net, Delivers}
use vericonnect_agent.Prelude.{
  ℕ, zero, suc, ◌≤◌, ◌<◌, Bool, true, false, Option, some, List, [], ◌∷◌, ◌++◌, ◌≡◌, ◌≢◌, refl,
  subst, inl, inr, ◌⊎◌, Bytes, length, drop, min, length-drop, All, arith,
}
use vericonnect_agent.Ws.Recv.Reassembly.{recv_message}
use vericonnect_agent.Ws.Recv.{data_type, recv}
use vericonnect_agent.Ws.Send.Fragments.{Fits, fragments, message_frames, message_frames-Carries}
use vericonnect_agent.Ws.Frame.Wire.{AreOnWire}
use vericonnect_agent.Ws.Frame.{frame_bytes}
use vericonnect_agent.Ws.Send.Wire.{Wrote, none_left, one_more, send_written}
use vericonnect_agent.Ws.Send.{opcode_of, send}
use vericonnect_agent.Ws.{Ws, WsFrame, MsgType, text, binary, close, k_frag_size, k_max_msg}

-- Frames that were written are on the wire, each masked.
Wrote-AreOnWire : {fs : List WsFrame} {bs : Bytes} → Wrote fs bs → AreOnWire fs bs
Wrote-AreOnWire (none_left e) = e
Wrote-AreOnWire (one_more {rest = r} mask four wr e) =
    (frame_bytes _ _ mask _, r, inl (mask, four, refl), Wrote-AreOnWire wr, e)

Fits-capped : (fs : List WsFrame) → Fits fs → All (λ f. length f.payload ≤ k_max_msg) fs
Fits-capped [] h = tt
Fits-capped (f ∷ fs) h = (omega (arith, h.0), Fits-capped fs h.1)

length-fragments :
    (f op : ℕ) (first : Bool) (rest : Bytes) → length (fragments f op first rest) ≤ length rest
unfolding fragments
length-fragments zero op first rest = omega arith
length-fragments (suc f) op first [] = omega arith
length-fragments (suc f) op first (b ∷ bs) =
    let k = min k_frag_size (length (b ∷ bs)) in
    omega (arith, length-fragments f op false (drop k (b ∷ bs)), length-drop k (b ∷ bs))

length-message_frames :
    (op : ℕ) (payload : Bytes) → length (message_frames op payload) ≤ suc (length payload)
unfolding message_frames
length-message_frames op payload = ground (arith, length-fragments (length payload) op true payload)

data_type-opcode_of : (type : MsgType) → type ≢ close → data_type (opcode_of type) ≡ type
data_type-opcode_of text h = refl
data_type-opcode_of binary h = refl
data_type-opcode_of close h = absurd (h refl)

data_opcode : (type : MsgType) → (opcode_of type ≡ 0x1) ⊎ (opcode_of type ≡ 0x2)
data_opcode text = inl refl
data_opcode binary = inr refl
data_opcode close = inr refl

module _ (n : Net) (d : Delivers n) (m : Net) where
  -- A successful send of a text or binary message of any size, over a transport that delivers,
  -- adds bytes to the wire from which an open receiver, over any transport, gets that message
  -- back: same type, same payload, in one call of recv, with the bytes behind it left in the
  -- buffer. One more unit of fuel than the payload has bytes is enough.
  pub recv-send :
      (ws : Ws n) (type : MsgType) (payload : Bytes) (w : n.World)
      → type ≢ close
      → (send n ws type payload w).0 ≡ ok tt
      → (bs : Bytes) × (d.written ws.transport (send n ws type payload w).1
          ≡ d.written ws.transport w ++ bs)
        × ((peer : Ws m) (fuel : ℕ) (limit : Option ℕ) (tail : Bytes) (v : m.World)
            → length payload < fuel
            → peer.closed ≡ false
            → peer.buffered ≡ bs ++ tail
            → recv m fuel peer limit v ≡ (
              some
                  (record peer { buffered = tail }, ok (record { type = type; payload = payload })),
              (m.monotonic_ms v).1,
            ))
  recv-send ws type payload w h sent =
      let (bs, wrote, e) = send_written n d ws type payload w sent in
      let (carries, fits) = message_frames-Carries (opcode_of type) payload in
      (
        bs,
        e,
        λ peer fuel limit tail v enough open_ front.
            subst
              (λ t. recv m fuel peer limit v ≡ (
                some (record peer { buffered = tail }, ok (record { type = t; payload = payload })),
                (m.monotonic_ms v).1,
              ))
              (data_type-opcode_of type h)
              (recv_message m fuel peer limit bs tail v (data_opcode type) carries
                (Wrote-AreOnWire wrote) (Fits-capped (message_frames (opcode_of type) payload) fits)
                (omega (arith, length-message_frames (opcode_of type) payload)) open_ front),
      )
