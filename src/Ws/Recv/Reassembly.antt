-- ===== src/Ws/Recv/Reassembly.antt =====
-- Reassembly: what recv makes of the frames of a message.
use vericonnect_agent.Common.{Result, ok}
use vericonnect_agent.Net.{Net, ◌>>=◌, pure}
use vericonnect_agent.Prelude.{
  ℕ, zero, suc, ◌+◌, ◌≤◌, ◌<◌, Bool, true, false, Option, some, List, ◌++◌, ◌≡◌, refl, sym, ap, ◌∙◌,
  inl, inr, ◌⊎◌, Bytes, length, All, append_assoc, append-nil, arith,
}
use vericonnect_agent.Ws.Frame.Wire.{IsOnWire, AreOnWire, parse_frame-IsOnWire}
use vericonnect_agent.Ws.Frame.{parse_frame}
use vericonnect_agent.Ws.Recv.{
  Assembly, no_message, data_type, first_frame, handle_frame, round_on, next, recv_loop, recv,
  limit_ms,
}
use vericonnect_agent.Ws.Send.Fragments.{Carries, last, more, frame}
use vericonnect_agent.Ws.{Ws, WsFrame, Message, k_max_msg}

module _ (n : Net) (limit : Option ℕ) (deadline : ℕ) where
  -- A buffered frame is handled with the bytes behind it left in the buffer.
  pub loop_frame :
      (fuel : ℕ) (ws : Ws n) (asm : Assembly) (op : ℕ) (fin : Bool) (payload front rest : Bytes)
      (w : n.World)
      → op < 16
      → IsOnWire (frame op fin payload) front
      → length payload ≤ k_max_msg
      → ws.buffered ≡ front ++ rest
      → recv_loop n (suc fuel) ws asm limit deadline w
        ≡ (handle_frame n (record ws { buffered = rest }) asm (frame op fin payload) >>= λ r.
              next n r (λ ws' asm'. recv_loop n fuel ws' asm' limit deadline))
            w
  unfolding recv_loop
  loop_frame fuel ws asm op fin payload front rest w small wire fits e =
      ap
        (λ r.
          (round_on n ws asm limit deadline r >>= λ r.
          next n r (λ ws' asm'. recv_loop n fuel ws' asm' limit deadline))
            w)
        (ap parse_frame e ∙ parse_frame-IsOnWire (frame op fin payload) front rest small fits wire)

  -- The rest of a fragmented message is read to its end.
  loop_rest :
      {fs : List WsFrame} {body : Bytes} (fuel : ℕ) (ws : Ws n) (msg : Bytes) (opcode : ℕ)
      (bs tail : Bytes) (w : n.World)
      → Carries 0 fs body
      → AreOnWire fs bs
      → All (λ f. length f.payload ≤ k_max_msg) fs
      → length fs ≤ fuel
      → ws.buffered ≡ bs ++ tail
      → recv_loop n fuel ws
          (record { msg = msg; msg_opcode = opcode; in_fragmented = true })
          limit
          deadline
          w
        ≡ (
          some (
            record ws { buffered = tail },
            ok (record { type = data_type opcode; payload = msg ++ body }),
          ),
          w,
        )
  unfolding handle_frame
  loop_rest zero ws msg opcode bs tail w last wr a h e = absurd (omega arith)
  loop_rest zero ws msg opcode bs tail w (more c e0) wr a h e = absurd (omega arith)
  loop_rest (suc fuel) ws msg opcode bs tail w (last {payload = p}) (front, back, wire, e1, e2) a h
        e =
      loop_frame fuel ws _ 0 true p front tail w (omega arith) wire a.0
        (e ∙ ap (λ x. x ++ tail) (e2 ∙ ap (λ x. front ++ x) e1 ∙ append-nil _))
  loop_rest (suc fuel) ws msg opcode bs tail w (more {part = p} {rest = r} c e0)
        (front, bs', wire, wr, e2) a h e =
      loop_frame fuel ws _ 0 false p front (bs' ++ tail) w (omega arith) wire a.0
        (e ∙ ap (λ x. x ++ tail) e2 ∙ append_assoc front bs' tail)
      ∙ loop_rest fuel (record ws { buffered = bs' ++ tail }) (msg ++ p) opcode bs' tail w c wr a.1
          (omega arith) refl
      ∙ ap
          (λ x. (
            some (
              record ws { buffered = tail },
              ok (record { type = data_type opcode; payload = x }),
            ),
            w,
          ))
          (append_assoc msg p r ∙ ap (λ x. msg ++ x) (sym e0))

  handle_first :
      (ws : Ws n) (asm : Assembly) (op : ℕ) (fin : Bool) (p : Bytes)
      → (op ≡ 0x1) ⊎ (op ≡ 0x2)
      → handle_frame n ws asm (frame op fin p) ≡ pure (first_frame n ws asm (frame op fin p))
  unfolding handle_frame
  handle_first ws asm op fin p (inl e) = rw e refl
  handle_first ws asm op fin p (inr e) = rw e refl

  -- What the loop goes on with after the first frame of a message.
  unfoldable pub after_first :
      ℕ → Ws n → ℕ → Bool → Bytes → n.World → Option (Ws n × Result Message) × n.World
  after_first fuel ws op fin p w =
      next n (first_frame n ws no_message (frame op fin p))
        (λ ws' asm'. recv_loop n fuel ws' asm' limit deadline) w

  pub loop_first :
      (fuel : ℕ) (ws : Ws n) (op : ℕ) (fin : Bool) (p front rest : Bytes) (w : n.World)
      → (op ≡ 0x1) ⊎ (op ≡ 0x2)
      → IsOnWire (frame op fin p) front
      → length p ≤ k_max_msg
      → ws.buffered ≡ front ++ rest
      → recv_loop n (suc fuel) ws no_message limit deadline w
        ≡ after_first fuel (record ws { buffered = rest }) op fin p w
  unfolding after_first
  loop_first fuel ws op fin p front rest w o wire fits e =
      loop_frame fuel ws no_message op fin p front rest w (ground arith) wire fits e
      ∙ ap (λ m. (m >>= λ r. next n r (λ ws' asm'. recv_loop n fuel ws' asm' limit deadline)) w)
          (handle_first (record ws { buffered = rest }) no_message op fin p o)

  -- A whole message in the buffer is read, first frame and rest.
  loop_message :
      {fs : List WsFrame} {body : Bytes} {op : ℕ} (fuel : ℕ) (ws : Ws n) (bs tail : Bytes)
      (w : n.World)
      → (op ≡ 0x1) ⊎ (op ≡ 0x2)
      → Carries op fs body
      → AreOnWire fs bs
      → All (λ f. length f.payload ≤ k_max_msg) fs
      → length fs ≤ fuel
      → ws.buffered ≡ bs ++ tail
      → recv_loop n fuel ws no_message limit deadline w ≡ (
        some (record ws { buffered = tail }, ok (record { type = data_type op; payload = body })),
        w,
      )
  unfolding after_first first_frame
  loop_message zero ws bs tail w o last wr a h e = absurd (omega arith)
  loop_message zero ws bs tail w o (more c e0) wr a h e = absurd (omega arith)
  loop_message (suc fuel) ws bs tail w o (last {op = op} {payload = p}) (front, back, wire, e1, e2)
        a h e =
      loop_first fuel ws op true p front tail w o wire a.0
        (e ∙ ap (λ x. x ++ tail) (e2 ∙ ap (λ x. front ++ x) e1 ∙ append-nil _))
  loop_message (suc fuel) ws bs tail w o (more {op = op} {part = p} {rest = r} c e0)
        (front, bs', wire, wr, e2) a h e =
      loop_first fuel ws op false p front (bs' ++ tail) w o wire a.0
        (e ∙ ap (λ x. x ++ tail) e2 ∙ append_assoc front bs' tail)
      ∙ loop_rest fuel (record ws { buffered = bs' ++ tail }) p op bs' tail w c wr a.1 (omega arith)
          refl
      ∙ ap
          (λ x. (
            some (record ws { buffered = tail }, ok (record { type = data_type op; payload = x })),
            w,
          ))
          (sym e0)

module _ (n : Net) where
  pub recv_open :
      (fuel : ℕ) (ws : Ws n) (limit : Option ℕ) (w : n.World)
      → ws.closed ≡ false
      → recv n fuel ws limit w
        ≡ recv_loop n fuel ws no_message limit
            ((n.monotonic_ms w).0 + limit_ms limit)
            (n.monotonic_ms w).1
  unfolding recv
  recv_open fuel ws limit w open_ = rw open_ refl

  -- A message whose frames are all in the buffer is returned whole, with its type: recv makes one
  -- pass over its frames, leaves what follows them in the buffer, and touches the world only to
  -- look at the clock. The message starts with a text or binary frame, its other frames are
  -- continuations of which the last is marked final, each frame arrives unmasked, as a server
  -- sends it, or masked with some four bytes, no payload is above the size cap, the connection is open, and the fuel is at least the frame count.
  pub recv_message :
      {fs : List WsFrame} {body : Bytes} {op : ℕ} (fuel : ℕ) (ws : Ws n) (limit : Option ℕ)
      (bs tail : Bytes) (w : n.World)
      → (op ≡ 0x1) ⊎ (op ≡ 0x2)
      → Carries op fs body
      → AreOnWire fs bs
      → All (λ f. length f.payload ≤ k_max_msg) fs
      → length fs ≤ fuel
      → ws.closed ≡ false
      → ws.buffered ≡ bs ++ tail
      → recv n fuel ws limit w ≡ (
        some (record ws { buffered = tail }, ok (record { type = data_type op; payload = body })),
        (n.monotonic_ms w).1,
      )
  recv_message fuel ws limit bs tail w o c wr a h open_ e =
      recv_open fuel ws limit w open_ ∙ loop_message n limit _ fuel ws bs tail _ o c wr a h e
