-- ===== src/Ws/Recv.antt =====
-- The receiving half of WebSocketT: read_more, one round of the loop of recv, and the loop on
-- fuel, since a peer may send control frames for ever.
pub mod Reassembly
pub mod Timeout
use vericonnect_agent.Common.{Result, Error, ok, err, error, timeout, protocol, closed}
use vericonnect_agent.Net.{Net, Io, ◌>>=◌, pure}
use vericonnect_agent.Prelude.{
  ℕ, zero, suc, ◌+◌, ◌-◌, Bool, true, false, not, Option, none, some, [], ◌∷◌, ◌++◌, Bytes, ◌==◌,
  leb, if◌then◌else◌, take,
}
use vericonnect_agent.Ws.Frame.{parse_frame}
use vericonnect_agent.Ws.Send.{send_frame}
use vericonnect_agent.Ws.{Ws, WsFrame, MsgType, text, binary, close, Message}

-- sizeof tmp in read_more
abbrev pub read_size : ℕ
read_size = 8192

-- The locals of recv: the message so far, its opcode, and whether it is a fragmented one.
pub record Assembly : Type 0 where
  pub msg : Bytes
  pub msg_opcode : ℕ
  pub in_fragmented : Bool

abbrev pub no_message : Assembly
no_message = record { msg = []; msg_opcode = 0; in_fragmented = false }

abbrev pub data_type : ℕ → MsgType
data_type opcode = if opcode == 0x1 then text else binary

abbrev pub is_timeout : Error → Bool
is_timeout e = elim e.code [ timeout ↦ true | _ ↦ false ]

-- A negative timeout counts as 0 for the deadline.
abbrev pub limit_ms : Option ℕ → ℕ
limit_ms none = 0
limit_ms (some t) = t

module _ (n : Net) where
  -- How a round ends: with the loop's next locals, or with the result of recv.
  pub data Round : Type 0 where
    again : Ws n → Assembly → Round
    done : Ws n → Result Message → Round

  -- read_more: at most `read_size` bytes behind `in_`; nothing read is an orderly close.
  abbrev pub appended : Ws n → Result Bytes → Result (Ws n)
  appended ws (err e) = err e
  appended ws (ok []) = err (error closed)
  appended ws (ok (b ∷ bs)) = ok (record ws { buffered = ws.buffered ++ b ∷ bs })

  unfoldable pub read_more : Ws n → ℕ → Io n (Result (Ws n))
  read_more ws wait = do got ← n.recv ws.transport read_size wait; pure (appended ws got)

  -- `none` is a negative timeout_ms: wait for ever.
  abbrev pub read_failed : Ws n → Assembly → Option ℕ → Error → Round
  read_failed ws asm limit e =
      if is_timeout e
      then elim limit [ none ↦ again ws asm | some t ↦ done ws (err (error timeout)) ]
      else done (record ws { closed = true }) (err e)

  abbrev pub after_read : Ws n → Assembly → Option ℕ → Result (Ws n) → Round
  after_read ws asm limit (ok ws') = again ws' asm
  after_read ws asm limit (err e) = read_failed ws asm limit e

  -- The read of a caller that waits for at most a given time, once the clock shows `now`.
  abbrev pub timed_read : Ws n → Assembly → ℕ → ℕ → ℕ → Io n Round
  timed_read ws asm t deadline now =
      if leb deadline now
      then pure (done ws (err (error timeout)))
      else (read_more ws (deadline - now) >>= λ got. pure (after_read ws asm (some t) got))

  -- No whole frame is buffered: check the deadline and read more.
  unfoldable pub need_more : Ws n → Assembly → Option ℕ → ℕ → Io n Round
  unfolding read_more
  need_more ws asm none deadline = do
    now ← n.monotonic_ms
    got ← read_more ws 60000
    pure (after_read ws asm none got)
  need_more ws asm (some t) deadline = do now ← n.monotonic_ms; timed_read ws asm t deadline now

  -- case 0x0: a continuation frame
  unfoldable pub continuation : Ws n → Assembly → WsFrame → Round
  continuation ws asm f =
      if not asm.in_fragmented
      then done ws (err (error protocol))
      else if f.fin
      then done ws (ok (record { type = data_type asm.msg_opcode; payload = asm.msg ++ f.payload }))
      else again ws (record asm { msg = asm.msg ++ f.payload })

  -- case 0x1, 0x2: the first frame of a message
  unfoldable pub first_frame : Ws n → Assembly → WsFrame → Round
  first_frame ws asm f =
      if asm.in_fragmented
      then done ws (err (error protocol))
      else if f.fin
      then done ws (ok (record { type = data_type f.opcode; payload = f.payload }))
      else again ws
          (record { msg = asm.msg ++ f.payload; msg_opcode = f.opcode; in_fragmented = true })

  -- The switch on the opcode. The results of the replies to ping and close are ignored.
  unfoldable pub handle_frame : Ws n → Assembly → WsFrame → Io n Round
  unfolding continuation first_frame
  handle_frame ws asm f =
      if f.opcode == 0x9
      then (send_frame n ws.transport 0xA true f.payload >>= λ sent. pure (again ws asm))
      else if f.opcode == 0xA
      then pure (again ws asm)
      else if f.opcode == 0x8
      then (send_frame n ws.transport 0x8 true (take 2 f.payload) >>= λ sent.
          pure (
            done (record ws { closed = true }) (ok (record { type = close; payload = f.payload }))))
      else if f.opcode == 0x0
      then pure (continuation ws asm f)
      else if f.opcode == 0x1
      then pure (first_frame ws asm f)
      else if f.opcode == 0x2
      then pure (first_frame ws asm f)
      else pure (done ws (err (error protocol)))

  -- One round of the loop, on what parse_frame makes of the buffer.
  abbrev pub round_on :
      Ws n → Assembly → Option ℕ → ℕ → Result (Option (WsFrame × Bytes)) → Io n Round
  round_on ws asm limit deadline (err e) = pure (done ws (err e))
  round_on ws asm limit deadline (ok none) = need_more ws asm limit deadline
  round_on ws asm limit deadline (ok (some (f, rest))) =
      handle_frame (record ws { buffered = rest }) asm f

  -- `continue`, or the return.
  abbrev pub next :
      Round
      → (Ws n → Assembly → Io n (Option (Ws n × Result Message)))
      → Io n (Option (Ws n × Result Message))
  next (again ws asm) loop = loop ws asm
  next (done ws result) loop = pure (some (ws, result))

  -- The loop of recv on fuel; `none` is out of fuel.
  unfoldable pub recv_loop :
      ℕ → Ws n → Assembly → Option ℕ → ℕ → Io n (Option (Ws n × Result Message))
  recv_loop zero ws asm limit deadline = pure none
  recv_loop (suc fuel) ws asm limit deadline = do
    r ← round_on ws asm limit deadline (parse_frame ws.buffered)
    next r (λ ws' asm'. recv_loop fuel ws' asm' limit deadline)

  unfoldable pub recv : ℕ → Ws n → Option ℕ → Io n (Option (Ws n × Result Message))
  recv fuel ws limit =
      if ws.closed
      then pure (some (ws, err (error closed)))
      else (n.monotonic_ms >>= λ now. recv_loop fuel ws no_message limit (now + limit_ms limit))

  -- WebSocketT::close
  unfoldable pub close_ws : Ws n → n.World → Ws n × n.World
  close_ws ws w = (record ws { buffered = []; closed = true }, n.close ws.transport w)
