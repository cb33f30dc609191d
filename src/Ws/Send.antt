-- ===== src/Ws/Send.antt =====
-- The sending half of WebSocketT: send_frame with its header and its masked chunks, send with its
-- fragmentation, send_ping and send_close.
pub mod Fragments
pub mod Wire
use vericonnect_agent.Common.{Status, ok, err, error, fail, io, closed}
use vericonnect_agent.Net.{Net, Io, ◌>>=◌, pure}
use vericonnect_agent.Prelude.{
  ℕ, zero, suc, ◌+◌, Bool, true, false, Option, none, some, [], ◌∷◌, ◌++◌, Bytes, ◌==◌, leb,
  if◌then◌else◌, length, take, drop, min, u8, ◌>>>◌,
}
use vericonnect_agent.Ws.Frame.{xor_mask, header_bytes}
use vericonnect_agent.Ws.{Ws, MsgType, text, k_frag_size}

-- sizeof chunk
abbrev pub chunk_size : ℕ
chunk_size = 8192

abbrev pub opcode_of : MsgType → ℕ
opcode_of text = 0x1
opcode_of _ = 0x2

module _ (n : Net) where
  -- `if (!sent) return std::unexpected(Error::Io);` in front of what follows.
  abbrev pub if_sent : Status → Io n Status → Io n Status
  if_sent (ok _) next = next
  if_sent (err _) next = pure (err (error io))

  -- `if (!rc) return rc;` in front of what follows.
  abbrev pub if_ok : Status → Io n Status → Io n Status
  if_ok (ok _) next = next
  if_ok (err e) next = pure (err e)

  -- The loop over `data` behind `off`, in masked chunks, on fuel for the bytes left.
  unfoldable pub send_chunks : ℕ → n.Conn → Bytes → ℕ → Bytes → Io n Status
  send_chunks zero c mask off rest = pure (ok tt)
  send_chunks (suc f) c mask off [] = pure (ok tt)
  send_chunks (suc f) c mask off (b ∷ bs) = do
    let k = min chunk_size (length (b ∷ bs))
    sent ← n.send c (xor_mask mask off (take k (b ∷ bs)))
    if_sent sent (send_chunks f c mask (off + k) (drop k (b ∷ bs)))

  -- From the mask on: the header and the mask in one send, then the payload.
  unfoldable pub send_masked : n.Conn → ℕ → Bool → Bytes → Option Bytes → Io n Status
  send_masked c opcode fin payload none = pure (err (error fail))
  send_masked c opcode fin payload (some mask) = do
    sent ← n.send c (header_bytes opcode fin (length payload) ++ mask)
    if_sent sent (send_chunks (length payload) c mask 0 payload)

  unfoldable pub send_frame : n.Conn → ℕ → Bool → Bytes → Io n Status
  send_frame c opcode fin payload = do
    mask ← n.random_bytes 4
    send_masked c opcode fin payload mask

  -- The fragmentation loop over what is left of the message, on fuel for its bytes.
  unfoldable pub send_fragments : ℕ → n.Conn → ℕ → Bool → Bytes → Io n Status
  send_fragments zero c opcode first rest = pure (ok tt)
  send_fragments (suc f) c opcode first [] = pure (ok tt)
  send_fragments (suc f) c opcode first (b ∷ bs) = do
    let k = min k_frag_size (length (b ∷ bs))
    rc ← send_frame c (if first then opcode else 0x0) (k == length (b ∷ bs)) (take k (b ∷ bs))
    if_ok rc (send_fragments f c opcode false (drop k (b ∷ bs)))

  unfoldable pub send : Ws n → MsgType → Bytes → Io n Status
  send ws type payload =
      if ws.closed
      then pure (err (error closed))
      else if leb (length payload) k_frag_size
      then send_frame ws.transport (opcode_of type) true payload
      else send_fragments (length payload) ws.transport (opcode_of type) true payload

  unfoldable pub send_ping : Ws n → Io n Status
  send_ping ws =
      if ws.closed then pure (err (error closed)) else send_frame ws.transport 0x9 true []

  unfoldable pub send_close : Ws n → ℕ → Io n Status
  send_close ws code =
      if ws.closed
      then pure (err (error closed))
      else send_frame ws.transport 0x8 true (u8 (code >>> 8) ∷ u8 code ∷ [])
