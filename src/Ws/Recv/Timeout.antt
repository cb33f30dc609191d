-- ===== src/Ws/Recv/Timeout.antt =====
-- A timeout in the middle of a fragmented message.
use vericonnect_agent.Common.{ok, err, error, protocol, timeout}
use vericonnect_agent.Net.{Net, ◌>>=◌}
use vericonnect_agent.Prelude.{
  ℕ, suc, ◌+◌, ◌-◌, ◌≤◌, Bool, false, Option, none, some, [], ◌++◌, ◌≡◌, refl, ap, ◌∙◌, inl, inr,
  ◌⊎◌, Bytes, leb, Bool-cases, length, sym, append-nil, arith,
}
use vericonnect_agent.Ws.Frame.Wire.{IsOnWire}
use vericonnect_agent.Ws.Frame.{parse_frame}
use vericonnect_agent.Ws.Recv.Reassembly.{loop_frame, loop_first, after_first, recv_open}
use vericonnect_agent.Ws.Recv.{
  Assembly, no_message, first_frame, handle_frame, need_more, read_size, next, recv_loop, recv,
}
use vericonnect_agent.Ws.Send.Fragments.{frame}
use vericonnect_agent.Ws.{Ws, k_max_msg}

parse_nil : parse_frame [] ≡ ok none
unfolding parse_frame
parse_nil = refl

module _ (n : Net) where
  -- With nothing buffered and a silent peer the loop ends in a timeout, at the deadline or not.
  loop_silent :
      (fuel : ℕ) (ws : Ws n) (asm : Assembly) (t deadline : ℕ) (w : n.World)
      → ws.buffered ≡ []
      → ((wait : ℕ)
          → (n.recv ws.transport read_size wait (n.monotonic_ms w).1).0 ≡ err (error timeout))
      → (recv_loop n (suc fuel) ws asm (some t) deadline w).0 ≡ some (ws, err (error timeout))
  unfolding recv_loop need_more
  loop_silent fuel ws asm t deadline w e silent =
      rw (ap parse_frame e ∙ parse_nil) (elim (Bool-cases (leb deadline (n.monotonic_ms w).0)) [
        | inl late ↦ rw late refl
        | inr early ↦ rw early (ground (arith, silent (deadline - (n.monotonic_ms w).0)))
      ])

  -- A fragmented message that is cut by a timeout is lost: if the first fragment of a text or
  -- binary message is buffered and the peer then stays silent, recv with a time limit reports a
  -- timeout and leaves nothing of the fragment; and when a continuation frame is in front of the
  -- buffer, a later recv reports a protocol error on it, whatever it holds. Each of the two frames
  -- arrives unmasked, as a server sends it, or masked with some four bytes, its payload is within
  -- the size cap, and the connection is open.
  pub recv_timeout_loses_fragment :
      (ws : Ws n) (op : ℕ) (part front : Bytes) (t : ℕ) (w : n.World)
      → (op ≡ 0x1) ⊎ (op ≡ 0x2)
      → IsOnWire (frame op false part) front
      → length part ≤ k_max_msg
      → ws.closed ≡ false
      → ws.buffered ≡ front
      → ((wait : ℕ)
          → (n.recv ws.transport read_size wait (n.monotonic_ms (n.monotonic_ms w).1).1).0
            ≡ err (error timeout))
      → ((fuel : ℕ)
          → (recv n (suc (suc fuel)) ws (some t) w).0
            ≡ some (record ws { buffered = [] }, err (error timeout)))
        × ((fuel : ℕ) (fin : Bool) (rest back tail : Bytes) (limit : Option ℕ) (v : n.World)
            → IsOnWire (frame 0x0 fin rest) back
            → length rest ≤ k_max_msg
            → (recv n (suc fuel) (record ws { buffered = back ++ tail }) limit v).0
              ≡ some (record ws { buffered = tail }, err (error protocol)))
  recv_timeout_loses_fragment ws op part front t w o wire fits open_ e silent = (
    λ fuel.
        ap (λ r. r.0)
          (recv_open n (suc (suc fuel)) ws (some t) w open_
            ∙ loop_first n (some t) _ (suc fuel) ws op false part front [] _ o wire fits
                (e ∙ sym (append-nil _)))
        ∙ after_cut fuel,
    λ fuel fin rest back tail limit v wire' fits'.
        ap (λ r. r.0)
          (recv_open n (suc fuel) _ limit v open_
            ∙ loop_frame n limit _ fuel _ no_message 0x0 fin rest back tail _ (omega arith) wire'
                fits' refl)
        ∙ refused fuel fin rest tail limit _ _,
  )
    where
      after_cut :
          (fuel : ℕ)
          → (after_first n
              (some t)
              ((n.monotonic_ms w).0 + t)
              (suc fuel)
              (record ws { buffered = [] })
              op
              false
              part
              (n.monotonic_ms w).1).0
            ≡ some (record ws { buffered = [] }, err (error timeout))
      after_cut fuel =
          unfold after_first first_frame in
          loop_silent fuel (record ws { buffered = [] }) _ t _ _ refl silent

      refused :
          (fuel : ℕ) (fin : Bool) (rest tail : Bytes) (limit : Option ℕ) (deadline : ℕ)
          (v : n.World)
          → ((handle_frame n (record ws { buffered = tail }) no_message (frame 0x0 fin rest)
                >>= λ r. next n r (λ ws' asm'. recv_loop n fuel ws' asm' limit deadline))
              v).0
            ≡ some (record ws { buffered = tail }, err (error protocol))
      refused fuel fin rest tail limit deadline v = unfold handle_frame in refl
