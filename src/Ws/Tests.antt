-- ===== src/Ws/Tests.antt =====
-- Runs of the framing code over the scripted wire, and its theorems at concrete inputs.
use vericonnect_agent.Common.{ok, err, error, timeout, protocol}
use vericonnect_agent.Net.Scripted.{
  Wire, ScriptedWorld, scripted, scripted_delivers, push_incoming, wire_send, wire_recv,
}
use vericonnect_agent.Prelude.{
  ℕ, suc, ◌+◌, ◌<◌, ◌≤◌, Bool, true, false, Option, none, some, List, [], ◌∷◌, ◌++◌, ◌≡◌, ◌≢◌, refl,
  inl, inr, Bytes, codes, length, arith,
}
use vericonnect_agent.Ws.EndToEnd.{recv-send}
use vericonnect_agent.Ws.Frame.RoundTrip.{parse_frame-frame_bytes}
use vericonnect_agent.Ws.Frame.Stream.{parse_frame-append, extend}
use vericonnect_agent.Ws.Frame.Wire.{IsOnWire, AreOnWire}
use vericonnect_agent.Ws.Frame.{
  length_bytes, header_bytes, frame_bytes, read_length, read_payload, parse_frame,
}
use vericonnect_agent.Ws.Recv.Reassembly.{recv_message}
use vericonnect_agent.Ws.Recv.Timeout.{recv_timeout_loses_fragment}
use vericonnect_agent.Ws.Recv.{read_size, need_more, handle_frame, recv_loop, recv}
use vericonnect_agent.Ws.Send.Fragments.{last, more, frame, message_frames}
use vericonnect_agent.Ws.Send.Wire.{Wrote, send_written}
use vericonnect_agent.Ws.Send.{send_chunks, send_masked, send_frame, send}
use vericonnect_agent.Ws.{Ws, WsFrame, text, k_max_msg}

abbrev mask : Bytes
mask = 1 ∷ 2 ∷ 3 ∷ 4 ∷ []

abbrev hello : Bytes
hello = codes "hello"

abbrev idle : Wire
idle = record {
  incoming = [];
  outgoing = [];
  read_pos = 0;
  is_closed = false;
  eof = false;
  fail_send = false;
}

abbrev world : ScriptedWorld
world = record { wire = idle; clock = 100; seed = 7 }

abbrev open_socket : Ws scripted
open_socket = record { transport = tt; buffered = []; closed = false }

abbrev fragmented : List WsFrame
fragmented = frame 0x1 false (codes "hel") ∷ frame 0x0 true (codes "lo") ∷ []

abbrev fragmented_bytes : Bytes
fragmented_bytes =
    frame_bytes 0x1 false mask (codes "hel") ++ frame_bytes 0x0 true mask (codes "lo")

frame_hi : frame_bytes 0x1 true mask (codes "hi") ≡ 0x81 ∷ 0x82 ∷ 1 ∷ 2 ∷ 3 ∷ 4 ∷ 105 ∷ 107 ∷ []
unfolding frame_bytes length_bytes
frame_hi = refl

-- An unmasked frame, as a server sends it.
parse_unmasked :
    parse_frame (0x82 ∷ 0x02 ∷ 10 ∷ 20 ∷ 30 ∷ [])
    ≡ ok (some (record { opcode = 2; fin = true; payload = 10 ∷ 20 ∷ [] }, 30 ∷ []))
unfolding parse_frame read_length read_payload
parse_unmasked = refl

sent_on_wire :
    (send scripted open_socket text hello world).1.wire.outgoing
    ≡ frame_bytes 0x1 true (7 ∷ 7 ∷ 7 ∷ 7 ∷ []) hello
unfolding send send_frame send_masked send_chunks wire_send frame_bytes length_bytes
sent_on_wire = refl

-- A message in two pieces over the wire, with a ping between them, is put together.
received :
    (recv scripted 9 open_socket (some 1000) (record world {
      wire = push_incoming (0x01 ∷ 0x01 ∷ 65 ∷ 0x89 ∷ 0x00 ∷ 0x80 ∷ 0x01 ∷ 66 ∷ []) idle;
    })).0
    ≡ some (open_socket, ok (record { type = text; payload = codes "AB" }))
unfolding recv recv_loop need_more handle_frame parse_frame read_length read_payload wire_recv
    push_incoming send_frame send_masked send_chunks wire_send header_bytes length_bytes
received = refl

parse_frame-frame_bytes_example :
    parse_frame (frame_bytes 0x2 true mask hello ++ (9 ∷ []))
    ≡ ok (some (record { opcode = 0x2; fin = true; payload = hello }, 9 ∷ []))
parse_frame-frame_bytes_example =
    parse_frame-frame_bytes 0x2 true mask hello (9 ∷ []) (omega arith) refl (omega arith)

two_bytes : parse_frame (0x8A ∷ 0x00 ∷ []) ≢ ok none
unfolding parse_frame read_length read_payload
two_bytes e = cc

parse_frame-append_example :
    parse_frame ((0x8A ∷ 0x00 ∷ []) ++ (7 ∷ [])) ≡ extend (7 ∷ []) (parse_frame (0x8A ∷ 0x00 ∷ []))
parse_frame-append_example = parse_frame-append (0x8A ∷ 0x00 ∷ []) (7 ∷ []) two_bytes

cut_frame :
    (0x81 ∷ 0x82 ∷ 1 ∷ 2 ∷ 3 ∷ 4 ∷ 105 ∷ []) ++ (107 ∷ []) ≡ frame_bytes 0x1 true mask (codes "hi")
unfolding frame_bytes length_bytes
cut_frame = refl

send_succeeds : (send scripted open_socket text hello world).0 ≡ ok tt
unfolding send send_frame send_masked send_chunks wire_send
send_succeeds = refl

send_written_example :
    (bs : Bytes) × Wrote (message_frames 0x1 hello) bs
    × ((send scripted open_socket text hello world).1.wire.outgoing ≡ [] ++ bs)
send_written_example =
    send_written scripted scripted_delivers open_socket text hello world send_succeeds

-- A text message in two unmasked frames, as a server sends it.
server_frames : AreOnWire fragmented (0x01 ∷ 0x03 ∷ 104 ∷ 101 ∷ 108 ∷ 0x80 ∷ 0x02 ∷ 108 ∷ 111 ∷ [])
server_frames = (
  0x01 ∷ 0x03 ∷ 104 ∷ 101 ∷ 108 ∷ [],
  0x80 ∷ 0x02 ∷ 108 ∷ 111 ∷ [],
  inr refl,
  (0x80 ∷ 0x02 ∷ 108 ∷ 111 ∷ [], [], inr refl, refl, refl),
  refl,
)

recv_message_example :
    recv scripted 2
      (record open_socket {
        buffered = 0x01 ∷ 0x03 ∷ 104 ∷ 101 ∷ 108 ∷ 0x80 ∷ 0x02 ∷ 108 ∷ 111 ∷ 5 ∷ [];
      })
      none
      world
    ≡ (
      some (record open_socket { buffered = 5 ∷ [] }, ok (record { type = text; payload = hello })),
      record world { clock = 101 },
    )
recv_message_example =
    recv_message scripted 2 _ none _ (5 ∷ []) world (inl refl) (more last refl) server_frames
      (omega arith) (omega arith) refl refl

recv-send_example :
    (bs : Bytes) × ((send scripted open_socket text hello world).1.wire.outgoing ≡ [] ++ bs)
    × ((peer : Ws scripted) (fuel : ℕ) (limit : Option ℕ) (tail : Bytes) (v : ScriptedWorld)
        → length hello < fuel
        → peer.closed ≡ false
        → peer.buffered ≡ bs ++ tail
        → recv scripted fuel peer limit v ≡ (
          some (record peer { buffered = tail }, ok (record { type = text; payload = hello })),
          record v { clock = v.clock + 1 },
        ))
recv-send_example =
    recv-send scripted scripted_delivers scripted open_socket text hello world (λ e. cc)
      send_succeeds

wire_silent : (wait : ℕ) (x : ℕ) → (wire_recv read_size idle).0 ≡ err (error timeout)
unfolding wire_recv
wire_silent wait x = refl

abbrev cut_socket : Ws scripted
cut_socket = record open_socket { buffered = 0x01 ∷ 0x03 ∷ 104 ∷ 101 ∷ 108 ∷ [] }

recv_timeout_loses_fragment_example :
    ((fuel : ℕ)
      → (recv scripted (suc (suc fuel)) cut_socket (some 1000) world).0
        ≡ some (record cut_socket { buffered = [] }, err (error timeout)))
    × ((fuel : ℕ) (fin : Bool) (rest back tail : Bytes) (limit : Option ℕ) (v : ScriptedWorld)
        → IsOnWire (frame 0x0 fin rest) back
        → length rest ≤ k_max_msg
        → (recv scripted (suc fuel) (record cut_socket { buffered = back ++ tail }) limit v).0
          ≡ some (record cut_socket { buffered = tail }, err (error protocol)))
recv_timeout_loses_fragment_example =
    recv_timeout_loses_fragment scripted cut_socket 0x1 (codes "hel") _ 1000 world (inl refl)
      (inr refl) (omega arith) refl refl (λ wait. wire_silent wait 0)
