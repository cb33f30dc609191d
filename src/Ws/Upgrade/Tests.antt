-- ===== src/Ws/Upgrade/Tests.antt =====
-- A handshake over the scripted wire, and the theorems of this folder at it.
use vericonnect_agent.Net.Scripted.{ScriptedWorld, scripted, scripted_streams, wire_send}
use vericonnect_agent.Prelude.{◌≢◌, false, none, [], ◌∷◌, ◌++◌, arith, Bytes, codes}
use vericonnect_agent.Ws.Upgrade.Returns.{upgrade_returns}
use vericonnect_agent.Ws.Upgrade.{upgrade}
use vericonnect_agent.Ws.{Ws}

-- The answer and the first frame behind it, in one read.
abbrev answered : ScriptedWorld
answered = record {
  wire = record {
    incoming = codes "HTTP/1.1 101 S\r\nA: b\r\n\r\n" ++ 0x81 ∷ 0x01 ∷ 66 ∷ [];
    outgoing = [];
    read_pos = 0;
    is_closed = false;
    eof = false;
    fail_send = false;
  };
  clock = 100;
  seed = 7;
}

abbrev socket : Ws scripted
socket = record { transport = tt; buffered = 0x81 ∷ 0x01 ∷ 66 ∷ []; closed = false }

abbrev host : Bytes
host = codes "relay"

upgrade_returns_example : (upgrade scripted 40 tt host (codes "/p") [] 0 answered).0 ≢ none
unfolding wire_send
upgrade_returns_example =
    upgrade_returns scripted scripted_streams 40 tt host (codes "/p") [] 0 answered
      (λ nonce. omega arith)
