-- ===== src/Ws.antt =====
-- core/src/vc_ws.cpp and core/include/vc/vc_ws.h, the RFC 6455 client: frames as bytes in Frame,
-- the sending half in Send, the receiving half in Recv.
pub mod Frame
pub mod Send
pub mod Recv
pub mod EndToEnd
pub mod Upgrade
mod Tests
use vericonnect_agent.Net.{Net}
use vericonnect_agent.Prelude.{ℕ, ◌*◌, Bool, Bytes}

-- kFragSize
abbrev pub k_frag_size : ℕ
k_frag_size = 60 * 1024

-- kMaxMsg
abbrev pub k_max_msg : ℕ
k_max_msg = 64 * 1024 * 1024

-- struct Frame
pub record WsFrame : Type 0 where
  pub opcode : ℕ
  pub fin : Bool
  pub payload : Bytes

-- WebSocketT::MsgType
pub data MsgType : Type 0 where
  text binary close : MsgType

-- WebSocketT::Message
pub record Message : Type 0 where
  pub type : MsgType
  pub payload : Bytes

-- The fields of WebSocketT: its transport, the raw bytes not decoded yet, and whether it is closed.
pub record Ws (n : Net) : Type 0 where
  pub transport : n.Conn
  pub buffered : Bytes
  pub closed : Bool
