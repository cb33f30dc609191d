-- ===== src/Relay.antt =====
-- core/src/vc_relay.cpp and core/include/vc/vc_relay.h, the relay listener: its vocabulary and its
-- pure parts here, the requests in Request, the control channel and the loop in Loop.
pub mod Request
pub mod Loop
pub mod Frame
pub mod Response
pub mod Renewal
mod Tests
use vericonnect_agent.Common.{
  Result, Status, ErrorCode, fail, no_mem, invalid_arg, not_found, io, timeout, closed, protocol,
  tls, exists, unsupported,
}
use vericonnect_agent.Json.{
  Doubles, Json, boolean, number, string, object, no_member, set_key, find_ci, get_str, get_flag,
}
use vericonnect_agent.Ws.{MsgType, Message}
use vericonnect_agent.Prelude.{
  ℕ, ◌+◌, ◌-◌, ◌*◌, ◌/◌, u64, inl, inr, Bool, true, false, not, ◌&&◌, Option, none, some, [], arith,
  Bytes, codes, ltb, leb, ◌==◌, if◌then◌else◌, tests, is_nil, ℤ, pos, negsuc,
}

-- struct RelayConfig
pub record RelayConfig : Type 0 where
  pub namespace_host : Bytes
  pub hybrid_connection : Bytes
  pub key_name : Bytes
  pub key : Bytes
  pub token_ttl_seconds : ℕ

-- struct RelayRequest
pub record RelayRequest : Type 0 where
  pub id : Bytes
  pub method : Bytes
  pub target : Bytes
  pub headers_json : Bytes
  pub body : Bytes

-- struct RelayResponse, and a value of its defaults
pub record RelayResponse : Type 0 where
  pub status_code : ℤ
  pub status_desc : Bytes
  pub body : Bytes
  pub content_type : Bytes

abbrev pub default_response : RelayResponse
default_response = record {
  status_code = pos 500;
  status_desc = codes "Internal Server Error";
  body = [];
  content_type = [];
}

-- What the listener calls: the Dialler with its websocket_type, the callbacks of RelayCallbacks
-- (none where the std::function is empty), `stop`, the clocks, the log, and the numbers of JSON,
-- which are of a type that stands for double.
pub record Host (D : Type 0) : Type 1 where
  pub World : Type 0
  -- A handle on a websocket_type.
  pub Socket : Type 0
  -- The dialler: host, port, path and query, extra headers, timeout in ms.
  pub dial : Bytes → ℕ → Bytes → Bytes → ℕ → World → Result Socket × World
  pub send : Socket → MsgType → Bytes → World → Status × World
  pub send_ping : Socket → World → Status × World
  pub send_close : Socket → ℕ → World → Status × World
  pub recv : Socket → ℕ → World → Result Message × World
  -- The end of a socket's life.
  pub destroy : Socket → World → World
  pub on_request : Option (RelayRequest → RelayResponse → World → (Bool × RelayResponse) × World)
  pub on_event : Option (Bytes → ℤ → Bytes → World → World)
  pub stop : World → Bool × World
  pub monotonic_ms : World → ℕ × World
  pub sleep_ms : ℕ → World → World
  -- std::time
  pub time : World → ℕ × World
  -- log::message at Level::Debug, where that level is enabled
  pub debug : Bytes → World → World
  -- os::error_text
  pub error_text : ℕ → Bytes
  pub strtod : Bytes → Option (D × ℕ)
  pub double : Doubles D
  -- int to double
  pub of_int : ℤ → D

-- The members of a Listener that change, with the world around it.
pub record Listener {D : Type 0} (h : Host D) : Type 0 where
  pub ctrl : Option h.Socket
  pub ttl : ℕ
  pub token_renew_at : ℕ
  pub token_expiry_wall : ℕ
  pub next_ping_at : ℕ
  pub world : h.World

-- enum class ErrorCode as an int.
abbrev pub error_number : ErrorCode → ℤ
error_number fail = negsuc 0
error_number no_mem = negsuc 1
error_number invalid_arg = negsuc 2
error_number not_found = negsuc 3
error_number io = negsuc 4
error_number timeout = negsuc 5
error_number closed = negsuc 6
error_number protocol = negsuc 7
error_number tls = negsuc 8
error_number exists = negsuc 9
error_number unsupported = negsuc 10

abbrev pub is_timeout : ErrorCode → Bool
is_timeout timeout = true
is_timeout _ = false

abbrev pub k_ctrl_body_max : ℕ
k_ctrl_body_max = 60 * 1024

abbrev pub k_recv_tick_ms : ℕ
k_recv_tick_ms = 1000

abbrev pub k_ping_interval : ℕ
k_ping_interval = 30000

abbrev pub k_connect_timeout : ℕ
k_connect_timeout = 20000

abbrev pub k_body_timeout : ℕ
k_body_timeout = 30000

unfoldable pub renewal_due : ℕ → ℕ → ℕ → ℕ → ℕ → Bool
renewal_due now_mono mono_due now_wall expiry_wall ttl_seconds =
    if leb mono_due now_mono
    then true
    else if expiry_wall == 0
    then false
    else leb expiry_wall (u64 (now_wall + ttl_seconds / 4))

-- enum class ResponseChannel
pub data ResponseChannel : Type 0 where
  control rendezvous : ResponseChannel

unfoldable pub choose_response_channel : Bool → ℕ → Bool → ResponseChannel
choose_response_channel on_control body_size has_address =
    if on_control && ltb k_ctrl_body_max body_size && has_address then rendezvous else control

-- struct ParsedRequest
pub record ParsedRequest : Type 0 where
  pub id : Bytes
  pub method : Bytes
  pub target : Bytes
  pub address : Bytes
  pub has_method : Bool
  pub has_address : Bool
  pub has_body : Bool

module _ {D : Type 0} where
  -- The text of a member, where it is there and a string.
  abbrev pub text_of : Option (Json D) → Option Bytes
  text_of (some (string s)) = some s
  text_of _ = none

  unfoldable pub parse_request_node : Json D → ParsedRequest
  unfolding get_str get_flag find_ci
  parse_request_node req_node =
      let method_node = text_of (find_ci req_node (codes "method")) in
      let addr_node = text_of (find_ci req_node (codes "address")) in
      record {
        id = get_str req_node (codes "id") [];
        method = elim method_node [ none ↦ [] | some s ↦ s ];
        target = get_str req_node (codes "requestTarget") (codes "/");
        address = elim addr_node [ none ↦ [] | some s ↦ s ];
        has_method = elim method_node [ none ↦ false | some s ↦ true ];
        has_address = elim addr_node [ none ↦ false | some s ↦ true ];
        has_body = get_flag req_node (codes "body") false;
      }

  abbrev pub empty_object : Json D
  empty_object = object no_member

  -- The inner object `r` of build_response_msg.
  unfoldable pub response_fields : (ℤ → D) → Bytes → RelayResponse → Bool → Json D
  unfolding set_key
  response_fields of_int request_id resp has_body =
      let type = if is_nil resp.content_type then codes "application/json" else resp.content_type in
      let r = set_key empty_object (codes "requestId") (string request_id) in
      let r = set_key r (codes "statusCode") (number (of_int resp.status_code)) in
      let r =
        if not (is_nil resp.status_desc)
        then set_key r (codes "statusDescription") (string resp.status_desc)
        else r in
      let hdrs = set_key empty_object (codes "Content-Type") (string type) in
      let r = set_key r (codes "responseHeaders") hdrs in
      set_key r (codes "body") (boolean has_body)

  unfoldable pub build_response_msg : (ℤ → D) → Bytes → RelayResponse → Bool → Json D
  unfolding response_fields set_key
  build_response_msg of_int request_id resp has_body =
      set_key empty_object (codes "response") (response_fields of_int request_id resp has_body)
