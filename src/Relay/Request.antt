-- ===== src/Relay/Request.antt =====
-- core/src/vc_relay.cpp: the answer to a request, on the control channel or on a rendezvous
-- connection. The members of Listener are functions of its state and the world.
use vericonnect_agent.Common.{Result, Status, ok, err, error, protocol, error_detail}
use vericonnect_agent.Json.{write_number, Json, dump, find_ci}
use vericonnect_agent.Json.Parse.{parse}
use vericonnect_agent.Net.{◌>>=◌, pure}
use vericonnect_agent.Sas.{sas_token}
use vericonnect_agent.Url.{Url, url_parse, url_encode}
use vericonnect_agent.Ws.{Message, text, binary}
use vericonnect_agent.Prelude.Search.{find}
use vericonnect_agent.Relay.{
  RelayConfig, RelayRequest, RelayResponse, default_response, Host, Listener, error_number,
  k_connect_timeout, k_body_timeout, ResponseChannel, control, rendezvous, choose_response_channel,
  ParsedRequest, parse_request_node, build_response_msg,
}
use vericonnect_agent.Prelude.{
  ◌+◌, u64, Bool, true, false, not, ◌&&◌, Option, none, some, [], ◌∷◌, ◌++◌, Bytes, codes,
  if◌then◌else◌, length, is_nil, ℤ, pos,
}

-- A member of Listener: what it returns, and the state it leaves.
abbrev pub Run : {D : Type 0} → Host D → Type 0 → Type 0
Run h A = Listener h → A × Listener h

infixl 5 ◌>>◌
abbrev pub ◌>>◌ : {W A B : Type 0} → (W → A × W) → (W → B × W) → W → B × W
m >> k = m >>= λ _. k

-- The path of a rendezvous dial: that of the address, with a token behind it unless its query has one.
abbrev pub address_path : Url → Bytes
address_path u = if is_nil u.query then u.path else u.path ++ b'?' ∷ u.query

unfoldable pub carries_token : Url → Bool
unfolding find
carries_token u =
    if is_nil u.query
    then false
    else elim (find (codes "sb-hc-token=") u.query) [ none ↦ false | some at ↦ true ]

abbrev pub token_suffix : Url → Bytes → Bytes
token_suffix u token =
    if is_nil token
    then []
    else (if is_nil u.query then b'?' else b'&') ∷ (codes "sb-hc-token=" ++ url_encode token)

-- The payload of a binary message.
abbrev pub binary_payload : Result Message → Result Bytes
binary_payload (err e) = err e
binary_payload (ok m) = elim m.type [ binary ↦ ok m.payload | _ ↦ err (error protocol) ]

abbrev pub filled : Bool × RelayResponse → RelayResponse
filled (valid, resp) = if valid then resp else default_response

module _ {D : Type 0} (h : Host D) where
  -- A call that changes the world.
  abbrev pub in_world : {A : Type 0} → (h.World → A × h.World) → Run h A
  in_world m l = ((m l.world).0, record l { world = (m l.world).1 })

  abbrev pub change_world : (h.World → h.World) → Run h (Unit {0})
  change_world f l = (tt, record l { world = f l.world })

  unfoldable pub emit : Bytes → ℤ → Bytes → Run h (Unit {0})
  emit event code desc = elim (h.on_event) [
    | none ↦ pure tt
    | some on_event ↦ change_world (on_event event code desc)
  ]

  -- `if (!rc) return rc;` in front of what follows.
  abbrev pub if_ok : Status → Run h Status → Run h Status
  if_ok (ok _) next = next
  if_ok (err e) next = pure (err e)

  unfoldable pub send_response_over : h.Socket → Bytes → RelayResponse → Run h Status
  unfolding build_response_msg dump
  send_response_over ws request_id resp = do
    let has_body = not (is_nil resp.body)
    let msg = dump (write_number h.double) (build_response_msg h.of_int request_id resp has_body)
    rc ← in_world (h.send ws text msg)
    if_ok rc (if has_body then in_world (h.send ws binary resp.body) else pure (ok tt))

  unfoldable pub read_body : h.Socket → Bool → Run h (Result Bytes)
  read_body ws expected =
      if expected
      then (in_world (h.recv ws k_body_timeout) >>= λ m. pure (binary_payload m))
      else pure (ok [])

  unfoldable pub invoke_handler : RelayRequest → Run h RelayResponse
  invoke_handler req = elim (h.on_request) [
    | none ↦
        pure
          (record default_response { status_code = pos 501; status_desc = codes "Not Implemented" })
    | some on_request ↦ (in_world (on_request req default_response) >>= λ r. pure (filled r))
  ]

  unfoldable pub report_sent : RelayResponse → Bytes → Status → Run h (Unit {0})
  unfolding emit error_detail
  report_sent resp target (err e) =
      emit (codes "RESPONSE_ERROR") (error_number e.code)
        (codes "failed to send response: " ++ error_detail h.error_text e)
  report_sent resp target (ok _) = emit (codes "RESPONSE_SENT") resp.status_code target

  -- headers_json
  abbrev pub headers_of : Option (Json D) → Bytes
  headers_of none = []
  headers_of (some hdrs) = dump (write_number h.double) hdrs

module _ {D : Type 0} (h : Host D) (cfg : RelayConfig) where
  unfoldable pub make_token : Run h Bytes
  unfolding sas_token
  make_token l =
      let (now, w) = h.time l.world in
      let (again, w') = h.time w in
      (
        sas_token again cfg.namespace_host cfg.hybrid_connection cfg.key_name cfg.key l.ttl,
        record l { token_expiry_wall = u64 (now + l.ttl); world = w' },
      )

  -- The token behind the path of a rendezvous dial.
  unfoldable pub token_part : Url → Run h Bytes
  unfolding carries_token make_token url_encode
  token_part u =
      if carries_token u then pure [] else (make_token >>= λ token. pure (token_suffix u token))

  abbrev pub rendezvous_dial : Result Url → Run h (Result h.Socket)
  rendezvous_dial (err e) = pure (err e)
  rendezvous_dial (ok u) = do
    token ← token_part u
    in_world h (h.dial u.host u.port (address_path u ++ token) [] k_connect_timeout)

  unfoldable pub rendezvous_connect : Bytes → Run h (Result h.Socket)
  unfolding url_parse token_part
  rendezvous_connect address = rendezvous_dial (url_parse address)

  -- The answer over a rendezvous connection, closed and gone behind it; over `ws` where there is none.
  abbrev pub over_rendezvous : h.Socket → Bytes → RelayResponse → Result h.Socket → Run h Status
  over_rendezvous ws id resp (err e) = send_response_over h ws id resp
  over_rendezvous ws id resp (ok rws) = do
    src ← send_response_over h rws id resp
    in_world h (h.send_close rws 1000)
    change_world h (h.destroy rws)
    pure src

  abbrev pub over_channel :
      h.Socket → ParsedRequest → RelayResponse → ResponseChannel → Run h Status
  over_channel ws pr resp control = send_response_over h ws pr.id resp
  over_channel ws pr resp rendezvous =
      rendezvous_connect pr.address >>= over_rendezvous ws pr.id resp

  unfoldable pub deliver_response : h.Socket → ParsedRequest → RelayResponse → Bool → Run h Status
  unfolding choose_response_channel rendezvous_connect send_response_over
  deliver_response ws pr resp on_control =
      over_channel ws pr resp (choose_response_channel on_control (length resp.body) pr.has_address)

  -- handle_request once the body is read.
  unfoldable pub respond :
      h.Socket → Json D → ParsedRequest → Bool → Result Bytes → Run h (Unit {0})
  unfolding emit invoke_handler deliver_response report_sent dump find_ci
  respond ws req_node pr on_control (err e) =
      emit h (codes "REQUEST_ERROR") (pos 0) (codes "failed reading request body")
  respond ws req_node pr on_control (ok body) = do
    resp ← invoke_handler h (record {
      id = pr.id;
      method = pr.method;
      target = pr.target;
      headers_json = headers_of h (find_ci req_node (codes "requestHeaders"));
      body = body;
    })
    src ← deliver_response ws pr resp on_control
    report_sent h resp pr.target src

  -- handle_request behind the branch of offers.
  unfoldable pub answer : h.Socket → Json D → Bool → Run h (Unit {0})
  unfolding parse_request_node read_body respond
  answer ws req_node on_control = do
    let pr = parse_request_node req_node
    body ← read_body h ws pr.has_body
    respond ws req_node pr on_control body

  -- The request that a rendezvous connection delivers: handle_request with on_control false.
  abbrev pub offered : h.Socket → Result Message → Run h (Unit {0})
  offered rws (err e) = pure tt
  offered rws (ok m) = elim m.type [
    | text ↦ elim (parse h.strtod m.payload) [
      | err e ↦ pure tt
      | ok root ↦ elim (find_ci root (codes "request")) [
        | none ↦ pure tt
        | some inner ↦ answer rws inner false
      ]
    ]
    | _ ↦ pure tt
  ]

  abbrev pub take_offer : Bytes → Result h.Socket → Run h (Unit {0})
  take_offer address (err e) =
      emit h (codes "RENDEZVOUS_FAILED") (error_number e.code)
        (address ++ (codes ": " ++ error_detail h.error_text e))
  take_offer address (ok rws) = do
    m ← in_world h (h.recv rws k_body_timeout)
    offered rws m
    in_world h (h.send_close rws 1000)
    change_world h (h.destroy rws)

  unfoldable pub handle_rendezvous_offer : Bytes → Run h (Unit {0})
  unfolding emit rendezvous_connect answer parse find_ci error_detail
  handle_rendezvous_offer address = do
    emit h (codes "RENDEZVOUS") (pos 0) address
    rws ← rendezvous_connect address
    take_offer address rws

  unfoldable pub handle_request : h.Socket → Json D → Bool → Run h (Unit {0})
  unfolding parse_request_node emit handle_rendezvous_offer answer
  handle_request ws req_node on_control =
      let pr = parse_request_node req_node in
      if on_control && not pr.has_method
      then (if pr.has_address
          then handle_rendezvous_offer pr.address
          else emit h (codes "REQUEST_ERROR") (pos 0) (codes "request without method or address"))
      else answer ws req_node on_control
