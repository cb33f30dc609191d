-- ===== src/Relay/Frame/Requests.antt =====
-- core/src/vc_relay.cpp: the induction of Frame over a request, its rendezvous and its response.
use vericonnect_agent.Relay.Frame.{
  Frame, Holds, >>=-Holds, emit-Holds, send_response_over-Holds, read_body-Holds,
  invoke_handler-Holds, report_sent-Holds,
}
use vericonnect_agent.Common.{Result, Error, ok, err, error_detail}
use vericonnect_agent.Json.{Json, find_ci}
use vericonnect_agent.Json.Parse.{parse}
use vericonnect_agent.Net.{◌>>=◌, pure}
use vericonnect_agent.Url.{Url, url_parse}
use vericonnect_agent.Ws.{MsgType, Message, text, binary, close}
use vericonnect_agent.Relay.{
  RelayConfig, RelayRequest, RelayResponse, Host, Listener, ResponseChannel, k_connect_timeout,
  k_body_timeout, error_number, control, rendezvous, ParsedRequest, parse_request_node,
}
use vericonnect_agent.Relay.Request.{
  Run, in_world, emit, make_token, send_response_over, token_part, address_path, headers_of,
  rendezvous_dial, rendezvous_connect, read_body, invoke_handler, over_rendezvous, over_channel,
  deliver_response, respond, answer, offered, take_offer, handle_rendezvous_offer, handle_request,
  carries_token,
}
use vericonnect_agent.Prelude.{
  ℕ, ◌≡◌, refl, sym, subst, inl, inr, Bool, false, not, ◌&&◌, Option, none, some, [], ◌++◌, Bytes,
  codes, Bool-cases, pos,
}

module _ {D : Type 0} (h : Host D) (R : Listener h → Listener h → Type 0) (f : Frame h R) where
  module _ (cfg : RelayConfig) where
    pub make_token-Holds : (Holds h R f) (make_token h cfg)
    unfolding make_token
    make_token-Holds l =
        let one : Listener h = record l { world = (h.time l.world).1 } in
        let two : Listener h = record one { world = (h.time one.world).1 } in
        f.join l one _ (f.timed l)
          (f.join one two _ (f.timed one) (f.deadlines two two.token_renew_at _ two.next_ping_at))

    pub token_part-Holds : (u : Url) → Holds h R f (token_part h cfg u)
    unfolding token_part
    token_part-Holds u l = elim (Bool-cases (carries_token u)) [
      | inl y ↦ rw (token_part, y) (f.stay l)
      | inr n ↦ rw (token_part, n) (make_token-Holds l)
    ]

    -- What is done with a socket, and then its end.
    abbrev pub Visits : {A : Type 0} → h.Socket → Run h A → Type 0
    Visits s m =
        (l : Listener h)
        → (l' : Listener h) × R l l' × ((m l).1 ≡ record l' { world = h.destroy s l'.world })

    pub dialled-Holds :
        {A : Type 0} (host : Bytes) (port : ℕ) (path extra : Bytes) (t : ℕ)
        (k : Result h.Socket → Run h A)
        → ((e : Error) → Holds h R f (k (err e)))
        → ((s : h.Socket) → Visits s (k (ok s)))
        → Holds h R f (in_world h (h.dial host port path extra t) >>= k)
    dialled-Holds host port path extra t k he hs l =
        go ((h.dial host port path extra t l.world).0) refl
      where
        l1 : Listener h
        l1 = record l { world = (h.dial host port path extra t l.world).1 }

        go : (r : Result h.Socket) → (h.dial host port path extra t l.world).0 ≡ r → R l (k r l1).1
        go (err e) eq = f.join l l1 _ (f.failed host port path extra t l e eq) (he e l1)
        go (ok s) eq =
            let v = hs s l1 in
            subst (R l) (sym v.2) (f.visited host port path extra t l v.0 s eq v.1)

    pub rendezvous-Holds :
        {A : Type 0} (address : Bytes) (k : Result h.Socket → Run h A)
        → ((e : Error) → Holds h R f (k (err e)))
        → ((s : h.Socket) → Visits s (k (ok s)))
        → Holds h R f (rendezvous_connect h cfg address >>= k)
    unfolding rendezvous_connect
    rendezvous-Holds {A} address k he hs = go (url_parse address)
      where
        go : (u : Result Url) → Holds h R f {A = A} (rendezvous_dial h cfg u >>= k)
        go (err e) = he e
        go (ok u) = λ l. f.join l (token_part h cfg u l).1 _ (token_part-Holds u l) (
            dialled-Holds u.host u.port (address_path u ++ (token_part h cfg u l).0) []
              k_connect_timeout k he hs (token_part h cfg u l).1)

    pub deliver_response-Holds :
        (ws : h.Socket) (pr : ParsedRequest) (resp : RelayResponse) (c : ResponseChannel)
        → Holds h R f (over_channel h cfg ws pr resp c)
    deliver_response-Holds ws pr resp control = send_response_over-Holds h R f ws pr.id resp
    deliver_response-Holds ws pr resp rendezvous =
        rendezvous-Holds pr.address (over_rendezvous h cfg ws pr.id resp)
          (λ e. send_response_over-Holds h R f ws pr.id resp)
          (λ s l.
            let sent = send_response_over h s pr.id resp l in
            let closed_ : Listener h = record sent.1 {
              world = (h.send_close s 1000 sent.1.world).1;
            } in
            (
              closed_,
              f.join l sent.1 closed_ (send_response_over-Holds h R f s pr.id resp l)
                  (f.ended s 1000 sent.1),
              refl,
            ))

    pub respond-Holds :
        (ws : h.Socket) (node : Json D) (pr : ParsedRequest) (on_control : Bool) (b : Result Bytes)
        → Holds h R f (respond h cfg ws node pr on_control b)
    unfolding respond deliver_response
    respond-Holds ws node pr on_control (err e) = emit-Holds h R f _ _ _
    respond-Holds ws node pr on_control (ok body) = λ l.
        let req : RelayRequest = record {
          id = pr.id;
          method = pr.method;
          target = pr.target;
          headers_json = headers_of h (find_ci node (codes "requestHeaders"));
          body = body;
        } in
        let resp = invoke_handler h req l in
        let sent = deliver_response h cfg ws pr resp.0 on_control resp.1 in
        f.join l resp.1 _ (invoke_handler-Holds h R f req l) (
          f.join resp.1 sent.1 _ (deliver_response-Holds ws pr resp.0 _ resp.1)
            (report_sent-Holds h R f resp.0 pr.target sent.0 sent.1))

    pub answer-Holds :
        (ws : h.Socket) (node : Json D) (on_control : Bool)
        → Holds h R f (answer h cfg ws node on_control)
    unfolding answer
    answer-Holds ws node on_control l =
        let pr = parse_request_node node in
        let body = read_body h ws pr.has_body l in
        f.join l body.1 _ (read_body-Holds h R f ws pr.has_body l)
          (respond-Holds ws node pr on_control body.0 body.1)

    pub offered-Holds : (s : h.Socket) (m : Result Message) → Holds h R f (offered h cfg s m)
    offered-Holds s (err e) = λ l. f.stay l
    offered-Holds s (ok m) = go m.type
      where
        request :
            (o : Option (Json D))
            → Holds h R f {A = Unit {0}}
                (elim o [ none ↦ pure tt | some inner ↦ answer h cfg s inner false ])
        request none = λ l. f.stay l
        request (some inner) = answer-Holds s inner false

        root :
            (r : Result (Json D))
            → Holds h R f {A = Unit {0}} (elim r [
              | err e ↦ pure tt
              | ok root ↦ elim (find_ci root (codes "request")) [
                | none ↦ pure tt
                | some inner ↦ answer h cfg s inner false
              ]
            ])
        root (err e) = λ l. f.stay l
        root (ok j) = request (find_ci j (codes "request"))

        go : (t : MsgType) → Holds h R f (offered h cfg s (ok (record m { type = t })))
        go text = root (parse h.strtod m.payload)
        go binary = λ l. f.stay l
        go close = λ l. f.stay l

    pub take_offer-Visits :
        (address : Bytes) (s : h.Socket) → Visits s (take_offer h cfg address (ok s))
    take_offer-Visits address s l =
        let m = h.recv s k_body_timeout l.world in
        let got : Listener h = record l { world = m.1 } in
        let served = offered h cfg s m.0 got in
        let closed_ : Listener h = record served.1 {
          world = (h.send_close s 1000 served.1.world).1;
        } in
        (
          closed_,
          f.join l got closed_ (f.received s k_body_timeout l)
              (f.join got served.1 closed_ (offered-Holds s m.0 got) (f.ended s 1000 served.1)),
          refl,
        )

    pub handle_rendezvous_offer-Holds :
        (address : Bytes) → Holds h R f (handle_rendezvous_offer h cfg address)
    unfolding handle_rendezvous_offer
    handle_rendezvous_offer-Holds address =
        >>=-Holds h R f (emit h (codes "RENDEZVOUS") (pos 0) address)
          (λ _. rendezvous_connect h cfg address >>= take_offer h cfg address)
          (emit-Holds h R f (codes "RENDEZVOUS") (pos 0) address)
          (λ _.
            rendezvous-Holds address (take_offer h cfg address)
              (λ e.
                emit-Holds h R f (codes "RENDEZVOUS_FAILED") (error_number e.code)
                  (address ++ (codes ": " ++ error_detail h.error_text e)))
              (take_offer-Visits address))

    pub handle_request-Holds :
        (ws : h.Socket) (node : Json D) (on_control : Bool)
        → Holds h R f (handle_request h cfg ws node on_control)
    unfolding handle_request
    handle_request-Holds ws node on_control l =
        let pr = parse_request_node node in
        elim (Bool-cases (on_control && not pr.has_method)) [
          | inr n ↦ rw (handle_request, n) (answer-Holds ws node on_control l)
          | inl y ↦
              rw (handle_request, y)
                (elim (Bool-cases pr.has_address) [
                  | inl a ↦ rw a (handle_rendezvous_offer-Holds pr.address l)
                  | inr a ↦ rw a (emit-Holds h R f _ _ _ l)
                ])
        ]
