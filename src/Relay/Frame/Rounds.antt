-- ===== src/Relay/Frame/Rounds.antt =====
-- core/src/vc_relay.cpp: the induction of Frame over the rounds of the listener.
use vericonnect_agent.Relay.Frame.{Frame, Holds, >>=-Holds, emit-Holds}
use vericonnect_agent.Relay.Frame.Requests.{make_token-Holds, handle_request-Holds}
use vericonnect_agent.Common.{Result, Status, ok, err, ErrorCode, closed}
use vericonnect_agent.Json.{write_number, Json, find_ci, dump}
use vericonnect_agent.Json.Parse.{parse}
use vericonnect_agent.Net.{◌>>=◌, pure}
use vericonnect_agent.Ws.{MsgType, Message, text, binary, close}
use vericonnect_agent.Relay.{RelayConfig, Host, Listener, error_number, k_recv_tick_ms, is_timeout}
use vericonnect_agent.Relay.Request.{Run, in_world, emit, make_token, ◌>>◌}
use vericonnect_agent.Relay.Loop.{
  renew_at, renew_msg, renewed, send_token, token_is_due, renew_token_if_due, other_message,
  control_root, control_message, handle_control_message, ping_if_due, after_recv, disconnected,
  listen_loop, wait_loop,
}
use vericonnect_agent.Prelude.{
  ℕ, zero, suc, inl, inr, Bool, true, false, Option, none, some, Bytes, codes, leb, if◌then◌else◌,
  Bool-cases, is_nil, pos,
}

module _ {D : Type 0} (h : Host D) (R : Listener h → Listener h → Type 0) (f : Frame h R) where
  module _ (cfg : RelayConfig) where
    other_message-Holds :
        (root : Json D) (o : Option (Json D)) → Holds h R f (other_message h cfg root o)
    other_message-Holds root (some offer) = emit-Holds h R f _ _ _
    other_message-Holds root none = λ l.
        let told = (emit h (codes "CONTROL") (pos 0) (codes "control message received") l).1 in
        f.join l told _ (emit-Holds h R f _ _ _ l) (f.logged _ told)

    control_root-Holds :
        (ctrl : h.Socket) (root : Json D) (o : Option (Json D))
        → Holds h R f (control_root h cfg ctrl root o)
    control_root-Holds ctrl root (some req) = handle_request-Holds h R f cfg ctrl req true
    control_root-Holds ctrl root none = other_message-Holds root (find_ci root (codes "accept"))

    control_message-Holds :
        (ctrl : h.Socket) (r : Result (Json D)) → Holds h R f (control_message h cfg ctrl r)
    control_message-Holds ctrl (err e) = emit-Holds h R f _ _ _
    control_message-Holds ctrl (ok root) =
        control_root-Holds ctrl root (find_ci root (codes "request"))

    pub handle_control_message-Holds :
        (ctrl : h.Socket) (payload : Bytes)
        → Holds h R f (handle_control_message h cfg ctrl payload)
    unfolding handle_control_message
    handle_control_message-Holds ctrl payload = control_message-Holds ctrl (parse h.strtod payload)

    renewed-Holds : (s : Status) → Holds h R f (renewed h cfg s)
    renewed-Holds (err e) = λ l. f.stay l
    renewed-Holds (ok a) = λ l.
        let now : Listener h = record l { world = (h.monotonic_ms l.world).1 } in
        let set_ : Listener h = record now {
          token_renew_at = renew_at (h.monotonic_ms l.world).0 l.ttl;
        } in
        f.join l now _ (f.ticked l) (
          f.join now set_ _
            (f.deadlines now set_.token_renew_at now.token_expiry_wall now.next_ping_at)
            (emit-Holds h R f (codes "TOKEN_RENEWED") (pos 0) (codes "SAS token renewed") set_))

    renew_token_if_due-Holds : (ctrl : h.Socket) → Holds h R f (renew_token_if_due h cfg ctrl)
    unfolding renew_token_if_due token_is_due
    renew_token_if_due-Holds ctrl =
        >>=-Holds h R f (token_is_due h cfg)
          (λ due. if due then (make_token h cfg >>= send_token h cfg ctrl) else pure tt)
          (λ l.
            let one : Listener h = record l { world = (h.monotonic_ms l.world).1 } in
            f.join l one _ (f.ticked l) (f.timed one))
          renew
      where
        sends : (token : Bytes) → Holds h R f (send_token h cfg ctrl token)
        sends token l = elim (Bool-cases (is_nil token)) [
          | inl y ↦ rw y (f.stay l)
          | inr n ↦ rw n (
              let s =
                in_world h (h.send ctrl text (dump (write_number h.double) (renew_msg token))) l in
              f.join l s.1 _ (f.sent ctrl text _ l) (renewed-Holds s.0 s.1))
        ]

        renew :
            (due : Bool)
            → Holds h R f {A = Unit {0}}
                (if due then (make_token h cfg >>= send_token h cfg ctrl) else pure tt)
        renew true =
            >>=-Holds h R f (make_token h cfg) (send_token h cfg ctrl) (make_token-Holds h R f cfg)
              sends
        renew false = λ l. f.stay l

    ping_if_due-Holds : (ctrl : h.Socket) → Holds h R f (ping_if_due h cfg ctrl)
    unfolding ping_if_due
    ping_if_due-Holds ctrl l =
        let now = h.monotonic_ms l.world in
        let one : Listener h = record l { world = now.1 } in
        let two : Listener h = record one { world = (h.send_ping ctrl now.1).1 } in
        elim (Bool-cases (leb l.next_ping_at now.0)) [
          | inr n ↦ rw (ping_if_due, n) (f.ticked l)
          | inl y ↦
              rw (ping_if_due, y)
                (f.join l one _ (f.ticked l) (
                  f.join one two _ (f.pinged ctrl one)
                    (f.deadlines two two.token_renew_at two.token_expiry_wall _)))
        ]

    -- What stands in front of recv in a round of the inner loop.
    pub round-Holds :
        (ctrl : h.Socket)
        → Holds h R f (
            renew_token_if_due h cfg ctrl
            >> (ping_if_due h cfg ctrl >> in_world h (h.recv ctrl k_recv_tick_ms)))
    round-Holds ctrl l =
        let a = (renew_token_if_due h cfg ctrl l).1 in
        let b = (ping_if_due h cfg ctrl a).1 in
        f.join l a _ (renew_token_if_due-Holds ctrl l)
          (f.join a b _ (ping_if_due-Holds ctrl a) (f.received ctrl k_recv_tick_ms b))

    pub wait_loop-Holds : (rounds : ℕ) → Holds h R f (wait_loop h cfg rounds)
    unfolding wait_loop
    wait_loop-Holds zero l = f.stay l
    wait_loop-Holds (suc rounds) l =
        let p : Listener h = record l { world = (h.stop l.world).1 } in
        let s : Listener h = record p { world = h.sleep_ms 100 p.world } in
        elim (Bool-cases (h.stop l.world).0) [
          | inl y ↦ rw (wait_loop, y) (f.polled l)
          | inr n ↦
              rw (wait_loop, n)
                (f.join l p _ (f.polled l)
                  (f.join p s _ (f.slept 100 p) (wait_loop-Holds rounds s)))
        ]

    disconnected-Holds :
        (code : ErrorCode) (why : Bytes) → Holds h R f (disconnected h cfg code why)
    disconnected-Holds code why = emit-Holds h R f (codes "DISCONNECTED") (error_number code) why

    pub after_recv-Holds :
        (ctrl : h.Socket) (m : Result Message) (next : Run h (Option (Unit {0})))
        → Holds h R f next
        → Holds h R f (after_recv h cfg ctrl m next)
    after_recv-Holds ctrl (err e) next k = λ l. elim (Bool-cases (is_timeout e.code)) [
      | inl y ↦ rw y (k l)
      | inr n ↦ rw n (disconnected-Holds e.code _ l)
    ]
    after_recv-Holds ctrl (ok m) next k = go m.type
      where
        go : (t : MsgType) → Holds h R f (after_recv h cfg ctrl (ok (record m { type = t })) next)
        go text =
            >>=-Holds h R f (handle_control_message h cfg ctrl m.payload) (λ _. next)
              (handle_control_message-Holds ctrl m.payload) (λ _. k)
        go binary = k
        go close = disconnected-Holds closed _

    pub listen_loop-Holds : (fuel : ℕ) (ctrl : h.Socket) → Holds h R f (listen_loop h cfg fuel ctrl)
    unfolding listen_loop
    listen_loop-Holds zero ctrl l = f.stay l
    listen_loop-Holds (suc fuel) ctrl l =
        let p : Listener h = record l { world = (h.stop l.world).1 } in
        let r =
          (renew_token_if_due h cfg ctrl
              >> (ping_if_due h cfg ctrl >> in_world h (h.recv ctrl k_recv_tick_ms)))
            p in
        elim (Bool-cases (h.stop l.world).0) [
          | inl y ↦ rw (listen_loop, y) (f.polled l)
          | inr n ↦
              rw (listen_loop, n)
                (f.join l p _ (f.polled l) (
                  f.join p r.1 _ (round-Holds ctrl p) (
                    after_recv-Holds ctrl r.0 (listen_loop h cfg fuel ctrl)
                      (listen_loop-Holds fuel ctrl) r.1)))
        ]
