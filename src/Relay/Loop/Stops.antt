-- ===== src/Relay/Loop/Stops.antt =====
-- core/src/vc_relay.cpp: a listener whose stop is requested returns.
use vericonnect_agent.Common.{Result, Status, ok, err, fail, error_detail}
use vericonnect_agent.Ws.{MsgType, Message, text, binary, close}
use vericonnect_agent.Relay.{
  RelayConfig, RelayRequest, RelayResponse, Host, Listener, error_number, is_timeout,
  k_recv_tick_ms, k_connect_timeout,
}
use vericonnect_agent.Relay.Request.{Run, ◌>>◌, in_world, emit, make_token}
use vericonnect_agent.Relay.Frame.{Frame, Holds, emit-Holds}
use vericonnect_agent.Relay.Frame.Requests.{make_token-Holds}
use vericonnect_agent.Relay.Frame.Rounds.{
  handle_control_message-Holds, round-Holds, wait_loop-Holds, listen_loop-Holds,
}
use vericonnect_agent.Relay.Loop.{
  listen_path, next_backoff, wait_rounds, connected, dial_control, ctrl_connect, renew_token_if_due,
  ping_if_due, handle_control_message, after_recv, listen_loop, wait_loop, leave, if_ended,
  listen_on, after_connect, run_loop, run, fresh, relay_listen_with,
}
use vericonnect_agent.Prelude.{
  ℕ, zero, suc, ◌≤◌, ◌<◌, ◌≡◌, refl, ap, inl, inr, Bool, false, ◌||◌, Option, none, some, [], ◌++◌,
  arith, Bytes, codes, Bool-cases, is_nil, ℤ, pos,
}

-- Stop is requested after at most `polls` more answers of `stop`; nothing else puts it off.
pub record Stopping {D : Type 0} (h : Host D) (polls : h.World → ℕ) : Type 0 where
  pub stop_counts : (w : h.World) → (h.stop w).0 ≡ false → polls (h.stop w).1 < polls w
  pub stop_quiet : (w : h.World) → polls (h.stop w).1 ≤ polls w
  pub dial_quiet :
      (host : Bytes) (port : ℕ) (path extra : Bytes) (t : ℕ) (w : h.World)
      → polls (h.dial host port path extra t w).1 ≤ polls w
  pub send_quiet :
      (s : h.Socket) (t : MsgType) (bs : Bytes) (w : h.World) → polls (h.send s t bs w).1 ≤ polls w
  pub ping_quiet : (s : h.Socket) (w : h.World) → polls (h.send_ping s w).1 ≤ polls w
  pub close_quiet : (s : h.Socket) (c : ℕ) (w : h.World) → polls (h.send_close s c w).1 ≤ polls w
  pub recv_quiet : (s : h.Socket) (t : ℕ) (w : h.World) → polls (h.recv s t w).1 ≤ polls w
  pub destroy_quiet : (s : h.Socket) (w : h.World) → polls (h.destroy s w) ≤ polls w
  pub request_quiet :
      (f : RelayRequest → RelayResponse → h.World → (Bool × RelayResponse) × h.World)
      (req : RelayRequest) (resp : RelayResponse) (w : h.World)
      → h.on_request ≡ some f
      → polls (f req resp w).1 ≤ polls w
  pub event_quiet :
      (f : Bytes → ℤ → Bytes → h.World → h.World) (event : Bytes) (code : ℤ) (desc : Bytes)
      (w : h.World)
      → h.on_event ≡ some f
      → polls (f event code desc w) ≤ polls w
  pub clock_quiet : (w : h.World) → polls (h.monotonic_ms w).1 ≤ polls w
  pub time_quiet : (w : h.World) → polls (h.time w).1 ≤ polls w
  pub sleep_quiet : (ms : ℕ) (w : h.World) → polls (h.sleep_ms ms w) ≤ polls w
  pub debug_quiet : (msg : Bytes) (w : h.World) → polls (h.debug msg w) ≤ polls w

module _ {D : Type 0} (h : Host D) (polls : h.World → ℕ) (q : Stopping h polls) where
  abbrev Later : Listener h → Listener h → Type 0
  Later l m = polls m.world ≤ polls l.world

  later : Frame h Later
  later = record {
    stay = λ l. omega arith;
    join = λ a b c x y. omega arith;
    sent = λ s t bs l. q.send_quiet s t bs l.world;
    pinged = λ s l. q.ping_quiet s l.world;
    ended = λ s c l. q.close_quiet s c l.world;
    received = λ s t l. q.recv_quiet s t l.world;
    handled = λ g req resp l e. q.request_quiet g req resp l.world e;
    told = λ g ev c d l e. q.event_quiet g ev c d l.world e;
    polled = λ l. q.stop_quiet l.world;
    ticked = λ l. q.clock_quiet l.world;
    timed = λ l. q.time_quiet l.world;
    slept = λ ms l. q.sleep_quiet ms l.world;
    logged = λ m l. q.debug_quiet m l.world;
    deadlines = λ l a b c. omega arith;
    failed = λ host port path extra t l e eq. q.dial_quiet host port path extra t l.world;
    visited = λ host port path extra t l m s eq x.
        omega (arith, q.dial_quiet host port path extra t l.world, q.destroy_quiet s m.world, x);
  }

  module _ (cfg : RelayConfig) where
    -- A round that goes on has the next round's result, and a round that ends has ended.
    after_recv-ends :
        (ctrl : h.Socket) (m : Result Message) (next : Run h (Option (Unit {0}))) (bound : ℕ)
        → ((l : Listener h) → polls l.world ≤ bound → (next l).0 ≡ some tt)
        → (l : Listener h) → polls l.world ≤ bound
        → (after_recv h cfg ctrl m next l).0 ≡ some tt
    after_recv-ends ctrl (err e) next bound k l b = elim (Bool-cases (is_timeout e.code)) [
      | inl y ↦ rw y (k l b)
      | inr n ↦ rw n refl
    ]
    after_recv-ends ctrl (ok m) next bound k l b = go m.type
      where
        go : (t : MsgType) → (after_recv h cfg ctrl (ok (record m { type = t })) next l).0 ≡ some tt
        go binary = k l b
        go close = refl
        go text =
            k (handle_control_message h cfg ctrl m.payload l).1
              (omega (arith, handle_control_message-Holds h Later later cfg ctrl m.payload l, b))

    listen_loop-ends :
        (fuel : ℕ) (ctrl : h.Socket) (l : Listener h)
        → polls l.world < fuel
        → (listen_loop h cfg fuel ctrl l).0 ≡ some tt
    unfolding listen_loop
    listen_loop-ends zero ctrl l b = absurd (omega arith)
    listen_loop-ends (suc fuel) ctrl l b =
        let p : Listener h = record l { world = (h.stop l.world).1 } in
        let r =
          (renew_token_if_due h cfg ctrl
              >> (ping_if_due h cfg ctrl >> in_world h (h.recv ctrl k_recv_tick_ms)))
            p in
        elim (Bool-cases (h.stop l.world).0) [
          | inl y ↦ rw (listen_loop, y) refl
          | inr n ↦
              let less = q.stop_counts l.world n in
              let still : polls r.1.world ≤ polls p.world = round-Holds h Later later cfg ctrl p in
              rw (listen_loop, n)
                (after_recv-ends ctrl r.0 (listen_loop h cfg fuel ctrl) (polls p.world)
                  (λ m c. listen_loop-ends fuel ctrl m (omega arith)) r.1 still)
        ]

    leave-Later : (o : Option h.Socket) → Holds h Later later (leave h cfg o)
    leave-Later none l = omega arith
    leave-Later (some ctrl) l =
        let w = (h.stop l.world).1 in
        elim (Bool-cases (h.stop l.world).0) [
          | inl y ↦ rw y (
              omega (
                arith,
                q.stop_quiet l.world,
                q.close_quiet ctrl 1000 w,
                q.destroy_quiet ctrl (h.send_close ctrl 1000 w).1,
              ))
          | inr n ↦ rw n (omega (arith, q.stop_quiet l.world, q.destroy_quiet ctrl w))
        ]

    connected-Later : (r : Result h.Socket) → Holds h Later later (connected h cfg r)
    connected-Later (err e) = λ l. omega arith
    connected-Later (ok ws) = λ l. q.clock_quiet l.world

    dial_control-Later : (token : Bytes) → Holds h Later later (dial_control h cfg token)
    dial_control-Later token l =
        let d =
          h.dial cfg.namespace_host 443 (listen_path cfg.hybrid_connection token) []
            k_connect_timeout l.world in
        elim (Bool-cases (is_nil token)) [
          | inl y ↦ rw y (omega arith)
          | inr n ↦ rw n (
              omega (
                arith,
                q.dial_quiet cfg.namespace_host 443 (listen_path cfg.hybrid_connection token) []
                    k_connect_timeout l.world,
                connected-Later d.0 (record l { world = d.1 }),
              ))
        ]

    ctrl_connect-Later : Holds h Later later (ctrl_connect h cfg)
    unfolding ctrl_connect
    ctrl_connect-Later l =
        let t = make_token h cfg l in
        omega (arith, make_token-Holds h Later later cfg l, dial_control-Later t.0 t.1)

    -- The last thing that is done is to report STOPPED.
    abbrev Ended : Option Status × Listener h → Type 0
    Ended r =
        (r.0 ≡ some (ok tt))
        × (l : Listener h) × (r.1
            ≡ (emit h (codes "STOPPED") (pos 0) (codes "listener stopped") l).1)

    -- `next` comes to its end from every state with at most `bound` answers left.
    abbrev EndsWithin : ℕ → Run h (Option Status) → Type 0
    EndsWithin bound next = (l : Listener h) → polls l.world ≤ bound → Ended (next l)

    if_ended-ends :
        (o : Option (Unit {0})) (next : Run h (Option Status)) (bound : ℕ) (l : Listener h)
        → o ≡ some tt
        → EndsWithin bound next
        → polls l.world ≤ bound
        → Ended (if_ended h cfg o next l)
    if_ended-ends o next bound l e k b =
        rw e (k (leave h cfg l.ctrl l).1 (omega (arith, leave-Later l.ctrl l, b)))

    listen_on-ends :
        (fuel : ℕ) (o : Option h.Socket) (next : Run h (Option Status)) (bound : ℕ)
        → bound < fuel
        → EndsWithin bound next
        → EndsWithin bound (listen_on h cfg fuel o next)
    listen_on-ends fuel none next bound enough k l b = k _ (
        omega (
          arith,
          b,
          emit-Holds h Later later (codes "DISCONNECTED") (error_number fail)
              (codes "control channel vanished after connect") l,
        ))
    listen_on-ends fuel (some ctrl) next bound enough k l b =
        let r = listen_loop h cfg fuel ctrl l in
        if_ended-ends r.0 next bound r.1 (listen_loop-ends fuel ctrl l (omega arith)) k
          (omega (arith, b, listen_loop-Holds h Later later cfg fuel ctrl l))

    after_connect-ends :
        (fuel backoff : ℕ) (s : Status) (next : ℕ → Run h (Option Status)) (bound : ℕ)
        → bound < fuel
        → ((b : ℕ) → EndsWithin bound (next b))
        → EndsWithin bound (after_connect h cfg fuel backoff s next)
    after_connect-ends fuel backoff (err e) next bound enough k l b =
        let told =
          (emit h (codes "CONNECT_FAILED") (error_number e.code)
            (error_detail h.error_text e ++ codes ", will retry") l).1 in
        let waited = (wait_loop h cfg (wait_rounds backoff) told).1 in
        let a : polls told.world ≤ polls l.world = emit-Holds h Later later _ _ _ l in
        let c : polls waited.world ≤ polls told.world =
          wait_loop-Holds h Later later cfg (wait_rounds backoff) told in
        k (next_backoff backoff) waited (omega arith)
    after_connect-ends fuel backoff (ok a) next bound enough k l b =
        let told =
          (emit h (codes "CONNECTED") (pos 200) (codes "listening on control channel") l).1 in
        let c : polls told.world ≤ polls l.world = emit-Holds h Later later _ _ _ l in
        listen_on-ends fuel told.ctrl (next 1000) bound enough (k 1000) told (omega arith)

    run_loop-ends :
        (fuel backoff : ℕ) (l : Listener h)
        → polls l.world < fuel
        → Ended (run_loop h cfg fuel backoff l)
    unfolding run_loop
    run_loop-ends zero backoff l b = absurd (omega arith)
    run_loop-ends (suc fuel) backoff l b =
        let p : Listener h = record l { world = (h.stop l.world).1 } in
        let told = (emit h (codes "CONNECTING") (pos 0) cfg.namespace_host p).1 in
        let c = ctrl_connect h cfg told in
        elim (Bool-cases (h.stop l.world).0) [
          | inl y ↦ rw (run_loop, y) (refl, p, refl)
          | inr n ↦
              let less = q.stop_counts l.world n in
              let a : polls told.world ≤ polls p.world = emit-Holds h Later later _ _ _ p in
              let d : polls c.1.world ≤ polls told.world = ctrl_connect-Later told in
              rw (run_loop, n)
                (after_connect-ends fuel backoff c.0 (run_loop h cfg fuel) (polls c.1.world)
                  (omega arith) (λ b' m e. run_loop-ends fuel b' m (omega arith)) c.1 (omega arith))
        ]

-- Once stop is requested after some number of further answers, the listener returns success within
-- any fuel above that number, whatever the relay, the sockets and the callbacks do in between, and
-- the last thing that it does is to report STOPPED; the configuration names a host and a connection.
pub relay_listen_with-stops :
    {D : Type 0} (h : Host D) (cfg : RelayConfig) (polls : h.World → ℕ)
    → Stopping h polls
    → (fuel : ℕ) (w : h.World) → polls w < fuel
    → (is_nil cfg.namespace_host || is_nil cfg.hybrid_connection) ≡ false
    → ((relay_listen_with h cfg fuel w).0 ≡ some (ok tt))
      × (l : Listener h) × ((relay_listen_with h cfg fuel w).1
          ≡ (emit h (codes "STOPPED") (pos 0) (codes "listener stopped") l).1.world)
unfolding relay_listen_with run
relay_listen_with-stops h cfg polls q fuel w b given =
    let end = run_loop-ends h polls q cfg fuel 1000 (fresh h cfg w) b in
    rw (relay_listen_with, given) (end.0, end.1, ap (λ l. l.world) end.2)
