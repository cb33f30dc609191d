-- ===== src/Relay/Loop/Sockets.antt =====
-- core/src/vc_relay.cpp: the listener leaves no socket behind.
use vericonnect_agent.Common.{Result, Status, Error, ok, err, error_detail}
use vericonnect_agent.Ws.{MsgType}
use vericonnect_agent.Relay.{
  RelayConfig, RelayRequest, RelayResponse, Host, Listener, error_number, k_connect_timeout,
}
use vericonnect_agent.Relay.Request.{Run, emit, make_token}
use vericonnect_agent.Relay.Frame.{Frame, emit-Holds}
use vericonnect_agent.Relay.Frame.Requests.{make_token-Holds}
use vericonnect_agent.Relay.Frame.Rounds.{wait_loop-Holds, listen_loop-Holds}
use vericonnect_agent.Relay.Loop.{
  listen_path, next_backoff, wait_rounds, connected, dial_control, ctrl_connect, listen_loop,
  wait_loop, leave, if_ended, listen_on, after_connect, run_loop, run, fresh, relay_listen_with,
}
use vericonnect_agent.Prelude.{
  ℕ, zero, suc, ◌≡◌, refl, ap, ◌∙◌, inl, inr, Bool, ◌||◌, Option, none, some, List, [], ◌∷◌, ◌++◌,
  Bytes, codes, Bool-cases, is_nil, ℤ, pos,
}

-- `alive` lists the sockets that are dialled and not destroyed, the latest first. Only of the latest
-- it is said that it can be destroyed; of a socket that is dead, or older than another that is alive,
-- nothing is known behind that call. The calls that are not the dialler's, the callbacks included,
-- leave the sockets alone.
pub record Tracks {D : Type 0} (h : Host D) (alive : h.World → List h.Socket) : Type 0 where
  pub dial_ok :
      (host : Bytes) (port : ℕ) (path extra : Bytes) (t : ℕ) (w : h.World) (s : h.Socket)
      → (h.dial host port path extra t w).0 ≡ ok s
      → alive (h.dial host port path extra t w).1 ≡ s ∷ alive w
  pub dial_err :
      (host : Bytes) (port : ℕ) (path extra : Bytes) (t : ℕ) (w : h.World) (e : Error)
      → (h.dial host port path extra t w).0 ≡ err e
      → alive (h.dial host port path extra t w).1 ≡ alive w
  pub destroyed :
      (s : h.Socket) (w : h.World) (rest : List h.Socket)
      → alive w ≡ s ∷ rest
      → alive (h.destroy s w) ≡ rest
  pub send_same :
      (s : h.Socket) (t : MsgType) (bs : Bytes) (w : h.World) → alive (h.send s t bs w).1 ≡ alive w
  pub ping_same : (s : h.Socket) (w : h.World) → alive (h.send_ping s w).1 ≡ alive w
  pub close_same : (s : h.Socket) (c : ℕ) (w : h.World) → alive (h.send_close s c w).1 ≡ alive w
  pub recv_same : (s : h.Socket) (t : ℕ) (w : h.World) → alive (h.recv s t w).1 ≡ alive w
  pub request_same :
      (f : RelayRequest → RelayResponse → h.World → (Bool × RelayResponse) × h.World)
      (req : RelayRequest) (resp : RelayResponse) (w : h.World)
      → h.on_request ≡ some f
      → alive (f req resp w).1 ≡ alive w
  pub event_same :
      (f : Bytes → ℤ → Bytes → h.World → h.World) (event : Bytes) (code : ℤ) (desc : Bytes)
      (w : h.World)
      → h.on_event ≡ some f
      → alive (f event code desc w) ≡ alive w
  pub stop_same : (w : h.World) → alive (h.stop w).1 ≡ alive w
  pub clock_same : (w : h.World) → alive (h.monotonic_ms w).1 ≡ alive w
  pub time_same : (w : h.World) → alive (h.time w).1 ≡ alive w
  pub sleep_same : (ms : ℕ) (w : h.World) → alive (h.sleep_ms ms w) ≡ alive w
  pub debug_same : (msg : Bytes) (w : h.World) → alive (h.debug msg w) ≡ alive w

module _ {D : Type 0} (h : Host D) (alive : h.World → List h.Socket) (q : Tracks h alive) where
  abbrev Same : Listener h → Listener h → Type 0
  Same l m = (alive m.world ≡ alive l.world) × (m.ctrl ≡ l.ctrl)

  same : Frame h Same
  same = record {
    stay = λ l. (refl, refl);
    join = λ a b c x y. (y.0 ∙ x.0, y.1 ∙ x.1);
    sent = λ s t bs l. (q.send_same s t bs l.world, refl);
    pinged = λ s l. (q.ping_same s l.world, refl);
    ended = λ s c l. (q.close_same s c l.world, refl);
    received = λ s t l. (q.recv_same s t l.world, refl);
    handled = λ g req resp l e. (q.request_same g req resp l.world e, refl);
    told = λ g ev c d l e. (q.event_same g ev c d l.world e, refl);
    polled = λ l. (q.stop_same l.world, refl);
    ticked = λ l. (q.clock_same l.world, refl);
    timed = λ l. (q.time_same l.world, refl);
    slept = λ ms l. (q.sleep_same ms l.world, refl);
    logged = λ m l. (q.debug_same m l.world, refl);
    deadlines = λ l a b c. (refl, refl);
    failed =
        λ host port path extra t l e eq. (q.dial_err host port path extra t l.world e eq, refl);
    visited = λ host port path extra t l m s eq x. (
      q.destroyed s m.world (alive l.world) (x.0 ∙ q.dial_ok host port path extra t l.world s eq),
      x.1,
    );
  }

  module _ (cfg : RelayConfig) where
    -- No connection is up, and the sockets `n` are alive.
    abbrev Down : List h.Socket → Listener h → Type 0
    Down n l = (l.ctrl ≡ none) × (alive l.world ≡ n)

    -- The control channel is up beside the sockets `n`.
    abbrev Up : List h.Socket → Listener h → Type 0
    Up n l = (s : h.Socket) × (l.ctrl ≡ some s) × (alive l.world ≡ s ∷ n)

    Down-Same : (n : List h.Socket) (l m : Listener h) → Same l m → Down n l → Down n m
    Down-Same n l m x d = (x.1 ∙ d.0, x.0 ∙ d.1)

    Up-Same : (n : List h.Socket) (l m : Listener h) → Same l m → Up n l → Up n m
    Up-Same n l m x d = (d.0, x.1 ∙ d.1, x.0 ∙ d.2)

    abbrev Connected : List h.Socket → Status → Listener h → Type 0
    Connected n (ok a) l = Up n l
    Connected n (err e) l = Down n l

    ctrl_connect-Connected :
        (n : List h.Socket) (l : Listener h)
        → Down n l
        → Connected n (ctrl_connect h cfg l).0 (ctrl_connect h cfg l).1
    unfolding ctrl_connect
    ctrl_connect-Connected n l d =
        token (make_token h cfg l)
          (Down-Same n l (make_token h cfg l).1 (make_token-Holds h Same same cfg l) d)
      where
        dialled :
            (r : Result h.Socket) (m : Listener h) (path : Bytes)
            → (h.dial cfg.namespace_host 443 path [] k_connect_timeout m.world).0 ≡ r
            → Down n m
            → Connected n
                (connected h cfg r (record m {
                  world = (h.dial cfg.namespace_host 443 path [] k_connect_timeout m.world).1;
                })).0
                (connected h cfg r (record m {
                  world = (h.dial cfg.namespace_host 443 path [] k_connect_timeout m.world).1;
                })).1
        dialled (err e) m path eq d =
            (d.0, q.dial_err cfg.namespace_host 443 path [] k_connect_timeout m.world e eq ∙ d.1)
        dialled (ok s) m path eq d = (
          s,
          refl,
          q.clock_same _
              ∙ q.dial_ok cfg.namespace_host 443 path [] k_connect_timeout m.world s eq
              ∙ ap (◌∷◌ s) d.1,
        )

        token :
            (t : Bytes × Listener h)
            → Down n t.1
            → Connected n (dial_control h cfg t.0 t.1).0 (dial_control h cfg t.0 t.1).1
        token ([], m) d = d
        token (c ∷ cs, m) d = dialled _ m (listen_path cfg.hybrid_connection (c ∷ cs)) refl d

    -- Where a result is returned, the sockets `n` are alive.
    abbrev Leaves : List h.Socket → Option Status × Listener h → Type 0
    Leaves n r = (s : Status) → r.0 ≡ some s → alive r.1.world ≡ n

    leave-Down : (n : List h.Socket) (l : Listener h) → Up n l → Down n (leave h cfg l.ctrl l).1
    leave-Down n l up = rw up.1 (elim (Bool-cases (h.stop l.world).0) [
      | inl y ↦ rw y (
        refl,
        q.destroyed ctrl (h.send_close ctrl 1000 w).1 n
            (q.close_same ctrl 1000 w ∙ q.stop_same l.world ∙ up.2),
      )
      | inr k ↦ rw k (refl, q.destroyed ctrl w n (q.stop_same l.world ∙ up.2))
    ])
      where
        ctrl : h.Socket
        ctrl = up.0

        w : h.World
        w = (h.stop l.world).1

    if_ended-Leaves :
        (n : List h.Socket) (o : Option (Unit {0})) (next : Run h (Option Status)) (l : Listener h)
        → ((m : Listener h) → Down n m → Leaves n (next m))
        → Up n l
        → Leaves n (if_ended h cfg o next l)
    if_ended-Leaves n none next l k up = λ s e. cc
    if_ended-Leaves n (some a) next l k up = k (leave h cfg l.ctrl l).1 (leave-Down n l up)

    listen_on-Leaves :
        (n : List h.Socket) (fuel : ℕ) (o : Option h.Socket) (next : Run h (Option Status))
        (l : Listener h)
        → ((m : Listener h) → Down n m → Leaves n (next m))
        → Up n l
        → o ≡ l.ctrl
        → Leaves n (listen_on h cfg fuel o next l)
    listen_on-Leaves n fuel none next l k up e = λ s r. cc (up.1)
    listen_on-Leaves n fuel (some ctrl) next l k up e =
        let r = listen_loop h cfg fuel ctrl l in
        if_ended-Leaves n r.0 next r.1 k
          (Up-Same n l r.1 (listen_loop-Holds h Same same cfg fuel ctrl l) up)

    after_connect-Leaves :
        (n : List h.Socket) (fuel backoff : ℕ) (s : Status) (next : ℕ → Run h (Option Status))
        (l : Listener h)
        → ((b : ℕ) (m : Listener h) → Down n m → Leaves n (next b m))
        → Connected n s l
        → Leaves n (after_connect h cfg fuel backoff s next l)
    after_connect-Leaves n fuel backoff (err e) next l k d =
        let told =
          (emit h (codes "CONNECT_FAILED") (error_number e.code)
            (error_detail h.error_text e ++ codes ", will retry") l).1 in
        let waited = (wait_loop h cfg (wait_rounds backoff) told).1 in
        let a : Same l told = emit-Holds h Same same _ _ _ l in
        let c : Same told waited = wait_loop-Holds h Same same cfg (wait_rounds backoff) told in
        k (next_backoff backoff) waited (Down-Same n told waited c (Down-Same n l told a d))
    after_connect-Leaves n fuel backoff (ok u) next l k up =
        let told =
          (emit h (codes "CONNECTED") (pos 200) (codes "listening on control channel") l).1 in
        let a : Same l told = emit-Holds h Same same _ _ _ l in
        listen_on-Leaves n fuel told.ctrl (next 1000) told (k 1000) (Up-Same n l told a up) refl

    run_loop-Leaves :
        (n : List h.Socket) (fuel backoff : ℕ) (l : Listener h)
        → Down n l
        → Leaves n (run_loop h cfg fuel backoff l)
    unfolding run_loop
    run_loop-Leaves n zero backoff l d = λ s e. cc
    run_loop-Leaves n (suc fuel) backoff l d =
        let p : Listener h = record l { world = (h.stop l.world).1 } in
        let told = (emit h (codes "CONNECTING") (pos 0) cfg.namespace_host p).1 in
        let last = (emit h (codes "STOPPED") (pos 0) (codes "listener stopped") p).1 in
        let c = ctrl_connect h cfg told in
        let b : Same p told = emit-Holds h Same same _ _ _ p in
        let z : Same p last = emit-Holds h Same same _ _ _ p in
        let down : Down n p = Down-Same n l p (q.stop_same l.world, refl) d in
        elim (Bool-cases (h.stop l.world).0) [
          | inl y ↦ rw (run_loop, y) (λ s e. (Down-Same n p last z down).1)
          | inr m ↦
              rw (run_loop, m)
                (after_connect-Leaves n fuel backoff c.0 (run_loop h cfg fuel) c.1
                  (λ b' m' d'. run_loop-Leaves n fuel b' m' d')
                  (ctrl_connect-Connected n told (Down-Same n p told b down)))
        ]

-- Where relay_listen_with returns, each socket that was dialled, for the control channel or for a
-- rendezvous, has been destroyed, while it was alive and the latest that was: the same sockets are
-- alive as before, whatever dials, sends and receives failed. A dial that succeeds puts its socket
-- in front of those that are alive, and destroying the one in front takes it away.
pub relay_listen_with-Tracks :
    {D : Type 0} (h : Host D) (cfg : RelayConfig) (alive : h.World → List h.Socket)
    → Tracks h alive
    → (fuel : ℕ) (w : h.World) (s : Status) → (relay_listen_with h cfg fuel w).0 ≡ some s
    → alive (relay_listen_with h cfg fuel w).1 ≡ alive w
unfolding relay_listen_with run
relay_listen_with-Tracks h cfg alive q fuel w s e =
    let all = run_loop-Leaves h alive q cfg (alive w) fuel 1000 (fresh h cfg w) (refl, refl) in
    elim (Bool-cases (is_nil cfg.namespace_host || is_nil cfg.hybrid_connection)) [
      | inl y ↦ rw (relay_listen_with, y) refl
      | inr n ↦ rw (relay_listen_with, n) (all s (rw (relay_listen_with, n) at e))
    ]
