-- ===== src/Relay/Loop.antt =====
-- core/src/vc_relay.cpp: the control channel, the token's renewal, and the loop of the listener.
pub mod Stops
pub mod Sockets
use vericonnect_agent.Common.{
  Result, Status, ok, err, error, fail, closed, invalid_arg, error_detail, ErrorCode,
}
use vericonnect_agent.Json.{write_number, Json, string, set_key, dump, find_ci}
use vericonnect_agent.Json.Parse.{parse}
use vericonnect_agent.Net.{◌>>=◌, pure}
use vericonnect_agent.Url.{url_encode}
use vericonnect_agent.Ws.{Message, text, binary, close}
use vericonnect_agent.Relay.{
  RelayConfig, Host, Listener, error_number, is_timeout, k_recv_tick_ms, k_ping_interval,
  k_connect_timeout, renewal_due, empty_object,
}
use vericonnect_agent.Relay.Request.{
  Run, ◌>>◌, in_world, change_world, emit, make_token, handle_request,
}
use vericonnect_agent.Prelude.{
  ℕ, zero, suc, ◌+◌, ◌-◌, ◌*◌, ◌/◌, u32, u64, inl, inr, Bool, true, not, ◌||◌, Option, none, some,
  [], ◌++◌, arith, Bytes, codes, ltb, leb, ◌==◌, if◌then◌else◌, tests, is_nil, pos,
}

-- When a token is to be renewed: at three quarters of its time to live.
abbrev pub renew_at : ℕ → ℕ → ℕ
renew_at now ttl = u64 (now + ttl * 1000 * 3 / 4)

-- {"renewToken":{"token":...}}
abbrev pub renew_msg : {D : Type 0} → Bytes → Json D
renew_msg token =
    set_key empty_object (codes "renewToken") (set_key empty_object (codes "token") (string token))

unfoldable pub listen_path : Bytes → Bytes → Bytes
unfolding url_encode
listen_path hybrid_connection token =
    codes "/$hc/"
    ++ (hybrid_connection ++ (codes "?sb-hc-action=listen&sb-hc-token=" ++ url_encode token))

-- The wait behind a failure, doubled up to where it has reached a minute.
unfoldable pub next_backoff : ℕ → ℕ
next_backoff backoff_ms = if ltb backoff_ms 60000 then u32 (backoff_ms * 2) else backoff_ms

-- The rounds of `for (waited = 0; waited < backoff_ms; waited += 100)`
abbrev pub wait_rounds : ℕ → ℕ
wait_rounds backoff_ms = (backoff_ms + 99) / 100

module _ {D : Type 0} (h : Host D) (cfg : RelayConfig) where
  abbrev pub connected : Result h.Socket → Run h Status
  connected (err e) = pure (err e)
  connected (ok ws) = λ l.
      let (now, w) = h.monotonic_ms l.world in
      (
        ok tt,
        record l {
          ctrl = some ws;
          token_renew_at = renew_at now l.ttl;
          next_ping_at = u64 (now + k_ping_interval);
          world = w;
        },
      )

  abbrev pub dial_control : Bytes → Run h Status
  dial_control token =
      if is_nil token
      then pure (err (error fail))
      else (in_world h (
            h.dial cfg.namespace_host 443 (listen_path cfg.hybrid_connection token) []
              k_connect_timeout)
          >>= connected)

  unfoldable pub ctrl_connect : Run h Status
  unfolding make_token listen_path
  ctrl_connect = make_token h cfg >>= dial_control

  -- Behind the message of a renewal.
  abbrev pub renewed : Status → Run h (Unit {0})
  renewed (err e) = pure tt
  renewed (ok _) = λ l.
      let (now, w) = h.monotonic_ms l.world in
      emit h (codes "TOKEN_RENEWED") (pos 0) (codes "SAS token renewed")
        (record l { token_renew_at = renew_at now l.ttl; world = w })

  abbrev pub send_token : h.Socket → Bytes → Run h (Unit {0})
  send_token ctrl token =
      if is_nil token
      then pure tt
      else (in_world h (h.send ctrl text (dump (write_number h.double) (renew_msg token)))
          >>= renewed)

  -- Both clocks are read, and the deadlines of the token compared with them.
  unfoldable pub token_is_due : Run h Bool
  unfolding renewal_due
  token_is_due l =
      let (now, w) = h.monotonic_ms l.world in
      let (wall, w') = h.time w in
      (renewal_due now l.token_renew_at wall l.token_expiry_wall l.ttl, record l { world = w' })

  unfoldable pub renew_token_if_due : h.Socket → Run h (Unit {0})
  unfolding token_is_due make_token emit dump set_key
  renew_token_if_due ctrl = do
    due ← token_is_due
    if due then (make_token h cfg >>= send_token ctrl) else pure tt

  -- A message that is no request, by its member "accept".
  abbrev pub other_message : Json D → Option (Json D) → Run h (Unit {0})
  other_message root (some offer) =
      emit h (codes "ACCEPT_IGNORED") (pos 0)
        (codes "WebSocket accept offers are not supported by this listener")
  other_message root none = do
    emit h (codes "CONTROL") (pos 0) (codes "control message received")
    change_world h (h.debug (codes "RELAY CONTROL payload: " ++ dump (write_number h.double) root))

  -- A message, by its member "request".
  abbrev pub control_root : h.Socket → Json D → Option (Json D) → Run h (Unit {0})
  control_root ctrl root (some req) = handle_request h cfg ctrl req true
  control_root ctrl root none = other_message root (find_ci root (codes "accept"))

  abbrev pub control_message : h.Socket → Result (Json D) → Run h (Unit {0})
  control_message ctrl (err e) =
      emit h (codes "PROTOCOL") (pos 0) (codes "unparsable control message")
  control_message ctrl (ok root) = control_root ctrl root (find_ci root (codes "request"))

  unfoldable pub handle_control_message : h.Socket → Bytes → Run h (Unit {0})
  unfolding parse emit handle_request find_ci dump
  handle_control_message ctrl payload = control_message ctrl (parse h.strtod payload)

  unfoldable pub ping_if_due : h.Socket → Run h (Unit {0})
  ping_if_due ctrl l =
      let (now, w) = h.monotonic_ms l.world in
      if leb l.next_ping_at now
      then (
        tt,
        record l { next_ping_at = u64 (now + k_ping_interval); world = (h.send_ping ctrl w).1 },
      )
      else (tt, record l { world = w })

  abbrev pub disconnected : ErrorCode → Bytes → Run h (Option (Unit {0}))
  disconnected code why = do emit h (codes "DISCONNECTED") (error_number code) why; pure (some tt)

  -- The round behind recv; `next` is the next round.
  abbrev pub after_recv :
      h.Socket → Result Message → Run h (Option (Unit {0})) → Run h (Option (Unit {0}))
  after_recv ctrl (err e) next =
      if is_timeout e.code
      then next
      else disconnected e.code (codes "control channel lost: " ++ error_detail h.error_text e)
  after_recv ctrl (ok m) next = elim m.type [
    | close ↦ disconnected closed (codes "control channel lost")
    | text ↦ (handle_control_message ctrl m.payload >> next)
    | binary ↦ next
  ]

  -- The inner loop of run, on fuel for its rounds; `none` is out of fuel.
  unfoldable pub listen_loop : ℕ → h.Socket → Run h (Option (Unit {0}))
  unfolding renew_token_if_due ping_if_due handle_control_message emit error_detail
  listen_loop zero ctrl = pure none
  listen_loop (suc fuel) ctrl = do
    stopped ← in_world h h.stop
    if stopped then pure (some tt) else (do
      renew_token_if_due ctrl
      ping_if_due ctrl
      m ← in_world h (h.recv ctrl k_recv_tick_ms)
      after_recv ctrl m (listen_loop fuel ctrl))

  -- The wait behind a failure, over the rounds that are left.
  unfoldable pub wait_loop : ℕ → Run h (Unit {0})
  wait_loop zero = pure tt
  wait_loop (suc rounds) = do
    stopped ← in_world h h.stop
    if stopped then pure tt else (change_world h (h.sleep_ms 100) >> wait_loop rounds)

  -- The end of a connection, where it is still there.
  abbrev pub leave : Option h.Socket → Run h (Unit {0})
  leave none = pure tt
  leave (some ctrl) = do
    stopped ← in_world h h.stop
    if stopped then (in_world h (h.send_close ctrl 1000) >> pure tt) else pure tt
    λ l. (tt, record l { ctrl = none; world = h.destroy ctrl l.world })

  -- Behind the inner loop.
  abbrev pub if_ended : Option (Unit {0}) → Run h (Option Status) → Run h (Option Status)
  if_ended none next = pure none
  if_ended (some _) next = (λ l. leave l.ctrl l) >> next

  -- A connection that is up, from CONNECTED to its end; `next` is the next round of run.
  abbrev pub listen_on : ℕ → Option h.Socket → Run h (Option Status) → Run h (Option Status)
  listen_on fuel none next = do
    emit h (codes "DISCONNECTED") (error_number fail)
        (codes "control channel vanished after connect")
    next
  listen_on fuel (some ctrl) next = do ended ← listen_loop fuel ctrl; if_ended ended next

  -- A round of run behind ctrl_connect; `next` is the next round, on its backoff.
  abbrev pub after_connect : ℕ → ℕ → Status → (ℕ → Run h (Option Status)) → Run h (Option Status)
  after_connect fuel backoff_ms (err e) next = do
    emit h (codes "CONNECT_FAILED") (error_number e.code)
        (error_detail h.error_text e ++ codes ", will retry")
    wait_loop (wait_rounds backoff_ms)
    next (next_backoff backoff_ms)
  after_connect fuel backoff_ms (ok _) next = do
    emit h (codes "CONNECTED") (pos 200) (codes "listening on control channel")
    λ l. listen_on fuel l.ctrl (next 1000) l

  -- The loop of run, on fuel for the rounds of each loop; `none` is out of fuel.
  unfoldable pub run_loop : ℕ → ℕ → Run h (Option Status)
  unfolding emit ctrl_connect listen_loop wait_loop next_backoff error_detail
  run_loop zero backoff_ms = pure none
  run_loop (suc fuel) backoff_ms = do
    stopped ← in_world h h.stop
    if stopped
        then (emit h (codes "STOPPED") (pos 0) (codes "listener stopped") >> pure (some (ok tt)))
        else (do
          emit h (codes "CONNECTING") (pos 0) cfg.namespace_host
          cc ← ctrl_connect
          after_connect fuel backoff_ms cc (run_loop fuel))

  unfoldable pub run : ℕ → Run h (Option Status)
  unfolding run_loop
  run fuel = run_loop fuel 1000

  -- A Listener as its constructor makes it.
  abbrev pub fresh : h.World → Listener h
  fresh w = record {
    ctrl = none;
    ttl = if cfg.token_ttl_seconds == 0 then 3600 else cfg.token_ttl_seconds;
    token_renew_at = 0;
    token_expiry_wall = 0;
    next_ping_at = 0;
    world = w;
  }

  -- relay_listen_with
  unfoldable pub relay_listen_with : ℕ → h.World → Option Status × h.World
  unfolding run
  relay_listen_with fuel w =
      if is_nil cfg.namespace_host || is_nil cfg.hybrid_connection
      then (some (err (error invalid_arg)), w)
      else ((run fuel (fresh w)).0, (run fuel (fresh w)).1.world)
