-- ===== src/Relay/Frame.antt =====
-- core/src/vc_relay.cpp: what holds between the state before and after each member of Listener, once
-- it holds for each call of the dialler, the sockets, the callbacks and the clocks.
pub mod Requests
pub mod Rounds
use vericonnect_agent.Common.{Status, Error, ok, err}
use vericonnect_agent.Json.{write_number, dump}
use vericonnect_agent.Net.{◌>>=◌, pure}
use vericonnect_agent.Ws.{MsgType, text, binary}
use vericonnect_agent.Relay.{
  RelayRequest, RelayResponse, default_response, Host, Listener, build_response_msg,
}
use vericonnect_agent.Relay.Request.{
  Run, in_world, emit, if_ok, send_response_over, read_body, invoke_handler, report_sent, ◌>>◌,
}
use vericonnect_agent.Prelude.{
  ℕ, ◌≡◌, inl, inr, Bool, true, false, not, Option, some, Bytes, if◌then◌else◌, Option-cases,
  is_nil, ℤ,
}

-- A relation between two states that every call keeps; a socket that is dialled in between is gone
-- at the end.
pub record Frame {D : Type 0} (h : Host D) (R : Listener h → Listener h → Type 0) : Type 0 where
  pub stay : (l : Listener h) → R l l
  pub join : (a b c : Listener h) → R a b → R b c → R a c
  pub sent :
      (s : h.Socket) (t : MsgType) (bs : Bytes) (l : Listener h)
      → R l (record l { world = (h.send s t bs l.world).1 })
  pub pinged :
      (s : h.Socket) (l : Listener h) → R l (record l { world = (h.send_ping s l.world).1 })
  pub ended :
      (s : h.Socket) (code : ℕ) (l : Listener h)
      → R l (record l { world = (h.send_close s code l.world).1 })
  pub received :
      (s : h.Socket) (t : ℕ) (l : Listener h) → R l (record l { world = (h.recv s t l.world).1 })
  pub handled :
      (f : RelayRequest → RelayResponse → h.World → (Bool × RelayResponse) × h.World)
      (req : RelayRequest) (resp : RelayResponse) (l : Listener h)
      → h.on_request ≡ some f
      → R l (record l { world = (f req resp l.world).1 })
  pub told :
      (f : Bytes → ℤ → Bytes → h.World → h.World) (event : Bytes) (code : ℤ) (desc : Bytes)
      (l : Listener h)
      → h.on_event ≡ some f
      → R l (record l { world = f event code desc l.world })
  pub polled : (l : Listener h) → R l (record l { world = (h.stop l.world).1 })
  pub ticked : (l : Listener h) → R l (record l { world = (h.monotonic_ms l.world).1 })
  pub timed : (l : Listener h) → R l (record l { world = (h.time l.world).1 })
  pub slept : (ms : ℕ) (l : Listener h) → R l (record l { world = h.sleep_ms ms l.world })
  pub logged : (msg : Bytes) (l : Listener h) → R l (record l { world = h.debug msg l.world })
  -- The deadlines are the listener's own.
  pub deadlines :
      (l : Listener h) (renew expiry ping : ℕ)
      → R l (record l { token_renew_at = renew; token_expiry_wall = expiry; next_ping_at = ping })
  -- A dial that fails, and one that succeeds, up to the end of its socket.
  pub failed :
      (host : Bytes) (port : ℕ) (path extra : Bytes) (t : ℕ) (l : Listener h) (e : Error)
      → (h.dial host port path extra t l.world).0 ≡ err e
      → R l (record l { world = (h.dial host port path extra t l.world).1 })
  pub visited :
      (host : Bytes) (port : ℕ) (path extra : Bytes) (t : ℕ) (l m : Listener h) (s : h.Socket)
      → (h.dial host port path extra t l.world).0 ≡ ok s
      → R (record l { world = (h.dial host port path extra t l.world).1 }) m
      → R l (record m { world = h.destroy s m.world })

module _ {D : Type 0} (h : Host D) (R : Listener h → Listener h → Type 0) (f : Frame h R) where
  abbrev pub Holds : {A : Type 0} → Run h A → Type 0
  Holds m = (l : Listener h) → R l (m l).1

  pub pure-Holds : {A : Type 0} (a : A) → Holds {A = A} (pure a)
  pure-Holds a l = f.stay l

  pub >>=-Holds :
      {A B : Type 0} (m : Run h A) (k : A → Run h B)
      → Holds m
      → ((a : A) → Holds (k a))
      → Holds (m >>= k)
  >>=-Holds m k hm hk l = f.join l (m l).1 _ (hm l) (hk (m l).0 (m l).1)

  pub emit-Holds : (event : Bytes) (code : ℤ) (desc : Bytes) → Holds (emit h event code desc)
  unfolding emit
  emit-Holds event code desc l = elim (Option-cases (h.on_event)) [
    | inl e ↦ rw (emit, e) (f.stay l)
    | inr (g, e) ↦ rw (emit, e) (f.told g event code desc l e)
  ]

  pub if_ok-Holds : (s : Status) (next : Run h Status) → Holds next → Holds (if_ok h s next)
  if_ok-Holds (ok a) next k = k
  if_ok-Holds (err e) next k = λ l. f.stay l

  pub body-Holds :
      (ws : h.Socket) (resp : RelayResponse) (b : Bool)
      → Holds (if b then in_world h (h.send ws binary resp.body) else pure (ok tt))
  body-Holds ws resp true = f.sent ws binary resp.body
  body-Holds ws resp false = λ l. f.stay l

  pub send_response_over-Holds :
      (ws : h.Socket) (id : Bytes) (resp : RelayResponse) → Holds (send_response_over h ws id resp)
  unfolding send_response_over
  send_response_over-Holds ws id resp =
      let has_body = not (is_nil resp.body) in
      let msg = dump (write_number h.double) (build_response_msg h.of_int id resp has_body) in
      let body = if has_body then in_world h (h.send ws binary resp.body) else pure (ok tt) in
      >>=-Holds (in_world h (h.send ws text msg)) (λ rc. if_ok h rc body) (f.sent ws text msg)
        (λ rc. if_ok-Holds rc body (body-Holds ws resp has_body))

  pub read_body-Holds : (ws : h.Socket) (expected : Bool) → Holds (read_body h ws expected)
  unfolding read_body
  read_body-Holds ws true = f.received ws _
  read_body-Holds ws false = λ l. f.stay l

  pub invoke_handler-Holds : (req : RelayRequest) → Holds (invoke_handler h req)
  unfolding invoke_handler
  invoke_handler-Holds req l = elim (Option-cases (h.on_request)) [
    | inl e ↦ rw (invoke_handler, e) (f.stay l)
    | inr (g, e) ↦ rw (invoke_handler, e) (f.handled g req default_response l e)
  ]

  pub report_sent-Holds :
      (resp : RelayResponse) (t : Bytes) (s : Status) → Holds (report_sent h resp t s)
  unfolding report_sent
  report_sent-Holds resp t (err e) = emit-Holds _ _ _
  report_sent-Holds resp t (ok a) = emit-Holds _ _ _
