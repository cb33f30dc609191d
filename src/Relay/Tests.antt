-- ===== src/Relay/Tests.antt =====
-- A scripted host for core/src/vc_relay.cpp: a relay that answers every dial and delivers the
-- messages of a list, a wall clock that stands still, and a stop after a number of polls.
use vericonnect_agent.Common.{Result, Error, ok, err, error, timeout}
use vericonnect_agent.Json.{Json, find_ci, dump}
use vericonnect_agent.Json.Parse.{parse}
use vericonnect_agent.Prelude.Search.{iequals, span}
use vericonnect_agent.Sas.{sas_token}
use vericonnect_agent.Url.{
  url_parse, parse_after_scheme, parse_after_host, port_part, path_part, default_port, query_part,
}
use vericonnect_agent.Ws.{Message, text}
use vericonnect_agent.Relay.{
  RelayConfig, default_response, Host, Listener, renewal_due, build_response_msg,
}
use vericonnect_agent.Relay.Request.{emit, carries_token, rendezvous_connect}
use vericonnect_agent.Relay.Loop.{ctrl_connect, fresh, relay_listen_with}
use vericonnect_agent.Relay.Loop.Stops.{Stopping, relay_listen_with-stops}
use vericonnect_agent.Relay.Loop.Sockets.{Tracks, relay_listen_with-Tracks}
use vericonnect_agent.Relay.Renewal.{ctrl_connect-renewal_due, up_at, rendezvous_hides_expiry}
use vericonnect_agent.Relay.Response.{IsResponse, build_response_msg-IsResponse}
use vericonnect_agent.Prelude.{
  ℕ, ◌+◌, ◌-◌, ◌*◌, ◌/◌, ◌≤◌, u64, ◌≡◌, refl, ap, ◌∙◌, subst, ◌↔◌, ◌⊎◌, Bool, true, false, some,
  some-injective, List, [], ◌∷◌, ◌++◌, arith, Bytes, codes, ◌==◌, leb, if◌then◌else◌, ==_refl,
  length, ℤ, pos, negsuc,
}

record Script : Type 0 where
  polls : ℕ
  inbox : List Message
  sent : List Bytes
  events : List Bytes
  alive : List ℕ
  now : ℕ

abbrev poll : Script → Bool × Script
poll w = (w.polls == 0, record w { polls = w.polls - 1 })

abbrev next_message : List Message → Script → Result Message × Script
next_message [] w = (err (error timeout), w)
next_message (m ∷ ms) w = (ok m, record w { inbox = ms })

abbrev without : ℕ → List ℕ → List ℕ
without s [] = []
without s (t ∷ ts) = let rest = without s ts in if s == t then ts else t ∷ rest

abbrev digit : ℤ → Bytes
digit (pos n) = b'0' ∷ []
digit (negsuc n) = b'1' ∷ []

-- Numbers of JSON: integers, of which the texts show the sign only.
abbrev host : Host ℕ
host = record {
  World = Script;
  Socket = ℕ;
  dial = λ h p path extra t w. (ok (length w.alive), record w { alive = length w.alive ∷ w.alive });
  send = λ s t bs w. (ok tt, record w { sent = w.sent ++ bs ∷ [] });
  send_ping = λ s w. (ok tt, w);
  send_close = λ s c w. (ok tt, w);
  recv = λ s t w. next_message w.inbox w;
  destroy = λ s w. record w { alive = without s w.alive };
  on_request = some (λ req resp w.
      ((true, record resp { status_code = pos 200; status_desc = []; body = req.target }), w));
  on_event = some (λ event code desc w. record w { events = w.events ++ event ∷ [] });
  stop = poll;
  monotonic_ms = λ w. (w.now, w);
  sleep_ms = λ ms w. record w { now = w.now + ms };
  time = λ w. (1000, w);
  debug = λ msg w. w;
  error_text = λ n. [];
  strtod = λ t. some (0, 1);
  double = record {
    isnan = λ n. false;
    isinf = λ n. false;
    floor = λ n. n;
    same = λ m n. m == n;
    at_most = λ m n. leb m n;
    literal = λ z. 0;
    to_long_long = λ n. pos 7;
    seventeen_digits = λ n. b'7' ∷ [];
  };
  of_int = λ z. 0;
}

abbrev config : RelayConfig
config = record {
  namespace_host = codes "ns";
  hybrid_connection = codes "hc";
  key_name = codes "k";
  key = codes "s";
  token_ttl_seconds = 400;
}

abbrev start : Script
start = record {
  polls = 3;
  inbox =
      record { type = text; payload = codes "{\"request\":{\"id\":\"9\",\"method\":\"GET\"}}" }
      ∷ [];
  sent = [];
  events = [];
  alive = [];
  now = 5;
}

host-Stopping : Stopping host (λ w. w.polls)
host-Stopping = record {
  stop_counts = λ w e. ground (arith, e);
  stop_quiet = λ w. omega arith;
  dial_quiet = λ a b c d e w. omega arith;
  send_quiet = λ s t bs w. omega arith;
  ping_quiet = λ s w. omega arith;
  close_quiet = λ s c w. omega arith;
  recv_quiet = λ s t w. recv_polls w.inbox w;
  destroy_quiet = λ s w. omega arith;
  request_quiet = λ g req resp w e.
      subst (λ k. (k req resp w).1.polls ≤ w.polls) (some-injective _ _ e) (omega arith);
  event_quiet = λ g ev c d w e.
      subst (λ k. (k ev c d w).polls ≤ w.polls) (some-injective _ _ e) (omega arith);
  clock_quiet = λ w. omega arith;
  time_quiet = λ w. omega arith;
  sleep_quiet = λ ms w. omega arith;
  debug_quiet = λ m w. omega arith;
}
  where
    recv_polls : (ms : List Message) (w : Script) → (next_message ms w).1.polls ≤ w.polls
    recv_polls [] w = omega arith
    recv_polls (m ∷ ms) w = omega arith

events_seen :
    (relay_listen_with host config 5 start).1.events
    ≡ codes "CONNECTING" ∷ codes "CONNECTED" ∷ codes "RESPONSE_SENT" ∷ codes "STOPPED" ∷ []
unfolding relay_listen_with sas_token iequals
events_seen = refl

host-Tracks : Tracks host (λ w. w.alive)
host-Tracks = record {
  dial_ok = λ a b c d e w s eq. dialled (length w.alive) s w.alive eq;
  dial_err = λ a b c d t w e eq. absurd (not_err eq);
  destroyed = λ s w rest eq. ap (without s) eq ∙ rw ==_refl refl;
  send_same = λ s t bs w. refl;
  ping_same = λ s w. refl;
  close_same = λ s c w. refl;
  recv_same = λ s t w. recv_alive w.inbox w;
  request_same =
      λ g req resp w e. subst (λ k. (k req resp w).1.alive ≡ w.alive) (some-injective _ _ e) refl;
  event_same =
      λ g ev c d w e. subst (λ k. (k ev c d w).alive ≡ w.alive) (some-injective _ _ e) refl;
  stop_same = λ w. refl;
  clock_same = λ w. refl;
  time_same = λ w. refl;
  sleep_same = λ ms w. refl;
  debug_same = λ m w. refl;
}
  where
    recv_alive : (ms : List Message) (w : Script) → (next_message ms w).1.alive ≡ w.alive
    recv_alive [] w = refl
    recv_alive (m ∷ ms) w = refl

    not_err : {s : ℕ} {e : Error} → ◌≡◌ {A = Result ℕ} (ok s) (err e) → ⊥
    not_err eq = cc

    dialled : (s t : ℕ) (ss : List ℕ) → ◌≡◌ {A = Result ℕ} (ok s) (ok t) → s ∷ ss ≡ t ∷ ss
    dialled s t ss eq = cc

relay_listen_with-stops_example :
    ((relay_listen_with host config 5 start).0 ≡ some (ok tt))
    × (l : Listener host) × ((relay_listen_with host config 5 start).1
        ≡ (emit host (codes "STOPPED") (pos 0) (codes "listener stopped") l).1.world)
relay_listen_with-stops_example =
    relay_listen_with-stops host config (λ w. w.polls) host-Stopping 5 start (omega arith) refl

relay_listen_with-Tracks_example : (relay_listen_with host config 5 start).1.alive ≡ []
relay_listen_with-Tracks_example =
    relay_listen_with-Tracks host config (λ w. w.alive) host-Tracks 5 start (ok tt)
      (relay_listen_with-stops host config (λ w. w.polls) host-Stopping 5 start (omega arith)
        refl).0

ctrl_connect-renewal_due_example :
    (renewal_due 9
        (ctrl_connect host config (fresh host config start)).1.token_renew_at
        1300
        (ctrl_connect host config (fresh host config start)).1.token_expiry_wall
        (ctrl_connect host config (fresh host config start)).1.ttl
      ≡ true)
    ↔ ((u64 (up_at host config (fresh host config start) + 400 * 750) ≤ 9)
        ⊎ (1000 + 400 ≤ 1300 + 400 / 4))
unfolding ctrl_connect sas_token
ctrl_connect-renewal_due_example =
    ctrl_connect-renewal_due host config (fresh host config start) 9 1300 refl (omega arith)
      (omega arith) (omega arith)

-- A listener whose token expires at 900 on the wall clock.
abbrev expiring : Listener host
expiring = record {
  ctrl = some 0;
  ttl = 400;
  token_renew_at = 1000;
  token_expiry_wall = 900;
  next_ping_at = 0;
  world = start;
}

abbrev offer : Bytes
offer = codes "wss://h/p?x=1"

rendezvous_hides_expiry_example :
    (renewal_due 9 1000 950 900 400 ≡ true)
    × (renewal_due 9
          (rendezvous_connect host config offer expiring).1.token_renew_at
          950
          (rendezvous_connect host config offer expiring).1.token_expiry_wall
          (rendezvous_connect host config offer expiring).1.ttl
        ≡ false)
unfolding url_parse carries_token parse_after_scheme span parse_after_host port_part path_part
    default_port query_part iequals
rendezvous_hides_expiry_example =
    rendezvous_hides_expiry host config expiring offer
      (record {
        scheme = codes "wss";
        host = codes "h";
        port = 443;
        path = codes "/p";
        query = codes "x=1";
      })
      9 950 refl refl (omega arith) (omega arith) (omega arith) (omega arith) (omega arith)

build_response_msg-IsResponse_example :
    (root r : Json ℕ) × (parse
        (λ t. some (0, 1))
        (dump {D = ℕ}
          (λ n. b'7' ∷ [])
          (build_response_msg (λ z. 0) (codes "9") default_response false))
      ≡ ok root)
    × (find_ci root (codes "response") ≡ some r)
    × IsResponse {D = ℕ} (λ z. 0) (codes "9") default_response false r
build_response_msg-IsResponse_example =
    build_response_msg-IsResponse (λ n. b'7' ∷ []) (λ t. some (0, 1)) (λ z. 0) (codes "9")
      default_response false (omega arith) (omega arith) tt
      (record {
        head = b'7';
        tail = [];
        text = refl;
        starts = refl;
        chars = tt;
        short = omega arith;
        read = refl;
      })
