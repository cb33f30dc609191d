-- ===== src/Ws/Upgrade/Returns.antt =====
-- WebSocketT::upgrade of core/src/vc_ws.cpp: reading the answer ends.
use vericonnect_agent.Base64.{encode}
use vericonnect_agent.Common.{Result, Status, ok, err}
use vericonnect_agent.Net.{Net, Streams}
use vericonnect_agent.Prelude.Search.{find}
use vericonnect_agent.Prelude.{
  ℕ, zero, suc, ◌+◌, ◌-◌, ◌<◌, ◌≡◌, refl, sym, ap, subst, ◌≢◌, inl, inr, false, Option, none, some,
  [], arith, Bytes, leb, Bool-cases, Option-cases, length,
}
use vericonnect_agent.Ws.Recv.{read_more}
use vericonnect_agent.Ws.Upgrade.Handshake.{read_more_ok}
use vericonnect_agent.Ws.Upgrade.{
  blank_line, upgrade_request, hdr_budget, is_switching, read_header, if_read, header_round, accept,
  after_request, upgrade,
}
use vericonnect_agent.Ws.{Ws}

accept-none : (n : Net) (r : Option (Result (Ws n × ℕ))) → r ≢ none → accept n r ≢ none
accept-none n none h = absurd (h refl)
accept-none n (some (err e)) h = λ k. cc
accept-none n (some (ok (ws, i))) h = elim (Bool-cases (is_switching ws.buffered)) [
  | inl switching ↦ rw switching (λ k. cc)
  | inr other ↦ rw other (λ k. cc)
]

module _ (n : Net) (s : Streams n) where
  -- More fuel than bytes that are still to come.
  abbrev Enough : ℕ → Ws n → n.World → Type 0
  Enough fuel ws w = length (s.arriving ws.transport w) < fuel

  if_read-returns :
      (fuel : ℕ) (ws : Ws n) (t : ℕ) (w : n.World)
      (loop : Ws n → n.World → Option (Result (Ws n × ℕ)) × n.World) (got : Result (Ws n))
      → ((ws' : Ws n) (v : n.World) → Enough fuel ws' v → (loop ws' v).0 ≢ none)
      → Enough (suc fuel) ws w
      → (read_more n ws t w).0 ≡ got
      → (if_read n got loop (read_more n ws t w).1).0 ≢ none
  if_read-returns fuel ws t w loop (err e) later enough h = λ k. cc
  if_read-returns fuel ws t w loop (ok ws1) later enough h =
      let (more, shorter, same, open_) = read_more_ok n s ws ws1 t w h in
      let w1 = (read_more n ws t w).1 in
      later ws1 w1
        (subst (λ c. length (s.arriving c w1) < fuel) (sym same) (omega (arith, shorter, enough)))

  header_round-returns :
      (fuel : ℕ) (ws : Ws n) (deadline now : ℕ) (w : n.World)
      (loop : Ws n → n.World → Option (Result (Ws n × ℕ)) × n.World)
      → ((ws' : Ws n) (v : n.World) → Enough fuel ws' v → (loop ws' v).0 ≢ none)
      → Enough (suc fuel) ws w
      → (header_round n ws deadline now loop w).0 ≢ none
  header_round-returns fuel ws deadline now w loop later enough =
      elim (Bool-cases (leb deadline now)) [
        | inl late ↦ rw (header_round, late) (λ k. cc)
        | inr early ↦
            rw (header_round, early)
              (if_read-returns fuel ws (deadline - now) w loop _ later enough refl)
      ]

  read_header-returns :
      (fuel : ℕ) (ws : Ws n) (deadline : ℕ) (w : n.World)
      → Enough fuel ws w
      → (read_header n fuel ws deadline w).0 ≢ none
  unfolding read_header
  read_header-returns zero ws deadline w enough = absurd (omega arith)
  read_header-returns (suc fuel) ws deadline w enough =
      elim (Option-cases (find blank_line ws.buffered)) [
        | inr (hdr_end, found) ↦ rw (read_header, found) (λ k. cc)
        | inl more ↦
            rw (read_header, more)
              (header_round-returns fuel ws deadline (n.monotonic_ms w).0 (n.monotonic_ms w).1 _
                (λ ws' v. read_header-returns fuel ws' deadline v)
                (omega (arith, ap length (s.clock_quiet ws.transport w), enough)))
      ]

  after_request-returns :
      (fuel : ℕ) (c : n.Conn) (timeout_ms : ℕ) (sent : Status) (v : n.World)
      → length (s.arriving c v) < fuel
      → (after_request n fuel c timeout_ms sent v).0 ≢ none
  after_request-returns fuel c timeout_ms (err e) v enough = λ k. cc
  after_request-returns fuel c timeout_ms (ok tt) v enough = accept-none n _ (
      read_header-returns fuel (record { transport = c; buffered = []; closed = false })
        ((n.monotonic_ms v).0 + hdr_budget timeout_ms) (n.monotonic_ms v).1
        (omega (arith, ap length (s.clock_quiet c v), enough)))

  -- Over a transport that is a stream the handshake returns a socket or an error: more fuel than
  -- bytes arrive behind the request, whatever its key, is enough.
  pub upgrade_returns :
      (fuel : ℕ) (c : n.Conn) (host path extra : Bytes) (timeout_ms : ℕ) (w : n.World)
      → ((nonce : Bytes)
          → length (
              s.arriving c
                (n.send c
                  (upgrade_request host path extra (encode nonce))
                  (n.random_bytes 16 w).1).1)
            < fuel)
      → (upgrade n fuel c host path extra timeout_ms w).0 ≢ none
  unfolding upgrade
  upgrade_returns fuel c host path extra timeout_ms w enough =
      elim (Option-cases (n.random_bytes 16 w).0) [
        | inl dry ↦ rw (upgrade, dry) (λ k. cc)
        | inr (nonce, drawn) ↦
            let w1 = (n.random_bytes 16 w).1 in
            let out = n.send c (upgrade_request host path extra (encode nonce)) w1 in
            rw (upgrade, drawn) (after_request-returns fuel c timeout_ms out.0 out.1 (enough nonce))
      ]
