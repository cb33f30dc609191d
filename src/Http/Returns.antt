-- ===== src/Http/Returns.antt =====
-- exchange of core/src/vc_http.cpp: reading the answer ends.
use vericonnect_agent.Common.{Result, Status, ok, err}
use vericonnect_agent.Http.{Request, k_max_response_bytes, has_all}
use vericonnect_agent.Http.Exchange.{after_recv, read_round, read_loop, receive, exchange}
use vericonnect_agent.Http.Reads.{parsed-none, after_sends}
use vericonnect_agent.Net.{Net, Streams}
use vericonnect_agent.Prelude.{
  ℕ, zero, suc, ◌+◌, ◌-◌, ◌<◌, ◌≡◌, refl, ap, ◌≢◌, inl, inr, Option, none, [], ◌∷◌, ◌++◌, arith,
  Bytes, ltb, leb, Bool-cases, length, length-append,
}

module _ (n : Net) (s : Streams n) (c : n.Conn) where
  after_recv-returns :
      (fuel : ℕ) (in_ : Bytes) (size t : ℕ) (w : n.World) (got : Result Bytes)
      (loop : Bytes → n.World → Option (Result Bytes) × n.World)
      → ((in' : Bytes) (v : n.World) → length (s.arriving c v) < fuel → (loop in' v).0 ≢ none)
      → length (s.arriving c w) < suc fuel
      → (n.recv c size t w).0 ≡ got
      → (after_recv n in_ got loop (n.recv c size t w).1).0 ≢ none
  unfolding after_recv
  after_recv-returns fuel in_ size t w (err e) loop later enough h = λ k. cc
  after_recv-returns fuel in_ size t w (ok []) loop later enough h = λ k. cc
  after_recv-returns fuel in_ size t w (ok (b ∷ bs)) loop later enough h =
      let more = length in_ + length (b ∷ bs) in
      let w1 = (n.recv c size t w).1 in
      let shorter = ap length (s.recv_ok c size t w (b ∷ bs) h) in
      elim (Bool-cases (ltb k_max_response_bytes more)) [
        | inl many ↦ rw (after_recv, many) (λ k. cc)
        | inr few ↦ elim (Bool-cases (has_all (in_ ++ b ∷ bs))) [
          | inl whole ↦ rw (after_recv, few, whole) (λ k. cc)
          | inr part ↦
              rw (after_recv, few, part)
                (later (in_ ++ b ∷ bs) w1
                  (omega (arith, shorter, length-append (b ∷ bs) (s.arriving c w1), enough)))
        ]
      ]

  read_round-returns :
      (fuel : ℕ) (in_ : Bytes) (deadline now : ℕ) (w : n.World)
      (loop : Bytes → n.World → Option (Result Bytes) × n.World)
      → ((in' : Bytes) (v : n.World) → length (s.arriving c v) < fuel → (loop in' v).0 ≢ none)
      → length (s.arriving c w) < suc fuel
      → (read_round n c deadline in_ now loop w).0 ≢ none
  read_round-returns fuel in_ deadline now w loop later enough =
      elim (Bool-cases (leb deadline now)) [
        | inl late ↦ rw (read_round, late) (λ k. cc)
        | inr early ↦
            rw (read_round, early)
              (after_recv-returns fuel in_ 8192 (deadline - now) w _ loop later enough refl)
      ]

  read_loop-returns :
      (fuel deadline : ℕ) (in_ : Bytes) (w : n.World)
      → length (s.arriving c w) < fuel
      → (read_loop n fuel c deadline in_ w).0 ≢ none
  unfolding read_loop
  read_loop-returns zero deadline in_ w enough = absurd (omega arith)
  read_loop-returns (suc fuel) deadline in_ w enough =
      read_round-returns fuel in_ deadline (n.monotonic_ms w).0 (n.monotonic_ms w).1 _
        (λ in' v. read_loop-returns fuel deadline in' v)
        (omega (arith, ap length (s.clock_quiet c w), enough))

  receive-returns :
      (fuel : ℕ) (req : Request) (sent : Status) (w : n.World)
      → length (s.arriving c w) < fuel
      → (receive n fuel c req sent w).0 ≢ none
  receive-returns fuel req (err e) w enough = λ k. cc
  receive-returns fuel req (ok tt) w enough = parsed-none n _ (
      read_loop-returns fuel ((n.monotonic_ms w).0 + req.timeout_ms) [] (n.monotonic_ms w).1
        (omega (arith, ap length (s.clock_quiet c w), enough)))

  -- Over a transport that is a stream, exchange gives a response or an error: more fuel than bytes
  -- arrive behind the request is enough.
  pub exchange_returns :
      (fuel : ℕ) (req : Request) (w : n.World)
      → length (s.arriving c (after_sends n s c req w).1) < fuel
      → (exchange n fuel c req w).0 ≢ none
  unfolding exchange
  exchange_returns fuel req w enough =
      receive-returns fuel req (after_sends n s c req w).0 (after_sends n s c req w).1 enough
