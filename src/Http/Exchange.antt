-- ===== src/Http/Exchange.antt =====
-- exchange of core/src/vc_http.cpp: send the request, read until the answer is complete, the peer
-- closes or the time is up, and take what was read apart.
use vericonnect_agent.Common.{Result, Status, ok, err, error, io, protocol}
use vericonnect_agent.Http.{
  Request, Response, k_max_response_bytes, has_all, parse_response, request_head,
}
use vericonnect_agent.Net.{Net, Io, ◌>>=◌, pure}
use vericonnect_agent.Prelude.{
  ℕ, zero, suc, ◌+◌, ◌-◌, true, false, Option, none, some, [], ◌∷◌, ◌++◌, Bytes, ltb, leb,
  if◌then◌else◌, length, is_nil,
}

module _ (n : Net) where
  -- What is done with the answer of recv: bytes are added to `in_`, and reading goes on unless
  -- there are too many, or the answer is complete. Nothing read and errors end it.
  unfoldable pub after_recv :
      Bytes → Result Bytes → (Bytes → Io n (Option (Result Bytes))) → Io n (Option (Result Bytes))
  unfolding has_all
  after_recv in_ (err e) loop = pure (some (ok in_))
  after_recv in_ (ok []) loop = pure (some (ok in_))
  after_recv in_ (ok (b ∷ bs)) loop =
      elim (ltb k_max_response_bytes (length in_ + length (b ∷ bs))) [
        | true ↦ pure (some (err (error protocol)))
        | false ↦ elim (has_all (in_ ++ b ∷ bs)) [
          | true ↦ pure (some (ok (in_ ++ b ∷ bs)))
          | false ↦ loop (in_ ++ b ∷ bs)
        ]
      ]

  -- A round, once the clock shows `now`.
  abbrev pub read_round :
      n.Conn → ℕ → Bytes → ℕ → (Bytes → Io n (Option (Result Bytes))) → Io n (Option (Result Bytes))
  read_round c deadline in_ now loop =
      if leb deadline now
      then pure (some (ok in_))
      else (n.recv c 8192 (deadline - now) >>= λ got. after_recv in_ got loop)

  -- The reading loop; `none` is out of fuel.
  unfoldable pub read_loop : ℕ → n.Conn → ℕ → Bytes → Io n (Option (Result Bytes))
  unfolding after_recv
  read_loop zero c deadline in_ = pure none
  read_loop (suc fuel) c deadline in_ =
      n.monotonic_ms >>= λ now. read_round c deadline in_ now (λ in'. read_loop fuel c deadline in')

  abbrev pub parsed : Option (Result Bytes) → Option (Result Response)
  parsed none = none
  parsed (some (err e)) = some (err e)
  parsed (some (ok in_)) = some (parse_response in_)

  -- Everything behind the sends.
  abbrev pub receive : ℕ → n.Conn → Request → Status → Io n (Option (Result Response))
  receive fuel c req (err e) = pure (some (err (error io)))
  receive fuel c req (ok _) = do
    now ← n.monotonic_ms
    got ← read_loop fuel c (now + req.timeout_ms) []
    pure (parsed got)

  -- The body is sent when there is one.
  abbrev pub send_body : n.Conn → Request → Status → Io n Status
  send_body c req (err e) = pure (err e)
  send_body c req (ok _) = if is_nil req.body then pure (ok tt) else n.send c req.body

  unfoldable pub exchange : ℕ → n.Conn → Request → Io n (Option (Result Response))
  unfolding read_loop request_head parse_response
  exchange fuel c req = do
    head_sent ← n.send c (request_head req)
    sent ← send_body c req head_sent
    receive fuel c req sent
