-- ===== src/Ws/Upgrade.antt =====
-- WebSocketT::upgrade of core/src/vc_ws.cpp: the client's side of the opening handshake.
pub mod Handshake
pub mod Returns
mod Tests
use vericonnect_agent.Base64.{encode}
use vericonnect_agent.Common.{Result, Status, ok, err, error, fail, io, timeout, protocol}
use vericonnect_agent.Net.{Net, Io, ◌>>=◌, pure}
use vericonnect_agent.Prelude.Search.{find, istarts_with}
use vericonnect_agent.Prelude.{
  ℕ, zero, suc, ◌+◌, ◌-◌, ◌/◌, inl, inr, Bool, false, ◌||◌, Option, none, some, [], ◌∷◌, ◌++◌,
  arith, Bytes, codes, ltb, leb, if◌then◌else◌, tests, drop,
}
use vericonnect_agent.Ws.Recv.{read_more}
use vericonnect_agent.Ws.{Ws}

-- kHdrTimeout
abbrev pub k_hdr_timeout : ℕ
k_hdr_timeout = 15000

-- "\r\n\r\n"
abbrev pub blank_line : Bytes
blank_line = b'\r' ∷ b'\n' ∷ b'\r' ∷ b'\n' ∷ []

abbrev crlf : Bytes
crlf = b'\r' ∷ b'\n' ∷ []

unfoldable pub upgrade_request : Bytes → Bytes → Bytes → Bytes → Bytes
upgrade_request host path_and_query extra_headers key =
    codes "GET "
    ++ path_and_query
    ++ codes " HTTP/1.1"
    ++ crlf
    ++ codes "Host: "
    ++ host
    ++ crlf
    ++ codes "Upgrade: websocket"
    ++ crlf
    ++ codes "Connection: Upgrade"
    ++ crlf
    ++ codes "Sec-WebSocket-Key: "
    ++ key
    ++ crlf
    ++ codes "Sec-WebSocket-Version: 13"
    ++ crlf
    ++ extra_headers
    ++ crlf

-- The status that the answer must start with.
abbrev pub is_switching : Bytes → Bool
is_switching in_ =
    istarts_with in_ (codes "HTTP/1.1 101") || istarts_with in_ (codes "HTTP/1.0 101")

-- A timeout of 0 or less is 0 here.
abbrev pub hdr_budget : ℕ → ℕ
hdr_budget timeout_ms = if ltb 0 timeout_ms then timeout_ms else k_hdr_timeout

module _ (n : Net) where
  -- `if (!ws.read_more(..)) return std::unexpected(Error::Io);` in front of the next round.
  abbrev pub if_read :
      Result (Ws n) → (Ws n → Io n (Option (Result (Ws n × ℕ)))) → Io n (Option (Result (Ws n × ℕ)))
  if_read (ok ws) loop = loop ws
  if_read (err e) loop = pure (some (err (error io)))

  -- A round without a blank line in the buffer, once the clock shows `now`.
  abbrev pub header_round :
      Ws n → ℕ → ℕ → (Ws n → Io n (Option (Result (Ws n × ℕ)))) → Io n (Option (Result (Ws n × ℕ)))
  header_round ws deadline now loop =
      if leb deadline now
      then pure (some (err (error timeout)))
      else (read_more n ws (deadline - now) >>= λ got. if_read got loop)

  -- The loop that reads the header block: where it ends in the buffer. `none` is out of fuel.
  unfoldable pub read_header : ℕ → Ws n → ℕ → Io n (Option (Result (Ws n × ℕ)))
  read_header zero ws deadline = pure none
  read_header (suc fuel) ws deadline = elim (find blank_line ws.buffered) [
    | some hdr_end ↦ pure (some (ok (ws, hdr_end)))
    | none ↦
        (n.monotonic_ms >>= λ now.
        header_round ws deadline now (λ ws'. read_header fuel ws' deadline))
  ]

  -- What is done with the header block: the bytes behind it stay in the buffer.
  abbrev pub accept : Option (Result (Ws n × ℕ)) → Option (Result (Ws n))
  accept none = none
  accept (some (err e)) = some (err e)
  accept (some (ok (ws, hdr_end))) =
      if is_switching ws.buffered
      then some (ok (record ws { buffered = drop (hdr_end + 4) ws.buffered }))
      else some (err (error protocol))

  -- The request is out: read the answer.
  abbrev pub after_request : ℕ → n.Conn → ℕ → Status → Io n (Option (Result (Ws n)))
  after_request fuel c timeout_ms (err e) = pure (some (err (error io)))
  after_request fuel c timeout_ms (ok _) = do
    now ← n.monotonic_ms
    got ←
        read_header fuel (record { transport = c; buffered = []; closed = false })
          (now + hdr_budget timeout_ms)
    pure (accept got)

  abbrev pub with_nonce :
      ℕ → n.Conn → Bytes → Bytes → Bytes → ℕ → Option Bytes → Io n (Option (Result (Ws n)))
  with_nonce fuel c host path_and_query extra_headers timeout_ms none =
      pure (some (err (error fail)))
  with_nonce fuel c host path_and_query extra_headers timeout_ms (some nonce) = do
    sent ← n.send c (upgrade_request host path_and_query extra_headers (encode nonce))
    after_request fuel c timeout_ms sent

  unfoldable pub upgrade : ℕ → n.Conn → Bytes → Bytes → Bytes → ℕ → Io n (Option (Result (Ws n)))
  unfolding read_header upgrade_request
  upgrade fuel c host path_and_query extra_headers timeout_ms = do
    nonce ← n.random_bytes 16
    with_nonce fuel c host path_and_query extra_headers timeout_ms nonce
