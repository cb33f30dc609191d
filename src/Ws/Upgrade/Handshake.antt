-- ===== src/Ws/Upgrade/Handshake.antt =====
-- WebSocketT::upgrade of core/src/vc_ws.cpp: what a successful handshake has sent and read, and
-- that the reading ends.
use vericonnect_agent.Common.{Result, ok, err, ok-injective}
use vericonnect_agent.Net.{Net, Streams}
use vericonnect_agent.Prelude.Search.{iequals, find}
use vericonnect_agent.Prelude.{
  ℕ, ◌<◌, ◌≡◌, refl, sym, ap, ◌∙◌, ◌⊎◌, true, false, Option, some, [], ◌∷◌, ◌++◌, append_assoc,
  arith, Bytes, codes, length, take, length-append,
}
use vericonnect_agent.Ws.Recv.{read_more, read_size, appended}
use vericonnect_agent.Ws.Upgrade.{blank_line}
use vericonnect_agent.Ws.{Ws}

appended_ok :
    (n : Net) (ws ws' : Ws n) (r : Result Bytes)
    → appended n ws r ≡ ok ws'
    → (b : ℕ) × (bs : Bytes) × (r ≡ ok (b ∷ bs))
      × (record ws { buffered = ws.buffered ++ b ∷ bs } ≡ ws')
appended_ok n ws ws' (err e) h = cc
appended_ok n ws ws' (ok []) h = cc
appended_ok n ws ws' (ok (b ∷ bs)) h = (b, bs, refl, ok-injective h)

module _ (n : Net) (s : Streams n) where
  -- All bytes that a connection has received or will receive.
  abbrev pub stream : Ws n → n.World → Bytes
  stream ws w = ws.buffered ++ s.arriving ws.transport w

  -- A successful read moves at least one byte of the stream into the buffer.
  pub read_more_ok :
      (ws ws' : Ws n) (t : ℕ) (w : n.World)
      → (read_more n ws t w).0 ≡ ok ws'
      → (stream ws w ≡ stream ws' (read_more n ws t w).1)
        × (length (s.arriving ws.transport (read_more n ws t w).1)
            < length (s.arriving ws.transport w))
        × (ws'.transport ≡ ws.transport)
        × (ws'.closed ≡ ws.closed)
  unfolding read_more
  read_more_ok ws ws' t w h =
      let (b, bs, got, e) = appended_ok n ws ws' (n.recv ws.transport read_size t w).0 h in
      let front = s.recv_ok ws.transport read_size t w (b ∷ bs) got in
      let after = s.arriving ws.transport (n.recv ws.transport read_size t w).1 in
      rw (← e) (
        ap (◌++◌ ws.buffered) front ∙ sym (append_assoc ws.buffered (b ∷ bs) after),
        omega (arith, ap length front, length-append (b ∷ bs) after),
        refl,
        refl,
      )

  abbrev Read : Ws n → n.World → Option (Result (Ws n × ℕ)) × n.World → Type 0
  Read ws w r =
      (ws' : Ws n) (i : ℕ)
      → r.0 ≡ some (ok (ws', i))
      → (stream ws w ≡ stream ws' r.1)
        × (find blank_line ws'.buffered ≡ some i)
        × (ws'.transport ≡ ws.transport)
        × (ws'.closed ≡ ws.closed)

  -- A text starts with a status line of the protocol's two versions with status 101, in any case of
  -- letters; nothing is asked of what stands behind the three digits.
  abbrev pub IsSwitching : Bytes → Type 0
  IsSwitching in_ =
      (iequals (take 12 in_) (codes "HTTP/1.1 101") ≡ true)
      ⊎ (iequals (take 12 in_) (codes "HTTP/1.0 101") ≡ true)

  -- What a successful handshake has taken from the stream: a header block up to its first blank
  -- line, which starts with status 101, and the bytes that are in the buffer of the new socket.
  unfoldable pub Upgraded : n.Conn → n.World → Ws n → n.World → Type 0
  Upgraded c v ws v' =
      (head : Bytes) × (s.arriving c v ≡ head ++ (blank_line ++ (ws.buffered ++ s.arriving c v')))
      × (find blank_line (head ++ blank_line) ≡ some (length head))
      × IsSwitching (head ++ (blank_line ++ ws.buffered))
      × (ws.transport ≡ c)
      × (ws.closed ≡ false)
