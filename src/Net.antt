-- ===== src/Net.antt =====
-- What the protocol code takes from outside: core/include/vc/vc_transport.h (the Transport
-- concept) and core/include/vc/vc_os.h (the clock and the random source), as operations on an
-- abstract world; and core/src/vc_scripted_transport.cpp, an in-memory transport, as an instance.
pub mod Scripted
use vericonnect_agent.Common.{Result, Status, ok}
use vericonnect_agent.Prelude.{ℕ, Option, some, ◌++◌, ◌≡◌, Bytes, length}

pub record Net : Type 1 where
  pub World : Type 0
  -- A handle on a transport.
  pub Conn : Type 0
  -- Transport::send and Transport::recv (buffer size, timeout in ms), Transport::close
  pub send : Conn → Bytes → World → Status × World
  pub recv : Conn → ℕ → ℕ → World → Result Bytes × World
  pub close : Conn → World → World
  -- os::random_bytes and os::monotonic_ms
  pub random_bytes : ℕ → World → Option Bytes × World
  pub monotonic_ms : World → ℕ × World

-- Code that runs in the world.
abbrev pub Io : Net → Type 0 → Type 0
Io n A = n.World → A × n.World

infixl 5 ◌>>=◌
abbrev pub ◌>>=◌ : {W A B : Type 0} → (W → A × W) → (A → W → B × W) → W → B × W
◌>>=◌ m f w = f (m w).0 (m w).1

abbrev pub pure : {W A : Type 0} → A → W → A × W
pure a w = (a, w)

-- The documented behaviour of a transport, "send every byte, or fail", and of the random source:
-- `written c w` is all that has been sent through `c`.
pub record Delivers (n : Net) : Type 0 where
  pub written : n.Conn → n.World → Bytes
  pub send_ok :
      (c : n.Conn) (bs : Bytes) (w : n.World)
      → (n.send c bs w).0 ≡ ok tt
      → written c (n.send c bs w).1 ≡ written c w ++ bs
  pub random_quiet :
      (c : n.Conn) (k : ℕ) (w : n.World) → written c (n.random_bytes k w).1 ≡ written c w
  pub random_length :
      (k : ℕ) (w : n.World) (bs : Bytes) → (n.random_bytes k w).0 ≡ some bs → length bs ≡ k

-- A transport as a stream: `arriving c w` is all that is still to be received through `c`; a
-- successful recv takes its bytes off the front, and the clock leaves it alone.
pub record Streams (n : Net) : Type 0 where
  pub arriving : n.Conn → n.World → Bytes
  pub recv_ok :
      (c : n.Conn) (size t : ℕ) (w : n.World) (bs : Bytes)
      → (n.recv c size t w).0 ≡ ok bs
      → arriving c w ≡ bs ++ arriving c (n.recv c size t w).1
  pub clock_quiet : (c : n.Conn) (w : n.World) → arriving c (n.monotonic_ms w).1 ≡ arriving c w
