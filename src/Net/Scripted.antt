-- ===== src/Net/Scripted.antt =====
-- core/src/vc_scripted_transport.cpp: the in-memory wire behind ScriptedTransport. The clock and
-- the random source are not the wire's; here they are a counter and a repeating byte.
use vericonnect_agent.Common.{
  Result, Status, Error, ok-injective, ok, err, error, io, closed, timeout,
}
use vericonnect_agent.Net.{Net, Delivers, Streams}
use vericonnect_agent.Prelude.{
  ℕ, ◌+◌, Bool, true, false, Option, some, [], ◌++◌, ◌≡◌, refl, Bytes, if◌then◌else◌, is_nil,
  length, take, drop, min, replicate, length-replicate, some-injective, sym, ap, ◌∙◌, arith,
  take-append-drop, drop-add, Bool-cases, inl, inr,
}

-- class ScriptedWire
pub record Wire : Type 0 where
  pub incoming : Bytes
  pub outgoing : Bytes
  pub read_pos : ℕ
  pub is_closed : Bool
  pub eof : Bool
  pub fail_send : Bool

unfoldable pub push_incoming : Bytes → Wire → Wire
push_incoming bs w = record w { incoming = w.incoming ++ bs }

unfoldable pub wire_send : Bytes → Wire → Status × Wire
wire_send bs w =
    if w.is_closed
    then (err (error closed), w)
    else if w.fail_send
    then (err (error io), record w { fail_send = false })
    else (ok tt, record w { outgoing = w.outgoing ++ bs })

unfoldable pub wire_recv : ℕ → Wire → Result Bytes × Wire
wire_recv size w =
    let avail = drop w.read_pos w.incoming in
    if w.is_closed
    then (err (error closed), w)
    else if is_nil avail
    then if w.eof then (ok [], w) else (err (error timeout), w)
    else let k = min (length avail) size in
      (ok (take k avail), record w { read_pos = w.read_pos + k })

abbrev wire_close : Wire → Wire
wire_close w = record w { is_closed = true }

-- The wire with a clock and a byte to draw.
pub record ScriptedWorld : Type 0 where
  pub wire : Wire
  pub clock : ℕ
  pub seed : ℕ

abbrev pub scripted : Net
scripted = record {
  World = ScriptedWorld;
  Conn = Unit {0};
  send = λ c bs w. ((wire_send bs w.wire).0, record w { wire = (wire_send bs w.wire).1 });
  recv = λ c size t w. ((wire_recv size w.wire).0, record w { wire = (wire_recv size w.wire).1 });
  close = λ c w. record w { wire = wire_close w.wire };
  random_bytes = λ k w. (some (replicate k w.seed), record w { seed = w.seed + 1 });
  monotonic_ms = λ w. (w.clock, record w { clock = w.clock + 1 });
}

pub wire_send_ok :
    (bs : Bytes) (w : Wire)
    → (wire_send bs w).0 ≡ ok tt
    → (wire_send bs w).1.outgoing ≡ w.outgoing ++ bs
unfolding wire_send
wire_send_ok bs w h = ground arith

pub drawn_length :
    (k x : ℕ) (bs : Bytes) → ◌≡◌ {A = Option Bytes} (some (replicate k x)) (some bs) → length bs ≡ k
drawn_length k x bs e = ap length (sym (some-injective _ _ e)) ∙ length-replicate k x

-- The scripted wire sends every byte or fails.
abbrev pub scripted_delivers : Delivers scripted
scripted_delivers = record {
  written = λ c w. w.wire.outgoing;
  send_ok = λ c bs w h. wire_send_ok bs w.wire h;
  random_quiet = λ c k w. refl;
  random_length = λ k w bs e. drawn_length k w.seed bs e;
}

-- If bytes were handed out, they are the front of what was left.
abbrev pub Took : Wire → Result Bytes × Wire → Type 0
Took w r =
    (bs : Bytes) → r.0 ≡ ok bs → drop w.read_pos w.incoming ≡ bs ++ drop r.1.read_pos r.1.incoming

Took-none : (w : Wire) (e : Error) → Took w (err e, w)
Took-none w e bs h = cc

Took-nothing : (w : Wire) → Took w (ok [], w)
Took-nothing w bs h = let e : [] ≡ bs = ok-injective h in rw (← e) refl

Took-some :
    (w : Wire) (k : ℕ)
    → Took w (ok (take k (drop w.read_pos w.incoming)), record w { read_pos = w.read_pos + k })
Took-some w k bs h =
    sym (take-append-drop k (drop w.read_pos w.incoming))
    ∙ ap (λ t. t ++ drop k (drop w.read_pos w.incoming)) (ok-injective h)
    ∙ ap (◌++◌ bs) (sym (drop-add w.read_pos k w.incoming))

pub wire_recv-Took : (size : ℕ) (w : Wire) → Took w (wire_recv size w)
unfolding wire_recv
wire_recv-Took size w = elim (Bool-cases w.is_closed) [
  | inl shut ↦ rw (wire_recv, shut) (Took-none w (error closed))
  | inr open_ ↦ elim (Bool-cases (is_nil (drop w.read_pos w.incoming))) [
    | inr some_left ↦
        rw (wire_recv, open_, some_left)
          (Took-some w (min (length (drop w.read_pos w.incoming)) size))
    | inl none_left ↦ elim (Bool-cases w.eof) [
      | inl eof ↦ rw (wire_recv, open_, none_left, eof) (Took-nothing w)
      | inr more ↦ rw (wire_recv, open_, none_left, more) (Took-none w (error timeout))
    ]
  ]
]

-- The scripted wire is a stream.
abbrev pub scripted_streams : Streams scripted
scripted_streams = record {
  arriving = λ c w. drop w.wire.read_pos w.wire.incoming;
  recv_ok = λ c size t w bs h. wire_recv-Took size w.wire bs h;
  clock_quiet = λ c w. refl;
}
