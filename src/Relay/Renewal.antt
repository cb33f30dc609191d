-- ===== src/Relay/Renewal.antt =====
-- core/src/vc_relay.cpp: when the token of the control channel is renewed.
use vericonnect_agent.Common.{Result, ok, err}
use vericonnect_agent.Url.{Url, url_parse}
use vericonnect_agent.Relay.{RelayConfig, Host, Listener, k_connect_timeout, renewal_due}
use vericonnect_agent.Relay.Request.{make_token, token_part, carries_token, rendezvous_connect}
use vericonnect_agent.Relay.Loop.{renew_at, listen_path, connected, dial_control, ctrl_connect}
use vericonnect_agent.Prelude.{
  ℕ, ◌+◌, ◌*◌, ◌/◌, ◌^◌, ◌≤◌, ◌<◌, u64, ◌≡◌, refl, ◌↔◌, ◌⊎◌, inl, inr, true, false, [], ◌∷◌, arith,
  Bytes,
}

-- A renewal is due exactly when the deadline of the monotonic clock is reached, or the token has an
-- expiry and a quarter of its time to live or less is left on the wall clock; no sum wraps.
pub renewal_due_iff :
    (now due wall expiry ttl : ℕ)
    → wall + ttl / 4 < 2 ^ 64
    → (renewal_due now due wall expiry ttl ≡ true)
      ↔ ((due ≤ now) ⊎ ((0 < expiry) × (expiry ≤ wall + ttl / 4)))
unfolding renewal_due
renewal_due_iff now due wall expiry ttl small = (
  λ e. ground (arith, e),
  λ x. elim x [ inl a ↦ ground (arith, a) | inr b ↦ ground (arith, b.0, b.1) ],
)

module _ {D : Type 0} (h : Host D) (cfg : RelayConfig) where
  -- The deadlines of a listener whose token was made at `wall` and renewed at `now`.
  abbrev pub Deadlines : ℕ → ℕ → ℕ → Listener h → Type 0
  Deadlines wall now ttl l =
      (l.token_expiry_wall ≡ u64 (wall + ttl))
      × (l.token_renew_at ≡ renew_at now ttl)
      × (l.ttl ≡ ttl)

  connected-Deadlines :
      (wall : ℕ) (r : Result h.Socket) (l : Listener h)
      → l.token_expiry_wall ≡ u64 (wall + l.ttl)
      → (connected h cfg r l).0 ≡ ok tt
      → Deadlines wall (h.monotonic_ms l.world).0 l.ttl (connected h cfg r l).1
  connected-Deadlines wall (err e) l h' e' = cc
  connected-Deadlines wall (ok s) l h' e' = (h', refl, refl)

  -- What the monotonic clock reads once the dial of the control channel has returned.
  abbrev pub up_behind : Bytes → Listener h → ℕ
  up_behind token l =
      (h.monotonic_ms
        (h.dial cfg.namespace_host 443 (listen_path cfg.hybrid_connection token) []
          k_connect_timeout l.world).1).0

  abbrev pub up_at : Listener h → ℕ
  up_at l = up_behind (make_token h cfg l).0 (make_token h cfg l).1

  dial_control-Deadlines :
      (wall : ℕ) (token : Bytes) (l : Listener h)
      → l.token_expiry_wall ≡ u64 (wall + l.ttl)
      → (dial_control h cfg token l).0 ≡ ok tt
      → Deadlines wall (up_behind token l) l.ttl (dial_control h cfg token l).1
  dial_control-Deadlines wall [] l h' e' = cc
  dial_control-Deadlines wall (c ∷ cs) l h' e' =
      let d =
        h.dial cfg.namespace_host 443 (listen_path cfg.hybrid_connection (c ∷ cs)) []
          k_connect_timeout l.world in
      connected-Deadlines wall d.0 (record l { world = d.1 }) h' e'

  ctrl_connect-Deadlines :
      (l : Listener h)
      → (ctrl_connect h cfg l).0 ≡ ok tt
      → Deadlines (h.time l.world).0 (up_at l) l.ttl (ctrl_connect h cfg l).1
  unfolding ctrl_connect make_token
  ctrl_connect-Deadlines l e =
      dial_control-Deadlines (h.time l.world).0 (make_token h cfg l).0 (make_token h cfg l).1 refl e

fresh_due :
    (now later wall up ttl renew expiry ttl' : ℕ)
    → (expiry ≡ u64 (wall + ttl)) × (renew ≡ renew_at up ttl) × (ttl' ≡ ttl)
    → 0 < ttl
    → wall + ttl < 2 ^ 64
    → later + ttl / 4 < 2 ^ 64
    → (renewal_due now renew later expiry ttl' ≡ true)
      ↔ ((u64 (up + ttl * 750) ≤ now) ⊎ (wall + ttl ≤ later + ttl / 4))
fresh_due now later wall up ttl renew expiry ttl' d positive small small' =
    let e : expiry ≡ wall + ttl = omega arith in
    let r : renew ≡ u64 (up + ttl * 750) = omega arith in
    let due = renewal_due_iff now renew later expiry ttl' (omega arith) in
    (
      λ t. elim (due.0 t) [ inl a ↦ inl (omega arith) | inr b ↦ inr (omega arith) ],
      λ x. due.1 (elim x [ inl a ↦ inl (omega arith) | inr b ↦ inr (omega arith, omega arith) ]),
    )

-- Behind a control channel that came up: a renewal is due exactly when three quarters of
-- the time to live have passed on the monotonic clock since the dial returned, or a quarter of it or less is left on the
-- wall clock, counted from when the token was made; the time to live is positive and no sum on the wall clock wraps.
pub ctrl_connect-renewal_due :
    {D : Type 0} (h : Host D) (cfg : RelayConfig) (l : Listener h) (now later : ℕ)
    → (ctrl_connect h cfg l).0 ≡ ok tt
    → 0 < l.ttl
    → (h.time l.world).0 + l.ttl < 2 ^ 64
    → later + l.ttl / 4 < 2 ^ 64
    → (renewal_due now
          (ctrl_connect h cfg l).1.token_renew_at
          later
          (ctrl_connect h cfg l).1.token_expiry_wall
          (ctrl_connect h cfg l).1.ttl
        ≡ true)
      ↔ ((u64 (up_at h cfg l + l.ttl * 750) ≤ now)
          ⊎ ((h.time l.world).0 + l.ttl ≤ later + l.ttl / 4))
ctrl_connect-renewal_due h cfg l now later e positive small small' =
    fresh_due now later (h.time l.world).0 (up_at h cfg l) l.ttl
      (ctrl_connect h cfg l).1.token_renew_at (ctrl_connect h cfg l).1.token_expiry_wall
      (ctrl_connect h cfg l).1.ttl (ctrl_connect-Deadlines h cfg l e) positive small small'

-- The expiry that a rendezvous leaves is that of its own token.
rendezvous_expiry :
    {D : Type 0} (h : Host D) (cfg : RelayConfig) (l : Listener h) (address : Bytes) (u : Url)
    → url_parse address ≡ ok u
    → carries_token u ≡ false
    → ((rendezvous_connect h cfg address l).1.token_expiry_wall ≡ u64 ((h.time l.world).0 + l.ttl))
      × ((rendezvous_connect h cfg address l).1.token_renew_at ≡ l.token_renew_at)
      × ((rendezvous_connect h cfg address l).1.ttl ≡ l.ttl)
unfolding rendezvous_connect token_part make_token
rendezvous_expiry h cfg l address u p n =
    rw (rendezvous_connect, p) (rw (token_part, n) (refl, refl, refl))

hidden :
    (now wall made ttl renew expiry renew' expiry' ttl' : ℕ)
    → (expiry' ≡ u64 (made + ttl)) × (renew' ≡ renew) × (ttl' ≡ ttl)
    → now < renew
    → 0 < expiry
    → expiry ≤ wall
    → wall + ttl / 4 < made + ttl
    → made + ttl < 2 ^ 64
    → (renewal_due now renew wall expiry ttl ≡ true)
      × (renewal_due now renew' wall expiry' ttl' ≡ false)
unfolding renewal_due
hidden now wall made ttl renew expiry renew' expiry' ttl' r early positive expired more small =
    (ground arith, ground arith)

-- A rendezvous whose address carries no token hides the expiry of the control channel's token:
-- while the deadline of the monotonic clock is not reached, a wall clock at or past that expiry
-- makes a renewal due before the rendezvous is dialled, and none behind it, where the token of the
-- rendezvous has more than a quarter of its time to live left; no sum of times wraps.
pub rendezvous_hides_expiry :
    {D : Type 0} (h : Host D) (cfg : RelayConfig) (l : Listener h) (address : Bytes) (u : Url)
    (now wall : ℕ)
    → url_parse address ≡ ok u
    → carries_token u ≡ false
    → now < l.token_renew_at
    → 0 < l.token_expiry_wall
    → l.token_expiry_wall ≤ wall
    → wall + l.ttl / 4 < (h.time l.world).0 + l.ttl
    → (h.time l.world).0 + l.ttl < 2 ^ 64
    → (renewal_due now l.token_renew_at wall l.token_expiry_wall l.ttl ≡ true)
      × (renewal_due now
            (rendezvous_connect h cfg address l).1.token_renew_at
            wall
            (rendezvous_connect h cfg address l).1.token_expiry_wall
            (rendezvous_connect h cfg address l).1.ttl
          ≡ false)
rendezvous_hides_expiry h cfg l address u now wall p n early positive expired more small =
    let r = rendezvous_expiry h cfg l address u p n in
    hidden now wall (h.time l.world).0 l.ttl l.token_renew_at l.token_expiry_wall
      (rendezvous_connect h cfg address l).1.token_renew_at
      (rendezvous_connect h cfg address l).1.token_expiry_wall
      (rendezvous_connect h cfg address l).1.ttl r early positive expired more small
