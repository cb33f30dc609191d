-- ===== src/Sha256/Streaming.antt =====
-- core/src/vc_sha256.cpp: update takes its data as if byte by byte, so pieces add up.
use vericonnect_agent.Prelude.{
  ℕ, zero, suc, ◌+◌, ◌-◌, ◌*◌, ◌≤◌, ◌<◌, min, u64, ◌≡◌, refl, sym, ap, ap₂, ◌∙◌, ◌≢◌, inl, inr,
  false, [], ◌∷◌, ◌++◌, append_assoc, arith, Bytes, ◌==◌, Bool-cases, length, take, drop,
  length-append, take-append-drop, length-take, length-drop,
}
use vericonnect_agent.Sha256.{Sha, flush, update_loop, update}

-- The reference: one byte at a time.
unfoldable pub absorb : Bytes → Sha → Sha
absorb [] s = s
absorb (x ∷ xs) s = absorb xs (flush (record s { buffer = s.buffer ++ x ∷ [] }))

abbrev pub HasRoom : Sha → Type 0
HasRoom s = length s.buffer < 64

flush_short : (s : Sha) → HasRoom s → flush s ≡ s
unfolding flush
flush_short s h = let e : (length s.buffer == 64) ≡ false = ground arith in rw (flush, e) refl

flush-HasRoom : (s : Sha) → length s.buffer ≤ 64 → HasRoom (flush s)
unfolding flush
flush-HasRoom s h = elim (Bool-cases (length s.buffer == 64)) [
  | inl full ↦ rw (flush, full) (omega arith)
  | inr short ↦ rw (flush, short) (ground (arith, short))
]

pub flush-bitlen :
    (s : Sha) (n : ℕ) → flush (record s { bitlen = n }) ≡ record (flush s) { bitlen = n }
unfolding flush
flush-bitlen s n = elim (Bool-cases (length s.buffer == 64)) [
  | inl full ↦ rw (flush, full) refl
  | inr short ↦ rw (flush, short) refl
]

byte-HasRoom :
    (x : ℕ) (s : Sha) → HasRoom s → HasRoom (flush (record s { buffer = s.buffer ++ x ∷ [] }))
byte-HasRoom x s h =
    flush-HasRoom (record s { buffer = s.buffer ++ x ∷ [] })
      (omega (arith, length-append s.buffer (x ∷ []), h))

pub absorb-HasRoom : (xs : Bytes) (s : Sha) → HasRoom s → HasRoom (absorb xs s)
unfolding absorb
absorb-HasRoom [] s h = h
absorb-HasRoom (x ∷ xs) s h =
    absorb-HasRoom xs (flush (record s { buffer = s.buffer ++ x ∷ [] })) (byte-HasRoom x s h)

pub absorb-bitlen :
    (xs : Bytes) (s : Sha) (n : ℕ)
    → absorb xs (record s { bitlen = n }) ≡ record (absorb xs s) { bitlen = n }
unfolding absorb
absorb-bitlen [] s n = refl
absorb-bitlen (x ∷ xs) s n =
    ap (absorb xs) (flush-bitlen (record s { buffer = s.buffer ++ x ∷ [] }) n)
    ∙ absorb-bitlen xs (flush (record s { buffer = s.buffer ++ x ∷ [] })) n

pub absorb-append : (xs ys : Bytes) (s : Sha) → absorb (xs ++ ys) s ≡ absorb ys (absorb xs s)
unfolding absorb
absorb-append [] ys s = refl
absorb-append (x ∷ xs) ys s = absorb-append xs ys (flush (record s { buffer = s.buffer ++ x ∷ [] }))

-- Bytes that fit into the buffer are copied at once.
absorb_fill :
    (xs : Bytes) (s : Sha)
    → xs ≢ []
    → length s.buffer + length xs ≤ 64
    → absorb xs s ≡ flush (record s { buffer = s.buffer ++ xs })
unfolding absorb
absorb_fill [] s full h = absurd (full refl)
absorb_fill (x ∷ []) s full h = refl
absorb_fill (x ∷ y ∷ ys) s full h =
    let s1 : Sha = record s { buffer = s.buffer ++ x ∷ [] } in
    let room : HasRoom s1 = omega (arith, length-append s.buffer (x ∷ []), h) in
    ap (absorb (y ∷ ys)) (flush_short s1 room)
    ∙ absorb_fill (y ∷ ys) s1 (λ k. cc) (omega (arith, length-append s.buffer (x ∷ []), h))
    ∙ ap (λ b. flush (record s { buffer = b })) (append_assoc s.buffer (x ∷ []) (y ∷ ys))

take-ne-nil : (k x : ℕ) (xs : Bytes) → 0 < k → take k (x ∷ xs) ≢ []
take-ne-nil zero x xs h = absurd (omega arith)
take-ne-nil (suc k) x xs h = λ e. cc

absorb-nil : (s : Sha) → absorb [] s ≡ s
unfolding absorb
absorb-nil s = refl

update_loop-absorb :
    (fuel : ℕ) (xs : Bytes) (s : Sha)
    → length xs ≤ fuel
    → HasRoom s
    → update_loop fuel xs s ≡ absorb xs s
unfolding update_loop
update_loop-absorb zero [] s h room = sym (absorb-nil s)
update_loop-absorb zero (x ∷ xs) s h room = absurd (omega arith)
update_loop-absorb (suc fuel) [] s h room = sym (absorb-nil s)
update_loop-absorb (suc fuel) (x ∷ xs) s h room =
    let k = min (64 - length s.buffer) (length (x ∷ xs)) in
    let front = take k (x ∷ xs) in
    let s1 = flush (record s { buffer = s.buffer ++ front }) in
    let filled =
      absorb_fill front s (take-ne-nil k x xs (omega arith))
        (omega (arith, length-take k (x ∷ xs))) in
    update_loop-absorb fuel (drop k (x ∷ xs)) s1 (omega (arith, length-drop k (x ∷ xs), h)) (
      flush-HasRoom (record s { buffer = s.buffer ++ front })
        (omega (arith, length-append s.buffer front, length-take k (x ∷ xs))))
    ∙ ap (absorb (drop k (x ∷ xs))) (sym filled)
    ∙ sym (absorb-append front (drop k (x ∷ xs)) s)
    ∙ ap (λ t. absorb t s) (take-append-drop k (x ∷ xs))

pub update-absorb :
    (xs : Bytes) (s : Sha)
    → HasRoom s
    → update xs s ≡ record (absorb xs s) { bitlen = u64 (s.bitlen + length xs * 8) }
unfolding update
update-absorb xs s room =
    update_loop-absorb (length xs) xs (record s { bitlen = u64 (s.bitlen + length xs * 8) })
      (omega arith) room
    ∙ absorb-bitlen xs s (u64 (s.bitlen + length xs * 8))

-- Data that comes in two pieces is taken as if it came at once.
pub update-append :
    (xs ys : Bytes) (s : Sha) → HasRoom s → update (xs ++ ys) s ≡ update ys (update xs s)
update-append xs ys s room =
    update-absorb (xs ++ ys) s room
    ∙ ap₂ (λ (t : Sha) (n : ℕ). record t { bitlen = n }) (absorb-append xs ys s) count
    ∙ ap (λ (t : Sha). record t { bitlen = u64 (n1 + length ys * 8) })
        (sym (absorb-bitlen ys (absorb xs s) n1))
    ∙ sym (update-absorb ys (record (absorb xs s) { bitlen = n1 }) (absorb-HasRoom xs s room))
    ∙ ap (update ys) (sym (update-absorb xs s room))
  where
    n1 : ℕ
    n1 = u64 (s.bitlen + length xs * 8)

    count : u64 (s.bitlen + length (xs ++ ys) * 8) ≡ u64 (n1 + length ys * 8)
    count = omega (arith, length-append xs ys)
