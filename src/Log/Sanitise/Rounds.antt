-- ===== src/Log/Sanitise/Rounds.antt =====
-- core/src/vc_log.cpp: the rounds of mask_secrets, each on a shorter text.

use vericonnect_agent.Prelude.Search.{span, span_parts}
use vericonnect_agent.Log.Sanitise.{
  secret_keys, key_length, is_blank, in_value, in_quotes, skip_quote, at_separator, after_key,
  mask_quoted, mask_plain, mask_at, mask_value, mask_key, mask_found, mask_round, mask_loop,
  mask_secrets,
}
use vericonnect_agent.Prelude.{
  ℕ, zero, suc, ◌≤◌, ◌≡◌, refl, ap, inl, inr, Bool, false, ◌||◌, [], ◌∷◌, ◌++◌, arith, Bytes, ◌==◌,
  Bool-cases, length, drop, length-append, length-drop,
}

pub span-le : (test : ℕ → Bool) (s : Bytes) → length (span test s).1 ≤ length s
span-le test s =
    omega (arith, length-append (span test s).0 (span test s).1, ap length (span_parts test s))

pub mask_quoted-le : (r : Bytes × Bytes) → length (mask_quoted r).1 ≤ length r.1
mask_quoted-le ([], []) = omega arith
mask_quoted-le ([], q ∷ rest) = omega arith
mask_quoted-le (c ∷ v, []) = omega arith
mask_quoted-le (c ∷ v, q ∷ rest) = omega arith

pub mask_plain-le : (r : Bytes × Bytes) → length (mask_plain r).1 ≤ length r.1
mask_plain-le ([], rest) = omega arith
mask_plain-le (c ∷ v, rest) = omega arith

pub mask_at-le : (s : Bytes) → length (mask_at s).1 ≤ length s
mask_at-le [] = omega arith
mask_at-le (c ∷ s) = elim (Bool-cases (c == b'"')) [
  | inl y ↦ rw y (omega (arith, mask_quoted-le (span in_quotes s), span-le in_quotes s))
  | inr n ↦ rw n (omega (arith, mask_plain-le (span in_value (c ∷ s)), span-le in_value (c ∷ s)))
]

pub mask_value-le : (s : Bytes) → length (mask_value s).1 ≤ length s
unfolding mask_value
mask_value-le s = omega (arith, mask_at-le (span is_blank s).1, span-le is_blank s)

pub skip_quote-le : (s : Bytes) → length (skip_quote s) ≤ length s
skip_quote-le [] = omega arith
skip_quote-le (c ∷ s) = elim (Bool-cases (c == b'"')) [
  | inl y ↦ rw y (omega arith)
  | inr n ↦ rw n (omega arith)
]

pub mask_key-le :
    (c : ℕ) (cs s : Bytes)
    → length s ≤ length cs
    → length (mask_key c cs (at_separator s)).1 ≤ length cs
mask_key-le c cs [] h = omega arith
mask_key-le c cs (d ∷ s) h = elim (Bool-cases (d == b'=' || d == b':')) [
  | inl y ↦ rw y (omega (arith, mask_value-le s))
  | inr n ↦ rw n (omega arith)
]

==_suc_zero : (n : ℕ) → (suc n == 0) ≡ false
==_suc_zero n = ground arith

pub mask_found-le : (n c : ℕ) (cs : Bytes) → length (mask_found n c cs).1 ≤ length cs
unfolding after_key
mask_found-le zero c cs = omega arith
mask_found-le (suc n) c cs =
    let s = skip_quote (drop n cs) in
    rw (==_suc_zero n) (
      mask_key-le c cs (span is_blank s).1
        (omega (arith, span-le is_blank s, skip_quote-le (drop n cs), length-drop n cs)))

pub mask_round-le : (c : ℕ) (cs : Bytes) → length (mask_round c cs).1 ≤ length cs
unfolding mask_round
mask_round-le c cs = mask_found-le (key_length secret_keys (c ∷ cs)) c cs

-- Fuel for the bytes left is enough.
pub mask_loop-enough :
    (f g : ℕ) (s : Bytes) → length s ≤ f → length s ≤ g → mask_loop f s ≡ mask_loop g s
unfolding mask_loop
mask_loop-enough zero zero s hf hg = refl
mask_loop-enough zero (suc g) [] hf hg = refl
mask_loop-enough zero (suc g) (c ∷ cs) hf hg = absurd (omega arith)
mask_loop-enough (suc f) zero [] hf hg = refl
mask_loop-enough (suc f) zero (c ∷ cs) hf hg = absurd (omega arith)
mask_loop-enough (suc f) (suc g) [] hf hg = refl
mask_loop-enough (suc f) (suc g) (c ∷ cs) hf hg =
    let le = mask_round-le c cs in
    ap (◌++◌ (mask_round c cs).0)
      (mask_loop-enough f g (mask_round c cs).1 (omega (arith, le)) (omega (arith, le)))

-- A round of mask_secrets, its fuel dropped.
pub mask_secrets-round :
    (c : ℕ) (cs : Bytes)
    → mask_secrets (c ∷ cs) ≡ (mask_round c cs).0 ++ mask_secrets (mask_round c cs).1
unfolding mask_secrets mask_loop
mask_secrets-round c cs = ap (◌++◌ (mask_round c cs).0) (
    mask_loop-enough (length cs) (length (mask_round c cs).1) (mask_round c cs).1
      (mask_round-le c cs) (omega arith))
