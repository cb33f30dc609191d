-- ===== src/Http/Fuel.antt =====
-- decode_chunked of core/src/vc_http.cpp: its loop ends within as many rounds as the body has bytes.
use vericonnect_agent.Common.{parse_uint}
use vericonnect_agent.Http.{
  crlf, k_max_response_bytes, skip_crlf, copy_chunk, at_line, at_size, chunk_loop,
}
use vericonnect_agent.Prelude.Ascii.{is_xdigit}
use vericonnect_agent.Prelude.Search.{find, find-le, is_prefix, span, span_parts}
use vericonnect_agent.Prelude.{
  ℕ, zero, suc, ◌+◌, ◌≤◌, ◌<◌, min, ◌≡◌, refl, ap, inl, inr, Option, none, some, [], ◌∷◌, ◌++◌,
  arith, Bytes, ◌==◌, Bool-cases, length, take, drop, length-append, length-drop,
}

-- Two continuations that agree on texts shorter than `p`.
abbrev Agree : Bytes → (Bytes → Bytes → Bytes) → (Bytes → Bytes → Bytes) → Type 0
Agree p f g = (t out : Bytes) → length t < length p → f t out ≡ g t out

skip_crlf-le : (p : Bytes) → length (skip_crlf p) ≤ length p
skip_crlf-le p = elim (Bool-cases (is_prefix crlf p)) [
  | inl here ↦ rw (skip_crlf, here) (omega (arith, length-drop 2 p))
  | inr away ↦ rw (skip_crlf, away) (omega arith)
]

copy_chunk-Agree :
    (chunk : ℕ) (p q out : Bytes) (f g : Bytes → Bytes → Bytes)
    → length q < length p
    → Agree p f g
    → copy_chunk chunk q out f ≡ copy_chunk chunk q out g
copy_chunk-Agree chunk p q out f g shorter agree = elim (Bool-cases (chunk == 0)) [
  | inl last ↦ rw (copy_chunk, last) refl
  | inr more ↦
      let k = min chunk (length q) in
      rw (copy_chunk, more)
        (agree (skip_crlf (drop k q)) (out ++ take k q)
          (omega (arith, skip_crlf-le (drop k q), length-drop k q, shorter)))
]

at_line-Agree :
    (chunk : ℕ) (p out : Bytes) (f g : Bytes → Bytes → Bytes) (o : Option ℕ)
    → find crlf p ≡ o
    → Agree p f g
    → at_line chunk o p out f ≡ at_line chunk o p out g
at_line-Agree chunk p out f g none h agree = refl
at_line-Agree chunk p out f g (some at) h agree =
    copy_chunk-Agree chunk p (drop (at + 2) p) out f g
      (omega (arith, find-le crlf p at h, length-drop (at + 2) p)) agree

at_size-Agree :
    (o : Option ℕ) (p out : Bytes) (f g : Bytes → Bytes → Bytes)
    → Agree p f g
    → at_size o p out f ≡ at_size o p out g
at_size-Agree none p out f g agree = refl
at_size-Agree (some chunk) p out f g agree = at_line-Agree chunk p out f g (find crlf p) refl agree

-- From one round for each byte on, more fuel changes nothing: the loop of decode_chunked has ended.
pub chunk_loop_fuel :
    (fuel more : ℕ) (p out : Bytes)
    → length p ≤ fuel
    → length p ≤ more
    → chunk_loop fuel p out ≡ chunk_loop more p out
unfolding chunk_loop
chunk_loop_fuel zero zero p out h k = refl
chunk_loop_fuel zero (suc more) [] out h k = refl
chunk_loop_fuel zero (suc more) (c ∷ cs) out h k = absurd (omega arith)
chunk_loop_fuel (suc fuel) zero [] out h k = refl
chunk_loop_fuel (suc fuel) zero (c ∷ cs) out h k = absurd (omega arith)
chunk_loop_fuel (suc fuel) (suc more) [] out h k = refl
chunk_loop_fuel (suc fuel) (suc more) (c ∷ cs) out h k =
    let digits = span is_xdigit (c ∷ cs) in
    let parts = ap length (span_parts is_xdigit (c ∷ cs)) in
    at_size-Agree (parse_uint digits.0 k_max_response_bytes 16) digits.1 out _ _ (λ t out' shorter.
      chunk_loop_fuel fuel more t out'
        (omega (arith, parts, length-append digits.0 digits.1, shorter))
        (omega (arith, parts, length-append digits.0 digits.1, shorter)))
