-- ===== src/Http/Chunked.antt =====
-- decode_chunked of core/src/vc_http.cpp against the form of a chunked body.
use vericonnect_agent.Prelude.Ascii.{is_xdigit}
use vericonnect_agent.Prelude.Search.{is_prefix, span, span-append, Stops}
use vericonnect_agent.Prelude.{
  ℕ, zero, suc, ◌≤◌, ◌<◌, min, ◌≡◌, refl, sym, ap, ap₂, ◌∙◌, ◌≢◌, true, false, none, some, List, [],
  ◌∷◌, ◌++◌, append-nil, append_assoc, arith, Bytes, ◌==◌, length, take, drop, length-append,
  take-append_left, drop-append_left, All, drop-add,
}
use vericonnect_agent.Common.{parse_uint}
use vericonnect_agent.Http.{
  k_max_response_bytes, skip_crlf, copy_chunk, at_line, at_size, chunk_loop, decode_chunked,
}
use vericonnect_agent.Http.Headers.{find-crlf}

-- A chunk as it is sent: the digits of its size, what follows them on the line, and its bytes.
pub record Chunk : Type 0 where
  pub digits : Bytes
  pub extension : Bytes
  pub data_ : Bytes

abbrev pub IsSize : Bytes → Bytes → ℕ → Type 0
IsSize digits extension size =
    All (λ c. is_xdigit c ≡ true) digits
    × (parse_uint digits k_max_response_bytes 16 ≡ some size)
    × Stops is_xdigit extension
    × All (λ c. (b'\r' == c) ≡ false) extension

abbrev pub IsChunk : Chunk → Type 0
IsChunk k = IsSize k.digits k.extension (length k.data_) × (k.data_ ≢ [])

-- The bytes of chunks, each followed by a line break, in front of `rest`.
unfoldable pub print_chunks : List Chunk → Bytes → Bytes
print_chunks [] rest = rest
print_chunks (k ∷ ks) rest =
    k.digits ++ (k.extension ++ b'\r' ∷ b'\n' ∷ (k.data_ ++ b'\r' ∷ b'\n' ∷ print_chunks ks rest))

unfoldable pub contents : List Chunk → Bytes
contents [] = []
contents (k ∷ ks) = k.data_ ++ contents ks

chunk_loop-step :
    (fuel : ℕ) (p out : Bytes)
    → p ≢ []
    → chunk_loop (suc fuel) p out
      ≡ at_size
          (parse_uint (span is_xdigit p).0 k_max_response_bytes 16)
          (span is_xdigit p).1
          out
          (chunk_loop fuel)
unfolding chunk_loop
chunk_loop-step fuel [] out h = absurd (h refl)
chunk_loop-step fuel (c ∷ cs) out h = refl

parse_uint-nil : (max base : ℕ) → parse_uint [] max base ≡ none
unfolding parse_uint
parse_uint-nil max base = refl

digits-ne-nil :
    (digits rest : Bytes) (size : ℕ)
    → parse_uint digits k_max_response_bytes 16 ≡ some size
    → digits ++ rest ≢ []
digits-ne-nil [] rest size h = absurd (ground (arith, parse_uint-nil k_max_response_bytes 16, h))
digits-ne-nil (c ∷ digits) rest size h = λ k. cc

Stops-line :
    (extension rest : Bytes)
    → Stops is_xdigit extension
    → Stops is_xdigit (extension ++ b'\r' ∷ b'\n' ∷ rest)
Stops-line [] rest h = refl
Stops-line (c ∷ extension) rest h = h

-- One round of the loop, at a size line.
chunk_round :
    (fuel size : ℕ) (digits extension rest out : Bytes)
    → IsSize digits extension size
    → chunk_loop (suc fuel) (digits ++ (extension ++ b'\r' ∷ b'\n' ∷ rest)) out
      ≡ copy_chunk size rest out (chunk_loop fuel)
chunk_round fuel size digits extension rest out h =
    let line = extension ++ b'\r' ∷ b'\n' ∷ rest in
    chunk_loop-step fuel (digits ++ line) out (digits-ne-nil digits line size h.1)
    ∙ ap (λ p. at_size (parse_uint p.0 k_max_response_bytes 16) p.1 out (chunk_loop fuel))
        (span-append is_xdigit digits line h.0 (Stops-line extension rest h.2))
    ∙ ap (λ o. at_size o line out (chunk_loop fuel)) h.1
    ∙ ap (λ o. at_line size o line out (chunk_loop fuel)) (find-crlf extension rest h.3)
    ∙ ap (λ t. copy_chunk size t out (chunk_loop fuel))
        (drop-add (length extension) 2 line
          ∙ ap (drop 2) (drop-append_left extension (b'\r' ∷ b'\n' ∷ rest)))

skipped : (rest : Bytes) → skip_crlf (b'\r' ∷ b'\n' ∷ rest) ≡ rest
unfolding is_prefix
skipped rest = refl

copy_whole :
    (fuel : ℕ) (data_ rest out : Bytes)
    → data_ ≢ []
    → copy_chunk (length data_) (data_ ++ b'\r' ∷ b'\n' ∷ rest) out (chunk_loop fuel)
      ≡ chunk_loop fuel rest (out ++ data_)
copy_whole fuel [] rest out h = absurd (h refl)
copy_whole fuel (b ∷ bs) rest out h =
    rw (copy_chunk, full) refl
    ∙ ap (λ k. chunk_loop fuel (skip_crlf (drop k all)) (out ++ take k all)) whole
    ∙ ap₂ (λ p t. chunk_loop fuel (skip_crlf p) (out ++ t))
        (drop-append_left (b ∷ bs) (b'\r' ∷ b'\n' ∷ rest))
        (take-append_left (b ∷ bs) (b'\r' ∷ b'\n' ∷ rest))
    ∙ ap (λ p. chunk_loop fuel p (out ++ b ∷ bs)) (skipped rest)
  where
    all : Bytes
    all = (b ∷ bs) ++ b'\r' ∷ b'\n' ∷ rest

    full : (length (b ∷ bs) == 0) ≡ false
    full = ground arith

    whole : min (length (b ∷ bs)) (length all) ≡ length (b ∷ bs)
    whole = omega (arith, length-append (b ∷ bs) (b'\r' ∷ b'\n' ∷ rest))

longer :
    (a b c rest : Bytes)
    → length rest < length (a ++ (b ++ b'\r' ∷ b'\n' ∷ (c ++ b'\r' ∷ b'\n' ∷ rest)))
longer a b c rest = omega (
  arith,
  length-append a (b ++ b'\r' ∷ b'\n' ∷ (c ++ b'\r' ∷ b'\n' ∷ rest)),
  length-append b (b'\r' ∷ b'\n' ∷ (c ++ b'\r' ∷ b'\n' ∷ rest)),
  length-append c (b'\r' ∷ b'\n' ∷ rest),
)

chunk_loop-chunks :
    (fuel : ℕ) (ks : List Chunk) (digits extension trailer out : Bytes)
    → All IsChunk ks
    → IsSize digits extension 0
    → length (print_chunks ks (digits ++ (extension ++ b'\r' ∷ b'\n' ∷ trailer))) ≤ fuel
    → chunk_loop fuel (print_chunks ks (digits ++ (extension ++ b'\r' ∷ b'\n' ∷ trailer))) out
      ≡ out ++ contents ks
unfolding print_chunks contents
chunk_loop-chunks zero [] digits extension trailer out h z enough = absurd (
    omega (
      arith,
      length-append digits (extension ++ b'\r' ∷ b'\n' ∷ trailer),
      length-append extension (b'\r' ∷ b'\n' ∷ trailer),
      enough,
    ))
chunk_loop-chunks (suc fuel) [] digits extension trailer out h z enough =
    chunk_round fuel 0 digits extension trailer out z ∙ sym (append-nil out)
chunk_loop-chunks zero (k ∷ ks) digits extension trailer out h z enough = absurd (
    omega (
      arith,
      longer k.digits k.extension k.data_
          (print_chunks ks (digits ++ (extension ++ b'\r' ∷ b'\n' ∷ trailer))),
      enough,
    ))
chunk_loop-chunks (suc fuel) (k ∷ ks) digits extension trailer out h z enough =
    let rest = print_chunks ks (digits ++ (extension ++ b'\r' ∷ b'\n' ∷ trailer)) in
    chunk_round fuel (length k.data_) k.digits k.extension (k.data_ ++ b'\r' ∷ b'\n' ∷ rest) out
      h.0.0
    ∙ copy_whole fuel k.data_ rest out h.0.1
    ∙ chunk_loop-chunks fuel ks digits extension trailer (out ++ k.data_) h.1 z
        (omega (arith, longer k.digits k.extension k.data_ rest, enough))
    ∙ append_assoc out k.data_ (contents ks)

-- A chunked body in its standard form, chunks that are not empty, then a chunk of size 0 and any
-- trailer, with sizes in any spelling that reads as a number of at most 64 MB and with any
-- extensions, decodes to the bytes of its chunks.
pub decode_chunked_lem :
    (ks : List Chunk) (digits extension trailer : Bytes)
    → All IsChunk ks
    → IsSize digits extension 0
    → decode_chunked (print_chunks ks (digits ++ (extension ++ b'\r' ∷ b'\n' ∷ trailer)))
      ≡ contents ks
unfolding decode_chunked
decode_chunked_lem ks digits extension trailer h z =
    let body = print_chunks ks (digits ++ (extension ++ b'\r' ∷ b'\n' ∷ trailer)) in
    chunk_loop-chunks (length body) ks digits extension trailer [] h z (omega arith)
