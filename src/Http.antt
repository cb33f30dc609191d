-- ===== src/Http.antt =====
-- core/include/vc/vc_http.h and core/src/vc_http.cpp: one HTTP request and its answer over a
-- transport. The reading of the answer is in Exchange, its parts are here.
pub mod Exchange
mod Headers
mod Chunked
mod Fuel
mod Answer
mod Body
mod Parse
mod Reads
mod Returns
mod Tests
use vericonnect_agent.Prelude.Ascii.{is_digit, is_xdigit}
use vericonnect_agent.Prelude.Search.{find, is_prefix, istarts_with, span}
use vericonnect_agent.Common.{Result, err, ok, error, protocol, parse_uint, to_string}
use vericonnect_agent.Prelude.{
  ◌or_else◌, ℕ, zero, suc, ◌+◌, ◌-◌, ◌*◌, ◌/◌, min, inl, inr, Bool, true, false, not, ◌&&◌, ◌||◌,
  Option, none, some, [], ◌∷◌, ◌++◌, arith, Bytes, codes, ltb, leb, ◌==◌, if◌then◌else◌, tests,
  length, get_or, take, drop, is_nil,
}

-- kMaxResponseBytes
abbrev pub k_max_response_bytes : ℕ
k_max_response_bytes = 64 * 1024 * 1024

abbrev pub crlf : Bytes
crlf = b'\r' ∷ b'\n' ∷ []

abbrev pub blank_line : Bytes
blank_line = b'\r' ∷ b'\n' ∷ b'\r' ∷ b'\n' ∷ []

-- struct Response
pub record Response : Type 0 where
  pub status : ℕ
  pub status_text : Bytes
  pub headers : Bytes
  pub body : Bytes

-- struct Request; host and port are what the caller dials.
pub record Request : Type 0 where
  pub method : Bytes
  pub host : Bytes
  pub path_and_query : Bytes
  pub extra_headers : Bytes
  pub body : Bytes
  pub content_type : Bytes
  pub timeout_ms : ℕ

abbrev pub is_blank : ℕ → Bool
is_blank c = c == b' ' || c == b'\t'

-- The test of a line for the header `name`, and its value.
unfoldable pub line_value : Bytes → Bytes → Option Bytes
unfolding istarts_with span
line_value line name =
    if istarts_with line name
      && ltb (length name) (length line)
      && get_or line (length name) 0 == b':'
    then some (span is_blank (drop (length name + 1) line)).1
    else none

-- A round of the loop of header_value at the text `text`, whose first line break is given.
abbrev pub header_round : Option ℕ → Bytes → Bytes → (Bytes → Option Bytes) → Option Bytes
header_round none text name loop = line_value text name
header_round (some eol) text name loop =
    line_value (take eol text) name or_else loop (drop (eol + 2) text)

-- The loop of header_value over what is left of the block, on fuel for its bytes.
unfoldable pub header_loop : ℕ → Bytes → Bytes → Option Bytes
header_loop zero headers name = none
header_loop (suc fuel) [] name = none
header_loop (suc fuel) (c ∷ cs) name =
    header_round (find crlf (c ∷ cs)) (c ∷ cs) name (λ rest. header_loop fuel rest name)

unfoldable pub header_value : Bytes → Bytes → Option Bytes
unfolding header_loop
header_value headers name = header_loop (length headers) headers name

-- The loop of header_contains over the places in the value.
unfoldable pub contains : Bytes → Bytes → Bool
contains [] needle = istarts_with [] needle
contains (c ∷ cs) needle = istarts_with (c ∷ cs) needle || contains cs needle

unfoldable pub header_contains : Bytes → Bytes → Bytes → Bool
unfolding header_value contains
header_contains headers name needle = elim (header_value headers name) [
  | none ↦ false
  | some v ↦ contains v needle
]

-- The line break behind a chunk.
abbrev pub skip_crlf : Bytes → Bytes
skip_crlf p = if is_prefix crlf p then drop 2 p else p

-- The bytes of a chunk, from `p` on, and the next round; a chunk of size 0 ends the loop.
abbrev pub copy_chunk : ℕ → Bytes → Bytes → (Bytes → Bytes → Bytes) → Bytes
copy_chunk chunk p out loop = elim (chunk == 0) [
  | true ↦ out
  | false ↦ let k = min chunk (length p) in loop (skip_crlf (drop k p)) (out ++ take k p)
]

-- With the size read: the end of its line is looked for.
abbrev pub at_line : ℕ → Option ℕ → Bytes → Bytes → (Bytes → Bytes → Bytes) → Bytes
at_line chunk none p out loop = out
at_line chunk (some at) p out loop = copy_chunk chunk (drop (at + 2) p) out loop

abbrev pub at_size : Option ℕ → Bytes → Bytes → (Bytes → Bytes → Bytes) → Bytes
at_size none p out loop = out
at_size (some chunk) p out loop = at_line chunk (find crlf p) p out loop

-- The loop of decode_chunked over what is left of the body, on fuel for its bytes.
unfoldable pub chunk_loop : ℕ → Bytes → Bytes → Bytes
chunk_loop zero p out = out
chunk_loop (suc fuel) [] out = out
chunk_loop (suc fuel) (c ∷ cs) out =
    let digits = span is_xdigit (c ∷ cs) in
    at_size (parse_uint digits.0 k_max_response_bytes 16) digits.1 out
      (λ p out'. chunk_loop fuel p out')

unfoldable pub decode_chunked : Bytes → Bytes
unfolding chunk_loop
decode_chunked body = chunk_loop (length body) body []

abbrev pub content_length : Bytes
content_length = codes "Content-Length"

abbrev pub is_chunked : Bytes → Bool
is_chunked head = header_contains head (codes "Transfer-Encoding") (codes "chunked")

-- The test that ends the reading: a Content-Length that is there, readable and satisfied.
unfoldable pub has_all : Bytes → Bool
unfolding find header_value header_contains parse_uint
has_all in_ = elim (find blank_line in_) [
  | none ↦ false
  | some he ↦ elim (header_value (take he in_) content_length) [
    | none ↦ false
    | some cl ↦
        if is_chunked (take he in_) then false else elim (parse_uint cl k_max_response_bytes 10) [
          | none ↦ false
          | some len ↦ leb (he + 4 + len) (length in_)
        ]
  ]
]

-- The text between the code and the end of the status line.
unfoldable pub status_text_of : Bytes → ℕ → Bytes
unfolding find
status_text_of in_ sp = elim (find (b' ' ∷ []) (drop (sp + 1) in_)) [
  | none ↦ []
  | some j ↦ elim (find crlf in_) [
    | none ↦ []
    | some eol ↦
        let sp2 = sp + 1 + j in
        if ltb sp2 eol then take (eol - sp2 - 1) (drop (sp2 + 1) in_) else []
  ]
]

abbrev pub body_of : Bytes → Bytes → Bytes
body_of head rest = if is_chunked head then decode_chunked rest else rest

-- What exchange makes of all that it has read.
unfoldable pub parse_response : Bytes → Result Response
unfolding find istarts_with span parse_uint header_contains status_text_of decode_chunked
parse_response in_ = elim (find blank_line in_) [
  | none ↦ err (error protocol)
  | some he ↦
      if not (istarts_with in_ (codes "HTTP/"))
      then err (error protocol)
      else elim (find (b' ' ∷ []) in_) [
        | none ↦ err (error protocol)
        | some sp ↦ elim (parse_uint (span is_digit (drop (sp + 1) in_)).0 599 10) [
          | none ↦ err (error protocol)
          | some code ↦
              if ltb code 100
              then err (error protocol)
              else ok (record {
                status = code;
                status_text = status_text_of in_ sp;
                headers = take he in_;
                body = body_of (take he in_) (drop (he + 4) in_);
              })
        ]
      ]
]

-- The request line and the headers.
unfoldable pub request_head : Request → Bytes
unfolding to_string
request_head req =
    req.method
    ++ codes " "
    ++ req.path_and_query
    ++ codes " HTTP/1.1"
    ++ crlf
    ++ codes "Host: "
    ++ req.host
    ++ crlf
    ++ (if is_nil req.body
        then []
        else content_length
          ++ codes ": "
          ++ to_string (length req.body)
          ++ crlf
          ++ codes "Content-Type: "
          ++ (if is_nil req.content_type then codes "application/json" else req.content_type)
          ++ crlf)
    ++ req.extra_headers
    ++ codes "Connection: close"
    ++ blank_line
