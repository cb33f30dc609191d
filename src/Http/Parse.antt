-- ===== src/Http/Parse.antt =====
-- parse_response, the end of exchange in core/src/vc_http.cpp: the parts of a well-formed answer.
use vericonnect_agent.Common.{ok, parse_uint}
use vericonnect_agent.Http.Answer.{
  NoCr, status_line, answer, tail, find_block, block-front, at_code, length-status_line,
  parse_steps, text_steps, behind_line, NoSpace-digits, status_line-NoCr,
}
use vericonnect_agent.Http.Body.{IsBody, body_of-IsBody}
use vericonnect_agent.Http.Headers.{Field, IsField, print_block, find-crlf}
use vericonnect_agent.Http.{blank_line, crlf, body_of, parse_response, status_text_of}
use vericonnect_agent.Prelude.Ascii.{is_digit}
use vericonnect_agent.Prelude.Search.{find, find_byte, is_prefix, istarts_with, span, span-append}
use vericonnect_agent.Prelude.{
  ℕ, ◌+◌, ◌≤◌, ◌≡◌, refl, sym, ap, ◌∙◌, true, some, List, [], ◌∷◌, ◌++◌, arith, Bytes, codes,
  length, take, drop, take-append_left, drop-append_left, All, drop-add,
}

module _ (digits reason : Bytes) (t : Bytes) where
  text : Bytes
  text = codes "HTTP/1.1 " ++ (digits ++ b' ' ∷ (reason ++ t))

  text-version : istarts_with text (codes "HTTP/") ≡ true
  unfolding text istarts_with
  text-version = refl

  text-space : find (b' ' ∷ []) text ≡ some 8
  unfolding text find is_prefix
  text-space = refl

  text-digits : All (λ c. is_digit c ≡ true) digits → (span is_digit (drop (8 + 1) text)).0 ≡ digits
  unfolding text
  text-digits h = ap (λ p. p.0) (span-append is_digit digits (b' ' ∷ (reason ++ t)) h refl)

  text-second_space :
      All (λ c. is_digit c ≡ true) digits
      → find (b' ' ∷ []) (drop (8 + 1) text) ≡ some (length digits)
  unfolding text
  text-second_space h = find_byte b' ' digits (reason ++ t) (NoSpace-digits digits h)

  text-reason : take (length reason) (drop (8 + 1 + length digits + 1) text) ≡ reason
  unfolding text
  text-reason =
      ap (λ k. take (length reason) (drop k text)) shift
      ∙ ap (take (length reason)) (
          drop-add 9 (length digits + 1) text
          ∙ drop-add (length digits) 1 (digits ++ b' ' ∷ (reason ++ t))
          ∙ ap (drop 1) (drop-append_left digits (b' ' ∷ (reason ++ t))))
      ∙ take-append_left reason t
    where
      shift : 8 + 1 + length digits + 1 ≡ 9 + (length digits + 1)
      shift = omega arith

answer-text :
    (digits reason : Bytes) (fs : List Field) (body : Bytes)
    → answer digits reason fs body ≡ text digits reason (tail fs ++ (blank_line ++ body))
unfolding text
answer-text digits reason fs body =
    block-front (status_line digits reason) fs (blank_line ++ body)
    ∙ at_code digits reason (tail fs ++ (blank_line ++ body))

-- The status text of an answer.
text_of_answer :
    (digits reason : Bytes) (fs : List Field) (body : Bytes)
    → All (λ c. is_digit c ≡ true) digits
    → NoCr reason
    → status_text_of (answer digits reason fs body) 8 ≡ reason
text_of_answer digits reason fs body h k =
    ap (λ s. status_text_of s 8) same
    ∙ text_steps (text digits reason t) 8 (length digits) (length line)
        (text-second_space digits reason t h)
        (ap (find crlf) (sym same ∙ front ∙ ap (◌++◌ line) broken)
          ∙ find-crlf line more (status_line-NoCr digits reason h k))
        (omega (arith, length-status_line digits reason))
    ∙ ap (λ n. take n (drop (8 + 1 + length digits + 1) (text digits reason t)))
        (omega (arith, length-status_line digits reason))
    ∙ text-reason digits reason t
  where
    line : Bytes
    line = status_line digits reason

    t : Bytes
    t = tail fs ++ (blank_line ++ body)

    front : answer digits reason fs body ≡ line ++ t
    front = block-front line fs (blank_line ++ body)

    same : answer digits reason fs body ≡ text digits reason t
    same = answer-text digits reason fs body

    more : Bytes
    more = (behind_line fs body).0

    broken : t ≡ b'\r' ∷ b'\n' ∷ more
    broken = (behind_line fs body).1

-- The parts of the answer, its body as the program sees it.
parse_response_parts :
    (digits reason : Bytes) (fs : List Field) (body : Bytes) (code : ℕ)
    → All (λ c. is_digit c ≡ true) digits
    → parse_uint digits 599 10 ≡ some code
    → 100 ≤ code
    → NoCr reason
    → All IsField fs
    → parse_response (answer digits reason fs body)
      ≡ ok (record {
        status = code;
        status_text = reason;
        headers = print_block (status_line digits reason) fs;
        body = body_of (print_block (status_line digits reason) fs) body;
      })
parse_response_parts digits reason fs body code h parsed low k hf =
    parse_steps (answer digits reason fs body) (length block) 8 code
      (find_block line fs body (status_line-NoCr digits reason h k) hf)
      (ap (λ s. istarts_with s (codes "HTTP/")) same ∙ text-version digits reason t)
      (ap (find (b' ' ∷ [])) same ∙ text-space digits reason t)
      (ap (λ s. parse_uint (span is_digit (drop (8 + 1) s)).0 599 10) same
        ∙ ap (λ s. parse_uint s 599 10) (text-digits digits reason t h)
        ∙ parsed)
      low
    ∙ ap ok (
        rw
          (
            text_of_answer digits reason fs body h k,
            take-append_left block (blank_line ++ body),
            drop-add (length block) 4 (answer digits reason fs body),
            drop-append_left block (blank_line ++ body),
          )
          refl)
  where
    line : Bytes
    line = status_line digits reason

    block : Bytes
    block = print_block line fs

    t : Bytes
    t = tail fs ++ (blank_line ++ body)

    same : answer digits reason fs body ≡ text digits reason t
    same = answer-text digits reason fs body

-- A well-formed answer, with a status from 100 to 599 in digits that read as it, a reason and
-- fields, is taken apart into that status, that reason, its header block, and its body: decoded as
-- chunks where the first field "Transfer-Encoding", its name in any case of letters, says "chunked"
-- somewhere in its value, in any case, and else as it stands.
pub parse_response_lem :
    (digits reason : Bytes) (fs : List Field) (body out : Bytes) (code : ℕ)
    → All (λ c. is_digit c ≡ true) digits
    → parse_uint digits 599 10 ≡ some code
    → 100 ≤ code
    → NoCr reason
    → All IsField fs
    → IsBody fs body out
    → parse_response (answer digits reason fs body)
      ≡ ok (record {
        status = code;
        status_text = reason;
        headers = print_block (status_line digits reason) fs;
        body = out;
      })
parse_response_lem digits reason fs body out code h parsed low k hf b =
    parse_response_parts digits reason fs body code h parsed low k hf
    ∙ ap
        (λ x. ok (record {
          status = code;
          status_text = reason;
          headers = print_block (status_line digits reason) fs;
          body = x;
        }))
        (body_of-IsBody digits reason fs body out (status_line-NoCr digits reason h k) hf b)
