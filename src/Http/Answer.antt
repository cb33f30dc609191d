-- ===== src/Http/Answer.antt =====
-- parse_response, the end of exchange in core/src/vc_http.cpp, on a well-formed answer.
use vericonnect_agent.Common.{ok, parse_uint}
use vericonnect_agent.Http.Headers.{Field, IsField, field_line, print_block, field_line-NoCr}
use vericonnect_agent.Http.{blank_line, crlf, body_of, parse_response, status_text_of}
use vericonnect_agent.Prelude.Ascii.{is_digit}
use vericonnect_agent.Prelude.Search.{find, is_prefix, istarts_with, span}
use vericonnect_agent.Prelude.{
  ℕ, ◌+◌, ◌-◌, ◌≤◌, ◌<◌, ◌≡◌, refl, sym, ap, ◌∙◌, ◌≢◌, true, false, some, List, [], ◌∷◌, ◌++◌,
  append-nil, append_assoc, arith, Bytes, codes, ◌==◌, lt→ltb, ltb-false, length, take, drop,
  length-append, All, All-append,
}

abbrev pub NoCr : Bytes → Type 0
NoCr s = All (λ c. (b'\r' == c) ≡ false) s

-- The status line of an answer.
abbrev pub status_line : Bytes → Bytes → Bytes
status_line digits reason = codes "HTTP/1.1 " ++ digits ++ b' ' ∷ reason

-- An answer on the wire: its status line, its fields, a blank line and its body.
abbrev pub answer : Bytes → Bytes → List Field → Bytes → Bytes
answer digits reason fs body = print_block (status_line digits reason) fs ++ (blank_line ++ body)

-- A line is passed over in the search for the blank line.
past_line :
    (l t : Bytes) (j : ℕ)
    → NoCr l
    → find blank_line t ≡ some j
    → find blank_line (l ++ t) ≡ some (length l + j)
unfolding find is_prefix
past_line [] t j h k = k ∙ ap some (omega arith)
past_line (c ∷ l) t j h k = rw (h.0, past_line l t j h.1 k) (ap some (omega arith))

past_break :
    (c : ℕ) (t : Bytes) (j : ℕ)
    → (b'\r' == c) ≡ false
    → find blank_line (c ∷ t) ≡ some j
    → find blank_line (b'\r' ∷ b'\n' ∷ c ∷ t) ≡ some (2 + j)
unfolding find is_prefix
past_break c t j h k = ground (arith, h, k)

at_blank : (rest : Bytes) → find blank_line (blank_line ++ rest) ≡ some 0
unfolding find is_prefix
at_blank rest = refl

break-line :
    (l t : Bytes) (j : ℕ)
    → NoCr l
    → l ≢ []
    → find blank_line (l ++ t) ≡ some j
    → find blank_line (b'\r' ∷ b'\n' ∷ (l ++ t)) ≡ some (2 + j)
break-line [] t j h full k = absurd (full refl)
break-line (c ∷ l) t j h full k = past_break c (l ++ t) j h.0 k

field_line-ne-nil : (f : Field) → field_line f ≢ []
field_line-ne-nil f h =
    ground (arith, ap length h, length-append f.name (b':' ∷ (f.blanks ++ f.value)))

-- What stands behind the first line of a block.
abbrev pub tail : List Field → Bytes
tail [] = []
tail (f ∷ fs) = b'\r' ∷ b'\n' ∷ print_block (field_line f) fs

print_block-tail : (l : Bytes) (fs : List Field) → print_block l fs ≡ l ++ tail fs
unfolding print_block
print_block-tail l [] = sym (append-nil l)
print_block-tail l (f ∷ fs) = refl

pub block-front :
    (l : Bytes) (fs : List Field) (t : Bytes) → print_block l fs ++ t ≡ l ++ (tail fs ++ t)
block-front l fs t = ap (λ b. b ++ t) (print_block-tail l fs) ∙ append_assoc l (tail fs) t

-- The search finds the end of the header block.
pub find_block :
    (l : Bytes) (fs : List Field) (rest : Bytes)
    → NoCr l
    → All IsField fs
    → find blank_line (print_block l fs ++ (blank_line ++ rest)) ≡ some (length (print_block l fs))
unfolding print_block
find_block l [] rest h hf =
    past_line l (blank_line ++ rest) 0 h (at_blank rest) ∙ ap some (omega arith)
find_block l (f ∷ fs) rest h hf =
    let line = field_line f in
    let block = print_block line fs in
    let inner = find_block line fs rest (field_line-NoCr f hf.0) hf.1 in
    ap (find blank_line) (append_assoc l (b'\r' ∷ b'\n' ∷ block) (blank_line ++ rest))
    ∙ past_line l _ (2 + length block) h (
        ap (λ t. find blank_line (b'\r' ∷ b'\n' ∷ t)) (block-front line fs (blank_line ++ rest))
        ∙ break-line line (tail fs ++ (blank_line ++ rest)) (length block) (field_line-NoCr f hf.0)
            (field_line-ne-nil f)
            (ap (find blank_line) (sym (block-front line fs (blank_line ++ rest))) ∙ inner))
    ∙ ap some (omega (arith, length-append l (b'\r' ∷ b'\n' ∷ block)))

-- The text of an answer cut at its first space.
pub at_code :
    (digits reason t : Bytes)
    → status_line digits reason ++ t ≡ codes "HTTP/1.1 " ++ (digits ++ b' ' ∷ (reason ++ t))
at_code digits reason t = ap (◌++◌ (codes "HTTP/1.1 ")) (append_assoc digits (b' ' ∷ reason) t)

pub length-status_line :
    (digits reason : Bytes)
    → length (status_line digits reason) ≡ 10 + length digits + length reason
length-status_line digits reason = omega (arith, length-append digits (b' ' ∷ reason))

-- The steps of parse_response where each of them succeeds.
pub parse_steps :
    (in_ : Bytes) (he sp code : ℕ)
    → find blank_line in_ ≡ some he
    → istarts_with in_ (codes "HTTP/") ≡ true
    → find (b' ' ∷ []) in_ ≡ some sp
    → parse_uint (span is_digit (drop (sp + 1) in_)).0 599 10 ≡ some code
    → 100 ≤ code
    → parse_response in_
      ≡ ok (record {
        status = code;
        status_text = status_text_of in_ sp;
        headers = take he in_;
        body = body_of (take he in_) (drop (he + 4) in_);
      })
unfolding parse_response
parse_steps in_ he sp code h1 h2 h3 h4 h5 =
    rw (parse_response, h1, h2, h3, h4, ltb-false code 100 h5) refl

pub text_steps :
    (in_ : Bytes) (sp j eol : ℕ)
    → find (b' ' ∷ []) (drop (sp + 1) in_) ≡ some j
    → find crlf in_ ≡ some eol
    → sp + 1 + j < eol
    → status_text_of in_ sp ≡ take (eol - (sp + 1 + j) - 1) (drop (sp + 1 + j + 1) in_)
unfolding status_text_of
text_steps in_ sp j eol h1 h2 h3 = rw (status_text_of, h1, h2, lt→ltb (sp + 1 + j) eol h3) refl

-- Behind the status line there is a line break.
pub behind_line :
    (fs : List Field) (body : Bytes)
    → (more : Bytes) × (tail fs ++ (blank_line ++ body) ≡ b'\r' ∷ b'\n' ∷ more)
behind_line [] body = (b'\r' ∷ b'\n' ∷ body, refl)
behind_line (f ∷ fs) body = (print_block (field_line f) fs ++ (blank_line ++ body), refl)

pub NoSpace-digits : (s : Bytes) → All (λ c. is_digit c ≡ true) s → All (λ c. (b' ' == c) ≡ false) s
NoSpace-digits [] h = tt
NoSpace-digits (c ∷ s) h = (ground (arith, h.0), NoSpace-digits s h.1)

NoCr-digits : (s : Bytes) → All (λ c. is_digit c ≡ true) s → NoCr s
NoCr-digits [] h = tt
NoCr-digits (c ∷ s) h = (ground (arith, h.0), NoCr-digits s h.1)

pub status_line-NoCr :
    (digits reason : Bytes)
    → All (λ c. is_digit c ≡ true) digits
    → NoCr reason
    → NoCr (status_line digits reason)
status_line-NoCr digits reason h k =
    All-append (λ c. (b'\r' == c) ≡ false) (codes "HTTP/1.1 ") (digits ++ b' ' ∷ reason)
      (refl, (refl, (refl, (refl, (refl, (refl, (refl, (refl, (refl, tt)))))))))
      (All-append (λ c. (b'\r' == c) ≡ false) digits (b' ' ∷ reason) (NoCr-digits digits h)
        (refl, k))
