-- ===== src/Http/Body.antt =====
-- core/src/vc_http.cpp: when parse_response takes a body for a chunked one.
use vericonnect_agent.Http.Answer.{NoCr, status_line}
use vericonnect_agent.Http.Headers.{Field, IsField, NoColon, lookup, print_block, header_value_lem}
use vericonnect_agent.Http.{
  body_of, contains, decode_chunked, header_contains, header_value, line_value,
}
use vericonnect_agent.Prelude.Search.{iequals, istarts_with, istarts_with-append, istarts_with-take}
use vericonnect_agent.Prelude.{
  ◌or_else◌, ◌≡◌, refl, sym, ap, ◌∙◌, ◌⊎◌, inl, inr, true, false, none, some, List, [], ◌∷◌, ◌++◌,
  arith, Bytes, codes, Bool-cases, length, take, drop, take-append-drop, All,
}

abbrev pub transfer_encoding : Bytes
transfer_encoding = codes "Transfer-Encoding"

-- The word stands somewhere in the value, in any case of letters.
abbrev pub Says : Bytes → Bytes → Type 0
Says word value =
    (before found after : Bytes) × (value ≡ before ++ (found ++ after))
    × (iequals found word ≡ true)

-- The word stands nowhere in the value.
abbrev pub SaysNot : Bytes → Bytes → Type 0
SaysNot word value =
    (before found after : Bytes) → value ≡ before ++ (found ++ after) → iequals found word ≡ false

-- What is handed on of a body: its decoded bytes where the first field "Transfer-Encoding" says
-- "chunked", and else the body as it stands.
abbrev pub IsBody : List Field → Bytes → Bytes → Type 0
IsBody fs body out =
    ((v : Bytes) × (lookup transfer_encoding fs ≡ some v)
      × Says (codes "chunked") v
      × (out ≡ decode_chunked body))
    ⊎ (((v : Bytes) × (lookup transfer_encoding fs ≡ some v)
          × SaysNot (codes "chunked") v
          × (out ≡ body))
        ⊎ ((lookup transfer_encoding fs ≡ none) × (out ≡ body)))

contains-front : (text word : Bytes) → istarts_with text word ≡ true → contains text word ≡ true
unfolding contains
contains-front [] word h = h
contains-front (c ∷ text) word h = rw h refl

contains-Says :
    (word before found after : Bytes)
    → iequals found word ≡ true
    → contains (before ++ (found ++ after)) word ≡ true
unfolding contains
contains-Says word [] found after h =
    contains-front (found ++ after) word (istarts_with-append found after word h)
contains-Says word (c ∷ before) found after h =
    ground (arith, contains-Says word before found after h)

starts-SaysNot : (word text : Bytes) → SaysNot word text → istarts_with text word ≡ false
starts-SaysNot word text absent = elim (Bool-cases (istarts_with text word)) [
  | inr n ↦ n
  | inl y ↦
      let k = length word in
      let there = istarts_with-take text word y in
      let not_there = absent [] (take k text) (drop k text) (sym (take-append-drop k text)) in
      absurd (ground (arith, there, not_there))
]

contains-SaysNot : (word text : Bytes) → SaysNot word text → contains text word ≡ false
unfolding contains
contains-SaysNot word [] n = starts-SaysNot word [] n
contains-SaysNot word (c ∷ text) n =
    let later =
      contains-SaysNot word text
        (λ before found after e. n (c ∷ before) found after (ap (◌∷◌ c) e)) in
    rw (starts-SaysNot word (c ∷ text) n) later

-- The status line is not taken for a field.
no_status_line :
    (digits reason : Bytes) → line_value (status_line digits reason) transfer_encoding ≡ none
unfolding line_value istarts_with
no_status_line digits reason = refl

decided :
    (block : Bytes) (fs : List Field) (body out : Bytes)
    → header_value block transfer_encoding ≡ lookup transfer_encoding fs
    → IsBody fs body out
    → body_of block body ≡ out
unfolding header_contains
decided block fs body out e (inl b) =
    let there : contains b.0 (codes "chunked") ≡ true =
      ap (λ v. contains v (codes "chunked")) b.2.3
      ∙ contains-Says (codes "chunked") b.2.0 b.2.1 b.2.2 b.2.4 in
    rw (header_contains, e ∙ b.1, there) (sym b.3)
decided block fs body out e (inr (inl b)) =
    rw (header_contains, e ∙ b.1, contains-SaysNot (codes "chunked") b.0 b.2) (sym b.3)
decided block fs body out e (inr (inr b)) = rw (header_contains, e ∙ b.0) (sym b.1)

pub body_of-IsBody :
    (digits reason : Bytes) (fs : List Field) (body out : Bytes)
    → NoCr (status_line digits reason)
    → All IsField fs
    → IsBody fs body out
    → body_of (print_block (status_line digits reason) fs) body ≡ out
body_of-IsBody digits reason fs body out h hf b =
    decided (print_block (status_line digits reason) fs) fs body out value b
  where
    named : NoColon transfer_encoding
    named = (
      refl,
      (
        refl,
        (
          refl,
          (
            refl,
            (
              refl,
              (
                refl,
                (
                  refl,
                  (
                    refl,
                    (refl, (refl, (refl, (refl, (refl, (refl, (refl, (refl, (refl, tt))))))))),
                  ),
                ),
              ),
            ),
          ),
        ),
      ),
    )

    value :
        header_value (print_block (status_line digits reason) fs) transfer_encoding
        ≡ lookup transfer_encoding fs
    value =
        header_value_lem (status_line digits reason) fs transfer_encoding h hf named
        ∙ ap (λ o. o or_else lookup transfer_encoding fs) (no_status_line digits reason)
