-- ===== src/Log/Sanitise.antt =====
-- core/src/vc_log.cpp: sanitise, which escapes control characters, masks secrets and bounds the length.
pub mod Clean
mod Rounds
pub mod Keys
pub mod Secrets
use vericonnect_agent.Common.{to_string}
use vericonnect_agent.Prelude.Search.{istarts_with, span}
use vericonnect_agent.Prelude.{
  ℕ, zero, suc, ◌+◌, ◌-◌, ◌*◌, ◌/◌, ◌%◌, inl, inr, Bool, not, ◌&&◌, ◌||◌, Option, none, some, List,
  [], ◌∷◌, ◌++◌, arith, Bytes, codes, ltb, ◌==◌, if◌then◌else◌, tests, length, take, drop,
}

-- "%X" of a value below 16
abbrev pub upper_hex : ℕ → ℕ
upper_hex v = if ltb v 10 then v + b'0' else v - 10 + b'A'

-- A round of the loop of append_escaped.
unfoldable pub escape_char : ℕ → Bytes
escape_char u =
    if u == b'\n'
    then b'\\' ∷ b'n' ∷ []
    else if u == b'\r'
    then b'\\' ∷ b'r' ∷ []
    else if u == b'\t'
    then b'\\' ∷ b't' ∷ []
    else if ltb u 0x20 || u == 0x7F
    then b'\\' ∷ b'x' ∷ upper_hex (u / 16) ∷ upper_hex (u % 16) ∷ []
    else u ∷ []

-- append_escaped, what it appends.
unfoldable pub escaped : Bytes → Bytes
unfolding escape_char
escaped [] = []
escaped (c ∷ cs) = escape_char c ++ escaped cs

-- kSecretKeys
abbrev pub secret_keys : List Bytes
secret_keys =
    codes "sb-hc-token"
    ∷ codes "sig"
    ∷ codes "password"
    ∷ codes "accesskey"
    ∷ codes "sharedaccesssignature"
    ∷ []

-- The loop over kSecretKeys: the length of the first key that stands in front, 0 if none does.
unfoldable pub key_length : List Bytes → Bytes → ℕ
unfolding istarts_with
key_length [] rest = 0
key_length (k ∷ ks) rest =
    let others = key_length ks rest in if istarts_with rest k then length k else others

abbrev pub is_blank : ℕ → Bool
is_blank c = c == b' ' || c == b'\t'

-- What stands behind `j`, past a quote, where there is one.
abbrev pub skip_quote : Bytes → Bytes
skip_quote [] = []
skip_quote (c ∷ cs) = if c == b'"' then cs else c ∷ cs

-- What stands behind a key at its separator, and none where there is no separator: a closing quote
-- and blanks may stand between.
abbrev pub at_separator : Bytes → Option Bytes
at_separator [] = none
at_separator (c ∷ cs) = if c == b'=' || c == b':' then some cs else none

unfoldable pub after_key : Bytes → Option Bytes
unfolding span
after_key rest = at_separator (span is_blank (skip_quote rest)).1

-- The test of the loop over an unquoted value, and of that over a quoted one.
abbrev pub in_value : ℕ → Bool
in_value c = not (c == b'&') && not (c == b',') && not (c == b'}') && not (c == b' ')

abbrev pub in_quotes : ℕ → Bool
in_quotes c = not (c == b'"')

-- What is written for a value, and what is left of the text behind it.
abbrev pub mask_quoted : Bytes × Bytes → Bytes × Bytes
mask_quoted ([], []) = ([], [])
mask_quoted ([], q ∷ rest) = ([], rest)
mask_quoted (c ∷ v, []) = (codes "\"***", [])
mask_quoted (c ∷ v, q ∷ rest) = (codes "\"***\"", rest)

abbrev pub mask_plain : Bytes × Bytes → Bytes × Bytes
mask_plain ([], rest) = ([], rest)
mask_plain (c ∷ v, rest) = (codes "***", rest)

abbrev pub mask_at : Bytes → Bytes × Bytes
mask_at [] = ([], [])
mask_at (c ∷ cs) =
    if c == b'"' then mask_quoted (span in_quotes cs) else mask_plain (span in_value (c ∷ cs))

unfoldable pub mask_value : Bytes → Bytes × Bytes
unfolding span
mask_value rest = mask_at (span is_blank rest).1

-- A round of mask_secrets at the text `c ∷ cs`: what it appends, and what is left of the text.
abbrev pub mask_key : ℕ → Bytes → Option Bytes → Bytes × Bytes
mask_key c cs none = (c ∷ [], cs)
mask_key c cs (some value) =
    (take (length (c ∷ cs) - length value) (c ∷ cs) ++ (mask_value value).0, (mask_value value).1)

abbrev pub mask_found : ℕ → ℕ → Bytes → Bytes × Bytes
mask_found key_len c cs =
    if key_len == 0 then (c ∷ [], cs) else mask_key c cs (after_key (drop key_len (c ∷ cs)))

unfoldable pub mask_round : ℕ → Bytes → Bytes × Bytes
unfolding key_length after_key mask_value
mask_round c cs = mask_found (key_length secret_keys (c ∷ cs)) c cs

-- The loop of mask_secrets, on fuel for the bytes left.
unfoldable pub mask_loop : ℕ → Bytes → Bytes
unfolding mask_round
mask_loop zero text = []
mask_loop (suc fuel) [] = []
mask_loop (suc fuel) (c ∷ cs) = let (out, rest) = mask_round c cs in out ++ mask_loop fuel rest

unfoldable pub mask_secrets : Bytes → Bytes
unfolding mask_loop
mask_secrets text = mask_loop (length text) text

-- kMaxMessageBytes
abbrev pub k_max_message_bytes : ℕ
k_max_message_bytes = 8192

unfoldable pub sanitise : Bytes → Bytes
unfolding escaped mask_secrets to_string
sanitise msg =
    let out = mask_secrets (escaped msg) in
    if ltb k_max_message_bytes (length out)
    then take k_max_message_bytes out
      ++ (codes " ... [truncated "
          ++ (to_string (length out - k_max_message_bytes) ++ codes " bytes]"))
    else out
