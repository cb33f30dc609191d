-- ===== src/Url/Parts.antt =====
-- core/src/vc_url.cpp: the parts of a URL that is written out, with a port, a path and a query or
-- without.
use vericonnect_agent.Common.Decimal.{to_string-AllDigits}
use vericonnect_agent.Common.ParseUint.{parse_uint-to_string}
use vericonnect_agent.Common.{ok, to_string}
use vericonnect_agent.Prelude.Lists.{drop-add}
use vericonnect_agent.Prelude.Search.{find, find-append, iequals, span-append, Stops}
use vericonnect_agent.Url.RoundTrip.{digits_in_port, url_parse_at}
use vericonnect_agent.Url.WellFormed.{IsPath}
use vericonnect_agent.Url.{
  Url, in_host, in_port, in_path, default_port, port_part, path_part, query_part, parse_after_host,
  parse_after_scheme, url_parse,
}
use vericonnect_agent.Prelude.{
  ℕ, ◌+◌, ◌≤◌, ◌<◌, ◌≡◌, refl, ap, ap₂, ◌∙◌, true, false, ◌||◌, Option, none, some, [], ◌∷◌, ◌++◌,
  append_assoc, arith, Bytes, codes, ◌==◌, if◌then◌else◌, length, take, drop, is_nil,
  take-append_left, drop-append_left, All, drop-add,
}

-- The text of a port, a query; none is not written.
abbrev pub port_text : Option ℕ → Bytes
port_text none = []
port_text (some p) = b':' ∷ to_string p

abbrev pub query_text : Option Bytes → Bytes
query_text none = []
query_text (some q) = b'?' ∷ q

-- A port that can be written.
abbrev pub IsPort : Option ℕ → Type 0
IsPort none = Unit {0}
IsPort (some p) = (0 < p) × (p ≤ 65535)

-- What stands for a part that is not written.
abbrev pub port_or_default : Bytes → Option ℕ → ℕ
port_or_default scheme (some p) = p
port_or_default scheme none =
    if iequals scheme (codes "https") || iequals scheme (codes "wss")
    then 443
    else if iequals scheme (codes "http") || iequals scheme (codes "ws")
    then 80
    else 443

abbrev pub path_or_slash : Bytes → Bytes
path_or_slash [] = codes "/"
path_or_slash (c ∷ cs) = c ∷ cs

abbrev pub query_or_nil : Option Bytes → Bytes
query_or_nil none = []
query_or_nil (some q) = q

-- A path that is written, or none.
abbrev pub IsPathOrNil : Bytes → Type 0
IsPathOrNil [] = Unit {0}
IsPathOrNil (c ∷ cs) = IsPath (c ∷ cs)

query-Stops : (q : Option Bytes) → Stops in_path (query_text q)
query-Stops none = tt
query-Stops (some q) = refl

path_part-text :
    (path : Bytes) (q : Option Bytes)
    → IsPathOrNil path
    → path_part (path ++ query_text q) ≡ ok (path_or_slash path, query_text q)
unfolding path_part
path_part-text [] none h = refl
path_part-text [] (some q) h = refl
path_part-text (c ∷ cs) q h =
    ground (arith, span-append in_path (c ∷ cs) (query_text q) h.1 (query-Stops q))

query_part-text : (q : Option Bytes) → query_part (query_text q) ≡ query_or_nil q
unfolding query_part
query_part-text none = refl
query_part-text (some q) = refl

-- Behind the port there is a slash, a question mark or nothing.
behind-Stops :
    (path : Bytes) (q : Option Bytes) → IsPathOrNil path → Stops in_port (path ++ query_text q)
behind-Stops [] none h = tt
behind-Stops [] (some q) h = refl
behind-Stops (c ∷ cs) q h = ground arith

port_part-text :
    (port : Option ℕ) (path : Bytes) (q : Option Bytes)
    → IsPort port
    → IsPathOrNil path
    → port_part (port_text port ++ (path ++ query_text q))
      ≡ ok (elim port as (λ _. ℕ) [ none ↦ 0 | some p ↦ p ], path ++ query_text q)
unfolding port_part
port_part-text none [] none p h = refl
port_part-text none [] (some q) p h = refl
port_part-text none (c ∷ cs) q p h = let slash : (c == b':') ≡ false = ground arith in rw slash refl
port_part-text (some n) path q p h =
    rw
      (
        span-append in_port (to_string n) (path ++ query_text q)
            (digits_in_port _ (to_string-AllDigits n)) (behind-Stops path q h),
        parse_uint-to_string n 65535 p.1 (omega arith),
      )
      (ground arith)

host-Stops :
    (port : Option ℕ) (path : Bytes) (q : Option Bytes)
    → IsPathOrNil path
    → Stops in_host (port_text port ++ (path ++ query_text q))
host-Stops (some n) path q h = refl
host-Stops none [] none h = tt
host-Stops none [] (some q) h = refl
host-Stops none (c ∷ cs) q h = ground arith

port_taken :
    (scheme : Bytes) (port : Option ℕ)
    → IsPort port
    → (let n = elim port as (λ _. ℕ) [ none ↦ 0 | some p ↦ p ] in
        if n == 0 then default_port scheme else n)
      ≡ port_or_default scheme port
unfolding default_port
port_taken scheme none p = refl
port_taken scheme (some n) p = let some_port : (n == 0) ≡ false = ground arith in rw some_port refl

module _ (scheme host : Bytes) (port : Option ℕ) (path : Bytes) (q : Option Bytes) where
  abbrev behind_host : Bytes
  behind_host = port_text port ++ (path ++ query_text q)

  abbrev parts : Url
  parts = record {
    scheme = scheme;
    host = host;
    port = port_or_default scheme port;
    path = path_or_slash path;
    query = query_or_nil q;
  }

  parse_after_host-text :
      IsPort port → IsPathOrNil path → parse_after_host scheme host behind_host ≡ ok parts
  unfolding parse_after_host
  parse_after_host-text p h =
      rw (port_part-text port path q p h, path_part-text path q h, query_part-text q)
        (ap
          (λ n. ok (record {
            scheme = scheme;
            host = host;
            port = n;
            path = path_or_slash path;
            query = query_or_nil q;
          }))
          (port_taken scheme port p))

  parse_after_scheme-text :
      is_nil host ≡ false
      → All (λ c. in_host c ≡ true) host
      → IsPort port
      → IsPathOrNil path
      → parse_after_scheme scheme (host ++ behind_host) ≡ ok parts
  unfolding parse_after_scheme
  parse_after_scheme-text full chars p h =
      rw (span-append in_host host behind_host chars (host-Stops port path q h), full)
        (parse_after_host-text p h)

-- A byte of a host, and a path that is written or left out.
abbrev pub IsHostByte : ℕ → Type 0
IsHostByte c = ((c == b':') ≡ false) × ((c == b'/') ≡ false) × ((c == b'?') ≡ false)

abbrev pub IsPathText : Bytes → Type 0
IsPathText [] = Unit {0}
IsPathText (c ∷ cs) = (c ≡ b'/') × All (λ x. (x == b'?') ≡ false) (c ∷ cs)

host_chars : (host : Bytes) → All IsHostByte host → All (λ c. in_host c ≡ true) host
host_chars [] h = tt
host_chars (c ∷ cs) h = (rw (h.0.0, h.0.1, h.0.2) refl, host_chars cs h.1)

path_chars : (path : Bytes) → All (λ x. (x == b'?') ≡ false) path → All (λ c. in_path c ≡ true) path
path_chars [] h = tt
path_chars (c ∷ cs) h = (rw h.0 refl, path_chars cs h.1)

path_text : (path : Bytes) → IsPathText path → IsPathOrNil path
path_text [] h = tt
path_text (c ∷ cs) h = (h.0, path_chars (c ∷ cs) h.1)

-- A URL that is written as a scheme, "://", a host, and then a port, a path and a query, each of which
-- may be left out, is taken apart into just these: a port that is left out is 443 for https and wss, 80
-- for http and ws, in any case of letters, and 443 for any other scheme; a path that is left out is "/",
-- and a query that is left out is empty. No "://" stands in the scheme, the host has no colon, slash or
-- question mark, the port is from 1 to 65535, the path starts with a slash and has no question mark.
pub url_parse_parts :
    (scheme host : Bytes) (port : Option ℕ) (path : Bytes) (query : Option Bytes)
    → find (codes "://") (scheme ++ codes "://") ≡ some (length scheme)
    → is_nil host ≡ false
    → All IsHostByte host
    → IsPort port
    → IsPathText path
    → url_parse
        ((scheme ++ codes "://") ++ (host ++ (port_text port ++ (path ++ query_text query))))
      ≡ ok (record {
        scheme = scheme;
        host = host;
        port = port_or_default scheme port;
        path = path_or_slash path;
        query = query_or_nil query;
      })
url_parse_parts scheme host port path query first full chars p h =
    url_parse_at whole (length scheme)
      (find-append (codes "://") (scheme ++ codes "://") rest (length scheme) first)
    ∙ ap₂ parse_after_scheme front behind
    ∙ parse_after_scheme-text scheme host port path query full (host_chars host chars) p
        (path_text path h)
  where
    rest : Bytes
    rest = host ++ (port_text port ++ (path ++ query_text query))

    whole : Bytes
    whole = (scheme ++ codes "://") ++ rest

    moved : whole ≡ scheme ++ (codes "://" ++ rest)
    moved = append_assoc scheme (codes "://") rest

    front : take (length scheme) whole ≡ scheme
    front = ap (take (length scheme)) moved ∙ take-append_left scheme (codes "://" ++ rest)

    behind : drop (length scheme + 3) whole ≡ rest
    behind =
        ap (drop (length scheme + 3)) moved
        ∙ drop-add (length scheme) 3 (scheme ++ (codes "://" ++ rest))
        ∙ ap (drop 3) (drop-append_left scheme (codes "://" ++ rest))
