-- ===== src/Url.antt =====
-- core/src/vc_url.cpp and core/include/vc/vc_url.h: percent encoding, and url_parse cut into the
-- steps of its text: scheme, host, port, default port, path, query.
pub mod Encode
pub mod WellFormed
pub mod RoundTrip
mod Parts
mod Tests
use vericonnect_agent.Common.{Result, ok, err, error, invalid_arg, protocol, ◌>>=◌, parse_uint}
use vericonnect_agent.Prelude.Ascii.{within}
use vericonnect_agent.Prelude.Search.{find, span, iequals}
use vericonnect_agent.Prelude.{
  ℕ, ◌+◌, Bool, not, ◌&&◌, ◌||◌, Option, none, some, [], ◌∷◌, ◌++◌, Bytes, codes, ◌==◌,
  if◌then◌else◌, is_nil, get_or, take, drop, bit_and, ◌>>>◌,
}

unfoldable pub is_unreserved : ℕ → Bool
is_unreserved c =
    within b'A' b'Z' c
    || within b'a' b'z' c
    || within b'0' b'9' c
    || c == b'-'
    || c == b'_'
    || c == b'.'
    || c == b'~'

abbrev pub hex : Bytes
hex = codes "0123456789ABCDEF"

unfoldable pub url_encode : Bytes → Bytes
url_encode [] = []
url_encode (c ∷ cs) =
    (if is_unreserved c
      then c ∷ []
      else b'%' ∷ get_or hex (c >>> 4) 0 ∷ get_or hex (bit_and c 0xF) 0 ∷ [])
    ++ url_encode cs

-- struct Url
pub record Url : Type 0 where
  pub scheme : Bytes
  pub host : Bytes
  pub port : ℕ
  pub path : Bytes
  pub query : Bytes

-- The tests of the scanning loops.
abbrev pub in_host : ℕ → Bool
in_host c = not (c == b':') && not (c == b'/') && not (c == b'?')

abbrev pub in_port : ℕ → Bool
in_port c = not (c == b'/') && not (c == b'?')

abbrev pub in_path : ℕ → Bool
in_path c = not (c == b'?')

-- `if (!port || *port == 0) return Protocol`
abbrev pub checked_port : Option ℕ → Bytes → Result (ℕ × Bytes)
checked_port none after = err (error protocol)
checked_port (some p) after = if p == 0 then err (error protocol) else ok (p, after)

-- The port behind the host, 0 if there is none, and the text behind it.
unfoldable pub port_part : Bytes → Result (ℕ × Bytes)
port_part [] = ok (0, [])
port_part (c ∷ cs) =
    if c == b':'
    then checked_port (parse_uint (span in_port cs).0 65535 10) (span in_port cs).1
    else ok (0, c ∷ cs)

unfoldable pub default_port : Bytes → ℕ
default_port scheme =
    if iequals scheme (codes "https") || iequals scheme (codes "wss")
    then 443
    else if iequals scheme (codes "http") || iequals scheme (codes "ws")
    then 80
    else 443

-- The path, "/" if there is none, and the text behind it.
unfoldable pub path_part : Bytes → Result (Bytes × Bytes)
path_part [] = ok (codes "/", [])
path_part (c ∷ cs) =
    if c == b'/'
    then ok (span in_path (c ∷ cs))
    else if not (c == b'?')
    then err (error invalid_arg)
    else ok (codes "/", c ∷ cs)

unfoldable pub query_part : Bytes → Bytes
query_part [] = []
query_part (c ∷ cs) = if c == b'?' then cs else []

-- url_parse behind the host.
unfoldable pub parse_after_host : Bytes → Bytes → Bytes → Result Url
parse_after_host scheme host text = do
  (port, after_port) ← port_part text
  (path, after_path) ← path_part after_port
  ok (record {
    scheme = scheme;
    host = host;
    port = if port == 0 then default_port scheme else port;
    path = path;
    query = query_part after_path;
  })

-- url_parse behind "://".
unfoldable pub parse_after_scheme : Bytes → Bytes → Result Url
parse_after_scheme scheme rest =
    if is_nil (span in_host rest).0
    then err (error invalid_arg)
    else parse_after_host scheme (span in_host rest).0 (span in_host rest).1

unfoldable pub url_parse : Bytes → Result Url
url_parse url = elim (find (codes "://") url) [
  | none ↦ err (error invalid_arg)
  | some sep ↦ parse_after_scheme (take sep url) (drop (sep + 3) url)
]
