-- ===== src/Url/RoundTrip.antt =====
-- Printing a URL with its port written out, and parsing it again.
use vericonnect_agent.Common.Decimal.{AllDigits, to_string-AllDigits}
use vericonnect_agent.Common.ParseUint.{parse_uint-to_string}
use vericonnect_agent.Common.{ok, to_string}
use vericonnect_agent.Prelude.Lists.{drop-add}
use vericonnect_agent.Prelude.Search.{find, find-append, find-take, span-append, Stops}
use vericonnect_agent.Prelude.{
  ℕ, ◌+◌, true, some, [], ◌∷◌, ◌++◌, ◌≡◌, refl, ap, ap₂, ◌∙◌, inl, inr, Bytes, codes, length, take,
  drop, All, arith, take-append_left, drop-append_left, append_assoc, Option-cases,
}
use vericonnect_agent.Url.WellFormed.{IsUrl, IsPath, parse_after_scheme-scheme, url_parse-IsUrl}
use vericonnect_agent.Url.{
  Url, in_host, in_port, in_path, port_part, path_part, query_part, parse_after_host,
  parse_after_scheme, url_parse,
}

abbrev pub query_suffix : Bytes → Bytes
query_suffix [] = []
query_suffix (c ∷ cs) = b'?' ∷ c ∷ cs

abbrev pub after_host : Url → Bytes
after_host u = b':' ∷ (to_string u.port ++ (u.path ++ query_suffix u.query))

unfoldable pub print_url : Url → Bytes
print_url u = (u.scheme ++ codes "://") ++ (u.host ++ after_host u)

pub digits_in_port : (cs : Bytes) → AllDigits cs → All (λ c. in_port c ≡ true) cs
digits_in_port [] h = tt
digits_in_port (c ∷ cs) h = (ground arith, digits_in_port cs h.1)

path-Stops : (path rest : Bytes) → IsPath path → Stops in_port (path ++ rest)
path-Stops [] rest h = absurd h
path-Stops (c ∷ cs) rest h = ground arith

suffix-Stops : (q : Bytes) → Stops in_path (query_suffix q)
suffix-Stops [] = tt
suffix-Stops (c ∷ cs) = refl

path_part_printed :
    (path q : Bytes) → IsPath path → path_part (path ++ query_suffix q) ≡ ok (path, query_suffix q)
unfolding path_part
path_part_printed [] q h = absurd h
path_part_printed (c ∷ cs) q h =
    ground (arith, span-append in_path (c ∷ cs) (query_suffix q) h.1 (suffix-Stops q))

query_part_printed : (q : Bytes) → query_part (query_suffix q) ≡ q
unfolding query_part
query_part_printed [] = refl
query_part_printed (c ∷ cs) = refl

port_part_printed :
    (u : Url) → IsUrl u → port_part (after_host u) ≡ ok (u.port, u.path ++ query_suffix u.query)
unfolding port_part
port_part_printed u v =
    let rest = u.path ++ query_suffix u.query in
    rw
      (
        span-append in_port (to_string u.port) rest (digits_in_port _ (to_string-AllDigits u.port))
            (path-Stops u.path (query_suffix u.query) v.path_ok),
        parse_uint-to_string u.port 65535 v.port_le (omega arith),
      )
      (ground arith)

after_host_printed : (u : Url) → IsUrl u → parse_after_host u.scheme u.host (after_host u) ≡ ok u
unfolding parse_after_host
after_host_printed u v =
    rw
      (
        port_part_printed u v,
        path_part_printed u.path u.query v.path_ok,
        query_part_printed u.query,
      )
      (ground arith)

after_scheme_printed :
    (u : Url) → IsUrl u → parse_after_scheme u.scheme (u.host ++ after_host u) ≡ ok u
unfolding parse_after_scheme
after_scheme_printed u v =
    rw (span-append in_host u.host (after_host u) v.host_chars refl)
      (ground (arith, after_host_printed u v))

pub url_parse_at :
    (text : Bytes) (sep : ℕ)
    → find (codes "://") text ≡ some sep
    → url_parse text ≡ parse_after_scheme (take sep text) (drop (sep + 3) text)
unfolding url_parse
url_parse_at text sep h = ground (arith, h)

-- url_parse reads back every well-formed URL printed with its port, if "://" stands in the scheme
-- part first where the scheme ends.
pub url_parse-print_url :
    (u : Url)
    → IsUrl u
    → find (codes "://") (u.scheme ++ codes "://") ≡ some (length u.scheme)
    → url_parse (print_url u) ≡ ok u
unfolding print_url
url_parse-print_url u v first =
    url_parse_at (print_url u) (length u.scheme)
      (find-append (codes "://") (u.scheme ++ codes "://") rest (length u.scheme) first)
    ∙ ap₂ parse_after_scheme front behind
    ∙ after_scheme_printed u v
  where
    rest : Bytes
    rest = u.host ++ after_host u

    whole : print_url u ≡ u.scheme ++ (codes "://" ++ rest)
    whole = append_assoc u.scheme (codes "://") rest

    front : take (length u.scheme) (print_url u) ≡ u.scheme
    front = ap (take (length u.scheme)) whole ∙ take-append_left u.scheme (codes "://" ++ rest)

    behind : drop (length u.scheme + 3) (print_url u) ≡ rest
    behind =
        ap (drop (length u.scheme + 3)) whole
        ∙ drop-add (length u.scheme) 3 (u.scheme ++ (codes "://" ++ rest))
        ∙ ap (drop 3) (drop-append_left u.scheme (codes "://" ++ rest))

-- The scheme of a parsed URL is what stands before the first "://".
scheme_found :
    (text : Bytes) (u : Url)
    → url_parse text ≡ ok u
    → (sep : ℕ) × (find (codes "://") text ≡ some sep) × (u.scheme ≡ take sep text)
unfolding url_parse
scheme_found text u h = elim (Option-cases (find (codes "://") text)) [
  | inl nowhere ↦ absurd (ground (arith, nowhere))
  | inr (sep, found) ↦ (
    sep,
    found,
    parse_after_scheme-scheme (take sep text) (drop (sep + 3) text) u (ground (arith, found)),
  )
]

-- Printing what was parsed and parsing again gives the same URL.
pub url_parse-print_url-url_parse :
    (text : Bytes) (u : Url) → url_parse text ≡ ok u → url_parse (print_url u) ≡ ok u
url_parse-print_url-url_parse text u h =
    let (sep, found, e) = scheme_found text u h in
    url_parse-print_url u (url_parse-IsUrl text u h)
      (rw e (find-take b':' (codes "//") text sep found))
