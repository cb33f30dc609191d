-- ===== src/Url/WellFormed.antt =====
-- What url_parse accepts.
use vericonnect_agent.Common.ParseUint.{parse_uint_iff}
use vericonnect_agent.Common.{ok, parse_uint, >>=-eq-ok, ok-injective}
use vericonnect_agent.Prelude.Search.{find, span, span-All}
use vericonnect_agent.Prelude.{
  ℕ, ◌+◌, ◌≤◌, ◌<◌, true, [], ◌∷◌, ◌≡◌, ◌≢◌, refl, inl, inr, Bytes, codes, ◌==◌, if◌then◌else◌,
  take, drop, All, arith, Option-cases, Bool-cases, ==_iff, subst,
}
use vericonnect_agent.Url.{
  Url, in_host, in_port, in_path, port_part, default_port, path_part, query_part, parse_after_host,
  parse_after_scheme, url_parse,
}

-- A path begins with a slash and holds no question mark.
abbrev pub IsPath : Bytes → Type 0
IsPath [] = ⊥
IsPath (c ∷ cs) = (c ≡ b'/') × All (λ x. in_path x ≡ true) (c ∷ cs)

pub record IsUrl (u : Url) : Type 0 where
  pub host_ne_nil : u.host ≢ []
  pub host_chars : All (λ c. in_host c ≡ true) u.host
  pub port_pos : 0 < u.port
  pub port_le : u.port ≤ 65535
  pub path_ok : IsPath u.path

port_part-le : (text after : Bytes) (p : ℕ) → port_part text ≡ ok (p, after) → p ≤ 65535
unfolding port_part
port_part-le [] after p h = ground arith
port_part-le (c ∷ cs) after p h = elim (Option-cases (parse_uint (span in_port cs).0 65535 10)) [
  | inl bad ↦ ground (arith, bad)
  | inr (v, good) ↦
      ground (arith, good, (parse_uint_iff (span in_port cs).0 65535 v (omega arith)).0 good)
]

default_port_bounds : (scheme : Bytes) → (0 < default_port scheme) × (default_port scheme ≤ 65535)
unfolding default_port
default_port_bounds scheme = ground arith

slash-IsPath : (c : ℕ) (cs : Bytes) → c ≡ b'/' → IsPath (span in_path (c ∷ cs)).0
unfolding span
slash-IsPath c cs e = rw e (refl, (refl, span-All in_path cs))

path_part-IsPath : (text path after : Bytes) → path_part text ≡ ok (path, after) → IsPath path
unfolding path_part
path_part-IsPath [] path after h =
    let e : codes "/" ≡ path = ground arith in rw (← e) (refl, (refl, tt))
path_part-IsPath (c ∷ cs) path after h = elim (Bool-cases (c == b'/')) [
  | inl slash ↦
      let e : (span in_path (c ∷ cs)).0 ≡ path = ground (arith, slash) in
      rw (← e) (slash-IsPath c cs ((==_iff c b'/').0 slash))
  | inr other ↦ let e : codes "/" ≡ path = ground (arith, other) in rw (← e) (refl, (refl, tt))
]

-- The result of the steps behind the host.
abbrev assembled : Bytes → Bytes → ℕ → Bytes → Bytes → Url
assembled scheme host port path after = record {
  scheme = scheme;
  host = host;
  port = if port == 0 then default_port scheme else port;
  path = path;
  query = query_part after;
}

parse_after_host-IsUrl :
    (scheme host text : Bytes) (u : Url)
    → host ≢ []
    → All (λ c. in_host c ≡ true) host
    → parse_after_host scheme host text ≡ ok u
    → IsUrl u
unfolding parse_after_host
parse_after_host-IsUrl scheme host text u ne chars h =
    let ((port, after_port), e1, h1) = >>=-eq-ok (port_part text) _ h in
    let ((path, after_path), e2, h2) = >>=-eq-ok (path_part after_port) _ h1 in
    subst IsUrl (ok-injective {a = assembled scheme host port path after_path} {b = u} h2)
      (built port path after_port after_path e1 e2)
  where
    built :
        (port : ℕ) (path after_port after_path : Bytes)
        → port_part text ≡ ok (port, after_port)
        → path_part after_port ≡ ok (path, after_path)
        → IsUrl (assembled scheme host port path after_path)
    built port path after_port after_path e1 e2 = record {
      host_ne_nil = ne;
      host_chars = chars;
      port_pos = ground (arith, default_port_bounds scheme);
      port_le = ground (arith, default_port_bounds scheme, port_part-le text after_port port e1);
      path_ok = path_part-IsPath after_port path after_path e2;
    }

parse_after_scheme-IsUrl :
    (scheme rest : Bytes) (u : Url) → parse_after_scheme scheme rest ≡ ok u → IsUrl u
unfolding parse_after_scheme
parse_after_scheme-IsUrl scheme rest u h =
    parse_after_host-IsUrl scheme (span in_host rest).0 (span in_host rest).1 u (ground arith)
      (span-All in_host rest) (ground arith)

pub parse_after_scheme-scheme :
    (scheme rest : Bytes) (u : Url) → parse_after_scheme scheme rest ≡ ok u → u.scheme ≡ scheme
unfolding parse_after_scheme parse_after_host
parse_after_scheme-scheme scheme rest u h = ground arith

-- A URL that url_parse returns has a nonempty host without ':', '/' and '?', a port from 1 to
-- 65535, and a path that begins with '/' and holds no '?'.
pub url_parse-IsUrl : (text : Bytes) (u : Url) → url_parse text ≡ ok u → IsUrl u
unfolding url_parse
url_parse-IsUrl text u h = elim (Option-cases (find (codes "://") text)) [
  | inl nowhere ↦ absurd (ground (arith, nowhere))
  | inr (sep, found) ↦
      parse_after_scheme-IsUrl (take sep text) (drop (sep + 3) text) u (ground (arith, found))
]
