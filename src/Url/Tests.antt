-- ===== src/Url/Tests.antt =====
-- Runs of url_parse and url_encode, and the theorems at concrete inputs.
use vericonnect_agent.Common.{
  ok, err, error, invalid_arg, protocol, parse_uint, scan_digits, digit_value,
}
use vericonnect_agent.Prelude.Search.{find, span, iequals}
use vericonnect_agent.Prelude.{◌≡◌, refl, none, some, [], ◌++◌, codes, length}
use vericonnect_agent.Url.Parts.{query_text, url_parse_parts}
use vericonnect_agent.Url.{
  Url, is_unreserved, url_encode, port_part, default_port, path_part, query_part, parse_after_host,
  parse_after_scheme, url_parse,
}

abbrev relay : Url
relay = record {
  scheme = codes "wss";
  host = codes "ns.example";
  port = 443;
  path = codes "/$hc/a";
  query = codes "x=1";
}

relay_parsed : url_parse (codes "wss://ns.example/$hc/a?x=1") ≡ ok relay
unfolding url_parse parse_after_scheme parse_after_host port_part default_port path_part query_part
    find span iequals
relay_parsed = refl

refused :
    (url_parse (codes "wss:/host") ≡ err (error invalid_arg))
    × (url_parse (codes "wss://:80/") ≡ err (error invalid_arg))
    × (url_parse (codes "wss://h:0/") ≡ err (error protocol))
    × (url_parse (codes "wss://h:65536") ≡ err (error protocol))
    × (url_parse (codes "wss://h:+1") ≡ err (error protocol))
unfolding url_parse parse_after_scheme parse_after_host port_part find span parse_uint scan_digits
    digit_value
refused = (refl, refl, refl, refl, refl)

encoded : url_encode (codes "a/b c") ≡ codes "a%2Fb%20c"
unfolding url_encode is_unreserved
encoded = refl

scheme_first : find (codes "://") (codes "wss" ++ codes "://") ≡ some (length (codes "wss"))
unfolding find
scheme_first = refl

url_parse_parts_example :
    url_parse (codes "Http://" ++ (codes "h" ++ ([] ++ (codes "/a" ++ query_text (some [])))))
    ≡ ok (record {
      scheme = codes "Http";
      host = codes "h";
      port = 80;
      path = codes "/a";
      query = [];
    })
unfolding find iequals
url_parse_parts_example =
    url_parse_parts (codes "Http") (codes "h") none (codes "/a") (some []) refl refl
      ((refl, refl, refl), tt) tt (refl, (refl, (refl, tt)))
