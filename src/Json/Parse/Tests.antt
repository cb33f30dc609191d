-- ===== src/Json/Parse/Tests.antt =====
-- Documents for the parser of core/src/vc_json.cpp.
use vericonnect_agent.Common.{
  ok, err, error, protocol, parse_uint, to_string, digit_value, scan_digits,
}
use vericonnect_agent.Json.{
  Json, null, number, string, array, object, element, no_more, member, no_member, dump,
}
use vericonnect_agent.Json.Parse.{parse}
use vericonnect_agent.Json.Parse.Printed.{depth}
use vericonnect_agent.Json.Parse.RoundTrip.{parse-dump}
use vericonnect_agent.Json.Parse.Depth.{depth-parse}
use vericonnect_agent.Prelude.{
  ℕ, ◌≤◌, ◌≡◌, refl, Option, none, some, [], arith, Bytes, codes, length,
}

-- Decimal numbers in place of doubles.
abbrev read_decimal : Bytes → Option (ℕ × ℕ)
read_decimal t = elim (parse_uint t 0xFFFFFFFF 10) [ none ↦ none | some n ↦ some (n, length t) ]

abbrev document : Json ℕ
document = object (
    member (codes "A") (number 7) (
      member (codes "b\"") (array (element null (element (string (codes "x\n")) no_more)))
        no_member))

spaced : parse read_decimal (codes " { \"A\" : 7 ,\n\"b\\\"\":[null,\"x\\n\"] } ") ≡ ok document
unfolding parse parse_uint digit_value scan_digits
spaced = refl

junk : parse read_decimal (codes "7 7") ≡ err (error protocol)
unfolding parse parse_uint digit_value scan_digits
junk = refl

-- A comma with nothing behind it.
trailing : parse read_decimal (codes "[7,]") ≡ err (error protocol)
unfolding parse parse_uint digit_value scan_digits
trailing = refl

parse-dump_example : parse read_decimal (dump to_string document) ≡ ok document
unfolding to_string parse_uint digit_value scan_digits depth
parse-dump_example = parse-dump to_string read_decimal document (omega arith) (
    (
      omega arith,
      record {
        head = b'7';
        tail = [];
        text = refl;
        starts = refl;
        chars = tt;
        short = omega arith;
        read = refl;
      },
      (omega arith, (tt, (omega arith, tt)), tt),
    ))

depth-parse_example : depth document ≤ 128
unfolding parse parse_uint digit_value scan_digits
depth-parse_example =
    depth-parse read_decimal (codes "{\"A\":7,\"b\\\"\":[null,\"x\\n\"]}") document refl
