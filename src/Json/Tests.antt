-- ===== src/Json/Tests.antt =====
-- A small document for core/src/vc_json.cpp.
use vericonnect_agent.Common.{to_string}
use vericonnect_agent.Json.{
  Doubles, write_number, Members, null, boolean, number, object, member, no_member, dump,
}
use vericonnect_agent.Json.Text.{escape}
use vericonnect_agent.Prelude.{ℕ, pos, negsuc, ◌==◌, leb, ◌≡◌, refl, true, false, codes}

abbrev flags : Members ℕ
flags = member (codes "A") (boolean true) no_member

dumped :
    dump {D = ℕ}
      (λ n. codes "7")
      (object (member (codes "A") (number 7) (member (codes "b") null no_member)))
    ≡ codes "{\"A\":7,\"b\":null}"
unfolding dump escape
dumped = refl

-- Doubles that are whole numbers up to a bound, and one that is none.
abbrev small_doubles : Doubles ℕ
small_doubles = record {
  isnan = λ n. n == 9;
  isinf = λ n. false;
  floor = λ n. n;
  same = λ m n. m == n;
  at_most = λ m n. leb m n;
  literal = λ z. elim z [ pos n ↦ n | negsuc n ↦ 0 ];
  to_long_long = λ n. pos n;
  seventeen_digits = λ n. codes "1e+300";
}

numbers_written :
    (write_number small_doubles 9 ≡ codes "null")
    × (write_number small_doubles 42 ≡ codes "42")
    × (write_number small_doubles 9007199254740993 ≡ codes "1e+300")
unfolding write_number to_string
numbers_written = (refl, refl, refl)
