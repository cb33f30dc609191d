-- ===== src/Adapters/Tests.antt =====
-- core/src/vc_adapter.cpp: two adapters, over a world that counts impersonations.
use vericonnect_agent.Common.{ok, err, error, not_found}
use vericonnect_agent.Fs.{Files}
use vericonnect_agent.Json.Parse.{parse}
use vericonnect_agent.Json.{
  Doubles, Numbers, Json, get_str, find_ci, string, object, member, no_member,
}
use vericonnect_agent.Adapters.{Plugins, Adapter, begun, dispatch}
use vericonnect_agent.Adapters.Routing.{RanAs, dispatch_named}
use vericonnect_agent.Adapters.Reverts.{Impersonates, dispatch-Reverts}
use vericonnect_agent.Prelude.Search.{iequals}
use vericonnect_agent.Prelude.{
  pos, negsuc, ◌==◌, leb, ℕ, suc, ◌-◌, ◌≡◌, refl, inl, inr, true, false, none, some, [], ◌∷◌, Bytes,
  codes,
}

abbrev counting : Files
counting = record {
  World = ℕ;
  is_regular_file = λ p w. false;
  is_directory = λ p w. false;
  is_there = λ p w. false;
  create_directory = λ p w. ((false, 1), w);
  remove = λ p w. ((false, 1), w);
  rename = λ from to w. (1, w);
  read_stream = λ p w. err (error not_found);
  write_stream = λ p bs w. (ok tt, w);
  entries = λ p w. ([], 0);
  error_text = λ n. [];
}

-- A library is the answer of its command.
abbrev plugins : Plugins counting
plugins = record {
  Lib = Bytes;
  Token = Unit {0};
  open_lib = λ p w. (some p, w);
  has_symbol = λ l s. true;
  close_lib = λ l w. w;
  get_info = λ l w. (none, w);
  run_command = λ l s w. (some l, w);
  begin = λ u d p w. (begun tt, suc w);
  revert = λ t w. w - 1;
  log = λ l m w. w;
  extension = codes ".so";
}

-- Whole numbers as doubles.
abbrev whole_doubles : Doubles ℕ
whole_doubles = record {
  isnan = λ n. false;
  isinf = λ n. false;
  floor = λ n. n;
  same = λ m n. m == n;
  at_most = λ m n. leb m n;
  literal = λ z. elim z [ pos n ↦ n | negsuc n ↦ 0 ];
  to_long_long = λ n. pos n;
  seventeen_digits = λ n. [];
}

abbrev decimal : Numbers ℕ
decimal = record { strtod = λ t. some (0, 1); double = whole_doubles; of_nat = λ n. n }

abbrev first : Adapter Bytes
first = record { id = codes "sql"; path = codes "a"; lib = codes "one" }

abbrev second : Adapter Bytes
second = record { id = codes "filesystem"; path = codes "b"; lib = codes "two" }

abbrev request_text : Bytes
request_text = codes "{\"Adapter\":\"FileSystem\",\"UserCredentials\":{\"Username\":\"u\"}}"

abbrev request_root : Json ℕ
request_root = object (
    member (codes "Adapter") (string (codes "FileSystem")) (
      member (codes "UserCredentials")
        (object (member (codes "Username") (string (codes "u")) no_member)) no_member))

dispatch_named_example :
    RanAs counting decimal plugins
      (codes "two")
      request_text
      (codes "u")
      []
      []
      0
      (dispatch counting decimal plugins (first ∷ second ∷ []) request_text 0)
unfolding parse get_str find_ci iequals
dispatch_named_example =
    dispatch_named counting decimal plugins (first ∷ []) [] second request_text (codes "u") [] []
      request_root 0 refl refl (refl, tt) refl (inr (inl (inl refl, (_, refl, (refl, refl, refl)))))

plugins-Impersonates : Impersonates plugins (λ w. w)
plugins-Impersonates = record {
  begins = λ u d p w t h. refl;
  refuses = λ u d p w e h. cc;
  reverts = λ t w. refl;
  runs = λ l r w. refl;
  logs = λ l m w. refl;
}

dispatch-Reverts_example :
    (dispatch counting decimal plugins (first ∷ second ∷ []) request_text 3).1 ≡ 3
dispatch-Reverts_example =
    dispatch-Reverts counting decimal plugins (λ w. w) plugins-Impersonates (first ∷ second ∷ [])
      request_text 3
