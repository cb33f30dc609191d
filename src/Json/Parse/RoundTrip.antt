-- ===== src/Json/Parse/RoundTrip.antt =====
-- core/src/vc_json.cpp: parse reads back what dump writes.
use vericonnect_agent.Json.Parse.Printed.{
  max_le, depth, depth_elements, depth_members, dump-Head, read_number, IsPrintable,
  IsPrintableElements, IsPrintableMembers, ReadsBack,
}
use vericonnect_agent.Json.Parse.Lists.{ReadsAll, ReadsMembers, parse_array-dump, parse_object-dump}
use vericonnect_agent.Common.{ok}
use vericonnect_agent.Prelude.Search.{span, Stops}
use vericonnect_agent.Json.{
  Json, Elements, Members, null, boolean, number, string, array, object, no_more, element,
  no_member, member, dump,
}
use vericonnect_agent.Json.Text.{escape}
use vericonnect_agent.Json.Text.RoundTrip.{parse_string_raw-escape}
use vericonnect_agent.Json.Parse.{
  max_depth, skip_ws, is_ws, is_number_char, starts_number, number_value, string_value, value_at,
  parse_value, whole, parse,
}
use vericonnect_agent.Prelude.{
  ℕ, zero, suc, ◌≤◌, ◌<◌, ◌≡◌, refl, sym, ap, ◌∙◌, true, false, Option, some, [], ◌∷◌, ◌++◌,
  append-nil, arith, Bytes, All,
}

module _ {D : Type 0} (write_number : D → Bytes) (strtod : Bytes → Option (D × ℕ)) where
  value_at-number :
      (value : Bytes → Option (Json D × Bytes)) (c : ℕ) (cs : Bytes)
      → starts_number c ≡ true
      → value_at strtod value (c ∷ cs) ≡ number_value strtod (c ∷ cs)
  value_at-number value c cs h = ground (arith, h)

  skip_ws-number : (c : ℕ) (cs : Bytes) → starts_number c ≡ true → skip_ws (c ∷ cs) ≡ c ∷ cs
  unfolding skip_ws span
  skip_ws-number c cs h = let e : is_ws c ≡ false = ground (arith, h) in rw (skip_ws, e) refl

  number_value-dump :
      (left : ℕ) (n : D) (rest : Bytes)
      → ReadsBack write_number strtod n
      → Stops is_number_char rest
      → parse_value strtod (suc left) (write_number n ++ rest) ≡ some (number n, rest)
  unfolding parse_value
  number_value-dump left n rest h s =
      ap (λ t. value_at strtod (parse_value strtod left) (skip_ws (t ++ rest))) h.text
      ∙ ap (value_at strtod (parse_value strtod left))
          (skip_ws-number h.head (h.tail ++ rest) h.starts)
      ∙ value_at-number (parse_value strtod left) h.head (h.tail ++ rest) h.starts
      ∙ ap (λ t. number_value strtod (t ++ rest)) (sym h.text)
      ∙ read_number write_number strtod n rest h s

  string_value-dump :
      (left : ℕ) (t rest : Bytes)
      → All (λ c. c < 256) t
      → parse_value strtod (suc left) (escape t ++ rest) ≡ some (string t, rest)
  unfolding parse_value escape skip_ws span
  string_value-dump left t rest h = ap string_value (parse_string_raw-escape t rest h)

  depth-pos : (v : Json D) → 0 < depth v
  unfolding depth
  depth-pos null = omega arith
  depth-pos _ = omega arith

  -- What parse_value makes of each value inside.
  mutual
    unfolding dump depth parse_value skip_ws span

    parse_value-dump :
        (left : ℕ) (v : Json D) (rest : Bytes)
        → depth v ≤ left
        → IsPrintable write_number strtod v
        → Stops is_number_char rest
        → parse_value strtod left (dump write_number v ++ rest) ≡ some (v, rest)
    parse_value-dump (suc left) null rest d h s = refl
    parse_value-dump (suc left) (boolean true) rest d h s = refl
    parse_value-dump (suc left) (boolean false) rest d h s = refl
    parse_value-dump (suc left) (number n) rest d h s = number_value-dump left n rest h s
    parse_value-dump (suc left) (string t) rest d h s = string_value-dump left t rest h
    parse_value-dump (suc left) (array no_more) rest d h s = refl
    parse_value-dump (suc left) (array (element v vs)) rest d h s =
        parse_array-dump write_number strtod (parse_value strtod left) v vs rest
          (dump-Head write_number strtod v h.0) (reads_elements left (element v vs) (omega arith) h)
    parse_value-dump (suc left) (object no_member) rest d h s = refl
    parse_value-dump (suc left) (object (member k v ms)) rest d h s =
        parse_object-dump write_number strtod (parse_value strtod left) k v ms rest
          (reads_members left (member k v ms) (omega arith) h)
    parse_value-dump zero v rest d h s = absurd (omega (arith, depth-pos v))

    reads_elements :
        (left : ℕ) (vs : Elements D)
        → depth_elements vs ≤ left
        → IsPrintableElements write_number strtod vs
        → ReadsAll write_number strtod (parse_value strtod left) vs
    reads_elements left no_more d h = tt
    reads_elements left (element v vs) d h = (
      λ rest s. parse_value-dump left v rest (max_le (depth v) _ left d).0 h.0 s,
      reads_elements left vs (max_le (depth v) _ left d).1 h.1,
    )

    reads_members :
        (left : ℕ) (ms : Members D)
        → depth_members ms ≤ left
        → IsPrintableMembers write_number strtod ms
        → ReadsMembers write_number strtod (parse_value strtod left) ms
    reads_members left no_member d h = tt
    reads_members left (member k v ms) d h = (
      h.0,
      λ rest s. parse_value-dump left v rest (max_le (depth v) _ left d).0 h.1 s,
      reads_members left ms (max_le (depth v) _ left d).1 h.2,
    )

-- parse gives back the value that dump wrote, where it is at most 128 levels deep, its strings are
-- of bytes, and each number is written as a token of at most 511 characters that strtod reads back.
pub parse-dump :
    {D : Type 0} (write_number : D → Bytes) (strtod : Bytes → Option (D × ℕ)) (v : Json D)
    → depth v ≤ max_depth
    → IsPrintable write_number strtod v
    → parse strtod (dump write_number v) ≡ ok v
unfolding parse whole skip_ws span
parse-dump write_number strtod v d h =
    ap (parse strtod) (sym (append-nil (dump write_number v)))
    ∙ ap whole (parse_value-dump write_number strtod max_depth v [] d h tt)
