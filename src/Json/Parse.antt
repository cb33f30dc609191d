-- ===== src/Json/Parse.antt =====
-- core/src/vc_json.cpp: the parser of values, over strtod. The cursor of a Parser is the text that
-- is left; the first argument of parse_value is what its depth leaves of kMaxDepth.
pub mod Printed
mod Lists
pub mod RoundTrip
mod Depth
mod Fuel
mod Tests
use vericonnect_agent.Common.{Result, ok, err, error, protocol}
use vericonnect_agent.Prelude.Ascii.{is_digit}
use vericonnect_agent.Prelude.Search.{span, is_prefix}
use vericonnect_agent.Json.{
  Json, null, boolean, number, string, array, object, no_more, no_member, set_key, add,
}
use vericonnect_agent.Json.Text.{parse_string_raw}
use vericonnect_agent.Prelude.{
  ℕ, zero, suc, ◌+◌, ◌-◌, inl, inr, Bool, true, false, ◌&&◌, ◌||◌, Option, none, some, [], ◌∷◌,
  arith, Bytes, codes, ltb, ◌==◌, if◌then◌else◌, tests, length, drop, is_nil,
}

abbrev pub max_depth : ℕ
max_depth = 128

abbrev pub is_ws : ℕ → Bool
is_ws c = c == b' ' || c == b'\t' || c == b'\r' || c == b'\n'

unfoldable pub skip_ws : Bytes → Bytes
unfolding span
skip_ws s = (span is_ws s).1

-- `ps.p < ps.end && *ps.p == c`
abbrev pub next_is : ℕ → Bytes → Bool
next_is c [] = false
next_is c (d ∷ s) = d == c

abbrev pub is_number_char : ℕ → Bool
is_number_char c = is_digit c || c == b'.' || c == b'e' || c == b'E' || c == b'+' || c == b'-'

abbrev pub starts_number : ℕ → Bool
starts_number c = c == b'-' || is_digit c

-- The token that is copied for strtod: what stands between p and q.
unfoldable pub number_token : Bytes → Bytes
unfolding span
number_token [] = []
number_token (c ∷ cs) =
    if c == b'-' || c == b'+'
    then c ∷ (span is_number_char cs).0
    else (span is_number_char (c ∷ cs)).0

module _ {D : Type 0} where
  -- The branch for a string.
  abbrev pub string_value : Option (Bytes × Bytes) → Option (Json D × Bytes)
  string_value none = none
  string_value (some (s, rest)) = some (string s, rest)

  -- What is behind the number: strtod says how many characters it took, none where it took none.
  abbrev pub number_read : Bytes → Option (D × ℕ) → Option (Json D × Bytes)
  number_read s none = none
  number_read s (some (d, taken)) = some (number d, drop taken s)

  -- Behind a member or an element: a comma, or the closing bracket `close`.
  abbrev pub list_end :
      ℕ → Json D → Bytes → (Json D → Bytes → Option (Json D × Bytes)) → Option (Json D × Bytes)
  list_end close out [] loop = none
  list_end close out (c ∷ s) loop =
      if c == b',' then loop out s else if c == close then some (out, s) else none

  -- Behind the value of a member.
  abbrev pub member_value :
      Json D
      → Bytes
      → Option (Json D × Bytes)
      → (Json D → Bytes → Option (Json D × Bytes))
      → Option (Json D × Bytes)
  member_value out key none loop = none
  member_value out key (some (v, s)) loop = list_end b'}' (set_key out key v) (skip_ws s) loop

  -- Behind the key of a member, with parse_value as `value`.
  abbrev pub member_key :
      (Bytes → Option (Json D × Bytes))
      → Json D
      → Option (Bytes × Bytes)
      → (Json D → Bytes → Option (Json D × Bytes))
      → Option (Json D × Bytes)
  member_key value out none loop = none
  member_key value out (some (key, s)) loop =
      if next_is b':' (skip_ws s)
      then member_value out key (value (drop 1 (skip_ws s))) loop
      else none

  -- The loop of parse_object, on fuel for the bytes left.
  unfoldable pub object_loop :
      ℕ → (Bytes → Option (Json D × Bytes)) → Json D → Bytes → Option (Json D × Bytes)
  unfolding skip_ws set_key parse_string_raw
  object_loop zero value out s = none
  object_loop (suc fuel) value out s =
      member_key value out (parse_string_raw (skip_ws s)) (object_loop fuel value)

  -- parse_object, behind the opening brace.
  unfoldable pub parse_object : (Bytes → Option (Json D × Bytes)) → Bytes → Option (Json D × Bytes)
  unfolding object_loop
  parse_object value s =
      if next_is b'}' (skip_ws s)
      then some (object no_member, drop 1 (skip_ws s))
      else object_loop (suc (length (skip_ws s))) value (object no_member) (skip_ws s)

  -- Behind an element.
  abbrev pub element_value :
      Json D
      → Option (Json D × Bytes)
      → (Json D → Bytes → Option (Json D × Bytes))
      → Option (Json D × Bytes)
  element_value out none loop = none
  element_value out (some (v, s)) loop = list_end b']' (add out v) (skip_ws s) loop

  -- The loop of parse_array, on fuel for the bytes left.
  unfoldable pub array_loop :
      ℕ → (Bytes → Option (Json D × Bytes)) → Json D → Bytes → Option (Json D × Bytes)
  unfolding skip_ws add
  array_loop zero value out s = none
  array_loop (suc fuel) value out s = element_value out (value s) (array_loop fuel value)

  -- parse_array, behind the opening bracket.
  unfoldable pub parse_array : (Bytes → Option (Json D × Bytes)) → Bytes → Option (Json D × Bytes)
  unfolding array_loop
  parse_array value s =
      if next_is b']' (skip_ws s)
      then some (array no_more, drop 1 (skip_ws s))
      else array_loop (suc (length (skip_ws s))) value (array no_more) (skip_ws s)

  -- Json::parse refuses what stands behind the value.
  unfoldable pub whole : Option (Json D × Bytes) → Result (Json D)
  unfolding skip_ws
  whole none = err (error protocol)
  whole (some (v, s)) = if is_nil (skip_ws s) then ok v else err (error protocol)

module _ {D : Type 0} (strtod : Bytes → Option (D × ℕ)) where
  -- The branch for a number: a token of 512 characters or more is refused.
  unfoldable pub number_value : Bytes → Option (Json D × Bytes)
  unfolding number_token
  number_value s =
      if ltb (length (number_token s)) 512 then number_read s (strtod (number_token s)) else none

  -- The branches of parse_value at the first character, with the call for what is inside.
  abbrev pub value_at : (Bytes → Option (Json D × Bytes)) → Bytes → Option (Json D × Bytes)
  value_at value [] = none
  value_at value (c ∷ cs) =
      if c == b'{'
      then parse_object value cs
      else if c == b'['
      then parse_array value cs
      else if c == b'"'
      then string_value (parse_string_raw (c ∷ cs))
      else if c == b't' && is_prefix (codes "true") (c ∷ cs)
      then some (boolean true, drop 4 (c ∷ cs))
      else if c == b'f' && is_prefix (codes "false") (c ∷ cs)
      then some (boolean false, drop 5 (c ∷ cs))
      else if c == b'n' && is_prefix (codes "null") (c ∷ cs)
      then some (null, drop 4 (c ∷ cs))
      else if starts_number c
      then number_value (c ∷ cs)
      else none

  unfoldable pub parse_value : ℕ → Bytes → Option (Json D × Bytes)
  unfolding skip_ws parse_object parse_array parse_string_raw number_value is_prefix
  parse_value zero s = none
  parse_value (suc left) s = value_at (parse_value left) (skip_ws s)

  unfoldable pub parse : Bytes → Result (Json D)
  unfolding parse_value whole
  parse text = whole (parse_value max_depth text)
