-- ===== src/Json/Parse/Lists.antt =====
-- core/src/vc_json.cpp: the loops of parse_array and parse_object read what dump writes.
use vericonnect_agent.Json.Parse.Printed.{
  append_elements, append_members, append-add_element, append-add_member, add_element-last,
  add_member-last, skip_ws-escape, next_is-escape, Head, skip_ws-append, next_is-append,
}
use vericonnect_agent.Prelude.Search.{span, Stops}
use vericonnect_agent.Json.{
  Json, Elements, Members, array, object, no_more, element, no_member, member, set_key, add,
  add_member, add_element, dump, dump_elements, dump_members,
}
use vericonnect_agent.Json.Text.{parse_string_raw, escape}
use vericonnect_agent.Json.Text.RoundTrip.{parse_string_raw-escape}
use vericonnect_agent.Json.Parse.{
  skip_ws, is_number_char, list_end, member_value, member_key, object_loop, parse_object,
  array_loop, parse_array,
}
use vericonnect_agent.Prelude.{
  ℕ, zero, suc, ◌≤◌, ◌<◌, ◌≡◌, refl, ap, ◌∙◌, true, false, Option, some, [], ◌∷◌, ◌++◌,
  append_assoc, arith, Bytes, length, length-append, All,
}

module _ {D : Type 0} (write_number : D → Bytes) (strtod : Bytes → Option (D × ℕ)) where
  pub more_elements : Elements D → Bytes → Bytes
  more_elements vs rest = dump_elements write_number true vs ++ b']' ∷ rest

  pub more_members : Members D → Bytes → Bytes
  more_members ms rest = dump_members write_number true ms ++ b'}' ∷ rest

  pub element-Stops :
      (vs : Elements D) (rest : Bytes) → Stops is_number_char (more_elements vs rest)
  unfolding more_elements dump_elements
  element-Stops no_more rest = refl
  element-Stops (element v vs) rest = refl

  pub member-Stops : (ms : Members D) (rest : Bytes) → Stops is_number_char (more_members ms rest)
  unfolding more_members dump_members
  member-Stops no_member rest = refl
  member-Stops (member k v ms) rest = refl

  -- The round of the loop of parse_array behind an element that is read.
  pub end_of_element :
      (out : Json D) (vs : Elements D) (rest : Bytes)
      (loop : Json D → Bytes → Option (Json D × Bytes))
      → list_end b']' out (skip_ws (more_elements vs rest)) loop ≡ elim vs [
        | no_more ↦ some (out, rest)
        | element w ws ↦ loop out (dump write_number w ++ more_elements ws rest)
      ]
  unfolding more_elements dump_elements skip_ws span
  end_of_element out no_more rest loop = refl
  end_of_element out (element w ws) rest loop =
      ap (loop out)
        (append_assoc (dump write_number w) (dump_elements write_number true ws) (b']' ∷ rest))

  pub end_of_member :
      (out : Json D) (ms : Members D) (rest : Bytes)
      (loop : Json D → Bytes → Option (Json D × Bytes))
      → list_end b'}' out (skip_ws (more_members ms rest)) loop ≡ elim ms [
        | no_member ↦ some (out, rest)
        | member k w ws ↦
            loop out (escape k ++ b':' ∷ (dump write_number w ++ more_members ws rest))
      ]
  unfolding more_members dump_members skip_ws span
  end_of_member out no_member rest loop = refl
  end_of_member out (member k w ws) rest loop = ap (loop out) (
      append_assoc (escape k) (b':' ∷ (dump write_number w ++ dump_members write_number true ws))
        (b'}' ∷ rest)
      ∙ ap (λ t. escape k ++ b':' ∷ t)
          (append_assoc (dump write_number w) (dump_members write_number true ws) (b'}' ∷ rest)))

  abbrev pub Reads : (Bytes → Option (Json D × Bytes)) → Json D → Type 0
  Reads value v =
      (rest : Bytes)
      → Stops is_number_char rest
      → value (dump write_number v ++ rest) ≡ some (v, rest)

  abbrev pub ReadsAll : (Bytes → Option (Json D × Bytes)) → Elements D → Type 0
  ReadsAll value no_more = Unit {0}
  ReadsAll value (element v vs) = Reads value v × ReadsAll value vs

  abbrev pub ReadsMembers : (Bytes → Option (Json D × Bytes)) → Members D → Type 0
  ReadsMembers value no_member = Unit {0}
  ReadsMembers value (member k v ms) = All (λ c. c < 256) k × Reads value v × ReadsMembers value ms

  pub fuel_elements :
      (v : Json D) (vs : Elements D) (rest : Bytes)
      → 0 < length (dump write_number v ++ more_elements vs rest)
  unfolding more_elements
  fuel_elements v vs rest = omega (
    arith,
    length-append (dump write_number v) (more_elements vs rest),
    length-append (dump_elements write_number true vs) (b']' ∷ rest),
  )

  pub shorter_elements :
      (v w : Json D) (ws : Elements D) (rest : Bytes)
      → length (dump write_number w ++ more_elements ws rest)
        < length (dump write_number v ++ more_elements (element w ws) rest)
  unfolding more_elements dump_elements
  shorter_elements v w ws rest = omega (
    arith,
    length-append (dump write_number v) (more_elements (element w ws) rest),
    ap length
        (append_assoc (dump write_number w) (dump_elements write_number true ws) (b']' ∷ rest)),
  )

  pub array_loop-dump :
      (value : Bytes → Option (Json D × Bytes)) (fuel : ℕ) (out : Elements D) (v : Json D)
      (vs : Elements D) (rest : Bytes)
      → ReadsAll value (element v vs)
      → length (dump write_number v ++ more_elements vs rest) ≤ fuel
      → array_loop fuel value (array out) (dump write_number v ++ more_elements vs rest)
        ≡ some (array (append_elements out (element v vs)), rest)
  unfolding array_loop add
  array_loop-dump value zero out v vs rest h enough =
      absurd (omega (arith, fuel_elements v vs rest))
  array_loop-dump value (suc fuel) out v no_more rest h enough =
      rw (h.0 (more_elements no_more rest) (element-Stops no_more rest)) (
        end_of_element (array (add_element out v)) no_more rest (array_loop fuel value)
        ∙ ap (λ o. some (array o, rest)) (add_element-last out v))
  array_loop-dump value (suc fuel) out v (element w ws) rest h enough =
      rw (h.0 (more_elements (element w ws) rest) (element-Stops (element w ws) rest)) (
        end_of_element (array (add_element out v)) (element w ws) rest (array_loop fuel value)
        ∙ array_loop-dump value fuel (add_element out v) w ws rest h.1
            (omega (arith, shorter_elements v w ws rest))
        ∙ ap (λ o. some (array o, rest)) (append-add_element out v (element w ws)))

  pub member_text : Bytes → Json D → Members D → Bytes → Bytes
  member_text k v ms rest = escape k ++ b':' ∷ (dump write_number v ++ more_members ms rest)

  pub fuel_members :
      (k : Bytes) (v : Json D) (ms : Members D) (rest : Bytes)
      → 0 < length (member_text k v ms rest)
  unfolding member_text
  fuel_members k v ms rest =
      omega (arith, length-append (escape k) (b':' ∷ (dump write_number v ++ more_members ms rest)))

  pub shorter_members :
      (k j : Bytes) (v w : Json D) (ws : Members D) (rest : Bytes)
      → length (member_text j w ws rest) < length (member_text k v (member j w ws) rest)
  unfolding member_text more_members dump_members
  shorter_members k j v w ws rest = omega (
    arith,
    length-append (escape k) (b':' ∷ (dump write_number v ++ more_members (member j w ws) rest)),
    length-append (dump write_number v) (more_members (member j w ws) rest),
    ap length (
        append_assoc (escape j) (b':' ∷ (dump write_number w ++ dump_members write_number true ws))
          (b'}' ∷ rest)),
    ap length (
        ap (λ t. escape j ++ b':' ∷ t)
          (append_assoc (dump write_number w) (dump_members write_number true ws) (b'}' ∷ rest))),
  )

  -- The round of the loop of parse_object, up to the end of the member.
  pub member_round :
      (value : Bytes → Option (Json D × Bytes)) (fuel : ℕ) (out : Members D) (k : Bytes)
      (v : Json D) (ms : Members D) (rest : Bytes)
      → All (λ c. c < 256) k
      → Reads value v
      → object_loop (suc fuel) value (object out) (member_text k v ms rest)
        ≡ list_end b'}'
            (object (add_member out k v))
            (skip_ws (more_members ms rest))
            (object_loop fuel value)
  unfolding object_loop set_key skip_ws span member_text
  member_round value fuel out k v ms rest hk hv =
      ap (λ o. member_key value (object out) o (object_loop fuel value))
        (ap parse_string_raw
            (skip_ws-escape k (b':' ∷ (dump write_number v ++ more_members ms rest)))
          ∙ parse_string_raw-escape k _ hk)
      ∙ ap (λ o. member_value (object out) k o (object_loop fuel value))
          (hv (more_members ms rest) (member-Stops ms rest))

  pub object_loop-dump :
      (value : Bytes → Option (Json D × Bytes)) (fuel : ℕ) (out : Members D) (k : Bytes)
      (v : Json D) (ms : Members D) (rest : Bytes)
      → ReadsMembers value (member k v ms)
      → length (member_text k v ms rest) ≤ fuel
      → object_loop fuel value (object out) (member_text k v ms rest)
        ≡ some (object (append_members out (member k v ms)), rest)
  unfolding member_text
  object_loop-dump value zero out k v ms rest h enough =
      absurd (omega (arith, fuel_members k v ms rest))
  object_loop-dump value (suc fuel) out k v no_member rest h enough =
      member_round value fuel out k v no_member rest h.0 h.1
      ∙ end_of_member (object (add_member out k v)) no_member rest (object_loop fuel value)
      ∙ ap (λ o. some (object o, rest)) (add_member-last out k v)
  object_loop-dump value (suc fuel) out k v (member j w ws) rest h enough =
      member_round value fuel out k v (member j w ws) rest h.0 h.1
      ∙ end_of_member (object (add_member out k v)) (member j w ws) rest (object_loop fuel value)
      ∙ object_loop-dump value fuel (add_member out k v) j w ws rest h.2
          (omega (arith, shorter_members k j v w ws rest))
      ∙ ap (λ o. some (object o, rest)) (append-add_member out k v (member j w ws))

  pub parse_array-dump :
      (value : Bytes → Option (Json D × Bytes)) (v : Json D) (vs : Elements D) (rest : Bytes)
      → Head (dump write_number v)
      → ReadsAll value (element v vs)
      → parse_array value ((dump_elements write_number false (element v vs) ++ b']' ∷ []) ++ rest)
        ≡ some (array (element v vs), rest)
  unfolding parse_array dump_elements append_elements more_elements
  parse_array-dump value v vs rest head h =
      ap (parse_array value) (
        append_assoc (dump write_number v ++ dump_elements write_number true vs) (b']' ∷ []) rest
        ∙ append_assoc (dump write_number v) (dump_elements write_number true vs) (b']' ∷ rest))
      ∙ rw
          (
            parse_array,
            skip_ws-append (dump write_number v) (more_elements vs rest) head,
            next_is-append (dump write_number v) (more_elements vs rest) head,
          )
          (array_loop-dump value (suc (length (dump write_number v ++ more_elements vs rest)))
            no_more v vs rest h (omega arith))

  pub parse_object-dump :
      (value : Bytes → Option (Json D × Bytes)) (k : Bytes) (v : Json D) (ms : Members D)
      (rest : Bytes)
      → ReadsMembers value (member k v ms)
      → parse_object value ((dump_members write_number false (member k v ms) ++ b'}' ∷ []) ++ rest)
        ≡ some (object (member k v ms), rest)
  unfolding parse_object dump_members append_members more_members member_text
  parse_object-dump value k v ms rest h =
      let text = b':' ∷ (dump write_number v ++ more_members ms rest) in
      ap (parse_object value) (
        append_assoc (escape k ++ b':' ∷ (dump write_number v ++ dump_members write_number true ms))
          (b'}' ∷ []) rest
        ∙ append_assoc (escape k)
            (b':' ∷ (dump write_number v ++ dump_members write_number true ms)) (b'}' ∷ rest)
        ∙ ap (λ t. escape k ++ b':' ∷ t)
            (append_assoc (dump write_number v) (dump_members write_number true ms) (b'}' ∷ rest)))
      ∙ rw (parse_object, skip_ws-escape k text, next_is-escape k text)
          (object_loop-dump value (suc (length (escape k ++ text))) no_member k v ms rest h
            (omega arith))
