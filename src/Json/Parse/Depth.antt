-- ===== src/Json/Parse/Depth.antt =====
-- core/src/vc_json.cpp: what parse_value takes of the text, and how deep its result is.
use vericonnect_agent.Common.{ok}
use vericonnect_agent.Prelude.Search.{span, span_parts, is_prefix}
use vericonnect_agent.Json.{
  Json, Elements, Members, null, boolean, array, object, no_more, element, no_member, member,
  set_key, add, add_member, add_element,
}
use vericonnect_agent.Json.Text.{parse_string_raw}
use vericonnect_agent.Json.Text.Shorter.{Leaves, parse_string_raw-le}
use vericonnect_agent.Json.Parse.Printed.{max_le, le_max, depth, depth_elements, depth_members}
use vericonnect_agent.Json.Parse.{
  max_depth, skip_ws, is_ws, next_is, starts_number, number_token, number_value, number_read,
  string_value, list_end, member_value, member_key, object_loop, parse_object, element_value,
  array_loop, parse_array, value_at, parse_value, whole, parse,
}
use vericonnect_agent.Prelude.{
  ℕ, zero, suc, ◌≤◌, ◌<◌, ◌≡◌, ap, subst, inl, inr, true, false, ◌&&◌, Option, none, some, [], ◌∷◌,
  arith, Bytes, codes, ltb, ◌==◌, Bool-cases, length, drop, length-append, length-drop,
}

depth-add_element :
    {D : Type 0} (left : ℕ) (out : Elements D) (v : Json D)
    → depth_elements out ≤ left
    → depth v ≤ left
    → depth_elements (add_element out v) ≤ left
unfolding depth add_element
depth-add_element left no_more v h k = ground (arith, h, k)
depth-add_element left (element w out) v h k =
    let b = max_le (depth w) (depth_elements out) left h in
    le_max (depth w) _ left b.0 (depth-add_element left out v b.1 k)

depth-add_member :
    {D : Type 0} (left : ℕ) (out : Members D) (key : Bytes) (v : Json D)
    → depth_members out ≤ left
    → depth v ≤ left
    → depth_members (add_member out key v) ≤ left
unfolding depth add_member
depth-add_member left no_member key v h k = ground (arith, h, k)
depth-add_member left (member j w out) key v h k =
    let b = max_le (depth w) (depth_members out) left h in
    le_max (depth w) _ left b.0 (depth-add_member left out key v b.1 k)

pub skip_ws-le : (s : Bytes) → length (skip_ws s) ≤ length s
unfolding skip_ws
skip_ws-le s =
    omega (arith, ap length (span_parts is_ws s), length-append (span is_ws s).0 (span is_ws s).1)

module _ {D : Type 0} where
  -- The value is at most `left` levels deep, and what is left of the text is no longer than `n`.
  abbrev pub Fits : ℕ → ℕ → Option (Json D × Bytes) → Type 0
  Fits left n none = Unit {0}
  Fits left n (some (v, rest)) = (depth v ≤ left) × (length rest ≤ n)

  Fits-le : (left m n : ℕ) (o : Option (Json D × Bytes)) → m ≤ n → Fits left m o → Fits left n o
  Fits-le left m n none h k = tt
  Fits-le left m n (some (v, rest)) h k = (k.0, omega arith)

  -- What a call of parse_value gives.
  abbrev pub Reader : ℕ → (Bytes → Option (Json D × Bytes)) → Type 0
  Reader left value = (s : Bytes) → Fits left (length s) (value s)

  -- An object or array under way, and the loop behind it.
  abbrev Loops : ℕ → ℕ → (Json D → Bytes → Option (Json D × Bytes)) → Json D → Type 0
  Loops left n loop out = (s : Bytes) → length s < n → Fits left n (loop out s)

  list_end-Fits :
      (left n close : ℕ) (out : Json D) (s : Bytes)
      (loop : Json D → Bytes → Option (Json D × Bytes))
      → depth out ≤ left
      → length s ≤ n
      → Loops left n loop out
      → Fits left n (list_end close out s loop)
  list_end-Fits left n close out [] loop d h k = tt
  list_end-Fits left n close out (c ∷ s) loop d h k = elim (Bool-cases (c == b',')) [
    | inl y ↦ rw (list_end, y) (k s (omega arith))
    | inr m ↦
        rw (list_end, m)
          (elim (Bool-cases (c == close)) [ inl y ↦ rw y (d, omega arith) | inr l ↦ rw l tt ])
  ]

  element_value-Fits :
      (left n : ℕ) (out : Elements D) (o : Option (Json D × Bytes))
      (loop : Json D → Bytes → Option (Json D × Bytes))
      → depth_elements out ≤ left
      → Fits left n o
      → ((out' : Elements D) → depth_elements out' ≤ left → Loops (suc left) n loop (array out'))
      → Fits (suc left) n (element_value (array out) o loop)
  unfolding add depth
  element_value-Fits left n out none loop d k h = tt
  element_value-Fits left n out (some (v, rest)) loop d k h =
      let d' = depth-add_element left out v d k.0 in
      list_end-Fits (suc left) n b']' (array (add_element out v)) (skip_ws rest) loop (omega arith)
        (omega (arith, skip_ws-le rest, k.1)) (h (add_element out v) d')

  array_loop-Fits :
      (left fuel : ℕ) (value : Bytes → Option (Json D × Bytes)) (out : Elements D) (s : Bytes)
      → Reader left value
      → depth_elements out ≤ left
      → Fits (suc left) (length s) (array_loop fuel value (array out) s)
  unfolding array_loop
  array_loop-Fits left zero value out s h d = tt
  array_loop-Fits left (suc fuel) value out s h d =
      element_value-Fits left (length s) out (value s) (array_loop fuel value) d (h s)
        (λ out' d' t ht.
          Fits-le (suc left) (length t) (length s) _ (omega arith)
            (array_loop-Fits left fuel value out' t h d'))

  parse_array-Fits :
      (left : ℕ) (value : Bytes → Option (Json D × Bytes)) (s : Bytes)
      → Reader left value
      → Fits (suc left) (length s) (parse_array value s)
  unfolding parse_array depth
  parse_array-Fits left value s h =
      let loop =
        array_loop-Fits left (suc (length (skip_ws s))) value no_more (skip_ws s) h (omega arith) in
      elim (Bool-cases (next_is b']' (skip_ws s))) [
        | inl y ↦
            rw (parse_array, y)
              (omega arith, omega (arith, length-drop 1 (skip_ws s), skip_ws-le s))
        | inr n ↦ rw (parse_array, n) (Fits-le (suc left) _ _ _ (skip_ws-le s) loop)
      ]

  member_value-Fits :
      (left n : ℕ) (out : Members D) (key : Bytes) (o : Option (Json D × Bytes))
      (loop : Json D → Bytes → Option (Json D × Bytes))
      → depth_members out ≤ left
      → Fits left n o
      → ((out' : Members D) → depth_members out' ≤ left → Loops (suc left) n loop (object out'))
      → Fits (suc left) n (member_value (object out) key o loop)
  unfolding set_key depth
  member_value-Fits left n out key none loop d k h = tt
  member_value-Fits left n out key (some (v, rest)) loop d k h =
      let d' = depth-add_member left out key v d k.0 in
      list_end-Fits (suc left) n b'}' (object (add_member out key v)) (skip_ws rest) loop
        (omega arith) (omega (arith, skip_ws-le rest, k.1)) (h (add_member out key v) d')

  member_key-Fits :
      (left n : ℕ) (value : Bytes → Option (Json D × Bytes)) (out : Members D)
      (o : Option (Bytes × Bytes)) (loop : Json D → Bytes → Option (Json D × Bytes))
      → Reader left value
      → depth_members out ≤ left
      → Leaves n o
      → ((out' : Members D) → depth_members out' ≤ left → Loops (suc left) n loop (object out'))
      → Fits (suc left) n (member_key value (object out) o loop)
  member_key-Fits left n value out none loop r d k h = tt
  member_key-Fits left n value out (some (key, s)) loop r d k h =
      let t : Bytes = drop 1 (skip_ws s) in
      elim (Bool-cases (next_is b':' (skip_ws s))) [
        | inr m ↦ rw (member_key, m) tt
        | inl y ↦
            rw (member_key, y)
              (member_value-Fits left n out key (value t) loop d
                (Fits-le left (length t) n (value t)
                  (omega (arith, length-drop 1 (skip_ws s), skip_ws-le s, k)) (r t))
                h)
      ]

  object_loop-Fits :
      (left fuel : ℕ) (value : Bytes → Option (Json D × Bytes)) (out : Members D) (s : Bytes)
      → Reader left value
      → depth_members out ≤ left
      → Fits (suc left) (length s) (object_loop fuel value (object out) s)
  unfolding object_loop
  object_loop-Fits left zero value out s h d = tt
  object_loop-Fits left (suc fuel) value out s h d =
      member_key-Fits left (length s) value out (parse_string_raw (skip_ws s))
        (object_loop fuel value) h d (parse_string_raw-le (length s) (skip_ws s) (skip_ws-le s))
        (λ out' d' t ht.
          Fits-le (suc left) (length t) (length s) _ (omega arith)
            (object_loop-Fits left fuel value out' t h d'))

  parse_object-Fits :
      (left : ℕ) (value : Bytes → Option (Json D × Bytes)) (s : Bytes)
      → Reader left value
      → Fits (suc left) (length s) (parse_object value s)
  unfolding parse_object depth
  parse_object-Fits left value s h =
      let loop =
        object_loop-Fits left (suc (length (skip_ws s))) value no_member (skip_ws s) h
          (omega arith) in
      elim (Bool-cases (next_is b'}' (skip_ws s))) [
        | inl y ↦
            rw (parse_object, y)
              (omega arith, omega (arith, length-drop 1 (skip_ws s), skip_ws-le s))
        | inr n ↦ rw (parse_object, n) (Fits-le (suc left) _ _ _ (skip_ws-le s) loop)
      ]

module _ {D : Type 0} (strtod : Bytes → Option (D × ℕ)) where
  number_read-Fits :
      (left : ℕ) (s : Bytes) (o : Option (D × ℕ)) → Fits (suc left) (length s) (number_read s o)
  unfolding depth
  number_read-Fits left s none = tt
  number_read-Fits left s (some (d, taken)) = (omega arith, omega (arith, length-drop taken s))

  number_value-Fits : (left : ℕ) (s : Bytes) → Fits (suc left) (length s) (number_value strtod s)
  unfolding number_value
  number_value-Fits left s =
      let read = number_read-Fits left s (strtod (number_token s)) in
      elim (Bool-cases (ltb (length (number_token s)) 512)) [
        | inl y ↦ rw (number_value, y) read
        | inr n ↦ rw (number_value, n) tt
      ]

  string_value-Fits :
      (left n : ℕ) (o : Option (Bytes × Bytes))
      → Leaves n o
      → Fits {D = D} (suc left) n (string_value o)
  unfolding depth
  string_value-Fits left n none h = tt
  string_value-Fits left n (some (s, rest)) h = (omega arith, h)

  value_at-Fits :
      (left : ℕ) (value : Bytes → Option (Json D × Bytes)) (s : Bytes)
      → Reader left value
      → Fits (suc left) (length s) (value_at strtod value s)
  unfolding depth
  value_at-Fits left value [] h = tt
  value_at-Fits left value (c ∷ cs) h =
      let object_ =
        Fits-le (suc left) _ (suc (length cs)) _ (omega arith)
          (parse_object-Fits left value cs h) in
      let array_ =
        Fits-le (suc left) _ (suc (length cs)) _ (omega arith) (parse_array-Fits left value cs h) in
      let string_ =
        string_value-Fits left (suc (length cs)) _ (parse_string_raw-le _ (c ∷ cs) (omega arith)) in
      let number_ = number_value-Fits left (c ∷ cs) in
      let literal = λ (v : Json D) (d : depth v ≤ suc left) (k : ℕ).
        let fits : Fits (suc left) (suc (length cs)) (some (v, drop k (c ∷ cs))) =
          (d, omega (arith, length-drop k (c ∷ cs))) in
        fits in
      (elim (Bool-cases (c == b'{')) [
        | inl y ↦ rw y object_
        | inr n ↦ rw n (elim (Bool-cases (c == b'[')) [
          | inl y ↦ rw y array_
          | inr n ↦ rw n (elim (Bool-cases (c == b'"')) [
            | inl y ↦ rw y string_
            | inr n ↦ rw n (elim (Bool-cases (c == b't' && is_prefix (codes "true") (c ∷ cs))) [
              | inl y ↦ rw y (literal (boolean true) (omega arith) 4)
              | inr n ↦ rw n (elim (Bool-cases (c == b'f' && is_prefix (codes "false") (c ∷ cs))) [
                | inl y ↦ rw y (literal (boolean false) (omega arith) 5)
                | inr n ↦ rw n (elim (Bool-cases (c == b'n' && is_prefix (codes "null") (c ∷ cs))) [
                  | inl y ↦ rw y (literal null (omega arith) 4)
                  | inr n ↦ rw n (elim (Bool-cases (starts_number c)) [
                    | inl y ↦ rw y number_
                    | inr n ↦ rw n tt
                  ])
                ])
              ])
            ])
          ])
        ])
      ])

  pub parse_value-Fits : (left : ℕ) → Reader left (parse_value {D = D} strtod left)
  unfolding parse_value
  parse_value-Fits zero s = tt
  parse_value-Fits (suc left) s =
      Fits-le (suc left) (length (skip_ws s)) (length s) _ (skip_ws-le s)
        (value_at-Fits left (parse_value strtod left) (skip_ws s) (parse_value-Fits left))

whole-ok :
    {D : Type 0} (o : Option (Json D × Bytes)) (v : Json D)
    → whole o ≡ ok v
    → (s : Bytes) × (o ≡ some (v, s))
unfolding whole
whole-ok none v h = cc
whole-ok (some (w, s)) v h = (s, ground arith)

-- A value that parse returns is at most 128 levels deep, whatever the text.
pub depth-parse :
    {D : Type 0} (strtod : Bytes → Option (D × ℕ)) (text : Bytes) (v : Json D)
    → parse strtod text ≡ ok v
    → depth v ≤ 128
unfolding parse
depth-parse strtod text v h =
    let found = whole-ok (parse_value strtod max_depth text) v h in
    let fits = parse_value-Fits strtod max_depth text in
    (subst (Fits max_depth (length text)) found.1 fits).0
