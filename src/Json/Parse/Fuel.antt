-- ===== src/Json/Parse/Fuel.antt =====
-- core/src/vc_json.cpp: the fuel of the parser's loops is enough.
use vericonnect_agent.Json.{Json, set_key, add}
use vericonnect_agent.Json.Text.{string_loop, parse_string_raw}
use vericonnect_agent.Json.Text.Shorter.{Leaves, parse_string_raw-le, string_loop-enough}
use vericonnect_agent.Json.Parse.Depth.{Fits, skip_ws-le, parse_value-Fits}
use vericonnect_agent.Json.Parse.{
  skip_ws, next_is, list_end, member_value, member_key, object_loop, element_value, array_loop,
  parse_value,
}
use vericonnect_agent.Prelude.{
  ℕ, zero, suc, ◌+◌, ◌≤◌, ◌<◌, ◌≡◌, refl, ap, Option, none, some, [], ◌∷◌, arith, Bytes, ◌==◌,
  if◌then◌else◌, length, drop, length-drop,
}

module _ {D : Type 0} where
  -- Two loops agree on texts shorter than `n`.
  abbrev Agree :
      ℕ
      → (Json D → Bytes → Option (Json D × Bytes))
      → (Json D → Bytes → Option (Json D × Bytes))
      → Type 0
  Agree n loop loop' = (out : Json D) (s : Bytes) → length s < n → loop out s ≡ loop' out s

  list_end-same :
      (n close : ℕ) (out : Json D) (s : Bytes)
      (loop loop' : Json D → Bytes → Option (Json D × Bytes))
      → length s ≤ n
      → Agree n loop loop'
      → list_end close out s loop ≡ list_end close out s loop'
  list_end-same n close out [] loop loop' h same = refl
  list_end-same n close out (c ∷ s) loop loop' h same =
      ap (λ t. if c == b',' then t else if c == close then some (out, s) else none)
        (same out s (omega arith))

  element_value-same :
      (n : ℕ) (out : Json D) (o : Option (Json D × Bytes))
      (loop loop' : Json D → Bytes → Option (Json D × Bytes))
      → Leaves n o
      → Agree n loop loop'
      → element_value out o loop ≡ element_value out o loop'
  element_value-same n out none loop loop' h same = refl
  element_value-same n out (some (v, s)) loop loop' h same =
      list_end-same n b']' (add out v) (skip_ws s) loop loop' (omega (arith, skip_ws-le s, h)) same

  member_value-same :
      (n : ℕ) (out : Json D) (key : Bytes) (o : Option (Json D × Bytes))
      (loop loop' : Json D → Bytes → Option (Json D × Bytes))
      → Leaves n o
      → Agree n loop loop'
      → member_value out key o loop ≡ member_value out key o loop'
  member_value-same n out key none loop loop' h same = refl
  member_value-same n out key (some (v, s)) loop loop' h same =
      list_end-same n b'}' (set_key out key v) (skip_ws s) loop loop'
        (omega (arith, skip_ws-le s, h)) same

  Leaves-more : (m n : ℕ) (o : Option (Json D × Bytes)) → m ≤ n → Leaves m o → Leaves n o
  Leaves-more m n none h k = tt
  Leaves-more m n (some (v, s)) h k = omega arith

module _ {D : Type 0} (value : Bytes → Option (Json D × Bytes))
    (takes : (s : Bytes) → Leaves (length s) (value s)) where
  member_key-same :
      (n : ℕ) (out : Json D) (o : Option (Bytes × Bytes))
      (loop loop' : Json D → Bytes → Option (Json D × Bytes))
      → Leaves n o
      → Agree n loop loop'
      → member_key value out o loop ≡ member_key value out o loop'
  member_key-same n out none loop loop' h same = refl
  member_key-same n out (some (key, s)) loop loop' h same =
      let t : Bytes = drop 1 (skip_ws s) in
      ap (λ r. if next_is b':' (skip_ws s) then r else none)
        (member_value-same n out key (value t) loop loop'
          (Leaves-more (length t) n (value t)
            (omega (arith, length-drop 1 (skip_ws s), skip_ws-le s, h)) (takes t))
          same)

  array_loop-enough :
      (f g : ℕ) (out : Json D) (s : Bytes)
      → length s < f
      → length s < g
      → array_loop f value out s ≡ array_loop g value out s
  unfolding array_loop
  array_loop-enough zero g out s hf hg = absurd (omega arith)
  array_loop-enough (suc f) zero out s hf hg = absurd (omega arith)
  array_loop-enough (suc f) (suc g) out s hf hg =
      element_value-same (length s) out (value s) (array_loop f value) (array_loop g value)
        (takes s) (λ out' t h. array_loop-enough f g out' t (omega arith) (omega arith))

  object_loop-enough :
      (f g : ℕ) (out : Json D) (s : Bytes)
      → length s < f
      → length s < g
      → object_loop f value out s ≡ object_loop g value out s
  unfolding object_loop
  object_loop-enough zero g out s hf hg = absurd (omega arith)
  object_loop-enough (suc f) zero out s hf hg = absurd (omega arith)
  object_loop-enough (suc f) (suc g) out s hf hg =
      member_key-same (length s) out (parse_string_raw (skip_ws s)) (object_loop f value)
        (object_loop g value) (parse_string_raw-le (length s) (skip_ws s) (skip_ws-le s))
        (λ out' t h. object_loop-enough f g out' t (omega arith) (omega arith))

Fits-Leaves : {D : Type 0} (left n : ℕ) (o : Option (Json D × Bytes)) → Fits left n o → Leaves n o
Fits-Leaves left n none h = tt
Fits-Leaves left n (some (v, rest)) h = h.1

-- The loops over elements, over members and over the characters of a string give the same with any
-- more fuel than the parser gives them, which is the length of what is left of the text, and one
-- more for the first two.
pub loops_fuel :
    {D : Type 0} (strtod : Bytes → Option (D × ℕ)) (left more : ℕ) (out : Json D) (s text : Bytes)
    → (array_loop (suc (length s) + more) (parse_value strtod left) out s
        ≡ array_loop (suc (length s)) (parse_value strtod left) out s)
      × (object_loop (suc (length s) + more) (parse_value strtod left) out s
          ≡ object_loop (suc (length s)) (parse_value strtod left) out s)
      × (string_loop (length s + more) s text ≡ string_loop (length s) s text)
loops_fuel strtod left more out s text =
    let takes = λ (t : Bytes).
      Fits-Leaves left (length t) (parse_value strtod left t) (parse_value-Fits strtod left t) in
    (
      array_loop-enough (parse_value strtod left) takes (suc (length s) + more) (suc (length s)) out
          s (omega arith) (omega arith),
      object_loop-enough (parse_value strtod left) takes (suc (length s) + more) (suc (length s))
          out s (omega arith) (omega arith),
      string_loop-enough (length s + more) (length s) s text (omega arith) (omega arith),
    )
