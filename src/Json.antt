-- ===== src/Json.antt =====
-- core/include/vc/vc_json.h and core/src/vc_json.cpp: JSON values, access and the writer. A number
-- is of a type that stands for double. The text of strings is in Text.
pub mod Text
pub mod Parse
mod Access
mod Tests
use vericonnect_agent.Common.{int_to_string}
use vericonnect_agent.Common.{int_to_string}
use vericonnect_agent.Json.Text.{escape}
use vericonnect_agent.Prelude.Search.{iequals}
use vericonnect_agent.Prelude.{
  ℕ, suc, ◌+◌, inl, inr, Bool, true, false, ◌&&◌, ◌||◌, ℤ, pos, negsuc, Option, none, some, [], ◌∷◌,
  ◌++◌, arith, Bytes, codes, ◌==◌, if◌then◌else◌, tests,
}

-- What write_number does with a double by the standard library and the processor.
pub record Doubles (D : Type 0) : Type 0 where
  pub isnan : D → Bool
  pub isinf : D → Bool
  pub floor : D → D
  pub same : D → D → Bool
  pub at_most : D → D → Bool
  -- the double of an integer that a double can hold
  pub literal : ℤ → D
  -- static_cast<long long>
  pub to_long_long : D → ℤ
  -- "%.17g" of snprintf
  pub seventeen_digits : D → Bytes

-- write_number: "%lld" of snprintf is the decimal text of an integer.
unfoldable pub write_number : {D : Type 0} → Doubles D → D → Bytes
unfolding int_to_string
write_number d n =
    if d.isnan n || d.isinf n
    then codes "null"
    else if d.same (d.floor n) n
        && d.at_most (d.literal (negsuc 9007199254740991)) n
        && d.at_most n (d.literal (pos 9007199254740992))
    then int_to_string (d.to_long_long n)
    else d.seventeen_digits n

-- The numbers of JSON, of a type that stands for double.
pub record Numbers (D : Type 0) : Type 0 where
  pub strtod : Bytes → Option (D × ℕ)
  pub double : Doubles D
  pub of_nat : ℕ → D

-- Json by its type_: a value of a type never looks at the members of the others.
mutual
  pub data Json (D : Type 0) : Type 0 where
    null : Json D
    boolean : Bool → Json D
    number : D → Json D
    string : Bytes → Json D
    array : Elements D → Json D
    object : Members D → Json D

  -- arr_
  pub data Elements (D : Type 0) : Type 0 where
    no_more : Elements D
    element : Json D → Elements D → Elements D

  -- obj_
  pub data Members (D : Type 0) : Type 0 where
    no_member : Members D
    member : Bytes → Json D → Members D → Members D

-- `==` of strings
unfoldable pub same_text : Bytes → Bytes → Bool
same_text [] [] = true
same_text (a ∷ s) (b ∷ t) = a == b && same_text s t
same_text _ _ = false

module _ {D : Type 0} where
  unfoldable pub as_bool : Json D → Bool → Bool
  as_bool (boolean b) def_ = b
  as_bool _ def_ = def_

  unfoldable pub as_number : Json D → D → D
  as_number (number n) def_ = n
  as_number _ def_ = def_

  unfoldable pub as_string : Json D → Bytes → Bytes
  as_string (string s) def_ = s
  as_string _ def_ = def_

  -- The loops of find and find_ci, with their comparison of keys.
  unfoldable pub find_member : (Bytes → Bytes → Bool) → Bytes → Members D → Option (Json D)
  find_member same key no_member = none
  find_member same key (member k v ms) =
      let rest = find_member same key ms in if same k key then some v else rest

  unfoldable pub find_key : Json D → Bytes → Option (Json D)
  unfolding find_member same_text
  find_key (object ms) key = find_member same_text key ms
  find_key _ key = none

  unfoldable pub find_ci : Json D → Bytes → Option (Json D)
  unfolding find_member
  find_ci (object ms) key = find_member iequals key ms
  find_ci _ key = none

  unfoldable pub get_str : Json D → Bytes → Bytes → Bytes
  unfolding find_ci as_string
  get_str j key def_ = elim (find_ci j key) [ none ↦ def_ | some v ↦ as_string v def_ ]

  unfoldable pub get_num : Json D → Bytes → D → D
  unfolding find_ci as_number
  get_num j key def_ = elim (find_ci j key) [ none ↦ def_ | some v ↦ as_number v def_ ]

  unfoldable pub get_flag : Json D → Bytes → Bool → Bool
  unfolding find_ci as_bool
  get_flag j key def_ = elim (find_ci j key) [ none ↦ def_ | some v ↦ as_bool v def_ ]

  unfoldable pub count_elements : Elements D → ℕ
  count_elements no_more = 0
  count_elements (element v vs) = suc (count_elements vs)

  unfoldable pub count_members : Members D → ℕ
  count_members no_member = 0
  count_members (member k v ms) = suc (count_members ms)

  unfoldable pub size : Json D → ℕ
  unfolding count_elements count_members
  size (array vs) = count_elements vs
  size (object ms) = count_members ms
  size _ = 0

  -- emplace_back and push_back
  unfoldable pub add_member : Members D → Bytes → Json D → Members D
  add_member no_member key v = member key v no_member
  add_member (member k w ms) key v = member k w (add_member ms key v)

  unfoldable pub add_element : Elements D → Json D → Elements D
  add_element no_more v = element v no_more
  add_element (element w vs) v = element w (add_element vs v)

  -- Json::set and Json::add; on a value of another type nothing that can be seen changes.
  unfoldable pub set_key : Json D → Bytes → Json D → Json D
  unfolding add_member
  set_key (object ms) key v = object (add_member ms key v)
  set_key j key v = j

  unfoldable pub add : Json D → Json D → Json D
  unfolding add_element
  add (array vs) v = array (add_element vs v)
  add j v = j

module _ {D : Type 0} (write_number : D → Bytes) where
  -- dump_to; the flag says that it is not the first of its list.
  unfoldable mutual
    pub dump : Json D → Bytes
    dump null = codes "null"
    dump (boolean b) = if b then codes "true" else codes "false"
    dump (number n) = write_number n
    dump (string s) = escape s
    dump (array vs) = b'[' ∷ (dump_elements false vs ++ b']' ∷ [])
    dump (object ms) = b'{' ∷ (dump_members false ms ++ b'}' ∷ [])

    pub dump_elements : Bool → Elements D → Bytes
    dump_elements later no_more = []
    dump_elements later (element v vs) =
        (if later then b',' ∷ [] else []) ++ (dump v ++ dump_elements true vs)

    pub dump_members : Bool → Members D → Bytes
    dump_members later no_member = []
    dump_members later (member k v ms) =
        (if later then b',' ∷ [] else []) ++ (escape k ++ b':' ∷ (dump v ++ dump_members true ms))
