-- ===== src/Json/Parse/Printed.antt =====
-- core/src/vc_json.cpp: the values that dump writes as a text that can be read back, and how such a
-- text starts.
use vericonnect_agent.Prelude.Search.{span, span-append, Stops}
use vericonnect_agent.Json.{
  Json, Elements, Members, null, boolean, number, string, array, object, no_more, element,
  no_member, member, add_member, add_element, dump,
}
use vericonnect_agent.Json.Text.{escape}
use vericonnect_agent.Json.Parse.{
  skip_ws, is_ws, next_is, is_number_char, starts_number, number_token, number_value,
}
use vericonnect_agent.Prelude.{
  ℕ, suc, ◌≤◌, ◌<◌, ◌≡◌, refl, ap, inl, inr, true, false, ◌||◌, Option, some, ◌∷◌, ◌++◌, arith,
  Bytes, codes, leb, ◌==◌, if◌then◌else◌, lt→ltb, Bool-cases, length, drop-append_left, All,
}

-- How deep values stand in one another.
abbrev pub max : ℕ → ℕ → ℕ
max a b = if leb a b then b else a

pub max_le : (a b n : ℕ) → max a b ≤ n → (a ≤ n) × (b ≤ n)
max_le a b n h = ground arith

pub le_max : (a b n : ℕ) → a ≤ n → b ≤ n → max a b ≤ n
le_max a b n h k = ground arith

unfoldable mutual
  pub depth : {D : Type 0} → Json D → ℕ
  depth (array vs) = suc (depth_elements vs)
  depth (object ms) = suc (depth_members ms)
  depth _ = 1

  pub depth_elements : {D : Type 0} → Elements D → ℕ
  depth_elements no_more = 0
  depth_elements (element v vs) = max (depth v) (depth_elements vs)

  pub depth_members : {D : Type 0} → Members D → ℕ
  depth_members no_member = 0
  depth_members (member k v ms) = max (depth v) (depth_members ms)

unfoldable pub append_elements : {D : Type 0} → Elements D → Elements D → Elements D
append_elements no_more vs = vs
append_elements (element w out) vs = element w (append_elements out vs)

unfoldable pub append_members : {D : Type 0} → Members D → Members D → Members D
append_members no_member ms = ms
append_members (member k w out) ms = member k w (append_members out ms)

pub append-add_element :
    {D : Type 0} (out : Elements D) (v : Json D) (vs : Elements D)
    → append_elements (add_element out v) vs ≡ append_elements out (element v vs)
unfolding append_elements add_element
append-add_element no_more v vs = refl
append-add_element (element w out) v vs = ap (element w) (append-add_element out v vs)

pub append-add_member :
    {D : Type 0} (out : Members D) (k : Bytes) (v : Json D) (ms : Members D)
    → append_members (add_member out k v) ms ≡ append_members out (member k v ms)
unfolding append_members add_member
append-add_member no_member k v ms = refl
append-add_member (member k' w out) k v ms = ap (member k' w) (append-add_member out k v ms)

pub add_element-last :
    {D : Type 0} (out : Elements D) (v : Json D)
    → add_element out v ≡ append_elements out (element v no_more)
unfolding append_elements add_element
add_element-last no_more v = refl
add_element-last (element w out) v = ap (element w) (add_element-last out v)

pub add_member-last :
    {D : Type 0} (out : Members D) (k : Bytes) (v : Json D)
    → add_member out k v ≡ append_members out (member k v no_member)
unfolding append_members add_member
add_member-last no_member k v = refl
add_member-last (member j w out) k v = ap (member j w) (add_member-last out k v)

pub skip_ws-escape : (k t : Bytes) → skip_ws (escape k ++ t) ≡ escape k ++ t
unfolding skip_ws span escape
skip_ws-escape k t = refl

pub next_is-escape : (k t : Bytes) → next_is b'}' (escape k ++ t) ≡ false
unfolding escape
next_is-escape k t = refl

module _ {D : Type 0} (write_number : D → Bytes) (strtod : Bytes → Option (D × ℕ)) where
  -- The number is written as a number token that strtod reads back: finite, and within 511
  -- characters.
  pub record ReadsBack (n : D) : Type 0 where
    pub head : ℕ
    pub tail : Bytes
    pub text : write_number n ≡ head ∷ tail
    pub starts : starts_number head ≡ true
    pub chars : All (λ c. is_number_char c ≡ true) tail
    pub short : length (head ∷ tail) < 512
    pub read : strtod (head ∷ tail) ≡ some (n, length (head ∷ tail))

  -- The strings of a value are of bytes, and its numbers are read back.
  abbrev mutual
    pub IsPrintable : Json D → Type 0
    IsPrintable (number n) = ReadsBack n
    IsPrintable (string s) = All (λ c. c < 256) s
    IsPrintable (array vs) = IsPrintableElements vs
    IsPrintable (object ms) = IsPrintableMembers ms
    IsPrintable _ = Unit {0}

    pub IsPrintableElements : Elements D → Type 0
    IsPrintableElements no_more = Unit {0}
    IsPrintableElements (element v vs) = IsPrintable v × IsPrintableElements vs

    pub IsPrintableMembers : Members D → Type 0
    IsPrintableMembers no_member = Unit {0}
    IsPrintableMembers (member k v ms) =
        All (λ c. c < 256) k × IsPrintable v × IsPrintableMembers ms

-- What the text of a value starts with.
pub record Head (t : Bytes) : Type 0 where
  pub head : ℕ
  pub tail : Bytes
  pub text : t ≡ head ∷ tail
  pub no_space : is_ws head ≡ false
  pub no_close : (head == b']') ≡ false

pub skip_ws-append : (t rest : Bytes) → Head t → skip_ws (t ++ rest) ≡ t ++ rest
unfolding skip_ws span
skip_ws-append t rest h = rw h.text (rw (skip_ws, h.no_space) refl)

pub next_is-append : (t rest : Bytes) → Head t → next_is b']' (t ++ rest) ≡ false
next_is-append t rest h = rw h.text h.no_close

module _ {D : Type 0} (write_number : D → Bytes) (strtod : Bytes → Option (D × ℕ)) where
  pub dump-Head : (v : Json D) → IsPrintable write_number strtod v → Head (dump write_number v)
  unfolding dump escape
  dump-Head null h = record {
    head = b'n';
    tail = codes "ull";
    text = refl;
    no_space = refl;
    no_close = refl;
  }
  dump-Head (boolean true) h = record {
    head = b't';
    tail = codes "rue";
    text = refl;
    no_space = refl;
    no_close = refl;
  }
  dump-Head (boolean false) h = record {
    head = b'f';
    tail = codes "alse";
    text = refl;
    no_space = refl;
    no_close = refl;
  }
  dump-Head (number n) h = record {
    head = h.head;
    tail = h.tail;
    text = h.text;
    no_space = ground (arith, h.starts);
    no_close = ground (arith, h.starts);
  }
  dump-Head (string s) h = record {
    head = b'"';
    tail = _;
    text = refl;
    no_space = refl;
    no_close = refl;
  }
  dump-Head (array vs) h = record {
    head = b'[';
    tail = _;
    text = refl;
    no_space = refl;
    no_close = refl;
  }
  dump-Head (object ms) h = record {
    head = b'{';
    tail = _;
    text = refl;
    no_space = refl;
    no_close = refl;
  }

  pub take_token :
      (c : ℕ) (cs rest : Bytes)
      → starts_number c ≡ true
      → All (λ x. is_number_char x ≡ true) cs
      → Stops is_number_char rest
      → number_token (c ∷ cs ++ rest) ≡ c ∷ cs
  unfolding number_token span
  take_token c cs rest h hs stops =
      let e = span-append is_number_char cs rest hs stops in
      elim (Bool-cases (c == b'-' || c == b'+')) [
        | inl sign ↦ rw (sign, e) refl
        | inr digit ↦ let d : is_number_char c ≡ true = ground (arith, h) in rw (digit, d, e) refl
      ]

  pub read_number :
      (n : D) (rest : Bytes)
      → ReadsBack write_number strtod n
      → Stops is_number_char rest
      → number_value strtod (write_number n ++ rest) ≡ some (number n, rest)
  unfolding number_value
  read_number n rest h stops = rw h.text (
      rw
        (
          number_value,
          take_token h.head h.tail rest h.starts h.chars stops,
          lt→ltb _ _ h.short,
          h.read,
        )
        (ap (λ r. some (number n, r)) (drop-append_left (h.head ∷ h.tail) rest)))
