-- ===== src/Ini/Text.antt =====
-- core/src/vc_ini.cpp: what the loop of load makes of the lines that save writes.
use vericonnect_agent.Prelude.Ascii.{is_space}
use vericonnect_agent.Prelude.Search.{find_byte, span, span_parts}
use vericonnect_agent.Prelude.{
  ℕ, suc, ◌+◌, ◌-◌, ◌≤◌, ◌≡◌, refl, ap, ◌∙◌, inl, inr, Bool, false, [], ◌∷◌, ◌++◌, arith, Bytes,
  ◌==◌, Bool-cases, length, take, drop, length-append, take-append_left, drop-append_left, All,
  drop-add,
}
use vericonnect_agent.Ini.{
  Entry, Loader, trim, trim_left, trim_right, lines, load_line, load_lines, is_comment, is_header,
  header_line, value_line, set,
}

-- A byte that does not occur.
abbrev pub Without : ℕ → Bytes → Type 0
Without c s = All (λ x. (c == x) ≡ false) s

abbrev pub IsTrimmed : Bytes → Type 0
IsTrimmed s = (trim_left s ≡ s) × (trim_right s ≡ s)

-- Texts that stand for themselves as a section, a key and a value of a file.
abbrev pub IsSection : Bytes → Type 0
IsSection s = IsTrimmed s × Without b']' s × Without b'\n' s

abbrev pub IsKey : Bytes → Type 0
IsKey s =
    IsTrimmed s × Without b'=' s × Without b'\n' s × (is_comment s ≡ false) × (is_header s ≡ false)

abbrev pub IsValue : Bytes → Type 0
IsValue s = IsTrimmed s × Without b'\n' s

abbrev pub IsPlain : Entry → Type 0
IsPlain e = IsSection e.section × IsKey e.key × IsValue e.value

span-le : (test : ℕ → Bool) (s : Bytes) → length (span test s).1 ≤ length s
span-le test s =
    omega (arith, ap length (span_parts test s), length-append (span test s).0 (span test s).1)

pub trim_left_solid : (c : ℕ) (cs : Bytes) → is_space c ≡ false → trim_left (c ∷ cs) ≡ c ∷ cs
unfolding trim_left span
trim_left_solid c cs h = rw (h, trim_left) refl

-- The first byte of a trimmed text is not blank.
solid_head : (c : ℕ) (cs : Bytes) → trim_left (c ∷ cs) ≡ c ∷ cs → is_space c ≡ false
unfolding trim_left span
solid_head c cs h = elim (Bool-cases (is_space c)) [
  | inr solid ↦ solid
  | inl blank ↦ absurd (ground (arith, blank, ap length h, span-le is_space cs))
]

pub trim_right-append :
    (xs : Bytes) (c : ℕ) (cs : Bytes)
    → trim_right (c ∷ cs) ≡ c ∷ cs
    → trim_right (xs ++ c ∷ cs) ≡ xs ++ c ∷ cs
unfolding trim_right
trim_right-append [] c cs h = h
trim_right-append (x ∷ []) c cs h = rw h refl
trim_right-append (x ∷ y ∷ xs) c cs h = rw (trim_right-append (y ∷ xs) c cs h) refl

pub trim_right-cons :
    (c : ℕ) (cs : Bytes) → is_space c ≡ false → trim_right cs ≡ cs → trim_right (c ∷ cs) ≡ c ∷ cs
unfolding trim_right
trim_right-cons c cs solid h = rw h (ground (arith, solid))

trim_fixed : (s : Bytes) → IsTrimmed s → trim s ≡ s
unfolding trim
trim_fixed s h = ap trim_right h.0 ∙ h.1

lines-line : (l rest : Bytes) → Without b'\n' l → lines (l ++ b'\n' ∷ rest) ≡ l ∷ lines rest
unfolding lines
lines-line [] rest h = refl
lines-line (x ∷ l) rest h =
    let other : (x == b'\n') ≡ false = ground (arith, h.0) in rw (other, lines-line l rest h.1) refl

-- A line of a file is handled before the lines behind it.
pub load-line :
    (l rest : Bytes) (st : Loader)
    → Without b'\n' l
    → load_lines (lines (l ++ b'\n' ∷ rest)) st ≡ load_lines (lines rest) (load_line l st)
unfolding load_lines
load-line l rest st h = rw (lines-line l rest h) refl

pub load_blank : (st : Loader) → load_line [] st ≡ st
unfolding load_line trim trim_left trim_right span
load_blank st = refl

trim_right_nil : trim_right [] ≡ []
unfolding trim_right
trim_right_nil = refl

bracketed :
    (s : Bytes) (st : Loader)
    → IsSection s
    → header_line (b'[' ∷ (s ++ b']' ∷ [])) st ≡ record { section = s; ini = st.ini }
unfolding header_line
bracketed s st h =
    rw (find_byte b']' (b'[' ∷ s) [] (refl, h.1), header_line)
      (ap (λ x. record { section = x; ini = st.ini }) (ap trim inside ∙ trim_fixed s h.0))
  where
    inside : take (suc (length s) - 1) (s ++ b']' ∷ []) ≡ s
    inside = ap (λ n. take n (s ++ b']' ∷ [])) (omega arith) ∙ take-append_left s (b']' ∷ [])

-- The line of a section.
pub load_header :
    (s : Bytes) (st : Loader)
    → IsSection s
    → load_line (b'[' ∷ (s ++ b']' ∷ [])) st ≡ record { section = s; ini = st.ini }
unfolding load_line
load_header s st h = rw trimmed (bracketed s st h)
  where
    line : Bytes
    line = b'[' ∷ (s ++ b']' ∷ [])

    trimmed : trim line ≡ line
    trimmed = trim_fixed line (
      trim_left_solid b'[' (s ++ b']' ∷ []) refl,
      trim_right-append (b'[' ∷ s) b']' [] (trim_right-cons b']' [] refl trim_right_nil),
    )

-- The first byte of a key is neither blank nor one that a comment or a header starts with.
key_line :
    (k v : Bytes)
    → IsKey k
    → IsValue v
    → (trim (k ++ b'=' ∷ v) ≡ k ++ b'=' ∷ v)
      × (is_comment (k ++ b'=' ∷ v) ≡ false)
      × (is_header (k ++ b'=' ∷ v) ≡ false)
key_line [] v hk hv = absurd (cc)
key_line (c ∷ k) v hk hv = (
  trim_fixed ((c ∷ k) ++ b'=' ∷ v) (
    trim_left_solid c (k ++ b'=' ∷ v) (solid_head c k hk.0.0),
    trim_right-append (c ∷ k) b'=' v (trim_right-cons b'=' v refl hv.0.1),
  ),
  hk.3,
  hk.4,
)

key_behind : (k v : Bytes) → drop (length k + 1) (k ++ b'=' ∷ v) ≡ v
key_behind k v = drop-add (length k) 1 (k ++ b'=' ∷ v) ∙ ap (drop 1) (drop-append_left k (b'=' ∷ v))

key_then_value :
    (k v : Bytes) (st : Loader)
    → IsKey k
    → IsValue v
    → value_line (k ++ b'=' ∷ v) st
      ≡ record { section = st.section; ini = set st.section k v st.ini }
unfolding value_line
key_then_value [] v st hk hv = absurd (cc)
key_then_value (c ∷ k) v st hk hv =
    rw (find_byte b'=' (c ∷ k) v hk.1, value_line, take-append_left (c ∷ k) (b'=' ∷ v))
      (rw (trim_fixed (c ∷ k) hk.0, key_behind (c ∷ k) v, trim_fixed v hv.0) refl)

-- The line of a key and its value.
pub load_value :
    (k v : Bytes) (st : Loader)
    → IsKey k
    → IsValue v
    → load_line (k ++ b'=' ∷ v) st
      ≡ record { section = st.section; ini = set st.section k v st.ini }
unfolding load_line
load_value k v st hk hv =
    let line = key_line k v hk hv in rw (line.0, line.1, line.2) (key_then_value k v st hk hv)
