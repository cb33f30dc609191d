-- ===== src/Http/Headers.antt =====
-- header_value of core/src/vc_http.cpp: the value of the first field with that name.
use vericonnect_agent.Prelude.Search.{
  find, is_prefix, istarts_with, iequals, span, span-append, Stops,
}
use vericonnect_agent.Prelude.{
  or_else_none, ◌or_else◌, ℕ, zero, suc, ◌+◌, ◌≤◌, ◌≡◌, refl, sym, ap, ap₂, ◌∙◌, inl, inr, true,
  false, ◌&&◌, Option, none, some, List, [], ◌∷◌, ◌++◌, arith, Bytes, ltb, ◌==◌, if◌then◌else◌,
  Bool-cases, length, get_or, drop, length-append, take-append_left, drop-append_left, All,
  All-append, drop-add,
}
use vericonnect_agent.Http.{crlf, is_blank, line_value, header_round, header_loop, header_value}

-- A header field: its name, the blanks before its value, and its value.
pub record Field : Type 0 where
  pub name : Bytes
  pub blanks : Bytes
  pub value : Bytes

-- No colon and no carriage return in a name, no carriage return in a value, which does not start
-- with a blank.
abbrev pub IsField : Field → Type 0
IsField f =
    All (λ c. ((c == b':') ≡ false) × ((b'\r' == c) ≡ false)) f.name
    × All (λ c. is_blank c ≡ true) f.blanks
    × All (λ c. (b'\r' == c) ≡ false) f.value
    × Stops is_blank f.value

abbrev pub field_line : Field → Bytes
field_line f = f.name ++ b':' ∷ (f.blanks ++ f.value)

-- The value of the first field whose name is `name`, but for case.
unfoldable pub lookup : Bytes → List Field → Option Bytes
lookup name [] = none
lookup name (f ∷ fs) =
    let rest = lookup name fs in if iequals f.name name then some f.value else rest

-- The end of the first line is found.
pub find-crlf :
    (l rest : Bytes)
    → All (λ c. (b'\r' == c) ≡ false) l
    → find crlf (l ++ b'\r' ∷ b'\n' ∷ rest) ≡ some (length l)
unfolding find is_prefix
find-crlf [] rest h = refl
find-crlf (c ∷ l) rest h = rw (h.0, find-crlf l rest h.1) refl

abbrev pub NoColon : Bytes → Type 0
NoColon name = All (λ c. (c == b':') ≡ false) name

-- The test of a line that starts with a name and a colon.
starts :
    (n name rest : Bytes)
    → All (λ c. ((c == b':') ≡ false) × ((b'\r' == c) ≡ false)) n
    → NoColon name
    → (istarts_with (n ++ b':' ∷ rest) name
        && ltb (length name) (length (n ++ b':' ∷ rest))
        && get_or (n ++ b':' ∷ rest) (length name) 0 == b':')
      ≡ iequals n name
unfolding istarts_with iequals
starts [] [] rest h k = ground arith
starts [] (d ∷ name) rest h k = ground (arith, k.0)
starts (c ∷ n) [] rest h k = ground (arith, h.0.0)
starts (c ∷ n) (d ∷ name) rest h k = ground (arith, starts n name rest h.1 k.1)

-- Texts that compare equal have the same length.
iequals-length : (s t : Bytes) → iequals s t ≡ true → length s ≡ length t
unfolding iequals
iequals-length [] [] h = refl
iequals-length [] (b ∷ t) h = absurd (cc)
iequals-length (a ∷ s) [] h = absurd (cc)
iequals-length (a ∷ s) (b ∷ t) h = ground (arith, iequals-length s t)

value_behind :
    (f : Field) → IsField f → (span is_blank (drop (length f.name + 1) (field_line f))).1 ≡ f.value
value_behind f h =
    ap (λ t. (span is_blank t).1) behind
    ∙ ap (λ p. p.1) (span-append is_blank f.blanks f.value h.1 h.3)
  where
    behind : drop (length f.name + 1) (field_line f) ≡ f.blanks ++ f.value
    behind =
        drop-add (length f.name) 1 (field_line f)
        ∙ ap (drop 1) (drop-append_left f.name (b':' ∷ (f.blanks ++ f.value)))

line_value-field :
    (f : Field) (name : Bytes)
    → IsField f
    → NoColon name
    → line_value (field_line f) name ≡ (if iequals f.name name then some f.value else none)
unfolding line_value
line_value-field f name h k = elim (Bool-cases (iequals f.name name)) [
  | inr other ↦ rw (line_value, starts f.name name (f.blanks ++ f.value) h.0 k, other) refl
  | inl same ↦
      rw
        (
          line_value,
          starts f.name name (f.blanks ++ f.value) h.0 k,
          same,
          ← iequals-length f.name name same,
        )
        (ap some (value_behind f h))
]

-- A line and the fields behind it, with line breaks between them.
unfoldable pub print_block : Bytes → List Field → Bytes
print_block l [] = l
print_block l (f ∷ fs) = l ++ b'\r' ∷ b'\n' ∷ print_block (field_line f) fs

no_crlf : (l : Bytes) → All (λ c. (b'\r' == c) ≡ false) l → find crlf l ≡ none
unfolding find is_prefix
no_crlf [] h = refl
no_crlf (c ∷ l) h = rw (h.0, no_crlf l h.1) refl

line_value-nil : (name : Bytes) → line_value [] name ≡ none
unfolding line_value istarts_with
line_value-nil [] = refl
line_value-nil (c ∷ name) = refl

-- One round of the loop, at a line with more behind it.
header_loop-line :
    (fuel : ℕ) (l rest name : Bytes)
    → All (λ c. (b'\r' == c) ≡ false) l
    → header_loop (suc fuel) (l ++ b'\r' ∷ b'\n' ∷ rest) name
      ≡ line_value l name or_else header_loop fuel rest name
unfolding header_loop
header_loop-line fuel [] rest name h =
    ap (λ o. header_round o (b'\r' ∷ b'\n' ∷ rest) name (λ r. header_loop fuel r name))
      (find-crlf [] rest h)
header_loop-line fuel (c ∷ l) rest name h =
    let text = (c ∷ l) ++ b'\r' ∷ b'\n' ∷ rest in
    ap (λ o. header_round o text name (λ r. header_loop fuel r name)) (find-crlf (c ∷ l) rest h)
    ∙ ap₂ (λ t r. line_value t name or_else header_loop fuel r name)
        (take-append_left (c ∷ l) (b'\r' ∷ b'\n' ∷ rest))
        (drop-add (length (c ∷ l)) 2 text
          ∙ ap (drop 2) (drop-append_left (c ∷ l) (b'\r' ∷ b'\n' ∷ rest)))

header_loop-last :
    (fuel : ℕ) (l name : Bytes)
    → All (λ c. (b'\r' == c) ≡ false) l
    → header_loop (suc fuel) l name ≡ line_value l name
unfolding header_loop
header_loop-last fuel [] name h = sym (line_value-nil name)
header_loop-last fuel (c ∷ l) name h =
    ap (λ o. header_round o (c ∷ l) name (λ r. header_loop fuel r name)) (no_crlf (c ∷ l) h)

pub field_line-NoCr : (f : Field) → IsField f → All (λ c. (b'\r' == c) ≡ false) (field_line f)
field_line-NoCr f h =
    All-append (λ c. (b'\r' == c) ≡ false) f.name (b':' ∷ (f.blanks ++ f.value)) (names f.name h.0)
      (refl, All-append (λ c. (b'\r' == c) ≡ false) f.blanks f.value (blanks f.blanks h.1) h.2)
  where
    names :
        (s : Bytes)
        → All (λ c. ((c == b':') ≡ false) × ((b'\r' == c) ≡ false)) s
        → All (λ c. (b'\r' == c) ≡ false) s
    names [] k = tt
    names (c ∷ s) k = (k.0.1, names s k.1)

    blanks : (s : Bytes) → All (λ c. is_blank c ≡ true) s → All (λ c. (b'\r' == c) ≡ false) s
    blanks [] k = tt
    blanks (c ∷ s) k = (ground (arith, k.0), blanks s k.1)

longer : (l rest : Bytes) → length (l ++ b'\r' ∷ b'\n' ∷ rest) ≡ length l + 2 + length rest
longer l rest = omega (arith, length-append l (b'\r' ∷ b'\n' ∷ rest))

first_field :
    (f : Field) (fs : List Field) (name : Bytes)
    → IsField f
    → NoColon name
    → line_value (field_line f) name or_else lookup name fs ≡ lookup name (f ∷ fs)
unfolding lookup
first_field f fs name h k = elim (Bool-cases (iequals f.name name)) [
  | inl same ↦ rw (line_value-field f name h k, same) refl
  | inr other ↦ rw (line_value-field f name h k, other) refl
]

header_loop-block :
    (fuel : ℕ) (l : Bytes) (fs : List Field) (name : Bytes)
    → All (λ c. (b'\r' == c) ≡ false) l
    → All IsField fs
    → NoColon name
    → length (print_block l fs) ≤ fuel
    → header_loop fuel (print_block l fs) name ≡ line_value l name or_else lookup name fs
unfolding print_block lookup header_loop
header_loop-block zero [] [] name h hf k enough =
    ap (λ o. o or_else none) (sym (line_value-nil name))
header_loop-block zero (c ∷ l) [] name h hf k enough = absurd (omega arith)
header_loop-block (suc fuel) l [] name h hf k enough =
    header_loop-last fuel l name h ∙ sym (or_else_none (line_value l name))
header_loop-block zero l (f ∷ fs) name h hf k enough =
    absurd (omega (arith, longer l (print_block (field_line f) fs), enough))
header_loop-block (suc fuel) l (f ∷ fs) name h hf k enough =
    let rest = print_block (field_line f) fs in
    header_loop-line fuel l rest name h
    ∙ ap (◌or_else◌ (line_value l name)) (
        header_loop-block fuel (field_line f) fs name (field_line-NoCr f hf.0) hf.1 k
          (omega (arith, longer l rest, enough))
        ∙ first_field f fs name hf.0 k)

-- In the header block that exchange cuts out, a first line and the fields behind it, header_value
-- gives what the first line is taken for, if anything, and else the value of the first field whose
-- name is the wanted one but for case, without the blanks before it.
pub header_value_lem :
    (l : Bytes) (fs : List Field) (name : Bytes)
    → All (λ c. (b'\r' == c) ≡ false) l
    → All IsField fs
    → NoColon name
    → header_value (print_block l fs) name ≡ line_value l name or_else lookup name fs
unfolding header_value
header_value_lem l fs name h hf k =
    header_loop-block (length (print_block l fs)) l fs name h hf k (omega arith)
