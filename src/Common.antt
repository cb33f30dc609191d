-- ===== src/Common.antt =====
-- core/include/vc/vc_common.h and core/src/vc_common.cpp: the error vocabulary, Result and
-- Status, and parse_uint. std::from_chars and std::to_string are the standard library's, written
-- out for unsigned 64-bit values.
pub mod Decimal
pub mod ParseUint
mod Tests
use vericonnect_agent.Prelude.Ascii.{within, is_digit}
use vericonnect_agent.Prelude.{
  ℤ, pos, negsuc, ℕ, zero, suc, ◌+◌, ◌-◌, ◌*◌, ◌/◌, ◌%◌, ◌^◌, Bool, true, false, not, ◌||◌, Option,
  none, some, [], ◌∷◌, ◌++◌, ◌≡◌, refl, ◌⊎◌, inl, inr, Bytes, codes, ◌==◌, ltb, if◌then◌else◌,
  is_nil,
}

-- enum class ErrorCode
pub data ErrorCode : Type 0 where
  fail no_mem invalid_arg not_found io timeout closed protocol tls exists unsupported : ErrorCode

-- class Error: the category and the platform's own code, 0 if there is none.
pub record Error : Type 0 where
  pub code : ErrorCode
  pub os_code : ℕ

-- Error(ErrorCode)
abbrev pub error : ErrorCode → Error
error c = record { code = c; os_code = 0 }

-- std::expected<T, Error>
pub data Result {ℓ} (A : Type ℓ) : Type ℓ where
  ok : A → Result A
  err : Error → Result A

-- std::expected<void, Error>
abbrev pub Status : Type 0
Status = Result (Unit {0})

abbrev pub is_ok {ℓ} : {A : Type ℓ} → Result A → Bool
is_ok (ok a) = true
is_ok (err e) = false

infixl 5 ◌>>=◌
abbrev pub ◌>>=◌ {ℓ κ} : {X : Type ℓ} {Y : Type κ} → Result X → (X → Result Y) → Result Y
err why >>= k = err why
ok x >>= k = k x

abbrev pub error_str_of : ErrorCode → Bytes
error_str_of fail = codes "failure"
error_str_of no_mem = codes "out of memory"
error_str_of invalid_arg = codes "invalid argument"
error_str_of not_found = codes "not found"
error_str_of io = codes "I/O error"
error_str_of timeout = codes "timeout"
error_str_of closed = codes "closed"
error_str_of protocol = codes "protocol error"
error_str_of tls = codes "TLS error"
error_str_of exists = codes "already exists"
error_str_of unsupported = codes "unsupported"

unfoldable pub error_str : Error → Bytes
error_str e = error_str_of e.code

-- `error_text` is os::error_text, the platform layer's.
unfoldable pub error_detail : (ℕ → Bytes) → Error → Bytes
unfolding error_str
error_detail error_text e =
    if e.os_code == 0
    then error_str e
    else if is_nil (error_text e.os_code)
    then error_str e
    else error_str e ++ codes " (" ++ error_text e.os_code ++ codes ")"

-- The value of a digit character in `base`, as std::from_chars reads it.
unfoldable pub digit_value : ℕ → ℕ → Option ℕ
digit_value base c =
    let v =
      if is_digit c
      then c - b'0'
      else if within b'a' b'z' c
      then c - b'a' + 10
      else if within b'A' b'Z' c
      then c - b'A' + 10
      else base in
    if ltb v base then some v else none

-- The longest run of digits in front, taken into `acc`; with what is left of the text.
unfoldable pub scan_digits : ℕ → ℕ → Bytes → ℕ × Bytes
scan_digits base acc [] = (acc, [])
scan_digits base acc (c ∷ cs) = elim (digit_value base c) [
  | none ↦ (acc, c ∷ cs)
  | some v ↦ scan_digits base (acc * base + v) cs
]

abbrev pub starts_with_digit : ℕ → Bytes → Bool
starts_with_digit base [] = false
starts_with_digit base (c ∷ cs) = elim (digit_value base c) [ none ↦ false | some v ↦ true ]

-- std::from_chars into a std::uint64_t: the value and the rest of the text; `none` stands for
-- both of its errors, no digit in front and a value out of range.
unfoldable pub from_chars : Bytes → ℕ → Option (ℕ × Bytes)
from_chars text base =
    if starts_with_digit base text
    then if ltb (scan_digits base 0 text).0 (2 ^ 64) then some (scan_digits base 0 text) else none
    else none

abbrev pub has_sign : Bytes → Bool
has_sign [] = false
has_sign (c ∷ cs) = c == b'-' || c == b'+'

unfoldable pub parse_uint : Bytes → ℕ → ℕ → Option ℕ
unfolding from_chars
parse_uint text max base =
    if is_nil text then none else if has_sign text then none else elim (from_chars text base) [
      | none ↦ none
      | some (v, rest) ↦ if not (is_nil rest) then none else if ltb max v then none else some v
    ]

-- std::to_string of an unsigned value, with fuel for its digits.
unfoldable pub print_digits : ℕ → ℕ → Bytes
print_digits zero n = []
print_digits (suc f) n =
    let rest = print_digits f (n / 10) in
    if ltb n 10 then (n + b'0') ∷ [] else rest ++ (n % 10 + b'0') ∷ []

unfoldable pub to_string : ℕ → Bytes
unfolding print_digits
to_string n = print_digits (suc n) n

pub Status-cases : (r : Status) → (r ≡ ok tt) ⊎ ((e : Error) × (r ≡ err e))
Status-cases (ok tt) = inl refl
Status-cases (err e) = inr (e, refl)

pub >>=-eq-ok {ℓ κ} :
    {X : Type ℓ} {Y : Type κ} (r : Result X) (k : X → Result Y) {y : Y}
    → (r >>= k) ≡ ok y
    → (x : X) × (r ≡ ok x) × (k x ≡ ok y)
>>=-eq-ok (err why) k eq = cc
>>=-eq-ok (ok x) k eq = (x, refl, eq)

pub ok-injective {ℓ} : {A : Type ℓ} {a b : A} → ◌≡◌ {A = Result A} (ok a) (ok b) → a ≡ b
ok-injective h = cc

-- std::to_string of an integer, and "%lld" of snprintf.
unfoldable pub int_to_string : ℤ → Bytes
unfolding to_string
int_to_string (pos n) = to_string n
int_to_string (negsuc n) = b'-' ∷ to_string (suc n)
